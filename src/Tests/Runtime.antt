-- ===== src/Tests/Runtime.antt =====
-- The theorems on the chunker, the sandbox, the monitor, the splitting of messages and the skills.
use open_crank.Prelude.{
  Bytes, codes, str_eq, length, All, ℕ, ◌≤◌, ◌<◌, ◌≡◌, refl, true, false, none, some, List, [], ◌∷◌,
  map, ◌++◌, arith,
}
use open_crank.Prelude.Maps.{nat_key, str_key, lookup, contains, insert}
use open_crank.Prelude.Maps.Order.{Ascending}
use open_crank.Chunker.{ChunkedContent, no_content, store, chunk_id, chunk_text, size_or_default}
use open_crank.Chunker.Search.{find_matches}
use open_crank.Chunker.Fresh
use open_crank.Chunker.Fresh.{store_fresh}
use open_crank.Chunker.Laws.{chunks_upto, store_chunks}
use open_crank.Chunker.Search.Laws.{IsMatch, find_matches-IsMatch}
use open_crank.Delivery.{split_message_chunks}
use open_crank.Delivery.Laws.{solid, join, split_message_chunks_lem}
use open_crank.Sandbox.{
  FileSystem, Sandbox, check_path, is_path_allowed, first_prefix, compare_prefix, ends_at,
}
use open_crank.Sandbox.Laws.{IsUnderAny, StandsFor, is_path_allowed-IsUnderAny}
use open_crank.Monitor.{Monitor, new_monitor, start_session}
use open_crank.Monitor.Laws.{can_hang, reports_of, IsQuiet, Step, beats, scans, run, reports_of-run}
use open_crank.Skills.{
  SkillCommandSpec, SkillEntry, no_dispatch, build_workspace_skill_command_specs,
}
use open_crank.Skills.Invocation.{is_gap, trim_args, resolve_skill_command_invocation}
use open_crank.Skills.Invocation.Laws.{resolve_skill_command_invocation-first}
use open_crank.Skills.Laws.{AreApart, build_workspace_skill_command_specs-AreApart}
use open_crank.Text.Trim.{lower, starts_with, to_lower}
use open_crank.Text.Find.{digits, to_string}

abbrev page : Bytes
page = codes "alpha beta gamma"

store_chunks_example :
    (cc : ChunkedContent) × (lookup
        (store no_content page (codes "web") 5).1
        (store no_content page (codes "web") 5).0.storage
      ≡ some cc)
    × (chunks_upto cc cc.total_chunks ≡ page)
    × ((i : ℕ)
        → i < cc.total_chunks
        → (0 < length (chunk_text cc i)) × (length (chunk_text cc i) ≤ size_or_default 5))
store_chunks_example = store_chunks no_content page (codes "web") 5

abbrev history : List Fresh.Call
history = Fresh.stores page (codes "web") 5 ∷ []

page_stored : contains (codes "chunk_1") (Fresh.run no_content history).storage ≡ true
unfolding Fresh.run Fresh.step store chunk_id to_string digits insert contains str_eq
page_stored = refl

store_fresh_example :
    lookup (codes "chunk_1") (store (Fresh.run no_content history) (codes "more") [] 0).0.storage
    ≡ lookup (codes "chunk_1") (Fresh.run no_content history).storage
store_fresh_example = store_fresh history (codes "more") [] 0 (codes "chunk_1") page_stored

find_matches-IsMatch_example :
    (cc : ChunkedContent) × (lookup
        (store no_content page (codes "web") 5).1
        (store no_content page (codes "web") 5).0.storage
      ≡ some cc)
    × (cc.full_content ≡ page)
    × All (IsMatch cc (codes "Beta")) (
        find_matches
          (record { error_of = λ q. none; matches_of = λ q t. [] })
          cc.full_content
          (codes "Beta")
          cc.chunk_size
          false)
find_matches-IsMatch_example =
    find_matches-IsMatch (record { error_of = λ q. none; matches_of = λ q t. [] }) no_content page
      (codes "web") (codes "Beta") 5 (ground (arith))

split_message_chunks_lem_example :
    (solid (join (split_message_chunks page 6)) ≡ solid page)
    × All (λ c. length c ≤ 6) (split_message_chunks page 6)
split_message_chunks_lem_example = split_message_chunks_lem page 6 (ground (arith))

abbrev files : FileSystem
files = record { realpath = λ p. some p; getcwd = none }

abbrev box : Sandbox
box = record {
  active = true;
  base_dir = codes "/h/.opencrank";
  db_dir = codes "/h/.opencrank/db";
  jail_dir = codes "/h/.opencrank/jail";
  extra_allowed_paths = codes "/tmp" ∷ [];
}

tmp_allowed : is_path_allowed files box (codes "/tmp/a") ≡ true
unfolding is_path_allowed first_prefix compare_prefix ends_at check_path starts_with
tmp_allowed = refl

is_path_allowed-IsUnderAny_example :
    (checked : Bytes) × StandsFor files (codes "/tmp/a") checked
    × IsUnderAny (codes "/h/.opencrank" ∷ codes "/tmp" ∷ []) checked
is_path_allowed-IsUnderAny_example =
    is_path_allowed-IsUnderAny files box (codes "/tmp/a") refl tmp_allowed

abbrev monitor : Monitor
monitor =
    start_session
      (new_monitor (record {
        hang_timeout_seconds = 60;
        typing_interval_seconds = 5;
        check_interval_ms = 5000;
      }))
      (codes "a") (codes "telegram") (codes "42") 0

monitor-Ascending : Ascending monitor.active_sessions
unfolding start_session insert
monitor-Ascending = (_, _)

abbrev checks : List Step
checks = scans (λ id. 61000000000) ∷ beats (codes "b") 62000000000 ∷ scans (λ id. 90000000000) ∷ []

checks-IsQuiet : All (IsQuiet (codes "a")) checks
unfolding IsQuiet str_eq
checks-IsQuiet = (_, (refl, (_, _)))

reports_of-run_example :
    reports_of (codes "a") (run monitor checks).1
    ≤ can_hang (lookup (codes "a") monitor.active_sessions)
reports_of-run_example = reports_of-run (codes "a") monitor checks monitor-Ascending checks-IsQuiet

abbrev skill : Bytes → SkillEntry
skill name = record { name = name; description = []; user_invocable = true; frontmatter = [] }

-- Two skills that clash with each other, one of them with a reserved name.
abbrev skills : List SkillEntry
skills = skill (codes "Git-Log") ∷ skill (codes "git log") ∷ skill (codes "help") ∷ []

build_workspace_skill_command_specs-AreApart_example :
    AreApart
      (map to_lower (codes "Help" ∷ []))
      (build_workspace_skill_command_specs skills (codes "Help" ∷ []))
build_workspace_skill_command_specs-AreApart_example =
    build_workspace_skill_command_specs-AreApart skills (codes "Help" ∷ [])

abbrev command : Bytes → SkillCommandSpec
command name = record { name = name; skill_name = name; description = []; dispatch = no_dispatch }

deploy_no_gap : All (λ c. is_gap c ≡ false) (codes "deploy")
unfolding is_gap
deploy_no_gap = (refl, (refl, (refl, (refl, (refl, (refl, _))))))

git_log_other :
    All
      (λ s. str_eq (to_lower s.name) (to_lower (command (codes "deploy")).name) ≡ false)
      (command (codes "git_log") ∷ [])
unfolding str_eq to_lower lower
git_log_other = (refl, _)

resolve_skill_command_invocation-first_example :
    resolve_skill_command_invocation
      (codes "/skill " ++ codes "deploy" ++ b' ' ∷ codes " now \n")
      ((command (codes "git_log") ∷ []) ++ command (codes "deploy") ∷ [])
    ≡ some (command (codes "deploy"), trim_args (codes " now \n"))
resolve_skill_command_invocation-first_example =
    resolve_skill_command_invocation-first (command (codes "git_log") ∷ [])
      (command (codes "deploy")) [] (codes " now \n") refl deploy_no_gap git_log_other
