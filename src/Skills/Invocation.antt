-- ===== src/Skills/Invocation.antt =====
-- How a skill command is found again in what a user types, src/skills/manager.cpp.
pub mod Laws
use open_crank.Prelude.{
  ◌==◌, if◌then◌else◌, Bytes, codes, str_eq, take, drop, is_empty, ℕ, suc, Bool, true, ◌&&◌, ◌||◌,
  Option, none, some, List, [], ◌∷◌,
}
use open_crank.Text.Trim.{to_lower, find_first_not_blank, find_last_not_blank}
use open_crank.Text.Find.{find_where}
use open_crank.Skills.{SkillCommandDispatch, SkillCommandSpec, SkillEntry}

-- A byte of " \t".
unfoldable pub is_gap : ℕ → Bool
is_gap c = c == b' ' || c == b'\t'

unfoldable pub skip_gap : Bytes → Bytes
skip_gap [] = []
skip_gap (c ∷ s) = let rest = skip_gap s in if is_gap c then rest else c ∷ s

-- The end of the text, or a space or tab.
unfoldable pub ends_word : Bytes → Bool
ends_word [] = true
ends_word (c ∷ s) = is_gap c

-- Without "skill" in front, as in "/skill coding-agent args".
unfoldable pub without_skill_prefix : Bytes → Bytes
without_skill_prefix input =
    if str_eq (to_lower (take 5 input)) (codes "skill") && ends_word (drop 5 input)
    then skip_gap (drop 5 input)
    else input

-- Of arguments that are newlines only, nothing is cut off at the end.
unfoldable pub trim_args : Bytes → Bytes
trim_args args = elim (find_last_not_blank (skip_gap args)) [
  | none ↦ skip_gap args
  | some end ↦ take (suc end) (skip_gap args)
]

-- The name of the command and its arguments.
unfoldable pub split_input : Bytes → Bytes × Bytes
split_input input = elim (find_where is_gap input) [
  | none ↦ (input, [])
  | some pos ↦ (take pos input, trim_args (drop (suc pos) input))
]

-- The loops over the commands: the first whose name, or whose skill's name, is the given one.
unfoldable pub find_by :
    (SkillCommandSpec → Bytes) → Bytes → List SkillCommandSpec → Option SkillCommandSpec
find_by key cmd [] = none
find_by key cmd (spec ∷ specs) =
    let later = find_by key cmd specs in
    if str_eq (to_lower (key spec)) cmd then some spec else later

unfoldable pub find_command : Bytes → List SkillCommandSpec → Option SkillCommandSpec
find_command cmd commands = elim (find_by (λ s. s.name) cmd commands) [
  | some spec ↦ some spec
  | none ↦ find_by (λ s. s.skill_name) cmd commands
]

-- On the input without its '/' and "skill".
unfoldable pub resolve_command : Bytes → List SkillCommandSpec → Option (SkillCommandSpec × Bytes)
resolve_command input commands =
    if is_empty input then none else elim (find_command (to_lower (split_input input).0) commands) [
      | none ↦ none
      | some spec ↦ some (spec, (split_input input).1)
    ]

unfoldable pub resolve_trimmed : Bytes → List SkillCommandSpec → Option (SkillCommandSpec × Bytes)
resolve_trimmed [] commands = none
resolve_trimmed (c ∷ input) commands =
    if c == b'/' then resolve_command (without_skill_prefix input) commands else none

-- `none` is the pair of NULL and "".
unfoldable pub resolve_skill_command_invocation :
    Bytes → List SkillCommandSpec → Option (SkillCommandSpec × Bytes)
resolve_skill_command_invocation user_input commands =
    if is_empty commands then none else elim (find_first_not_blank user_input) [
      | none ↦ none
      | some start ↦ resolve_trimmed (drop start user_input) commands
    ]

unfoldable pub find_skill_by_name : Bytes → List SkillEntry → Option SkillEntry
find_skill_by_name name [] = none
find_skill_by_name name (entry ∷ entries) =
    let later = find_skill_by_name name entries in
    if str_eq (to_lower entry.name) (to_lower name) then some entry else later
