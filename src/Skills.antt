-- ===== src/Skills.antt =====
-- The names of skill commands, src/skills/manager.cpp: how they are made and kept apart.
pub mod Invocation
pub mod Laws
use open_crank.Prelude.{
  ltb, leb, ◌==◌, if◌then◌else◌, Bytes, codes, str_eq, length, take, is_empty, any, keep, ℕ, zero,
  suc, ◌+◌, ◌-◌, Bool, true, false, not, ◌&&◌, ◌||◌, Option, none, some, List, [], ◌∷◌, ◌++◌, map,
}
use open_crank.Prelude.Maps.{Map, Key, nat_key, str_key, lookup, contains, insert, erase}
use open_crank.Text.Trim.{
  is_blank, find_first_not_blank, find_last_not_blank, lower, to_lower, starts_with, trim,
}
use open_crank.Text.Find.{find_where, to_string}

-- `isalnum`, in the "C" locale.
unfoldable pub is_alnum : ℕ → Bool
is_alnum c = (leb b'0' c && leb c b'9') || (leb b'A' c && leb c b'Z') || (leb b'a' c && leb c b'z')

unfoldable pub normalize_byte : ℕ → ℕ
normalize_byte c = if is_alnum c then lower c else b'_'

-- The loop that collapses underscores; the Boolean is `last_was_underscore`.
unfoldable pub collapse : Bool → Bytes → Bytes
collapse last [] = []
collapse last (c ∷ s) =
    let after_other = collapse false s in
    let after_underscore = collapse true s in
    if c == b'_' then (if last then after_underscore else c ∷ after_underscore) else c ∷ after_other

-- Without the underscores in front.
unfoldable pub skip_underscores : Bytes → Bytes
skip_underscores [] = []
skip_underscores (c ∷ s) = let rest = skip_underscores s in if c == b'_' then rest else c ∷ s

-- Without those at the end.
unfoldable pub cut_underscores : Bytes → Bytes
cut_underscores [] = []
cut_underscores (c ∷ s) =
    let rest = cut_underscores s in if is_empty rest && c == b'_' then [] else c ∷ rest

-- The name, cut to 32 bytes.
unfoldable pub sanitize_skill_command_name : Bytes → Bytes
sanitize_skill_command_name raw =
    let trimmed = cut_underscores (skip_underscores (collapse false (map normalize_byte raw))) in
    if is_empty trimmed
    then codes "skill"
    else if ltb 32 (length trimmed)
    then take 32 trimmed
    else trimmed

-- `used.count(lower(name)) != 0`, for the set of names as a list.
abbrev pub is_used : List Bytes → Bytes → Bool
is_used used name = any (str_eq (to_lower name)) used

-- The name with a number behind it.
unfoldable pub with_suffix : Bytes → ℕ → Bytes
with_suffix base index =
    let suffix = b'_' ∷ to_string index in
    let max_base_len = 32 - length suffix in
    take (if ltb max_base_len 1 then 1 else max_base_len) base ++ suffix

-- The loop over the numbers, from the given one on, with the rounds that are left.
unfoldable pub try_suffix : ℕ → ℕ → Bytes → List Bytes → Option Bytes
try_suffix zero index base used = none
try_suffix (suc rounds) index base used =
    let later = try_suffix rounds (index + 1) base used in
    if is_used used (with_suffix base index) then later else some (with_suffix base index)

unfoldable pub resolve_unique_skill_command_name : Bytes → List Bytes → Bytes
resolve_unique_skill_command_name base used =
    if not (is_used used base) then base else elim (try_suffix 998 2 base used) [
      | some candidate ↦ candidate
      | none ↦ take 30 base ++ codes "_x"
    ]

pub record SkillCommandDispatch : Type 0 where
  pub kind : Bytes
  pub tool_name : Bytes
  pub arg_mode : Bytes

pub record SkillCommandSpec : Type 0 where
  pub name : Bytes
  pub skill_name : Bytes
  pub description : Bytes
  pub dispatch : SkillCommandDispatch

-- What the code reads of a skill.
pub record SkillEntry : Type 0 where
  pub name : Bytes
  pub description : Bytes
  pub user_invocable : Bool
  pub frontmatter : Map Bytes Bytes

-- The value under the first of two keys, or else under the second.
abbrev pub either_key : Map Bytes Bytes → Bytes → Bytes → Option Bytes
either_key m first second = elim (lookup first m) [ some v ↦ some v | none ↦ lookup second m ]

abbrev or_empty : Option Bytes → Bytes
or_empty none = []
or_empty (some s) = s

abbrev pub no_dispatch : SkillCommandDispatch
no_dispatch = record { kind = []; tool_name = []; arg_mode = [] }

-- A kind of blanks only is compared as it is, and is no "tool" either.
unfoldable pub read_dispatch : Map Bytes Bytes → SkillCommandDispatch
read_dispatch m = elim (either_key m (codes "command-dispatch") (codes "command_dispatch")) [
  | none ↦ no_dispatch
  | some kind ↦
      if str_eq (trim (to_lower kind)) (codes "tool")
      then record {
        kind = codes "tool";
        tool_name = or_empty (either_key m (codes "command-tool") (codes "command_tool"));
        arg_mode = codes "raw";
      }
      else no_dispatch
]

unfoldable pub describe : SkillEntry → Bytes
describe entry =
    let raw = if is_empty entry.description then entry.name else entry.description in
    if ltb 100 (length raw) then take 99 raw ++ codes "..." else raw

-- The loop over the skills that a user may invoke; the list has the names used so far.
unfoldable pub build_specs : List Bytes → List SkillEntry → List SkillCommandSpec
build_specs used [] = []
build_specs used (entry ∷ entries) =
    let unique = resolve_unique_skill_command_name (sanitize_skill_command_name entry.name) used in
    record {
      name = unique;
      skill_name = entry.name;
      description = describe entry;
      dispatch = read_dispatch entry.frontmatter;
    }
    ∷ build_specs (to_lower unique ∷ used) entries

-- On the skills that are eligible, with the reserved names.
unfoldable pub build_workspace_skill_command_specs :
    List SkillEntry → List Bytes → List SkillCommandSpec
build_workspace_skill_command_specs eligible reserved_names =
    build_specs (map to_lower reserved_names) (keep (λ e. e.user_invocable) eligible)
