-- ===== src/Skills/Laws.antt =====
-- The names of skill commands are short and kept apart.
use open_crank.Prelude.{
  ltb, ◌==◌, if◌then◌else◌, ==_iff, Bool-cases, Bytes, codes, length, take, length-append,
  length-take, ℕ, zero, suc, ◌+◌, ◌-◌, ◌*◌, ◌/◌, ◌%◌, ◌^◌, ◌≤◌, ◌<◌, ◌≡◌, refl, subst, ◌⊎◌, inl,
  inr, true, false, none, some, List, [], ◌∷◌, map, arith,
}
use open_crank.Text.Trim.{to_lower}
use open_crank.Text.Find.{digits, to_string}
use open_crank.Skills.{
  normalize_byte, collapse, skip_underscores, cut_underscores, SkillEntry, SkillCommandSpec,
  sanitize_skill_command_name, is_used, with_suffix, try_suffix, resolve_unique_skill_command_name,
  build_specs, build_workspace_skill_command_specs,
}
use Prim.{Unit}

pow_suc : (k : ℕ) → 10 ^ suc k ≡ 10 * 10 ^ k
pow_suc k = omega arith

length-digits : (k fuel n : ℕ) → n < 10 ^ suc k → length (digits fuel n) ≤ suc k
unfolding digits
length-digits k zero n lt = omega arith
length-digits zero (suc fuel) n lt = let t : ltb n 10 ≡ true = ground (arith) in rw t (omega arith)
length-digits (suc k) (suc fuel) n lt = elim (Bool-cases (ltb n 10)) [
  | inl t ↦ rw t (omega arith)
  | inr f ↦
      let less : n / 10 < 10 ^ suc k = omega (arith, pow_suc (suc k)) in
      rw f (
        omega (
          arith,
          length-append (digits fuel (n / 10)) ((48 + n % 10) ∷ []),
          length-digits k fuel (n / 10) less,
        ))
]

length-sanitize_skill_command_name : (raw : Bytes) → length (sanitize_skill_command_name raw) ≤ 32
unfolding sanitize_skill_command_name
length-sanitize_skill_command_name raw = ground (
  arith,
  length-take 32 (cut_underscores (skip_underscores (collapse false (map normalize_byte raw)))),
)

-- Every numbered name from an index on is used.
IsExhausted : List Bytes → Bytes → Type 0
IsExhausted used base = (i : ℕ) → 2 ≤ i → i < 1000 → is_used used (with_suffix base i) ≡ true

length-with_suffix :
    (base : Bytes) (index : ℕ) → index < 1000 → length (with_suffix base index) ≤ 32
unfolding with_suffix to_string
length-with_suffix base index lt =
    let short = length-digits 2 (suc index) index lt in
    let n =
      if ltb (32 - suc (length (digits (suc index) index))) 1
      then 1
      else 32 - suc (length (digits (suc index) index)) in
    ground (
      arith,
      short,
      length-append (take n base) (b'_' ∷ digits (suc index) index),
      length-take n base,
    )

-- The loop gives the first numbered name that is free, or all of them are used.
try_suffix_cases :
    (rounds index : ℕ) (base : Bytes) (used : List Bytes)
    → index + rounds ≤ 1000
    → (((i : ℕ) → index ≤ i → i < index + rounds → is_used used (with_suffix base i) ≡ true)
        × (try_suffix rounds index base used ≡ none))
      ⊎ ((candidate : Bytes) × (try_suffix rounds index base used ≡ some candidate)
          × (is_used used candidate ≡ false)
          × (length candidate ≤ 32))
unfolding try_suffix
try_suffix_cases zero index base used le = inl ((λ i from to. ground (arith)), refl)
try_suffix_cases (suc rounds) index base used le =
    elim (Bool-cases (is_used used (with_suffix base index))) [
      | inr f ↦ inr (
        with_suffix base index,
        rw (try_suffix, f) refl,
        f,
        length-with_suffix base index (omega arith),
      )
      | inl t ↦ elim (try_suffix_cases rounds (index + 1) base used (omega arith)) [
        | inl (all, e) ↦ inl (
          (λ i from to. elim (Bool-cases (index == i)) [
            | inl same ↦
                subst (λ j. is_used used (with_suffix base j) ≡ true) ((==_iff index i).0 same) t
            | inr other ↦ all i (ground (arith)) (omega arith)
          ]),
          rw (try_suffix, t) e,
        )
        | inr (candidate, e, free, short) ↦ inr (candidate, rw (try_suffix, t) e, free, short)
      ]
    ]

-- A name is new, unless all numbered names are used, and never too long.
resolve_unique_lem :
    (base : Bytes) (used : List Bytes)
    → length base ≤ 32
    → let name = resolve_unique_skill_command_name base used in
      (length name ≤ 32) × ((is_used used name ≡ false) ⊎ IsExhausted used base)
unfolding resolve_unique_skill_command_name IsExhausted
resolve_unique_lem base used le = elim (Bool-cases (is_used used base)) [
  | inr f ↦ rw (resolve_unique_skill_command_name, f) (le, inl f)
  | inl t ↦ elim (try_suffix_cases 998 2 base used (omega arith)) [
    | inl (all, e) ↦
        rw (resolve_unique_skill_command_name, t, e)
          ((omega (arith, length-append (take 30 base) (codes "_x"), length-take 30 base)), inr all)
    | inr (candidate, e, free, short) ↦
        rw (resolve_unique_skill_command_name, t, e) (short, inl free)
  ]
]

-- Commands in order, after names that are used: each has a name of at most 32 bytes that none of these
-- and none of the commands before has, in lower case, unless its numbered names are all used.
pub AreApart : List Bytes → List SkillCommandSpec → Type 0
AreApart used [] = Unit
AreApart used (spec ∷ specs) =
    (length spec.name ≤ 32)
    × ((is_used used spec.name ≡ false)
        ⊎ IsExhausted used (sanitize_skill_command_name spec.skill_name))
    × AreApart (to_lower spec.name ∷ used) specs

build_specs-AreApart :
    (used : List Bytes) (entries : List SkillEntry) → AreApart used (build_specs used entries)
unfolding build_specs AreApart
build_specs-AreApart used [] = _
build_specs-AreApart used (entry ∷ entries) =
    let base = sanitize_skill_command_name entry.name in
    let (short, apart) =
      resolve_unique_lem base used (length-sanitize_skill_command_name entry.name) in
    (
      short,
      apart,
      build_specs-AreApart (to_lower (resolve_unique_skill_command_name base used) ∷ used) entries,
    )

-- Whatever the skills are called, their commands have names of at most 32 bytes, and no command has a
-- reserved name or the name of a command before it, up to case, unless all the 998 numbered names of
-- its skill are in use.
pub build_workspace_skill_command_specs-AreApart :
    (eligible : List SkillEntry) (reserved_names : List Bytes)
    → AreApart
        (map to_lower reserved_names)
        (build_workspace_skill_command_specs eligible reserved_names)
unfolding build_workspace_skill_command_specs
build_workspace_skill_command_specs-AreApart eligible reserved_names =
    build_specs-AreApart (map to_lower reserved_names) _
