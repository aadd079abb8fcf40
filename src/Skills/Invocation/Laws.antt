-- ===== src/Skills/Invocation/Laws.antt =====
-- A command that a user types by its name is found.
use open_crank.Prelude.{
  Bytes, codes, str_eq, str_eq_refl, length, take, drop, is_empty, All, ℕ, suc, ◌≡◌, refl, ap, true,
  false, some, List, [], ◌∷◌, ◌++◌, arith,
}
use open_crank.Text.Trim.{is_blank, find_first_not_blank, lower, to_lower}
use open_crank.Text.Find.{find_where}
use open_crank.Skills.{SkillCommandSpec}
use open_crank.Skills.Invocation.{
  is_gap, skip_gap, ends_word, without_skill_prefix, trim_args, split_input, find_by, find_command,
  resolve_command, resolve_trimmed, resolve_skill_command_invocation,
}

find_where-append :
    (word rest : Bytes)
    → All (λ c. is_gap c ≡ false) word
    → find_where is_gap (word ++ b' ' ∷ rest) ≡ some (length word)
unfolding find_where is_gap
find_where-append [] rest none_in = refl
find_where-append (c ∷ word) rest (f, none_in) = rw (f, find_where-append word rest none_in) refl

take-word : (word rest : Bytes) → take (length word) (word ++ rest) ≡ word
take-word [] rest = refl
take-word (c ∷ word) rest = ap (λ s. c ∷ s) (take-word word rest)

drop-word : (word rest : Bytes) (c : ℕ) → drop (suc (length word)) (word ++ c ∷ rest) ≡ rest
drop-word [] rest c = refl
drop-word (d ∷ word) rest c = drop-word word rest c

split_input-word :
    (word args : Bytes)
    → All (λ c. is_gap c ≡ false) word
    → split_input (word ++ b' ' ∷ args) ≡ (word, trim_args args)
unfolding split_input
split_input-word word args none_in =
    rw
      (
        split_input,
        find_where-append word args none_in,
        take-word word (b' ' ∷ args),
        drop-word word args b' ',
      )
      refl

-- The first with a key is found.
find_by-first :
    (key : SkillCommandSpec → Bytes) (cmd : Bytes) (before : List SkillCommandSpec)
    (spec : SkillCommandSpec) (after : List SkillCommandSpec)
    → str_eq (to_lower (key spec)) cmd ≡ true
    → All (λ s. str_eq (to_lower (key s)) cmd ≡ false) before
    → find_by key cmd (before ++ spec ∷ after) ≡ some spec
unfolding find_by
find_by-first key cmd [] spec after same others = rw same refl
find_by-first key cmd (s ∷ before) spec after same (f, others) =
    rw f (find_by-first key cmd before spec after same others)

is_empty-append {ℓ} :
    {A : Type ℓ} → (front : List A) (x : A) (back : List A) → is_empty (front ++ x ∷ back) ≡ false
is_empty-append [] x back = refl
is_empty-append (y ∷ front) x back = refl

-- After "skill " stands what follows, which does not begin with a gap.
without_skill_prefix-word :
    (word rest : Bytes)
    → is_empty word ≡ false
    → All (λ c. is_gap c ≡ false) word
    → without_skill_prefix (codes "skill " ++ word ++ rest) ≡ word ++ rest
unfolding without_skill_prefix skip_gap ends_word is_gap to_lower lower str_eq
without_skill_prefix-word [] rest e none_in = ground arith
without_skill_prefix-word (c ∷ word) rest e (f, none_in) = rw f refl

resolve_command-word :
    (word args : Bytes) (commands : List SkillCommandSpec) (spec : SkillCommandSpec)
    → All (λ c. is_gap c ≡ false) word
    → find_by (λ s. s.name) (to_lower word) commands ≡ some spec
    → resolve_command (word ++ b' ' ∷ args) commands ≡ some (spec, trim_args args)
unfolding resolve_command find_command
resolve_command-word word args commands spec none_in found =
    rw
      (
        resolve_command,
        is_empty-append word b' ' args,
        split_input-word word args none_in,
        found,
        split_input-word word args none_in,
      )
      refl

-- Every command can be called by its name: what a user types as "/skill", the name of a command and
-- arguments is resolved to that command with the arguments, trimmed, where the name is not empty and
-- has no space or tab in it, and no command before has the same name up to case.
pub resolve_skill_command_invocation-first :
    (before : List SkillCommandSpec) (spec : SkillCommandSpec) (after : List SkillCommandSpec)
    (args : Bytes)
    → is_empty spec.name ≡ false
    → All (λ c. is_gap c ≡ false) spec.name
    → All (λ s. str_eq (to_lower s.name) (to_lower spec.name) ≡ false) before
    → resolve_skill_command_invocation
        (codes "/skill " ++ spec.name ++ b' ' ∷ args)
        (before ++ spec ∷ after)
      ≡ some (spec, trim_args args)
unfolding resolve_skill_command_invocation resolve_trimmed find_first_not_blank is_blank
resolve_skill_command_invocation-first before spec after args nonempty no_gap others =
    let found =
      find_by-first (λ s. s.name) (to_lower spec.name) before spec after
        (str_eq_refl (to_lower spec.name)) others in
    rw
      (
        resolve_skill_command_invocation,
        is_empty-append before spec after,
        without_skill_prefix-word spec.name (b' ' ∷ args) nonempty no_gap,
      )
      (resolve_command-word spec.name args (before ++ spec ∷ after) spec no_gap found)
