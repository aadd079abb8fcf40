-- ===== src/Text/Path/Laws.antt =====
-- What `normalize_path` guarantees of its result.
use open_crank.Prelude.{
  if◌then◌else◌, Bool-cases, Bytes, codes, str_eq, is_empty, All, All-append, ◌≡◌, refl, ◌∙◌, inl,
  inr, Bool, true, false, List, [], ◌∷◌, ◌++◌, arith,
}
use open_crank.Text.Split.{split_char, join, join_from}
use open_crank.Text.Split.Laws.{Lacks, split_char-Splits}
use open_crank.Text.Path.{
  step_up, resolve_part, resolve_parts, in_order, is_absolute, normalize_path,
}

-- The last of the parts kept, if there is one, is "..".
abbrev pub under_up : List Bytes → Bool
under_up [] = true
under_up (top ∷ below) = str_eq top (codes "..")

-- A part that may be kept on top of others: it has a name without '/', is not ".", and is ".." only
-- in a relative path where all the parts before are "..".
abbrev pub IsKept : Bool → List Bytes → Bytes → Type 0
IsKept absolute below part =
    (is_empty part ≡ false)
    × (str_eq part (codes ".") ≡ false)
    × Lacks b'/' part
    × (str_eq part (codes "..") ≡ true → (absolute ≡ false) × (under_up below ≡ true))

abbrev pub IsResolved : Bool → List Bytes → Type 0
IsResolved absolute [] = Unit
IsResolved absolute (part ∷ below) = IsKept absolute below part × IsResolved absolute below

up-IsKept : (below : List Bytes) → under_up below ≡ true → IsKept false below (codes "..")
unfolding str_eq
up-IsKept below h = (refl, refl, (refl, (refl, tt)), λ _. (refl, h))

step_up-IsResolved :
    (absolute : Bool) (result : List Bytes)
    → IsResolved absolute result
    → IsResolved absolute (step_up absolute result)
unfolding step_up
step_up-IsResolved true [] h = tt
step_up-IsResolved false [] h = (up-IsKept [] refl, tt)
step_up-IsResolved true (top ∷ below) (kept, h) = elim (Bool-cases (str_eq top (codes ".."))) [
  | inl t ↦ rw (t, step_up) (kept, h)
  | inr f ↦ rw (f, step_up) h
]
step_up-IsResolved false (top ∷ below) (kept, h) = elim (Bool-cases (str_eq top (codes ".."))) [
  | inl t ↦ rw (t, step_up) (up-IsKept (top ∷ below) t, (kept, h))
  | inr f ↦ rw (f, step_up) h
]

resolve_part-IsResolved :
    (absolute : Bool) (result : List Bytes) (part : Bytes)
    → IsResolved absolute result
    → Lacks b'/' part
    → IsResolved absolute (resolve_part absolute result part)
unfolding resolve_part
resolve_part-IsResolved absolute result part h l = elim (Bool-cases (is_empty part)) [
  | inl t ↦ rw (t, resolve_part) h
  | inr f ↦ elim (Bool-cases (str_eq part (codes "."))) [
    | inl t ↦ rw (f, t, resolve_part) h
    | inr f2 ↦ elim (Bool-cases (str_eq part (codes ".."))) [
      | inl t ↦ rw (f, f2, t, resolve_part) (step_up-IsResolved absolute result h)
      | inr f3 ↦ rw (f, f2, f3, resolve_part) ((f, f2, l, λ t. absurd (ground arith)), h)
    ]
  ]
]

resolve_parts-IsResolved :
    (absolute : Bool) (result parts : List Bytes)
    → IsResolved absolute result
    → All (Lacks b'/') parts
    → IsResolved absolute (resolve_parts absolute result parts)
unfolding resolve_parts
resolve_parts-IsResolved absolute result [] h l = h
resolve_parts-IsResolved absolute result (part ∷ parts) h (lp, l) =
    resolve_parts-IsResolved absolute (resolve_part absolute result part) parts
      (resolve_part-IsResolved absolute result part h lp) l

join_from-full :
    (a : Bytes) (parts : List Bytes) (d : Bytes)
    → is_empty a ≡ false
    → is_empty (join_from a parts d) ≡ false
unfolding join_from
join_from-full [] parts d h = ground arith
join_from-full (c ∷ a) [] d h = refl
join_from-full (c ∷ a) (b ∷ parts) d h = join_from-full (c ∷ (a ++ (d ++ b))) parts d refl

join-full :
    (parts : List Bytes) (d : Bytes)
    → All (λ p. is_empty p ≡ false) parts
    → is_empty (join parts d) ≡ is_empty parts
unfolding join
join-full [] d h = refl
join-full (p ∷ parts) d (hp, h) = join_from-full p parts d hp

in_order-All :
    (absolute : Bool) (result : List Bytes)
    → IsResolved absolute result
    → All (λ p. is_empty p ≡ false) (in_order result)
unfolding in_order
in_order-All absolute [] h = tt
in_order-All absolute (part ∷ below) ((full, _, _, _), h) =
    All-append (λ p. is_empty p ≡ false) (in_order below) (part ∷ [])
      (in_order-All absolute below h) (full, tt)

is_empty-snoc : (xs : List Bytes) (x : Bytes) → is_empty (xs ++ x ∷ []) ≡ false
is_empty-snoc [] x = refl
is_empty-snoc (y ∷ xs) x = refl

is_empty-in_order : (result : List Bytes) → is_empty (in_order result) ≡ is_empty result
unfolding in_order
is_empty-in_order [] = refl
is_empty-in_order (part ∷ below) = is_empty-snoc (in_order below) part

rooted_or_dot :
    (absolute : Bool) (joined : Bytes) (none_kept : Bool)
    → is_empty joined ≡ none_kept
    → (if is_empty (if absolute then b'/' ∷ joined else joined)
        then codes "."
        else if absolute
        then b'/' ∷ joined
        else joined)
      ≡ (if absolute then b'/' ∷ joined else if none_kept then codes "." else joined)
rooted_or_dot true joined none_kept h = refl
rooted_or_dot false joined none_kept h = rw h

-- The result of `normalize_path` on a path that is not empty is built from parts that are resolved:
-- none is empty or "." or has a '/' in it, ".." stands only at the front of a relative path, and
-- never in an absolute one. They are joined by '/', after a '/' when the path is absolute; for a
-- relative path without parts the result is ".".
pub normalize_path_lem :
    (path : Bytes)
    → is_empty path ≡ false
    → (result : List Bytes) × IsResolved (is_absolute path) result
      × (normalize_path path ≡ (
          if is_absolute path
          then b'/' ∷ join (in_order result) (codes "/")
          else if is_empty result
          then codes "."
          else join (in_order result) (codes "/")))
unfolding normalize_path
normalize_path_lem [] h = ground arith
normalize_path_lem (c ∷ path) h =
    let absolute = is_absolute (c ∷ path) in
    let parts = split_char (c ∷ path) b'/' in
    let (lacks, _) = split_char-Splits (c ∷ path) b'/' in
    let resolved = resolve_parts-IsResolved absolute [] parts tt lacks in
    let result = resolve_parts absolute [] parts in
    let joined : is_empty (join (in_order result) (codes "/")) ≡ is_empty result =
      join-full (in_order result) (codes "/") (in_order-All absolute result resolved)
      ∙ is_empty-in_order result in
    (
      result,
      resolved,
      rooted_or_dot absolute (join (in_order result) (codes "/")) (is_empty result) joined,
    )
