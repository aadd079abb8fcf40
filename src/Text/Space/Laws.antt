-- ===== src/Text/Space/Laws.antt =====
-- What `normalize_whitespace` guarantees of its result.
use open_crank.Prelude.{Bytes, keep, ◌≡◌, refl, ap, ◌∙◌, Bool, true, false, not, [], ◌∷◌, arith}
use open_crank.Text.Trim.{is_blank}
use open_crank.Text.Space.{collapse, drop_trailing, normalize_whitespace}

-- Every blank is one space, after a byte that is not blank; the first argument says whether
-- a blank, or the start, stands before.
abbrev pub Single : Bool → Bytes → Type 0
unfolding is_blank
Single last [] = Unit
Single last (c ∷ s) = elim (is_blank c) [
  | true ↦ (c ≡ b' ') × (last ≡ false) × Single true s
  | false ↦ Single false s
]

abbrev pub ends_blank : Bytes → Bool
unfolding is_blank
ends_blank [] = false
ends_blank (c ∷ []) = is_blank c
ends_blank (c ∷ d ∷ s) = ends_blank (d ∷ s)

-- Words with one space between: no blank first or last, no other blank than a space, and no two
-- of them in a row.
pub IsTidy : Bytes → Type 0
IsTidy s = Single true s × (ends_blank s ≡ false)

-- The bytes that are not blank, in order.
abbrev pub letters : Bytes → Bytes
unfolding is_blank
letters s = keep (λ c. not (is_blank c)) s

collapse-Single : (last : Bool) (s : Bytes) → Single last (collapse last s)
unfolding collapse is_blank
collapse-Single last [] = tt
collapse-Single true (c ∷ s) = ground (arith, collapse-Single true s, collapse-Single false s)
collapse-Single false (c ∷ s) = ground (arith, collapse-Single true s, collapse-Single false s)

drop_trailing-Single : (last : Bool) (s : Bytes) → Single last s → Single last (drop_trailing s)
unfolding drop_trailing is_blank
drop_trailing-Single last [] h = tt
drop_trailing-Single last (c ∷ []) h = ground arith
drop_trailing-Single last (c ∷ d ∷ s) h =
    ground (arith, drop_trailing-Single true (d ∷ s), drop_trailing-Single false (d ∷ s))

drop_trailing-ends :
    (last : Bool) (s : Bytes) → Single last s → ends_blank (drop_trailing s) ≡ false
unfolding drop_trailing is_blank
drop_trailing-ends last [] h = refl
drop_trailing-ends last (c ∷ []) h = ground arith
drop_trailing-ends last (c ∷ d ∷ []) h = ground arith
drop_trailing-ends last (c ∷ d ∷ e ∷ s) h =
    ground (arith, drop_trailing-ends true (d ∷ e ∷ s), drop_trailing-ends false (d ∷ e ∷ s))

collapse-id : (last : Bool) (s : Bytes) → Single last s → collapse last s ≡ s
unfolding collapse is_blank
collapse-id last [] h = refl
collapse-id true (c ∷ s) h = ground (arith, collapse-id true s, collapse-id false s)
collapse-id false (c ∷ s) h = ground (arith, collapse-id true s, collapse-id false s)

drop_trailing-id : (s : Bytes) → ends_blank s ≡ false → drop_trailing s ≡ s
unfolding drop_trailing is_blank
drop_trailing-id [] h = refl
drop_trailing-id (c ∷ []) h = ground arith
drop_trailing-id (c ∷ d ∷ s) h = ap (◌∷◌ c) (drop_trailing-id (d ∷ s) h)

letters-collapse : (last : Bool) (s : Bytes) → letters (collapse last s) ≡ letters s
unfolding collapse is_blank
letters-collapse last [] = refl
letters-collapse true (c ∷ s) = ground (arith, letters-collapse true s, letters-collapse false s)
letters-collapse false (c ∷ s) = ground (arith, letters-collapse true s, letters-collapse false s)

letters-drop_trailing : (s : Bytes) → letters (drop_trailing s) ≡ letters s
unfolding drop_trailing is_blank
letters-drop_trailing [] = refl
letters-drop_trailing (c ∷ []) = ground arith
letters-drop_trailing (c ∷ d ∷ s) = ground (arith, letters-drop_trailing (d ∷ s))

-- The result of `normalize_whitespace` has single spaces between words and no other blank, has
-- the bytes of the text that are not blank, in order, and is left unchanged by a second run.
pub normalize_whitespace_lem :
    (s : Bytes)
    → IsTidy (normalize_whitespace s)
      × (letters (normalize_whitespace s) ≡ letters s)
      × (normalize_whitespace (normalize_whitespace s) ≡ normalize_whitespace s)
unfolding IsTidy normalize_whitespace
normalize_whitespace_lem s =
    let single = collapse-Single true s in
    let single' = drop_trailing-Single true (collapse true s) single in
    let ends = drop_trailing-ends true (collapse true s) single in
    (
      (single', ends),
      letters-drop_trailing (collapse true s) ∙ letters-collapse true s,
      ap drop_trailing (collapse-id true (drop_trailing (collapse true s)) single')
          ∙ drop_trailing-id (drop_trailing (collapse true s)) ends,
    )
