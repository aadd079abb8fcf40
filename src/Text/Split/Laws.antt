-- ===== src/Text/Split/Laws.antt =====
-- `split` and `join` against each other.
use open_crank.Prelude.{
  ◌==◌, Bool-cases, Bytes, length, drop, is_empty, All, All-append, ℕ, zero, suc, ◌-◌, ◌≡◌, refl,
  sym, ap, subst, ◌∙◌, ◌⊎◌, inl, inr, true, false, List, [], ◌∷◌, ◌++◌, append_assoc, append-nil,
  arith,
}
use open_crank.Text.Trim.{starts_with}
use open_crank.Text.Trim.Laws.{starts_with_sound}
use open_crank.Text.Split.{getline_from, split_char, find_from, split, join_from, join}

join_from-append :
    (x a : Bytes) (parts : List Bytes) (d : Bytes)
    → join_from (x ++ a) parts d ≡ x ++ join_from a parts d
unfolding join_from
join_from-append x a [] d = refl
join_from-append x a (b ∷ parts) d =
    ap (λ y. join_from y parts d) (append_assoc x a (d ++ b))
    ∙ join_from-append x (a ++ (d ++ b)) parts d

-- `join` of a list that is not empty.
pub join-cons :
    (p : Bytes) (parts : List Bytes) (d : Bytes)
    → is_empty parts ≡ false
    → join (p ∷ parts) d ≡ p ++ (d ++ join parts d)
unfolding join
join-cons p [] d h = ground arith
join-cons p (q ∷ parts) d h =
    join_from-append p (d ++ q) parts d ∙ ap (◌++◌ p) (join_from-append d q parts d)

find_from-full : (d : Bytes) (n : ℕ) (part s : Bytes) → is_empty (find_from d n part s) ≡ false
unfolding find_from
find_from-full d n part [] = refl
find_from-full d (suc n) part (c ∷ s) = find_from-full d n part s
find_from-full d zero part (c ∷ s) = ground (arith, find_from-full d 0 (part ++ c ∷ []) s)

drop_prefix : (d rest : Bytes) → drop (length d) (d ++ rest) ≡ rest
drop_prefix [] rest = refl
drop_prefix (x ∷ d) rest = drop_prefix d rest

-- A delimiter found is put back before what follows it.
put_back :
    (c : ℕ) (s d : Bytes)
    → is_empty d ≡ false
    → starts_with (c ∷ s) d ≡ true
    → d ++ drop (length d - 1) s ≡ c ∷ s
put_back c s [] h t = ground arith
put_back c s (x ∷ d) h t =
    let (rest, e) = starts_with_sound (c ∷ s) (x ∷ d) t in
    let same : drop (length d) s ≡ rest = ap (drop (length (x ∷ d))) e ∙ drop_prefix d rest in
    let one : suc (length d) - 1 ≡ length d = omega arith in rw (one, same) (sym e)

join-find_from :
    (d : Bytes) (n : ℕ) (part s : Bytes)
    → is_empty d ≡ false
    → join (find_from d n part s) d ≡ part ++ drop n s
unfolding find_from join
join-find_from d zero part [] h = sym (append-nil part)
join-find_from d (suc n) part [] h = sym (append-nil part)
join-find_from d (suc n) part (c ∷ s) h = join-find_from d n part s h
join-find_from d zero part (c ∷ s) h = elim (Bool-cases (starts_with (c ∷ s) d)) [
  | inl t ↦
      let rest = find_from d (length d - 1) [] s in
      let eq : find_from d 0 part (c ∷ s) ≡ part ∷ rest = rw (t, find_from) in
      ap (λ l. join l d) eq
      ∙ join-cons part rest d (find_from-full d (length d - 1) [] s)
      ∙ ap (λ u. part ++ (d ++ u)) (join-find_from d (length d - 1) [] s h)
      ∙ ap (◌++◌ part) (put_back c s d h t)
  | inr f ↦
      let eq : find_from d 0 part (c ∷ s) ≡ find_from d 0 (part ++ c ∷ []) s = rw (f, find_from) in
      ap (λ l. join l d) eq ∙ join-find_from d 0 (part ++ c ∷ []) s h ∙ append_assoc part (c ∷ []) s
]

-- `join` with the delimiter puts together what `split` took apart, for every delimiter.
join-split : (s d : Bytes) → join (split s d) d ≡ s
unfolding split join
join-split s [] = refl
join-split s (x ∷ d) = join-find_from (x ∷ d) 0 [] s refl

-- Each part with the delimiter after it.
abbrev pub terminate : ℕ → List Bytes → Bytes
terminate d [] = []
terminate d (part ∷ parts) = part ++ (d ∷ terminate d parts)

-- The byte does not occur.
abbrev pub Lacks : ℕ → Bytes → Type 0
Lacks d s = All (λ c. (c == d) ≡ false) s

-- Parts of a whole: none holds the byte, and the whole is the parts with the byte after each, or
-- all of that but the last byte.
abbrev pub Splits : ℕ → Bytes → List Bytes → Type 0
Splits d whole parts =
    All (Lacks d) parts × ((terminate d parts ≡ whole) ⊎ (terminate d parts ≡ whole ++ d ∷ []))

getline_from-Splits :
    (d : ℕ) (part s : Bytes) → Lacks d part → Splits d (part ++ s) (getline_from d part s)
unfolding getline_from
getline_from-Splits d [] [] h = (tt, inl refl)
getline_from-Splits d (c ∷ part) [] h =
    ((h, tt), inr (ap (λ u. u ++ d ∷ []) (sym (append-nil (c ∷ part)))))
getline_from-Splits d part (c ∷ s) h = elim (Bool-cases (c == d)) [
  | inl t ↦
      let eq : getline_from d part (c ∷ s) ≡ part ∷ getline_from d [] s = rw (t, getline_from) in
      let same : c ≡ d = ground arith in
      let (lacks, either) = getline_from-Splits d [] s tt in
      subst (λ l. Splits d (part ++ c ∷ s) l) (sym eq)
        (
          (h, lacks),
          elim either [
            | inl e ↦ inl (rw (same, e))
            | inr e ↦ inr (rw (same, e) (sym (append_assoc part (d ∷ s) (d ∷ []))))
          ],
        )
  | inr f ↦
      let eq : getline_from d part (c ∷ s) ≡ getline_from d (part ++ c ∷ []) s =
        rw (f, getline_from) in
      subst (λ l. Splits d (part ++ c ∷ s) l) (sym eq)
        (subst (λ w. Splits d w (getline_from d (part ++ c ∷ []) s)) (append_assoc part (c ∷ []) s)
          (getline_from-Splits d (part ++ c ∷ []) s
            (All-append (λ x. (x == d) ≡ false) part (c ∷ []) h (f, tt))))
]

-- The parts that `split` gives at a byte do not hold it, and the text is the parts with the byte
-- after each, or all of that but the last byte.
pub split_char-Splits : (s : Bytes) (d : ℕ) → Splits d s (split_char s d)
unfolding split_char
split_char-Splits s d = getline_from-Splits d [] s tt
