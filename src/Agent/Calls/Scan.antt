-- ===== src/Agent/Calls/Scan.antt =====
-- How far the scan for an object reads, and cuts of the text around calls.
use open_crank.Prelude.{
  ltb, leb, ◌==◌, if◌then◌else◌, Bool-cases, Bytes, length, take, drop, count, take-append-drop,
  drop-drop, ℕ, zero, suc, ◌+◌, ◌-◌, ◌≤◌, ◌≡◌, refl, sym, ap, ◌∙◌, inl, inr, Bool, true, false, not,
  Option, none, some, [], ◌∷◌, ◌++◌, arith,
}
use open_crank.Text.Find.{substr}
use open_crank.Agent.Calls.{one_more, scan_object}

one_more_le :
    {o : Option ℕ} {n k : ℕ} → ((i : ℕ) → o ≡ some i → i ≤ n) → one_more o ≡ some k → k ≤ suc n
one_more_le {o = none} ih h = ground (arith)
one_more_le {o = some i} ih h = ground (arith, ih i refl)

-- The scan reads no more than there is.
pub scan_object_le :
    (count : ℕ)
    → (in_string escape_next : Bool) → (s : Bytes) → (k : ℕ)
    → scan_object count in_string escape_next s ≡ some k
    → k ≤ length s
unfolding scan_object
scan_object_le count q e [] k h = ground (arith)
scan_object_le count q true (c ∷ s) k h = one_more_le (scan_object_le count q false s) h
scan_object_le count true false (c ∷ s) k h = elim (Bool-cases (c == b'\\')) [
  | inl t ↦ one_more_le (scan_object_le count true true s) (rw (scan_object, t) at h)
  | inr f ↦ one_more_le (scan_object_le count (not (c == b'"')) false s) (rw (scan_object, f) at h)
]
scan_object_le count false false (c ∷ s) k h = elim (Bool-cases (c == b'"')) [
  | inl t ↦ one_more_le (scan_object_le count true false s) (rw (scan_object, t) at h)
  | inr f ↦ elim (Bool-cases (c == b'{')) [
    | inl t ↦ one_more_le (scan_object_le (count + 1) false false s) (rw (scan_object, f, t) at h)
    | inr g ↦ elim (Bool-cases (c == b'}')) [
      | inr t ↦ one_more_le (scan_object_le count false false s) (rw (scan_object, f, g, t) at h)
      | inl t ↦ elim (Bool-cases (leb count 1)) [
        | inr u ↦
            one_more_le (scan_object_le (count - 1) false false s)
              (rw (scan_object, f, g, t, u) at h)
        | inl u ↦ let h' : some 1 ≡ some k = rw (scan_object, f, g, t, u) at h in ground (arith)
      ]
    ]
  ]
]

pub drop_tail : (n c : ℕ) (s r : Bytes) → drop n r ≡ c ∷ s → drop (n + 1) r ≡ s
drop_tail n c s r h = sym (drop-drop 1 n r) ∙ ap (drop 1) h

drop_all : (n : ℕ) (xs : Bytes) → length xs ≤ n → drop n xs ≡ []
drop_all zero [] le = refl
drop_all zero (x ∷ xs) le = ground (arith)
drop_all (suc n) [] le = refl
drop_all (suc n) (x ∷ xs) le = drop_all n xs (omega arith)

pub if_drop : (n : ℕ) (xs : Bytes) → (if ltb n (length xs) then drop n xs else []) ≡ drop n xs
if_drop n xs = ground (arith, drop_all n xs)

pub split_drop : (a b : ℕ) (xs : Bytes) → a ≤ b → substr xs a (b - a) ++ drop b xs ≡ drop a xs
split_drop a b xs le =
    let e : a + (b - a) ≡ b = omega arith in
    ap (λ r. substr xs a (b - a) ++ r) (sym (ap (λ n. drop n xs) e) ∙ sym (drop-drop (b - a) a xs))
    ∙ take-append-drop (b - a) (drop a xs)

pub if_gap :
    (a b : ℕ) (xs after : Bytes)
    → (if ltb a b then take (b - a) xs ++ after else after) ≡ take (b - a) xs ++ after
if_gap a b xs after = elim (Bool-cases (ltb a b)) [
  | inl t ↦ rw t
  | inr f ↦ let e : b - a ≡ 0 = ground (arith) in rw (f, e)
]
