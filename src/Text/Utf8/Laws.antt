-- ===== src/Text/Utf8/Laws.antt =====
-- What `truncate_safe` and `sanitize_utf8` guarantee of their results.
use open_crank.Prelude.{
  Bool-cases, Bytes, length, get_or, take, ℕ, zero, suc, ◌≤◌, ◌<◌, ◌≡◌, refl, ap, ◌⊎◌, inl, inr,
  true, false, [], ◌∷◌, ◌++◌, arith,
}
use open_crank.Text.Utf8.{
  Lead, plain, control, invalid, announces, is_continuation, back_up, truncate_safe, lead, has_tail,
  sanitize_from, sanitize_utf8, replacement,
}

-- So many continuation bytes, and then whole sequences, with no control character but tab and
-- newline.
abbrev pub Shaped : ℕ → Bytes → Type 0
Shaped zero [] = Unit
Shaped (suc n) [] = ⊥
Shaped (suc n) (c ∷ s) = (is_continuation c ≡ true) × Shaped n s
Shaped zero (c ∷ s) = elim (lead c) [
  | plain ↦ Shaped 0 s
  | control ↦ ⊥
  | invalid ↦ ⊥
  | announces n ↦ Shaped n s
]

replacement-Shaped : (s : Bytes) → Shaped 0 s → Shaped 0 (replacement ++ s)
unfolding lead is_continuation
replacement-Shaped s h = (refl, (refl, h))

space-Shaped : (s : Bytes) → Shaped 0 s → Shaped 0 (b' ' ∷ s)
unfolding lead
space-Shaped s h = h

-- The step at a leading byte, from the result for the rest.
sanitize_from-Shaped-lead :
    (c : ℕ) (s : Bytes) (l : Lead)
    → lead c ≡ l
    → ((n : ℕ) → has_tail n s ≡ true → Shaped n (sanitize_from n s))
    → Shaped 0 (sanitize_from 0 (c ∷ s))
unfolding sanitize_from has_tail
sanitize_from-Shaped-lead c s plain e rest =
    let eq : sanitize_from 0 (c ∷ s) ≡ c ∷ sanitize_from 0 s = rw (e, sanitize_from) in
    rw eq (rw (e, Shaped) (rest 0 refl))
sanitize_from-Shaped-lead c s control e rest =
    let eq : sanitize_from 0 (c ∷ s) ≡ b' ' ∷ sanitize_from 0 s = rw (e, sanitize_from) in
    rw eq (space-Shaped _ (rest 0 refl))
sanitize_from-Shaped-lead c s invalid e rest =
    let eq : sanitize_from 0 (c ∷ s) ≡ replacement ++ sanitize_from 0 s = rw (e, sanitize_from) in
    rw eq (replacement-Shaped _ (rest 0 refl))
sanitize_from-Shaped-lead c s (announces n) e rest = elim (Bool-cases (has_tail n s)) [
  | inl t ↦
      let eq : sanitize_from 0 (c ∷ s) ≡ c ∷ sanitize_from n s = rw (e, t, sanitize_from) in
      rw eq (rw (e, Shaped) (rest n t))
  | inr f ↦
      let eq : sanitize_from 0 (c ∷ s) ≡ replacement ++ sanitize_from 0 s =
        rw (e, f, sanitize_from) in
      rw eq (replacement-Shaped _ (rest 0 refl))
]

sanitize_from-Shaped : (n : ℕ) (s : Bytes) → has_tail n s ≡ true → Shaped n (sanitize_from n s)
unfolding sanitize_from has_tail
sanitize_from-Shaped zero [] h = tt
sanitize_from-Shaped (suc n) [] h = ground arith
sanitize_from-Shaped (suc n) (c ∷ s) h = ground (arith, sanitize_from-Shaped n s)
sanitize_from-Shaped zero (c ∷ s) h =
    sanitize_from-Shaped-lead c s (lead c) refl (λ n t. sanitize_from-Shaped n s t)

Shaped-has_tail : (n : ℕ) (s : Bytes) → Shaped n s → has_tail n s ≡ true
unfolding has_tail
Shaped-has_tail zero s h = refl
Shaped-has_tail (suc n) [] h = ground arith
Shaped-has_tail (suc n) (c ∷ s) (hc, h) = ground (arith, Shaped-has_tail n s)

sanitize_from-id_lead :
    (c : ℕ) (s : Bytes) (l : Lead)
    → lead c ≡ l
    → Shaped 0 (c ∷ s)
    → ((n : ℕ) → Shaped n s → sanitize_from n s ≡ s)
    → sanitize_from 0 (c ∷ s) ≡ c ∷ s
unfolding sanitize_from
sanitize_from-id_lead c s plain e h rest =
    rw (e, sanitize_from) (ap (◌∷◌ c) (rest 0 (rw (e, Shaped) at h)))
sanitize_from-id_lead c s control e h rest = elim (rw (e, Shaped) at h) [ ]
sanitize_from-id_lead c s invalid e h rest = elim (rw (e, Shaped) at h) [ ]
sanitize_from-id_lead c s (announces n) e h rest =
    let h' : Shaped n s = rw (e, Shaped) at h in
    rw (e, Shaped-has_tail n s h', sanitize_from) (ap (◌∷◌ c) (rest n h'))

sanitize_from-id : (n : ℕ) (s : Bytes) → Shaped n s → sanitize_from n s ≡ s
unfolding sanitize_from
sanitize_from-id zero [] h = refl
sanitize_from-id (suc n) [] h = refl
sanitize_from-id (suc n) (c ∷ s) h = ground (arith, sanitize_from-id n s)
sanitize_from-id zero (c ∷ s) h =
    sanitize_from-id_lead c s (lead c) refl h (λ n k. sanitize_from-id n s k)

back_up_lem :
    (s : Bytes) (len : ℕ)
    → (back_up s len ≤ len)
      × ((back_up s len ≡ 0) ⊎ (is_continuation (get_or s (back_up s len) 0) ≡ false))
unfolding back_up
back_up_lem s zero = (omega arith, inl refl)
back_up_lem s (suc len) = ground (arith, back_up_lem s len)

back_up-skips :
    (s : Bytes) (len i : ℕ) → back_up s len < i → i ≤ len → is_continuation (get_or s i 0) ≡ true
unfolding back_up
back_up-skips s zero i h k = ground arith
back_up-skips s (suc len) i h k = ground (arith, back_up-skips s len i)

-- A text of whole sequences without control characters is left unchanged.
sanitize_utf8_fixed : (s : Bytes) → Shaped 0 s → sanitize_utf8 s ≡ s
unfolding sanitize_utf8
sanitize_utf8_fixed s h = sanitize_from-id 0 s h

-- The result of `sanitize_utf8` is made of sequences of the announced length and has no byte below
-- the space but tab and newline; a second run leaves it unchanged.
pub sanitize_utf8_lem :
    (s : Bytes) → Shaped 0 (sanitize_utf8 s) × (sanitize_utf8 (sanitize_utf8 s) ≡ sanitize_utf8 s)
unfolding sanitize_utf8 has_tail
sanitize_utf8_lem s =
    let shaped = sanitize_from-Shaped 0 s refl in
    (shaped, sanitize_utf8_fixed (sanitize_utf8 s) shaped)

-- A text no longer than the limit is returned as it is. From a longer one `truncate_safe` keeps
-- `k` bytes, at most the limit; byte `k` does not continue a sequence, unless nothing is kept; and
-- only continuation bytes stand between `k` and the limit, so no shorter cut was needed.
pub truncate_safe_lem :
    (s : Bytes) (n : ℕ)
    → (length s ≤ n → truncate_safe s n ≡ s)
      × (n < length s
          → (k : ℕ) × (truncate_safe s n ≡ take k s)
            × (k ≤ n)
            × ((k ≡ 0) ⊎ (is_continuation (get_or s k 0) ≡ false))
            × ((i : ℕ) → k < i → i ≤ n → is_continuation (get_or s i 0) ≡ true))
unfolding truncate_safe
truncate_safe_lem s n = (
  (λ h. ground arith),
  λ h. let (le, stop) = back_up_lem s n in (back_up s n, ground arith, le, stop, back_up-skips s n),
)
