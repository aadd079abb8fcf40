-- ===== src/Text/Find/Laws.antt =====
-- What a search finds, and that decimal numbers can be read back.
use open_crank.Prelude.{
  ltb, Bool-cases, Option-cases, Bytes, length, drop, ℕ, zero, suc, ◌+◌, ◌-◌, ◌*◌, ◌/◌, ◌%◌, ◌≤◌,
  ◌<◌, ◌≡◌, refl, sym, ap, subst, ◌∙◌, inl, inr, true, false, none, some, [], ◌∷◌, ◌++◌, arith,
}
use open_crank.Text.Trim.{starts_with}
use open_crank.Text.Find.{find, digits, to_string}

starts_with-length : (s pattern : Bytes) → starts_with s pattern ≡ true → length pattern ≤ length s
unfolding starts_with
starts_with-length s [] h = omega arith
starts_with-length [] (d ∷ pattern) h = absurd (ground arith)
starts_with-length (c ∷ s) (d ∷ pattern) h = ground (arith, starts_with-length s pattern)

-- An occurrence found: the pattern stands there, within the text, and nowhere before.
pub record IsFirst (pattern s : Bytes) (i : ℕ) : Type 0 where
  pub here : starts_with (drop i s) pattern ≡ true
  pub fits : i + length pattern ≤ length s
  pub first : (j : ℕ) → j < i → starts_with (drop j s) pattern ≡ false

later-IsFirst :
    (pattern : Bytes) (c : ℕ) (s : Bytes) (i : ℕ)
    → starts_with (c ∷ s) pattern ≡ false
    → IsFirst pattern s i
    → IsFirst pattern (c ∷ s) (suc i)
later-IsFirst pattern c s i f h = record {
  here = h.here;
  fits = omega (arith, h.fits);
  first = before;
}
  where
    before : (j : ℕ) → j < suc i → starts_with (drop j (c ∷ s)) pattern ≡ false
    before zero lt = f
    before (suc j) lt = h.first j (omega arith)

pub find-IsFirst : (pattern s : Bytes) (i : ℕ) → find pattern s ≡ some i → IsFirst pattern s i
unfolding find
find-IsFirst [] [] i h =
    let e : 0 ≡ i = ground arith in
    subst (IsFirst [] []) e (record {
      here = unfold starts_with in refl;
      fits = omega arith;
      first = λ j lt. absurd (omega arith);
    })
find-IsFirst (d ∷ pattern) [] i h = absurd (ground arith)
find-IsFirst pattern (c ∷ s) i h = elim (Bool-cases (starts_with (c ∷ s) pattern)) [
  | inl t ↦
      let e : 0 ≡ i = ground arith in
      subst (IsFirst pattern (c ∷ s)) e (record {
        here = t;
        fits = omega (arith, starts_with-length (c ∷ s) pattern t);
        first = λ j lt. absurd (omega arith);
      })
  | inr f ↦ elim (Option-cases (find pattern s)) [
    | inl e ↦ absurd (ground arith)
    | inr (k, e) ↦
        let same : suc k ≡ i = ground arith in
        subst (IsFirst pattern (c ∷ s)) same
          (later-IsFirst pattern c s k f (find-IsFirst pattern s k e))
  ]
]

-- Nothing found: the pattern stands nowhere.
pub find-none :
    (pattern s : Bytes)
    → find pattern s ≡ none
    → (j : ℕ) → j ≤ length s
    → starts_with (drop j s) pattern ≡ false
unfolding find
find-none [] [] h j le = absurd (ground arith)
find-none (d ∷ pattern) [] h zero le = unfold starts_with in refl
find-none (d ∷ pattern) [] h (suc j) le = absurd (omega arith)
find-none pattern (c ∷ s) h zero le = ground arith
find-none pattern (c ∷ s) h (suc j) le = find-none pattern s (ground arith) j (omega arith)

-- The value of decimal digits read after `acc`.
abbrev read_from : ℕ → Bytes → ℕ
read_from acc [] = acc
read_from acc (d ∷ s) = read_from (acc * 10 + (d - 48)) s

read_from-snoc :
    (s : Bytes) (acc d : ℕ) → read_from acc (s ++ d ∷ []) ≡ read_from acc s * 10 + (d - 48)
read_from-snoc [] acc d = refl
read_from-snoc (c ∷ s) acc d = read_from-snoc s (acc * 10 + (c - 48)) d

read_from-digits : (fuel n : ℕ) → n < fuel → read_from 0 (digits fuel n) ≡ n
unfolding digits
read_from-digits zero n h = absurd (omega arith)
read_from-digits (suc fuel) n h = elim (Bool-cases (ltb n 10)) [
  | inl t ↦ rw (t, digits) (omega arith)
  | inr f ↦
      let big : 10 ≤ n = ground arith in
      let ih = read_from-digits fuel (n / 10) (omega arith) in
      let last = read_from-snoc (digits fuel (n / 10)) 0 (48 + n % 10) in
      rw (f, digits) (last ∙ omega (arith, ih))
]

-- `to_string` gives different numbers different texts.
pub to_string-inj : (m n : ℕ) → to_string m ≡ to_string n → m ≡ n
unfolding to_string
to_string-inj m n e =
    sym (read_from-digits (suc m) m (omega arith))
    ∙ ap (read_from 0) e
    ∙ read_from-digits (suc n) n (omega arith)
