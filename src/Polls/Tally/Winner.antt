-- ===== src/Polls/Tally/Winner.antt =====
-- `get_winning_option` against the strict maximum of the counts.
use open_crank.Prelude.{
  ◌==◌, if◌then◌else◌, lt→ltb, Bool-cases, length, get_elem?, is_empty, length-append, ℕ, zero, suc,
  ◌+◌, ◌≤◌, ◌<◌, ◌≡◌, refl, sym, ap, subst, ◌∙◌, ◌≢◌, ◌⊎◌, inl, inr, Bool, true, false, some, List,
  [], ◌∷◌, ◌++◌, append_assoc, append-nil, arith,
}
use native.Mathlib.Decide.{ℕ_discrete}
use open_crank.Prelude.Int.{ℤ, pos, negsuc}
use open_crank.Polls.Types.{PollResults}
use open_crank.Polls.Tally.{winner_loop, get_winning_option}

-- Option `k` has `m` votes, more than none and more than every other option.
pub record IsStrictMax (xs : List ℕ) (k m : ℕ) : Type 0 where
  pub here : get_elem? xs k ≡ some m
  pub positive : 0 < m
  pub above : (j n : ℕ) → get_elem? xs j ≡ some n → j ≢ k → n < m

-- A winner is the strict maximum, and with no winner there is none.
abbrev pub Outcome : List ℕ → ℤ → Type 0
Outcome xs res =
    ((k : ℕ) × (m : ℕ) × (res ≡ pos k) × IsStrictMax xs k m)
    ⊎ ((res ≡ negsuc 0) × ((k m : ℕ) → ¬ IsStrictMax xs k m))

-- What the variables of the loop say of the counts read so far.
data Scan (pre : List ℕ) (mx : ℕ) (w : ℤ) (tie : Bool) : Type 0 where
  nothing : mx ≡ 0 → w ≡ negsuc 0 → tie ≡ false → Scan pre mx w tie
  leader : (k : ℕ) → w ≡ pos k → tie ≡ false → IsStrictMax pre k mx → Scan pre mx w tie
  tied :
      (k l : ℕ)
      → tie ≡ true
      → k ≢ l
      → get_elem? pre k ≡ some mx
      → get_elem? pre l ≡ some mx
      → 0 < mx
      → Scan pre mx w tie

abbrev Bounded : List ℕ → ℕ → Type 0
Bounded pre mx = (j n : ℕ) → get_elem? pre j ≡ some n → n ≤ mx

get_elem?-snoc :
    (pre : List ℕ) (n j : ℕ)
    → get_elem? (pre ++ n ∷ []) j ≡ (if j == length pre then some n else get_elem? pre j)
get_elem?-snoc [] n zero = refl
get_elem?-snoc [] n (suc j) = ground arith
get_elem?-snoc (x ∷ pre) n zero = ground arith
get_elem?-snoc (x ∷ pre) n (suc j) = ground (arith, get_elem?-snoc pre n j)

get_elem?-lt : (pre : List ℕ) (j n : ℕ) → get_elem? pre j ≡ some n → j < length pre
get_elem?-lt [] j n h = cc
get_elem?-lt (x ∷ pre) zero n h = omega arith
get_elem?-lt (x ∷ pre) (suc j) n h = omega (arith, get_elem?-lt pre j n h)

Bounded-snoc :
    (pre : List ℕ) (n mx top : ℕ)
    → Bounded pre mx
    → mx ≤ top
    → n ≤ top
    → Bounded (pre ++ n ∷ []) top
Bounded-snoc pre n mx top b h k = λ j v e. ground (arith, get_elem?-snoc pre n j, b j v)

-- A higher count leads alone.
higher-Scan :
    (pre : List ℕ) (n mx : ℕ) → Bounded pre mx → mx < n → IsStrictMax (pre ++ n ∷ []) (length pre) n
higher-Scan pre n mx b h = record {
  here = ground (arith, get_elem?-snoc pre n (length pre));
  positive = omega arith;
  above = λ j v e ne. ground (arith, get_elem?-snoc pre n j, b j v);
}

old_entry :
    (pre : List ℕ) (n k m : ℕ) → get_elem? pre k ≡ some m → get_elem? (pre ++ n ∷ []) k ≡ some m
old_entry pre n k m h = ground (arith, get_elem?-snoc pre n k, get_elem?-lt pre k m h)

new_entry : (pre : List ℕ) (n : ℕ) → get_elem? (pre ++ n ∷ []) (length pre) ≡ some n
new_entry pre n = ground (arith, get_elem?-snoc pre n (length pre))

-- An equal count ties with whatever led.
equal-Scan :
    (pre : List ℕ) (n mx : ℕ) (w : ℤ) (tie : Bool)
    → Scan pre mx w tie
    → n ≡ mx
    → 0 < mx
    → Scan (pre ++ n ∷ []) mx w true
equal-Scan pre n mx w tie (nothing z _ _) e h = absurd (omega arith)
equal-Scan pre n mx w tie (leader k _ _ best) e h =
    tied k (length pre) refl
      (let lt : k < length pre = get_elem?-lt pre k mx best.here in omega arith)
      (old_entry pre n k mx best.here) (new_entry pre n ∙ ap some e) h
equal-Scan pre n mx w tie (tied k l _ ne hk hl _) e h =
    tied k l refl ne (old_entry pre n k mx hk) (old_entry pre n l mx hl) h

-- A lower count, or none at all, changes nothing.
lower-Scan :
    (pre : List ℕ) (n mx : ℕ) (w : ℤ) (tie : Bool)
    → Scan pre mx w tie
    → n ≤ mx
    → (n ≡ mx → mx ≡ 0)
    → Scan (pre ++ n ∷ []) mx w tie
lower-Scan pre n mx w tie (nothing z e t) h k = nothing z e t
lower-Scan pre n mx w tie (leader i e t best) h k = leader i e t (record {
  here = old_entry pre n i mx best.here;
  positive = best.positive;
  above = λ j v g ne. ground (arith, get_elem?-snoc pre n j, best.above j v, best.positive);
})
lower-Scan pre n mx w tie (tied i l t ne hi hl p) h k =
    tied i l t ne (old_entry pre n i mx hi) (old_entry pre n l mx hl) p

finish :
    (xs : List ℕ) (mx : ℕ) (w : ℤ) (tie : Bool)
    → Bounded xs mx
    → Scan xs mx w tie
    → Outcome xs (if tie then negsuc 0 else w)
finish xs mx w tie b (nothing z e t) =
    inr (rw t e, λ k m best. let le : m ≤ mx = b k m best.here in ground (arith, best.positive))
finish xs mx w tie b (leader k e t best) = inl (k, mx, rw t e, best)
finish xs mx w tie b (tied k l t ne hk hl p) = inr (rw t, λ i m best. two_maxima i m best)
  where
    two_maxima : (i m : ℕ) → ¬ IsStrictMax xs i m
    two_maxima i m best =
        let le : m ≤ mx = b i m best.here in
        elim (ℕ_discrete k i) [
          | yes e ↦ absurd (omega (arith, best.above l mx hl (λ z. ne (e ∙ sym z))))
          | no d ↦ absurd (omega (arith, best.above k mx hk d))
        ]

higher_round :
    (n : ℕ) (rest : List ℕ) (i mx : ℕ) (w : ℤ) (tie : Bool)
    → mx < n
    → winner_loop i mx w tie (n ∷ rest) ≡ winner_loop (i + 1) n (pos i) false rest
unfolding winner_loop
higher_round n rest i mx w tie h = rw (lt→ltb mx n h)

equal_round :
    (n : ℕ) (rest : List ℕ) (i mx : ℕ) (w : ℤ) (tie : Bool)
    → n ≡ mx
    → 0 < mx
    → winner_loop i mx w tie (n ∷ rest) ≡ winner_loop (i + 1) mx w true rest
unfolding winner_loop
equal_round n rest i mx w tie e h = ground arith

lower_round :
    (n : ℕ) (rest : List ℕ) (i mx : ℕ) (w : ℤ) (tie : Bool)
    → n ≤ mx
    → (n ≡ mx → mx ≡ 0)
    → winner_loop i mx w tie (n ∷ rest) ≡ winner_loop (i + 1) mx w tie rest
unfolding winner_loop
lower_round n rest i mx w tie h k = ground arith

round_cases : (n mx : ℕ) → (mx < n) ⊎ ((n ≡ mx) × (0 < mx)) ⊎ ((n ≤ mx) × (n ≡ mx → mx ≡ 0))
round_cases n mx = grind arith

loop_lem :
    (rest pre : List ℕ) (i mx : ℕ) (w : ℤ) (tie : Bool)
    → length pre ≡ i
    → Bounded pre mx
    → Scan pre mx w tie
    → Outcome (pre ++ rest) (winner_loop i mx w tie rest)
loop_lem [] pre i mx w tie e b s =
    rw (append-nil pre) (unfold winner_loop in finish pre mx w tie b s)
loop_lem (n ∷ rest) pre i mx w tie e b s = elim (round_cases n mx) [
  | inl h ↦
      rw (higher_round n rest i mx w tie h, regroup)
        (loop_lem rest (pre ++ n ∷ []) (i + 1) n (pos i) false len
          (Bounded-snoc pre n mx n b (omega arith) (omega arith))
          (leader i refl refl
            (subst (λ k. IsStrictMax (pre ++ n ∷ []) k n) e (higher-Scan pre n mx b h))))
  | inr (inl (h, p)) ↦
      rw (equal_round n rest i mx w tie h p, regroup)
        (loop_lem rest (pre ++ n ∷ []) (i + 1) mx w true len
          (Bounded-snoc pre n mx mx b (omega arith) (omega arith))
          (equal-Scan pre n mx w tie s h p))
  | inr (inr (h, k)) ↦
      rw (lower_round n rest i mx w tie h k, regroup)
        (loop_lem rest (pre ++ n ∷ []) (i + 1) mx w tie len
          (Bounded-snoc pre n mx mx b (omega arith) h) (lower-Scan pre n mx w tie s h k))
]
  where
    regroup : pre ++ n ∷ rest ≡ (pre ++ n ∷ []) ++ rest
    regroup = sym (append_assoc pre (n ∷ []) rest)

    len : length (pre ++ n ∷ []) ≡ i + 1
    len = omega (arith, length-append pre (n ∷ []))

no_entry : (xs : List ℕ) → is_empty xs ≡ true → (k m : ℕ) → ¬ IsStrictMax xs k m
no_entry [] h k m best = cc best.here
no_entry (x ∷ xs) h k m best = cc

-- With at least one vote counted, `get_winning_option` returns the index of the one option with
-- strictly more votes than every other, and -1 exactly when there is no such option.
pub get_winning_option_lem :
    (r : PollResults) → 0 < r.total_votes → Outcome r.vote_counts (get_winning_option r)
unfolding get_winning_option
get_winning_option_lem r h = elim (Bool-cases (is_empty r.vote_counts)) [
  | inl e ↦ inr (rw e, no_entry r.vote_counts e)
  | inr e ↦
      let z : (r.total_votes == 0) ≡ false = ground arith in
      rw (e, z)
        (loop_lem r.vote_counts [] 0 0 (negsuc 0) false refl (λ j n g. cc) (nothing refl refl refl))
]
