-- ===== src/Polls/Ballot/Laws.antt =====
-- `validate_vote` against the conditions on a ballot.
use open_crank.Prelude.{
  length, get_or, set, replicate, is_empty, length-set, length-replicate, All, Distinct, get_or-set,
  ℕ, zero, suc, ◌<◌, ◌≡◌, refl, ap, ◌∙◌, ◌≢◌, ◌↔◌, Bool, true, false, none, List, [], ◌∷◌, arith,
}
use open_crank.Prelude.Int.{ℤ, pos, negsuc, ltb_ℤ, to_ℕ}
use open_crank.Polls.Types.{Poll, is_active}
use open_crank.Polls.Ballot.{check_options, validate_vote}

-- An index of one of `n` options.
abbrev pub InRange : ℕ → ℤ → Type 0
InRange n (pos i) = i < n
InRange n (negsuc i) = ⊥

abbrev Unseen : List Bool → ℤ → Type 0
Unseen seen x = get_or seen (to_ℕ x) false ≡ false

abbrev Fits : ℕ → List Bool → List ℤ → Type 0
Fits n seen xs = All (InRange n) xs × Distinct xs × All (Unseen seen) xs

Unseen-set_sound :
    (n : ℕ) (seen : List Bool) (i : ℕ) (xs : List ℤ)
    → i < length seen
    → All (InRange n) xs
    → All (Unseen (set seen i true)) xs
    → All (λ y. pos i ≢ y) xs × All (Unseen seen) xs
Unseen-set_sound n seen i [] h r u = (tt, tt)
Unseen-set_sound n seen i (pos j ∷ xs) h (r, rs) (u, us) =
    let (d, s) = Unseen-set_sound n seen i xs h rs us in
    let e = get_or-set seen i j h in ((λ z. ground (arith, ap to_ℕ z), d), (ground arith, s))
Unseen-set_sound n seen i (negsuc j ∷ xs) h (r, rs) (u, us) = absurd r

Unseen-set_complete :
    (n : ℕ) (seen : List Bool) (i : ℕ) (xs : List ℤ)
    → i < length seen
    → All (InRange n) xs
    → All (λ y. pos i ≢ y) xs
    → All (Unseen seen) xs
    → All (Unseen (set seen i true)) xs
Unseen-set_complete n seen i [] h r d u = tt
Unseen-set_complete n seen i (pos j ∷ xs) h (r, rs) (d, ds) (u, us) =
    let e = get_or-set seen i j h in
    (ground (arith, λ (z : i ≡ j). d (ap pos z)), Unseen-set_complete n seen i xs h rs ds us)
Unseen-set_complete n seen i (negsuc j ∷ xs) h (r, rs) (d, ds) (u, us) = absurd r

check_options_sound :
    (n : ℕ) (seen : List Bool) (xs : List ℤ)
    → length seen ≡ n
    → check_options n seen xs ≡ none
    → Fits n seen xs
unfolding check_options
check_options_sound n seen [] len h = (tt, tt, tt)
check_options_sound n seen (negsuc j ∷ xs) len h = cc
check_options_sound n seen (pos i ∷ xs) len h =
    let lt : i < n = ground arith in
    let (r, d, u) =
      check_options_sound n (set seen i true) xs (length-set seen i true ∙ len) (ground arith) in
    let (d', u') = Unseen-set_sound n seen i xs (omega arith) r u in
    ((lt, r), (d', d), (ground arith, u'))

check_options_complete :
    (n : ℕ) (seen : List Bool) (xs : List ℤ)
    → length seen ≡ n
    → Fits n seen xs
    → check_options n seen xs ≡ none
unfolding check_options
check_options_complete n seen [] len fits = refl
check_options_complete n seen (negsuc j ∷ xs) len ((r, rs), ds, us) = absurd r
check_options_complete n seen (pos i ∷ xs) len ((r, rs), (d, ds), (u, us)) =
    let marks = Unseen-set_complete n seen i xs (omega arith) rs d us in
    let ih =
      check_options_complete n (set seen i true) xs (length-set seen i true ∙ len)
        (rs, ds, marks) in
    ground arith

get_or-replicate : (n i : ℕ) → get_or (replicate n false) i false ≡ false
get_or-replicate zero i = refl
get_or-replicate (suc n) zero = refl
get_or-replicate (suc n) (suc i) = get_or-replicate n i

All-Unseen : (n : ℕ) (xs : List ℤ) → All (Unseen (replicate n false)) xs
All-Unseen n [] = tt
All-Unseen n (x ∷ xs) = (get_or-replicate n (to_ℕ x), All-Unseen n xs)

-- A ballot that the poll admits: the poll is active, and the selection is one or more distinct
-- option indices, at most as many as the poll allows.
pub record IsBallot (poll : Poll) (now : ℕ) (xs : List ℤ) : Type 0 where
  pub active : is_active poll now ≡ true
  pub selected : xs ≢ []
  pub not_too_many : ltb_ℤ poll.max_selections (pos (length xs)) ≡ false
  pub in_range : All (InRange (length poll.options)) xs
  pub distinct : Distinct xs

ne_nil-is_empty {ℓ} : {A : Type ℓ} (xs : List A) → xs ≢ [] → is_empty xs ≡ false
ne_nil-is_empty [] h = absurd (h refl)
ne_nil-is_empty (x ∷ xs) h = refl

-- What the tests of `validate_vote` come to.
abbrev Tests : Poll → List ℤ → ℕ → Type 0
Tests poll xs now =
    (is_active poll now ≡ true)
    × (is_empty xs ≡ false)
    × (ltb_ℤ poll.max_selections (pos (length xs)) ≡ false)
    × (check_options (length poll.options) (replicate (length poll.options) false) xs ≡ none)

validate_vote-Tests :
    (poll : Poll) (xs : List ℤ) (now : ℕ) → (validate_vote poll xs now ≡ none) ↔ Tests poll xs now
unfolding validate_vote
validate_vote-Tests poll xs now = (λ h. ground arith, λ t. ground arith)

-- `validate_vote` returns no error exactly for the ballots that the poll admits.
pub validate_vote_iff :
    (poll : Poll) (xs : List ℤ) (now : ℕ)
    → (validate_vote poll xs now ≡ none) ↔ IsBallot poll now xs
validate_vote_iff poll xs now = (sound, complete)
  where
    n : ℕ
    n = length poll.options

    len : length (replicate n false) ≡ n
    len = length-replicate n false

    sound : validate_vote poll xs now ≡ none → IsBallot poll now xs
    sound h =
        let t = (validate_vote-Tests poll xs now).0 h in
        let (r, d, u) = check_options_sound n (replicate n false) xs len t.3 in
        record {
          active = t.0;
          selected = λ e. ground (arith, t.1, ap is_empty e);
          not_too_many = t.2;
          in_range = r;
          distinct = d;
        }

    complete : IsBallot poll now xs → validate_vote poll xs now ≡ none
    complete b = (validate_vote-Tests poll xs now).1 (
      b.active,
      ne_nil-is_empty xs b.selected,
      b.not_too_many,
      check_options_complete n (replicate n false) xs len (b.in_range, b.distinct, All-Unseen n xs),
    )
