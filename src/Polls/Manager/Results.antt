-- ===== src/Polls/Manager/Results.antt =====
-- The results of a poll.
use open_crank.Prelude.{
  ◌==◌, ==_iff, Bool-cases, Option-cases, Bytes, length, get_or, replicate, count, length-replicate,
  All, Distinct, ℕ, zero, suc, ◌≤◌, ◌<◌, ◌≡◌, refl, sym, ap, subst, ◌∙◌, ◌≢◌, inl, inr, some, List,
  [], ◌∷◌, arith,
}
use open_crank.Prelude.Maps.{str_key, lookup}
use open_crank.Prelude.Int.{ℤ, pos, negsuc}
use open_crank.Polls.Types.{Poll, PollVote, PollResults}
use open_crank.Polls.Tally.{count_votes}
use open_crank.Polls.Tally.Laws.{names_option, selections, count_votes_lem}
use open_crank.Polls.Manager.{PollManager, get_poll, votes_of, get_results}
use open_crank.Polls.Manager.Consistent.{IsConsistent, IsCast}

unnamed_count : (i : ℕ) (xs : List ℤ) → All (λ y. pos i ≢ y) xs → count (names_option i) xs ≡ 0
unnamed_count i [] h = refl
unnamed_count i (pos j ∷ xs) (ne, h) =
    ground (arith, unnamed_count i xs h, λ (e : i ≡ j). ne (ap pos e))
unnamed_count i (negsuc j ∷ xs) (ne, h) = omega (arith, unnamed_count i xs h)

-- Distinct options name each option at most once.
count-Distinct : (i : ℕ) (xs : List ℤ) → Distinct xs → count (names_option i) xs ≤ 1
count-Distinct i [] d = omega arith
count-Distinct i (pos j ∷ xs) (h, d) = elim (Bool-cases (i == j)) [
  | inl e ↦
      let same : j ≡ i = sym ((==_iff i j).0 e) in
      let others : All (λ y. pos i ≢ y) xs = subst (λ k. All (λ y. pos k ≢ y) xs) same h in
      rw e (omega (arith, unnamed_count i xs others))
  | inr e ↦ rw e (omega (arith, count-Distinct i xs d))
]
count-Distinct i (negsuc j ∷ xs) (h, d) = omega (arith, count-Distinct i xs d)

selections-le :
    (i : ℕ) (p : Poll) (vs : List PollVote) → All (IsCast p) vs → selections i vs ≤ length vs
selections-le i p [] h = omega arith
selections-le i p (v ∷ vs) ((_, d, _), h) =
    omega (arith, count-Distinct i v.selected_options d, selections-le i p vs h)

abbrev zeros : ℕ → List ℕ
zeros n = replicate n 0

get_or-replicate_zero : (n i : ℕ) → get_or (zeros n) i 0 ≡ 0
get_or-replicate_zero zero i = refl
get_or-replicate_zero (suc n) zero = refl
get_or-replicate_zero (suc n) (suc i) = get_or-replicate_zero n i

-- The results before any vote is counted.
abbrev fresh_results : Bytes → Poll → PollResults
fresh_results id p = record {
  poll_id = id;
  vote_counts = zeros (length p.options);
  total_votes = 0;
  votes_by_voter = [];
}

get_results-count_votes :
    (m : PollManager) (id : Bytes) (p : Poll)
    → get_poll m id ≡ some p
    → get_results m id ≡ count_votes (fresh_results id p) (votes_of m id)
unfolding get_results count_votes
get_results-count_votes m id p e = elim (Option-cases (lookup id m.votes)) [
  | inl f ↦ ground arith
  | inr (vs, f) ↦ ground arith
]

-- In a consistent manager, the results of an existing poll: a count for each option, namely how often the recorded votes
-- select it; the total is the number of votes, and, since nobody selects an option twice, no count
-- exceeds it.
pub get_results_lem :
    (m : PollManager) (id : Bytes) (p : Poll)
    → IsConsistent m
    → get_poll m id ≡ some p
    → (length (get_results m id).vote_counts ≡ length p.options)
      × ((get_results m id).total_votes ≡ length (votes_of m id))
      × ((i : ℕ)
          → i < length p.options
          → (get_or (get_results m id).vote_counts i 0 ≡ selections i (votes_of m id))
            × (get_or (get_results m id).vote_counts i 0 ≤ (get_results m id).total_votes))
get_results_lem m id p c e =
    let vs = votes_of m id in
    let t = count_votes_lem (fresh_results id p) vs in
    let len : length (zeros (length p.options)) ≡ length p.options =
      length-replicate (length p.options) 0 in
    rw (get_results-count_votes m id p e) (
      t.0 ∙ len,
      omega (arith, t.1),
      λ i h.
          let n = t.2 i (omega (arith, len)) in
          let z = get_or-replicate_zero (length p.options) i in
          let fits = selections-le i p vs (unfold get_poll in (c.rolls id p e).1) in
          (omega arith, omega (arith, t.1)),
    )
