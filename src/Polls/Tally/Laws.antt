-- ===== src/Polls/Tally/Laws.antt =====
-- What the tally counts.
use open_crank.Prelude.{
  ◌==◌, if◌then◌else◌, length, get_or, set, count, length-set, ℕ, zero, suc, ◌+◌, ◌<◌, ◌≡◌, refl,
  ◌∙◌, Bool, false, List, [], ◌∷◌, arith,
}
use open_crank.Prelude.Maps.{nat_key, str_key}
use open_crank.Prelude.Int.{ℤ, pos, negsuc, to_ℕ}
use open_crank.Polls.Types.{PollVote, PollResults}
use open_crank.Polls.Tally.{count_option, count_options, count_vote, count_votes}

-- The selection names option `i`.
abbrev pub names_option : ℕ → ℤ → Bool
names_option i (pos j) = i == j
names_option i (negsuc j) = false

-- How often the votes select option `i`.
abbrev pub selections : ℕ → List PollVote → ℕ
selections i [] = 0
selections i (v ∷ vs) = count (names_option i) v.selected_options + selections i vs

get_or-set_ℕ :
    (xs : List ℕ) (i j v : ℕ)
    → i < length xs
    → get_or (set xs i v) j 0 ≡ (if i == j then v else get_or xs j 0)
get_or-set_ℕ [] i j v h = elim h [ ]
get_or-set_ℕ (x ∷ xs) zero zero v h = refl
get_or-set_ℕ (x ∷ xs) zero (suc j) v h = ground arith
get_or-set_ℕ (x ∷ xs) (suc i) zero v h = ground arith
get_or-set_ℕ (x ∷ xs) (suc i) (suc j) v h = ground (arith, get_or-set_ℕ xs i j v)

length-count_option : (counts : List ℕ) (opt : ℤ) → length (count_option counts opt) ≡ length counts
unfolding count_option
length-count_option counts opt =
    ground (arith, length-set counts (to_ℕ opt) (get_or counts (to_ℕ opt) 0 + 1))

get_or-count_option :
    (counts : List ℕ) (opt : ℤ) (i : ℕ)
    → i < length counts
    → get_or (count_option counts opt) i 0
      ≡ get_or counts i 0 + (if names_option i opt then 1 else 0)
unfolding count_option
get_or-count_option counts (negsuc j) i h = omega arith
get_or-count_option counts (pos j) i h =
    ground (arith, get_or-set_ℕ counts j i (get_or counts j 0 + 1))

length-count_options :
    (counts : List ℕ) (opts : List ℤ) → length (count_options counts opts) ≡ length counts
unfolding count_options
length-count_options counts [] = refl
length-count_options counts (o ∷ os) =
    length-count_options (count_option counts o) os ∙ length-count_option counts o

get_or-count_options :
    (counts : List ℕ) (opts : List ℤ) (i : ℕ)
    → i < length counts
    → get_or (count_options counts opts) i 0 ≡ get_or counts i 0 + count (names_option i) opts
unfolding count_options
get_or-count_options counts [] i h = omega arith
get_or-count_options counts (o ∷ os) i h =
    let len = length-count_option counts o in
    omega (
      arith,
      get_or-count_options (count_option counts o) os i (omega arith),
      get_or-count_option counts o i h,
    )

-- Counting the votes adds, for every option, the number of times the votes select it, one to the
-- total for each vote, and leaves the number of options alone.
pub count_votes_lem :
    (r : PollResults) (vs : List PollVote)
    → (length (count_votes r vs).vote_counts ≡ length r.vote_counts)
      × ((count_votes r vs).total_votes ≡ r.total_votes + length vs)
      × ((i : ℕ)
          → i < length r.vote_counts
          → get_or (count_votes r vs).vote_counts i 0 ≡ get_or r.vote_counts i 0 + selections i vs)
unfolding count_votes
count_votes_lem r [] = (refl, omega arith, λ i h. omega arith)
count_votes_lem r (v ∷ vs) =
    let (len, total, counts) = count_votes_lem (count_vote r v) vs in
    let len' = length-count_options r.vote_counts v.selected_options in
    (
      len ∙ len',
      omega arith,
      λ i h. omega (
        arith,
        counts i (omega arith),
        get_or-count_options r.vote_counts v.selected_options i h,
      ),
    )
