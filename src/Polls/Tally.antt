-- ===== src/Polls/Tally.antt =====
-- `get_winning_option`, and the counting loops of `PollManager::get_results`.
pub mod Laws
pub mod Winner
use open_crank.Prelude.{
  ltb, ◌==◌, if◌then◌else◌, length, get_or, set, is_empty, ℕ, ◌+◌, Bool, true, false, not, ◌&&◌,
  ◌||◌, List, [], ◌∷◌,
}
use open_crank.Prelude.Maps.{Map, Key, nat_key, str_key, lookup, contains, insert, erase}
use open_crank.Prelude.Int.{ℤ, pos, negsuc, is_neg, ltb_ℤ, to_ℕ}
use open_crank.Polls.Types.{PollVote, PollResults}

-- The loop of `get_winning_option` from index `i`.
unfoldable pub winner_loop : ℕ → ℕ → ℤ → Bool → List ℕ → ℤ
winner_loop i max_count winner tie [] = if tie then negsuc 0 else winner
winner_loop i max_count winner tie (n ∷ rest) =
    let higher = winner_loop (i + 1) n (pos i) false rest in
    let equal = winner_loop (i + 1) max_count winner true rest in
    let lower = winner_loop (i + 1) max_count winner tie rest in
    if ltb max_count n then higher else if n == max_count && ltb 0 max_count then equal else lower

-- -1 is `negsuc 0`.
unfoldable pub get_winning_option : PollResults → ℤ
unfolding winner_loop
get_winning_option r =
    if is_empty r.vote_counts || r.total_votes == 0
    then negsuc 0
    else winner_loop 0 0 (negsuc 0) false r.vote_counts

-- `results.vote_counts[opt]++`, if the option is in range.
unfoldable pub count_option : List ℕ → ℤ → List ℕ
count_option counts opt =
    if not (is_neg opt) && ltb_ℤ opt (pos (length counts))
    then set counts (to_ℕ opt) (get_or counts (to_ℕ opt) 0 + 1)
    else counts

unfoldable pub count_options : List ℕ → List ℤ → List ℕ
count_options counts [] = counts
count_options counts (opt ∷ rest) = count_options (count_option counts opt) rest

-- One round of the loop over the votes.
unfoldable pub count_vote : PollResults → PollVote → PollResults
unfolding count_options count_option
count_vote r v = record r {
  votes_by_voter = insert v.voter_id v.selected_options r.votes_by_voter;
  total_votes = r.total_votes + 1;
  vote_counts = count_options r.vote_counts v.selected_options;
}

unfoldable pub count_votes : PollResults → List PollVote → PollResults
unfolding count_vote
count_votes r [] = r
count_votes r (v ∷ vs) = count_votes (count_vote r v) vs
