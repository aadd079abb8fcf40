-- ===== src/Tests/Polls.antt =====
-- The theorems on polls, at a lunch poll.
use open_crank.Prelude.{
  if◌then◌else◌, Bytes, codes, str_eq, length, get_or, ℕ, ◌≤◌, ◌<◌, ◌≡◌, refl, ◌≢◌, ◌↔◌, none, some,
  List, [], ◌∷◌, ◌++◌, arith,
}
use open_crank.Prelude.Maps.{str_key, lookup, insert}
use open_crank.Prelude.Maps.Order.{keys_where, drop_if}
use open_crank.Prelude.Int.{ℤ, pos}
use open_crank.Text.Trim.{trim}
use open_crank.Polls.Types.{
  PollInput, Poll, PollResults, PollNormalizeOptions, VoteError, is_expired, is_active,
}
use open_crank.Polls.Normalize.{ok, normalize_poll, trim_options}
use open_crank.Polls.Normalize.Laws.{
  IsValid, IsAcceptable, normalize_poll_iff, normalize_poll-IsValid, accepted,
}
use open_crank.Polls.Ballot.{validate_vote, check_options}
use open_crank.Polls.Ballot.Laws.{IsBallot, validate_vote_iff}
use open_crank.Polls.Tally.{get_winning_option}
use open_crank.Polls.Tally.Laws.{selections}
use open_crank.Polls.Tally.Winner.{Outcome, get_winning_option_lem}
use open_crank.Polls.Manager.{
  PollManager, no_polls, create_poll, get_poll, votes_of, vote, get_results, cleanup_expired, Call,
  creates, casts, run,
}
use open_crank.Polls.Manager.Vote.{new_vote}
use open_crank.Polls.Manager.Consistent.{IsConsistent}
use open_crank.Polls.Manager.Invariant.{run-no_polls-IsConsistent}
use open_crank.Polls.Manager.Laws.{vote_lem}
use open_crank.Polls.Manager.Results.{get_results_lem}
use open_crank.Polls.Manager.Cleanup.{cleanup_expired_lem}

abbrev lunch_input : PollInput
lunch_input = record {
  question = codes " Lunch? ";
  options = codes "soup" ∷ codes " " ∷ codes "rice " ∷ [];
  max_selections = pos 0;
  duration_hours = pos 2;
}

abbrev limits : PollNormalizeOptions
limits = record { max_options = pos 10; default_hours = pos 24; max_hours = pos 168 }

abbrev id : Bytes
id = codes "p"

abbrev alice : Bytes
alice = codes "alice"

abbrev lunch : Poll
lunch = accepted lunch_input limits 100 id

abbrev soup : List ℤ
soup = pos 0 ∷ []

abbrev calls : List Call
calls = creates lunch_input limits 100 id ∷ casts id alice soup 150 ∷ casts id alice soup 160 ∷ []

run-no_polls-IsConsistent_example : IsConsistent (run no_polls calls)
run-no_polls-IsConsistent_example = run-no_polls-IsConsistent calls

abbrev opened : PollManager
opened = record { polls = (id, lunch) ∷ []; votes = (id, []) ∷ [] }

abbrev voted : PollManager
voted = record { polls = (id, lunch) ∷ []; votes = (id, new_vote id alice soup 150 ∷ []) ∷ [] }

vote_runs : vote opened id alice soup 150 ≡ (voted, none)
unfolding vote validate_vote is_active is_expired insert lookup str_eq normalize_poll trim
    check_options trim_options
vote_runs = refl

vote_lem_example :
    (voted.polls ≡ opened.polls)
    × (votes_of voted id ≡ votes_of opened id ++ new_vote id alice soup 150 ∷ [])
    × ((other : Bytes) → id ≢ other → votes_of voted other ≡ votes_of opened other)
    × ((again : List ℤ) (later : ℕ)
        → (e : VoteError) × (vote voted id alice again later ≡ (voted, some e)))
vote_lem_example = vote_lem opened voted id alice soup 150 vote_runs

validate_vote_iff_example : (validate_vote lunch soup 150 ≡ none) ↔ IsBallot lunch 150 soup
validate_vote_iff_example = validate_vote_iff lunch soup 150

voted-IsConsistent : IsConsistent (run no_polls calls)
voted-IsConsistent = run-no_polls-IsConsistent calls

get_poll_runs : get_poll (run no_polls calls) id ≡ some lunch
unfolding run get_poll vote validate_vote is_active is_expired insert lookup str_eq normalize_poll
    trim create_poll trim_options check_options
get_poll_runs = refl

get_results_lem_example :
    let m = run no_polls calls in
    (length (get_results m id).vote_counts ≡ length lunch.options)
    × ((get_results m id).total_votes ≡ length (votes_of m id))
    × ((i : ℕ)
        → i < length lunch.options
        → (get_or (get_results m id).vote_counts i 0 ≡ selections i (votes_of m id))
          × (get_or (get_results m id).vote_counts i 0 ≤ (get_results m id).total_votes))
get_results_lem_example =
    get_results_lem (run no_polls calls) id lunch voted-IsConsistent get_poll_runs

abbrev three_results : PollResults
three_results = record {
  poll_id = id;
  vote_counts = 1 ∷ 3 ∷ 1 ∷ [];
  total_votes = 5;
  votes_by_voter = [];
}

get_winning_option_lem_example : Outcome (1 ∷ 3 ∷ 1 ∷ []) (get_winning_option three_results)
get_winning_option_lem_example = get_winning_option_lem three_results (omega arith)

normalize_poll_iff_example :
    ((p : Poll) × (normalize_poll lunch_input limits 100 id ≡ ok p))
    ↔ IsAcceptable lunch_input limits
normalize_poll_iff_example = normalize_poll_iff lunch_input limits 100 id

normalize_poll_runs : normalize_poll lunch_input limits 100 id ≡ ok lunch
unfolding normalize_poll trim trim_options
normalize_poll_runs = refl

normalize_poll-IsValid_example : IsValid limits lunch
normalize_poll-IsValid_example =
    normalize_poll-IsValid lunch_input limits 100 id {p = lunch} normalize_poll_runs

cleanup_expired_lem_example :
    let m = run no_polls calls in
    (lookup id (cleanup_expired m 9000).0.polls
      ≡ drop_if (λ p. is_expired p 9000) (lookup id m.polls))
    × (lookup id (cleanup_expired m 9000).0.votes ≡ (elim (lookup id m.polls) [
      | none ↦ none
      | some p ↦ if is_expired p 9000 then none else lookup id m.votes
    ]))
    × ((cleanup_expired m 9000).1 ≡ length (keys_where (λ p. is_expired p 9000) m.polls))
cleanup_expired_lem_example = cleanup_expired_lem (run no_polls calls) 9000 id voted-IsConsistent
