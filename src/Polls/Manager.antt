-- ===== src/Polls/Manager.antt =====
-- `PollManager`: its two maps and its methods. A method that reads the clock takes the reading; one
-- that reads it for every poll of a loop, or twice in one vote, takes one reading for all.
pub mod Vote
pub mod Consistent
pub mod Invariant
pub mod Laws
pub mod Results
pub mod Cleanup
use open_crank.Prelude.{
  if◌then◌else◌, Bytes, str_eq, length, replicate, any, ℕ, ◌+◌, Bool, true, false, not, Option,
  none, some, List, [], ◌∷◌, ◌++◌,
}
use open_crank.Prelude.Maps.{Map, Key, str_key, lookup, contains, insert, erase}
use open_crank.Prelude.Maps.Order.{keys_where}
use open_crank.Prelude.Int.{ℤ}
use open_crank.Polls.Types.{
  PollInput, Poll, PollVote, PollResults, PollNormalizeOptions, VoteError, poll_not_found,
  already_voted, is_expired, is_active,
}
use open_crank.Polls.Normalize.{Result, ok, err, normalize_poll}
use open_crank.Polls.Ballot.{validate_vote}
use open_crank.Polls.Tally.{count_votes}

pub record PollManager : Type 0 where
  pub polls : Map Bytes Poll
  pub votes : Map Bytes (List PollVote)

abbrev pub no_polls : PollManager
no_polls = record { polls = []; votes = [] }

unfoldable pub create_poll :
    PollManager → PollInput → PollNormalizeOptions → ℕ → Bytes → Result (PollManager × Poll)
create_poll m input limits now uuid = elim (normalize_poll input limits now uuid) [
  | ok poll ↦
      ok (record { polls = insert poll.id poll m.polls; votes = insert poll.id [] m.votes }, poll)
  | err e ↦ err e
]

unfoldable pub get_poll : PollManager → Bytes → Option Poll
get_poll m poll_id = lookup poll_id m.polls

unfoldable pub has_poll : PollManager → Bytes → Bool
has_poll m poll_id = contains poll_id m.polls

unfoldable pub close_poll : PollManager → Bytes → PollManager × Bool
unfolding get_poll
close_poll m poll_id = elim (get_poll m poll_id) [
  | none ↦ (m, false)
  | some poll ↦
      (record m { polls = insert poll_id (record poll { is_closed = true }) m.polls }, true)
]

unfoldable pub delete_poll : PollManager → Bytes → PollManager × Bool
unfolding has_poll
delete_poll m poll_id =
    if not (has_poll m poll_id)
    then (m, false)
    else (record { polls = erase poll_id m.polls; votes = erase poll_id m.votes }, true)

-- The votes of a poll; `votes_[poll_id]` on a missing key is an empty vector.
abbrev pub votes_of : PollManager → Bytes → List PollVote
votes_of m poll_id = elim (lookup poll_id m.votes) [ none ↦ [] | some vs ↦ vs ]

unfoldable pub has_voted : PollManager → Bytes → Bytes → Bool
has_voted m poll_id voter_id = elim (lookup poll_id m.votes) [
  | none ↦ false
  | some vs ↦ any (λ v. str_eq v.voter_id voter_id) vs
]

-- `push_back` on `votes_[poll_id]`.
unfoldable pub record_vote : PollManager → PollVote → PollManager
record_vote m v = record m { votes = insert v.poll_id (votes_of m v.poll_id ++ v ∷ []) m.votes }

unfoldable pub vote : PollManager → Bytes → Bytes → List ℤ → ℕ → PollManager × Option VoteError
unfolding get_poll has_voted record_vote
vote m poll_id voter_id selected now = elim (get_poll m poll_id) [
  | none ↦ (m, some poll_not_found)
  | some poll ↦ elim (validate_vote poll selected now) [
    | some e ↦ (m, some e)
    | none ↦ if has_voted m poll_id voter_id then (m, some already_voted) else (
      record_vote m (record {
        poll_id = poll_id;
        voter_id = voter_id;
        selected_options = selected;
        voted_at = now;
      }),
      none,
    )
  ]
]

unfoldable pub get_results : PollManager → Bytes → PollResults
unfolding get_poll
get_results m poll_id =
    let empty : PollResults = record {
      poll_id = poll_id;
      vote_counts = [];
      total_votes = 0;
      votes_by_voter = [];
    } in
    elim (get_poll m poll_id) [
      | none ↦ empty
      | some poll ↦
          let fresh = record empty { vote_counts = replicate (length poll.options) 0 } in
          elim (lookup poll_id m.votes) [ none ↦ fresh | some vs ↦ count_votes fresh vs ]
    ]

find_selection : Bytes → List PollVote → List ℤ
find_selection voter_id [] = []
find_selection voter_id (v ∷ vs) =
    if str_eq v.voter_id voter_id then v.selected_options else find_selection voter_id vs

unfoldable pub get_voter_selection : PollManager → Bytes → Bytes → List ℤ
unfolding find_selection
get_voter_selection m poll_id voter_id = find_selection voter_id (votes_of m poll_id)

-- The second loop of `cleanup_expired`; the count grows whatever `delete_poll` returns.
unfoldable pub delete_polls : PollManager → List Bytes → ℕ → PollManager × ℕ
unfolding delete_poll
delete_polls m [] removed = (m, removed)
delete_polls m (id ∷ ids) removed = delete_polls (delete_poll m id).0 ids (removed + 1)

unfoldable pub cleanup_expired : PollManager → ℕ → PollManager × ℕ
unfolding delete_polls
cleanup_expired m now = delete_polls m (keys_where (λ p. is_expired p now) m.polls) 0

unfoldable pub active_poll_ids : PollManager → ℕ → List Bytes
active_poll_ids m now = keys_where (λ p. is_active p now) m.polls

-- A call of the plugin, with the clock readings and the identifiers that it meets.
pub data Call : Type 0 where
  creates : PollInput → PollNormalizeOptions → ℕ → Bytes → Call
  closes deletes : Bytes → Call
  casts : Bytes → Bytes → List ℤ → ℕ → Call
  cleans : ℕ → Call

-- A `create_poll` that throws leaves the maps alone.
abbrev pub after_create : PollManager → Result (PollManager × Poll) → PollManager
after_create m (ok (m', p)) = m'
after_create m (err e) = m

unfoldable pub step : PollManager → Call → PollManager
step m (creates input limits now uuid) = after_create m (create_poll m input limits now uuid)
step m (closes id) = (close_poll m id).0
step m (deletes id) = (delete_poll m id).0
step m (casts id voter selected now) = (vote m id voter selected now).0
step m (cleans now) = (cleanup_expired m now).0

unfoldable pub run : PollManager → List Call → PollManager
unfolding step
run m [] = m
run m (c ∷ cs) = run (step m c) cs
