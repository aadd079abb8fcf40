-- ===== src/Polls/Types.antt =====
-- The data of polls.hpp, and the methods of `Poll`.
use open_crank.Prelude.{
  ltb, ◌==◌, if◌then◌else◌, Bytes, ℕ, ◌+◌, ◌-◌, ◌<◌, ◌≡◌, Bool, true, false, not, ◌&&◌, List, arith,
}
use open_crank.Prelude.Maps.{Map, nat_key, str_key}
use open_crank.Prelude.Int.{ℤ}

pub record PollInput : Type 0 where
  pub question : Bytes
  pub options : List Bytes
  pub max_selections : ℤ
  pub duration_hours : ℤ

pub record Poll : Type 0 where
  pub id : Bytes
  pub question : Bytes
  pub options : List Bytes
  pub max_selections : ℤ
  pub duration_hours : ℤ
  pub created_at : ℕ
  pub expires_at : ℕ
  pub is_closed : Bool

pub record PollVote : Type 0 where
  pub poll_id : Bytes
  pub voter_id : Bytes
  pub selected_options : List ℤ
  pub voted_at : ℕ

pub record PollResults : Type 0 where
  pub poll_id : Bytes
  pub vote_counts : List ℕ
  pub total_votes : ℕ
  pub votes_by_voter : Map Bytes (List ℤ)

pub record PollNormalizeOptions : Type 0 where
  pub max_options : ℤ
  pub default_hours : ℤ
  pub max_hours : ℤ

-- The messages that `normalize_poll` throws.
pub data PollError : Type 0 where
  question_required : PollError
  too_few_options : PollError
  too_many_options : ℤ → PollError
  max_selections_below_one : PollError
  max_selections_exceed_options : PollError

-- The messages that `validate_vote` and `vote` return; the empty message is `none`.
pub data VoteError : Type 0 where
  poll_not_found : VoteError
  poll_inactive : VoteError
  no_selection : VoteError
  too_many_selections : ℤ → VoteError
  invalid_option : VoteError
  duplicate_option : VoteError
  already_voted : VoteError

-- The methods read the clock, `now`.
unfoldable pub is_expired : Poll → ℕ → Bool
is_expired poll now = if poll.expires_at == 0 then false else ltb poll.expires_at now

unfoldable pub is_active : Poll → ℕ → Bool
unfolding is_expired
is_active poll now = not poll.is_closed && not (is_expired poll now)

unfoldable pub time_remaining : Poll → ℕ → ℕ
time_remaining poll now =
    if poll.expires_at == 0 then 0 else if ltb now poll.expires_at then poll.expires_at - now else 0

-- A poll with time remaining that is not closed is active, still is at the very second of its expiry,
-- and is not a second later.
is_active-time_remaining :
    (poll : Poll) (now : ℕ)
    → poll.is_closed ≡ false
    → 0 < time_remaining poll now
    → (is_active poll now ≡ true)
      × (is_active poll (now + time_remaining poll now) ≡ true)
      × (is_active poll (now + time_remaining poll now + 1) ≡ false)
unfolding is_active time_remaining
is_active-time_remaining poll now h k = ground arith
