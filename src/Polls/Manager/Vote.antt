-- ===== src/Polls/Manager/Vote.antt =====
-- The branches of `PollManager::vote`.
use open_crank.Prelude.{
  Bytes, ℕ, ◌≡◌, refl, ◌⊎◌, inl, inr, Bool, true, false, Option, none, some, List,
}
use open_crank.Prelude.Maps.{str_key, lookup}
use open_crank.Prelude.Int.{ℤ}
use open_crank.Polls.Types.{Poll, PollVote, VoteError, already_voted, poll_not_found}
use open_crank.Polls.Ballot.{validate_vote}
use open_crank.Polls.Manager.{PollManager, has_voted, record_vote, vote}

abbrev pub new_vote : Bytes → Bytes → List ℤ → ℕ → PollVote
new_vote id voter selected now = record {
  poll_id = id;
  voter_id = voter;
  selected_options = selected;
  voted_at = now;
}

-- A vote is refused and changes nothing, or it meets every condition and is recorded.
abbrev pub VoteOutcome : PollManager → Bytes → Bytes → List ℤ → ℕ → Type 0
VoteOutcome m id voter selected now =
    ((e : VoteError) × (vote m id voter selected now ≡ (m, some e)))
    ⊎ ((p : Poll) × (lookup id m.polls ≡ some p)
        × (validate_vote p selected now ≡ none)
        × (has_voted m id voter ≡ false)
        × (vote m id voter selected now ≡ (record_vote m (new_vote id voter selected now), none)))

module _ (m : PollManager) (id voter : Bytes) (selected : List ℤ) (now : ℕ) where
  on_history :
      (p : Poll) (b : Bool)
      → lookup id m.polls ≡ some p
      → validate_vote p selected now ≡ none
      → has_voted m id voter ≡ b
      → VoteOutcome m id voter selected now
  unfolding vote
  on_history p true e v h = inl (already_voted, rw (e, v, h, vote))
  on_history p false e v h = inr (p, e, v, h, rw (e, v, h, vote))

  on_poll :
      (p : Poll) (o : Option VoteError)
      → lookup id m.polls ≡ some p
      → validate_vote p selected now ≡ o
      → VoteOutcome m id voter selected now
  unfolding vote
  on_poll p none e v = on_history p (has_voted m id voter) e v refl
  on_poll p (some x) e v = inl (x, rw (e, v, vote))

  on_lookup : (o : Option Poll) → lookup id m.polls ≡ o → VoteOutcome m id voter selected now
  unfolding vote
  on_lookup none e = inl (poll_not_found, rw (e, vote))
  on_lookup (some p) e = on_poll p (validate_vote p selected now) e refl

  pub vote_cases : VoteOutcome m id voter selected now
  vote_cases = on_lookup (lookup id m.polls) refl
