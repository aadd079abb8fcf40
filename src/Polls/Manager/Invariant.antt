-- ===== src/Polls/Manager/Invariant.antt =====
-- What every history of calls keeps true of the two maps.
use open_crank.Prelude.{
  Bytes, str_eq, str_eq_iff, any, All, All-append, Distinct-snoc, map-snoc, ℕ, ◌+◌, ◌≡◌, refl, sym,
  subst, ◌∙◌, ◌≢◌, inl, inr, false, some, List, [], ◌∷◌, ◌++◌, arith,
}
use open_crank.Prelude.Maps.{str_key, lookup, contains, contains-insert}
use open_crank.Prelude.Maps.Order.{insert-Ascending, keys_where}
use open_crank.Prelude.Int.{ℤ}
use open_crank.Polls.Types.{PollInput, Poll, PollVote, PollNormalizeOptions}
use open_crank.Polls.Ballot.Laws.{validate_vote_iff}
use open_crank.Polls.Manager.{
  PollManager, no_polls, delete_poll, votes_of, has_voted, record_vote, vote, delete_polls,
  cleanup_expired, Call, creates, closes, deletes, casts, cleans, step, run,
}
use open_crank.Polls.Manager.Vote.{new_vote, vote_cases}
use open_crank.Polls.Manager.Consistent.{
  voters, IsCast, IsRoll, IsConsistent, lookup-insert_cases, IsRoll-at, same-IsRoll,
  create_poll-IsConsistent, found_contains, close_poll-IsConsistent, delete_poll-IsConsistent,
}

not_voted :
    (vs : List PollVote) (voter : Bytes)
    → any (λ v. str_eq v.voter_id voter) vs ≡ false
    → All (λ y. y ≢ voter) (voters vs)
not_voted [] voter h = tt
not_voted (v ∷ vs) voter h =
    (λ e. ground (arith, (str_eq_iff v.voter_id voter).1 e), not_voted vs voter (ground arith))

IsRoll-snoc :
    (p : Poll) (vs : List PollVote) (v : PollVote)
    → IsRoll p vs
    → IsCast p v
    → any (λ w. str_eq w.voter_id v.voter_id) vs ≡ false
    → IsRoll p (vs ++ v ∷ [])
IsRoll-snoc p vs v (d, cs) cast fresh = (
  rw (map-snoc (λ (w : PollVote). w.voter_id) vs v)
      (Distinct-snoc (voters vs) v.voter_id d (not_voted vs v.voter_id fresh)),
  All-append (IsCast p) vs (v ∷ []) cs (cast, tt),
)

pub has_voted-votes_of :
    (m : PollManager) (id voter : Bytes)
    → has_voted m id voter ≡ any (λ v. str_eq v.voter_id voter) (votes_of m id)
unfolding has_voted
has_voted-votes_of m id voter = ground arith

-- Recording a fresh ballot of an existing poll.
record_vote-IsConsistent :
    (m : PollManager) (p : Poll) (v : PollVote)
    → lookup v.poll_id m.polls ≡ some p
    → IsCast p v
    → has_voted m v.poll_id v.voter_id ≡ false
    → IsConsistent m
    → IsConsistent (record_vote m v)
unfolding record_vote
record_vote-IsConsistent m p v e cast fresh c = record {
  polls_ascending = c.polls_ascending;
  votes_ascending = insert-Ascending v.poll_id roll m.votes c.votes_ascending;
  paired = λ j. ground (
    arith,
    contains-insert v.poll_id j roll m.votes,
    c.paired j,
    str_eq_iff v.poll_id j,
    found_contains v.poll_id p m.polls e,
  );
  rolls = λ j q g. elim (lookup-insert_cases v.poll_id j roll m.votes) [
    | inl (same, h) ↦
        let found : p ≡ q = cc in IsRoll-at q roll _ h (subst (λ x. IsRoll x roll) found extended)
    | inr (ne, h) ↦ same-IsRoll q _ (lookup j m.votes) h (c.rolls j q g)
  ];
}
  where
    roll : List PollVote
    roll = votes_of m v.poll_id ++ v ∷ []

    extended : IsRoll p roll
    extended =
        IsRoll-snoc p (votes_of m v.poll_id) v (c.rolls v.poll_id p e) cast
          (sym (has_voted-votes_of m v.poll_id v.voter_id) ∙ fresh)

vote-IsConsistent :
    (m : PollManager) (id voter : Bytes) (selected : List ℤ) (now : ℕ)
    → IsConsistent m
    → IsConsistent (vote m id voter selected now).0
vote-IsConsistent m id voter selected now c = elim (vote_cases m id voter selected now) [
  | inl (e, h) ↦ rw h c
  | inr (p, found, valid, fresh, h) ↦
      let b = (validate_vote_iff p selected now).0 valid in
      rw h (
        record_vote-IsConsistent m p (new_vote id voter selected now) found
          (b.in_range, b.distinct, b.not_too_many) fresh c)
]

delete_polls-IsConsistent :
    (ids : List Bytes) (m : PollManager) (n : ℕ)
    → IsConsistent m
    → IsConsistent (delete_polls m ids n).0
unfolding delete_polls
delete_polls-IsConsistent [] m n c = c
delete_polls-IsConsistent (id ∷ ids) m n c =
    delete_polls-IsConsistent ids (delete_poll m id).0 (n + 1) (delete_poll-IsConsistent m id c)

-- Every call keeps the manager consistent.
pub step-IsConsistent : (m : PollManager) (c : Call) → IsConsistent m → IsConsistent (step m c)
unfolding step
step-IsConsistent m (creates input limits now uuid) h =
    create_poll-IsConsistent m input limits now uuid h
step-IsConsistent m (closes id) h = close_poll-IsConsistent m id h
step-IsConsistent m (deletes id) h = delete_poll-IsConsistent m id h
step-IsConsistent m (casts id voter selected now) h = vote-IsConsistent m id voter selected now h
step-IsConsistent m (cleans now) h =
    unfold cleanup_expired in
    delete_polls-IsConsistent (keys_where (λ p. open_crank.Polls.Types.is_expired p now) m.polls) m
      0 h

run-IsConsistent : (cs : List Call) (m : PollManager) → IsConsistent m → IsConsistent (run m cs)
unfolding run
run-IsConsistent [] m h = h
run-IsConsistent (c ∷ cs) m h = run-IsConsistent cs (step m c) (step-IsConsistent m c h)

nothing_found : (id : Bytes) (p : Poll) → lookup id [] ≡ some p → IsRoll p (votes_of no_polls id)
unfolding lookup
nothing_found id p e = cc

-- After any history of calls, a poll and its votes are there or gone together, nobody has voted
-- twice in a poll, and every recorded ballot selects distinct options of its poll, no more than allowed.
pub run-no_polls-IsConsistent : (cs : List Call) → IsConsistent (run no_polls cs)
run-no_polls-IsConsistent cs = run-IsConsistent cs no_polls (record {
  polls_ascending = tt;
  votes_ascending = tt;
  paired = λ id. unfold contains in refl;
  rolls = λ id p e. nothing_found id p e;
})
