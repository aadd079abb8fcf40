-- ===== src/Polls/Manager/Laws.antt =====
-- `PollManager::vote`, once and again.
use open_crank.Prelude.{
  if◌then◌else◌, Bytes, str_eq, str_eq_refl, str_eq_iff, any, ℕ, ◌≡◌, refl, sym, ap, ◌∙◌, ◌≢◌, inl,
  inr, Bool, true, Option, none, some, List, [], ◌∷◌, ◌++◌, arith,
}
use open_crank.Prelude.Maps.{str_key, lookup-insert}
use open_crank.Prelude.Int.{ℤ}
use open_crank.Polls.Types.{PollVote, VoteError}
use open_crank.Polls.Manager.{PollManager, votes_of, has_voted, record_vote, vote}
use open_crank.Polls.Manager.Vote.{new_vote, vote_cases}
use open_crank.Polls.Manager.Invariant.{has_voted-votes_of}

any-snoc :
    {A : Type 0} (p : A → Bool) (xs : List A) (x : A) → p x ≡ true → any p (xs ++ x ∷ []) ≡ true
any-snoc p [] x h = ground arith
any-snoc p (y ∷ xs) x h = ground (arith, any-snoc p xs x h)

votes_of-record_vote :
    (m : PollManager) (v : PollVote) (id : Bytes)
    → votes_of (record_vote m v) id
      ≡ (if str_eq v.poll_id id then votes_of m id ++ v ∷ [] else votes_of m id)
unfolding record_vote
votes_of-record_vote m v id = ground (
  arith,
  lookup-insert v.poll_id id (votes_of m v.poll_id ++ v ∷ []) m.votes,
  str_eq_iff v.poll_id id,
)

has_voted-record_vote :
    (m : PollManager) (v : PollVote) → has_voted (record_vote m v) v.poll_id v.voter_id ≡ true
has_voted-record_vote m v =
    has_voted-votes_of (record_vote m v) v.poll_id v.voter_id
    ∙ rw (votes_of-record_vote m v v.poll_id, str_eq_refl v.poll_id)
        (any-snoc (λ w. str_eq w.voter_id v.voter_id) (votes_of m v.poll_id) v
          (str_eq_refl v.voter_id))

-- A vote that succeeds adds exactly one record, at the end of its poll's votes; other polls' votes
-- and all polls stay as they are, and every later vote of the same voter in that poll is refused
-- and changes nothing.
pub vote_lem :
    (m m' : PollManager) (id voter : Bytes) (selected : List ℤ) (now : ℕ)
    → vote m id voter selected now ≡ (m', none)
    → (m'.polls ≡ m.polls)
      × (votes_of m' id ≡ votes_of m id ++ new_vote id voter selected now ∷ [])
      × ((other : Bytes) → id ≢ other → votes_of m' other ≡ votes_of m other)
      × ((again : List ℤ) (later : ℕ)
          → (e : VoteError) × (vote m' id voter again later ≡ (m', some e)))
vote_lem m m' id voter selected now h = elim (vote_cases m id voter selected now) [
  | inl (e, g) ↦ absurd (cc)
  | inr (p, found, valid, fresh, g) ↦
      let v = new_vote id voter selected now in
      let same : record_vote m v ≡ m' =
        ap (λ (r : PollManager × Option VoteError). r.0) (sym g ∙ h) in
      (
        rw (← same) (unfold record_vote in refl),
        rw (← same, votes_of-record_vote m v id, str_eq_refl id),
        (λ other ne.
            rw (← same) (ground (arith, votes_of-record_vote m v other, str_eq_iff id other))),
        (λ again later. elim (vote_cases m' id voter again later) [
          | inl refused ↦ refused
          | inr (q, _, _, fresh', _) ↦
              let voted : has_voted m' id voter ≡ true = rw (← same) (has_voted-record_vote m v) in
              absurd (cc)
        ]),
      )
]
