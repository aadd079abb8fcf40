-- ===== src/Polls/Manager/Consistent.antt =====
-- What a poll manager's two maps have in common, and that the calls on polls keep it.
use open_crank.Prelude.{
  Bool-cases, Option-cases, Bytes, str_eq, str_eq_iff, length, All, Distinct, ℕ, ◌≡◌, refl, sym,
  subst, ◌∙◌, ◌≢◌, ◌⊎◌, inl, inr, true, false, Option, none, some, List, [], map, arith,
}
use open_crank.Prelude.Maps.{
  Map, str_key, lookup, contains, insert, erase, lookup-insert, lookup-erase, contains-insert,
  contains-erase, contains-lookup,
}
use open_crank.Prelude.Maps.Order.{Ascending, insert-Ascending, erase-Ascending}
use open_crank.Prelude.Int.{pos, ltb_ℤ}
use open_crank.Polls.Types.{PollInput, Poll, PollVote, PollNormalizeOptions}
use open_crank.Polls.Normalize.{Result, ok, err, normalize_poll}
use open_crank.Polls.Ballot.Laws.{InRange}
use open_crank.Polls.Manager.{
  PollManager, create_poll, has_poll, close_poll, delete_poll, votes_of, after_create,
}

abbrev pub voters : List PollVote → List Bytes
voters = map (λ v. v.voter_id)

-- A recorded ballot fits its poll.
abbrev pub IsCast : Poll → PollVote → Type 0
IsCast p v =
    All (InRange (length p.options)) v.selected_options
    × Distinct v.selected_options
    × (ltb_ℤ p.max_selections (pos (length v.selected_options)) ≡ false)

-- Nobody votes twice in a poll, and every recorded ballot fits the poll.
abbrev pub IsRoll : Poll → List PollVote → Type 0
IsRoll p vs = Distinct (voters vs) × All (IsCast p) vs

pub record IsConsistent (m : PollManager) : Type 0 where
  pub polls_ascending : Ascending m.polls
  pub votes_ascending : Ascending m.votes
  pub paired : (id : Bytes) → contains id m.polls ≡ contains id m.votes
  pub rolls : (id : Bytes) (p : Poll) → lookup id m.polls ≡ some p → IsRoll p (votes_of m id)

-- What one look at a written map finds.
pub lookup-insert_cases {ℓ} :
    {V : Type ℓ} (id j : Bytes) (v : V) (m : Map Bytes V)
    → ((id ≡ j) × (lookup j (insert id v m) ≡ some v))
      ⊎ ((id ≢ j) × (lookup j (insert id v m) ≡ lookup j m))
lookup-insert_cases id j v m = elim (Bool-cases (str_eq id j)) [
  | inl e ↦ inl ((str_eq_iff id j).0 e, rw (lookup-insert id j v m, e))
  | inr e ↦ inr (λ z. ground (arith, (str_eq_iff id j).1 z), rw (lookup-insert id j v m, e))
]

abbrev or_empty : Option (List PollVote) → List PollVote
or_empty none = []
or_empty (some vs) = vs

pub IsRoll-at :
    (p : Poll) (vs : List PollVote) (o : Option (List PollVote))
    → o ≡ some vs
    → IsRoll p vs
    → IsRoll p (elim o [ none ↦ [] | some ws ↦ ws ])
IsRoll-at p vs o e r = rw e r

pub same-IsRoll :
    (p : Poll) (o o' : Option (List PollVote))
    → o ≡ o'
    → IsRoll p (elim o' [ none ↦ [] | some ws ↦ ws ])
    → IsRoll p (elim o [ none ↦ [] | some ws ↦ ws ])
same-IsRoll p o o' e r = rw e r

-- Writing a poll with a roll that fits it.
put_poll-IsConsistent :
    (m : PollManager) (id : Bytes) (p : Poll) (vs : List PollVote)
    → IsRoll p vs
    → IsConsistent m
    → IsConsistent (record { polls = insert id p m.polls; votes = insert id vs m.votes })
put_poll-IsConsistent m id p vs r c = record {
  polls_ascending = insert-Ascending id p m.polls c.polls_ascending;
  votes_ascending = insert-Ascending id vs m.votes c.votes_ascending;
  paired = λ j.
      ground (arith, contains-insert id j p m.polls, contains-insert id j vs m.votes, c.paired j);
  rolls = λ j q e. elim (lookup-insert_cases id j p m.polls) [
    | inl (same, g) ↦ elim (lookup-insert_cases id j vs m.votes) [
      | inl (_, h) ↦ let put : p ≡ q = cc in IsRoll-at q vs _ h (subst (λ x. IsRoll x vs) put r)
      | inr (ne, _) ↦ absurd (ne same)
    ]
    | inr (ne, g) ↦ elim (lookup-insert_cases id j vs m.votes) [
      | inl (same, _) ↦ absurd (ne same)
      | inr (_, h) ↦ same-IsRoll q _ (lookup j m.votes) h (c.rolls j q (sym g ∙ e))
    ]
  ];
}

pub create_poll-IsConsistent :
    (m : PollManager) (input : PollInput) (limits : PollNormalizeOptions) (now : ℕ) (uuid : Bytes)
    → IsConsistent m
    → IsConsistent (after_create m (create_poll m input limits now uuid))
unfolding create_poll
create_poll-IsConsistent m input limits now uuid c = go (normalize_poll input limits now uuid) refl
  where
    go :
        (r : Result Poll)
        → normalize_poll input limits now uuid ≡ r
        → IsConsistent (after_create m (create_poll m input limits now uuid))
    go (ok p) e = rw (e, after_create) (put_poll-IsConsistent m p.id p [] (tt, tt) c)
    go (err x) e = rw (e, after_create) c

pub found_contains {ℓ} :
    {V : Type ℓ} (id : Bytes) (v : V) (m : Map Bytes V)
    → lookup id m ≡ some v
    → contains id m ≡ true
found_contains id v m e = ground (arith, contains-lookup id m)

-- Replacing a poll by one with the same options and limit.
update_poll-IsConsistent :
    (m : PollManager) (id : Bytes) (p q : Poll)
    → lookup id m.polls ≡ some p
    → ((vs : List PollVote) → IsRoll p vs → IsRoll q vs)
    → IsConsistent m
    → IsConsistent (record m { polls = insert id q m.polls })
update_poll-IsConsistent m id p q e kept c = record {
  polls_ascending = insert-Ascending id q m.polls c.polls_ascending;
  votes_ascending = c.votes_ascending;
  paired = λ j. ground (
    arith,
    contains-insert id j q m.polls,
    c.paired j,
    str_eq_iff id j,
    found_contains id p m.polls e,
  );
  rolls = λ j x g. elim (lookup-insert_cases id j q m.polls) [
    | inl (same, h) ↦
        let put : q ≡ x = cc in
        subst (λ y. IsRoll y (votes_of m j)) put
          (kept (votes_of m j) (c.rolls j p (subst (λ k. lookup k m.polls ≡ some p) same e)))
    | inr (ne, h) ↦ c.rolls j x (sym h ∙ g)
  ];
}

pub close_poll-IsConsistent :
    (m : PollManager) (id : Bytes) → IsConsistent m → IsConsistent (close_poll m id).0
unfolding close_poll
close_poll-IsConsistent m id c = elim (Option-cases (lookup id m.polls)) [
  | inl e ↦ rw (e, close_poll) c
  | inr (p, e) ↦
      rw (e, close_poll)
        (update_poll-IsConsistent m id p (record p { is_closed = true }) e (λ vs r. r) c)
]

erase_cases {ℓ} :
    {V : Type ℓ} (id j : Bytes) (m : Map Bytes V)
    → (lookup j (erase id m) ≡ none) ⊎ ((id ≢ j) × (lookup j (erase id m) ≡ lookup j m))
erase_cases id j m = elim (Bool-cases (str_eq id j)) [
  | inl e ↦ inl (rw (lookup-erase id j m, e))
  | inr e ↦ inr (λ z. ground (arith, (str_eq_iff id j).1 z), rw (lookup-erase id j m, e))
]

drop_poll-IsConsistent :
    (m : PollManager) (id : Bytes)
    → IsConsistent m
    → IsConsistent (record { polls = erase id m.polls; votes = erase id m.votes })
drop_poll-IsConsistent m id c = record {
  polls_ascending = erase-Ascending id m.polls c.polls_ascending;
  votes_ascending = erase-Ascending id m.votes c.votes_ascending;
  paired =
      λ j. ground (arith, contains-erase id j m.polls, contains-erase id j m.votes, c.paired j);
  rolls = λ j q e. elim (erase_cases id j m.polls) [
    | inl g ↦ absurd (cc)
    | inr (ne, g) ↦ elim (Bool-cases (str_eq id j)) [
      | inl same ↦ absurd (ne ((str_eq_iff id j).0 same))
      | inr other ↦
          let same_votes : lookup j (erase id m.votes) ≡ lookup j m.votes =
            rw (lookup-erase id j m.votes, other) in
          same-IsRoll q _ (lookup j m.votes) same_votes (c.rolls j q (sym g ∙ e))
    ]
  ];
}

pub delete_poll-IsConsistent :
    (m : PollManager) (id : Bytes) → IsConsistent m → IsConsistent (delete_poll m id).0
unfolding delete_poll
delete_poll-IsConsistent m id c = elim (Bool-cases (has_poll m id)) [
  | inl e ↦ rw e (drop_poll-IsConsistent m id c)
  | inr e ↦ rw e c
]
