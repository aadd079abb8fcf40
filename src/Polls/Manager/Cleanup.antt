-- ===== src/Polls/Manager/Cleanup.antt =====
-- `cleanup_expired`, seen through lookups in the two maps.
use open_crank.Prelude.{
  if◌then◌else◌, Bool-cases, Bytes, str_eq, str_eq_iff, length, any, ℕ, ◌+◌, ◌≡◌, refl, sym, subst,
  ◌∙◌, inl, inr, Bool, true, false, none, some, List, [], ◌∷◌, arith,
}
use open_crank.Prelude.Maps.{Map, str_key, lookup, contains, lookup-erase, contains-lookup}
use open_crank.Prelude.Maps.Order.{keys_where, any-keys_where, drop_if}
use open_crank.Polls.Types.{Poll, is_expired}
use open_crank.Polls.Manager.{PollManager, delete_poll, delete_polls, cleanup_expired}
use open_crank.Polls.Manager.Consistent.{IsConsistent, delete_poll-IsConsistent}

absent {ℓ} :
    {V : Type ℓ} (id : Bytes) (m : Map Bytes V) → contains id m ≡ false → lookup id m ≡ none
absent id m e = ground (arith, contains-lookup id m)

delete_poll-lookups :
    (m : PollManager) (id j : Bytes)
    → IsConsistent m
    → (lookup j (delete_poll m id).0.polls ≡ (if str_eq id j then none else lookup j m.polls))
      × (lookup j (delete_poll m id).0.votes ≡ (if str_eq id j then none else lookup j m.votes))
unfolding delete_poll
delete_poll-lookups m id j c = elim (Bool-cases (contains id m.polls)) [
  | inl e ↦ rw e (lookup-erase id j m.polls, lookup-erase id j m.votes)
  | inr e ↦ rw e (gone (str_eq id j) refl e)
]
  where
    gone :
        (b : Bool)
        → str_eq id j ≡ b
        → contains id m.polls ≡ false
        → (lookup j m.polls ≡ (if b then none else lookup j m.polls))
          × (lookup j m.votes ≡ (if b then none else lookup j m.votes))
    gone true h e =
        let same = (str_eq_iff id j).0 h in
        (
          subst (λ k. lookup k m.polls ≡ none) same (absent id m.polls e),
          subst (λ k. lookup k m.votes ≡ none) same (absent id m.votes (sym (c.paired id) ∙ e)),
        )
    gone false h e = (refl, refl)

delete_polls-lookups :
    (ids : List Bytes) (m : PollManager) (n : ℕ) (j : Bytes)
    → IsConsistent m
    → (lookup j (delete_polls m ids n).0.polls
        ≡ (if any (str_eq j) ids then none else lookup j m.polls))
      × (lookup j (delete_polls m ids n).0.votes
          ≡ (if any (str_eq j) ids then none else lookup j m.votes))
      × ((delete_polls m ids n).1 ≡ n + length ids)
unfolding delete_polls
delete_polls-lookups [] m n j c = (refl, refl, omega arith)
delete_polls-lookups (id ∷ ids) m n j c =
    let ih =
      delete_polls-lookups ids (delete_poll m id).0 (n + 1) j (delete_poll-IsConsistent m id c) in
    let one = delete_poll-lookups m id j c in
    (
      ground (arith, ih.0, one.0, str_eq_iff id j, str_eq_iff j id),
      ground (arith, ih.1, one.1, str_eq_iff id j, str_eq_iff j id),
      omega (arith, ih.2),
    )

-- After the cleanup of a consistent manager a poll is there exactly if it was there and had not expired, unchanged; the votes
-- of the expired polls are gone, all others are unchanged; and the number returned is the number of
-- expired polls.
pub cleanup_expired_lem :
    (m : PollManager) (now : ℕ) (id : Bytes)
    → IsConsistent m
    → let expired = λ (p : Poll). is_expired p now in
      (lookup id (cleanup_expired m now).0.polls ≡ drop_if expired (lookup id m.polls))
      × (lookup id (cleanup_expired m now).0.votes ≡ (elim (lookup id m.polls) [
        | none ↦ none
        | some p ↦ if expired p then none else lookup id m.votes
      ]))
      × ((cleanup_expired m now).1 ≡ length (keys_where expired m.polls))
unfolding cleanup_expired
cleanup_expired_lem m now id c =
    let expired = λ (p : Poll). is_expired p now in
    let t = delete_polls-lookups (keys_where expired m.polls) m 0 id c in
    let k = any-keys_where expired id m.polls c.polls_ascending in
    (
      ground (arith, t.0, k),
      ground (arith, t.1, k, contains-lookup id m.polls, c.paired id, absent id m.votes),
      omega (arith, t.2),
    )
