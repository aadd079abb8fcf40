-- ===== src/RateLimiter/Debouncer/Laws.antt =====
-- `should_process` over a history of messages.
use open_crank.Prelude.{
  Bool-cases, Bytes, str_eq_refl, str_eq_iff, ℕ, ◌+◌, ◌≤◌, ◌<◌, ◌≡◌, refl, sym, subst, ◌∙◌, inl,
  inr, true, false, none, some, List, [], ◌∷◌, arith,
}
use open_crank.Prelude.Maps.{str_key, lookup, contains, lookup-insert, contains-lookup}
use open_crank.Prelude.Maps.Order.{
  Ascending, lookup-erase_where, erase_all-Ascending, insert-Ascending, drop_if,
}
use open_crank.RateLimiter.Debouncer.{Debouncer, is_old, cleanup, should_process, feed}

lookup-cleanup :
    (d : Debouncer) (now : ℕ) (id : Bytes)
    → Ascending d.seen_messages
    → lookup id (cleanup d now).seen_messages
      ≡ drop_if (is_old d.window_seconds now) (lookup id d.seen_messages)
unfolding cleanup
lookup-cleanup d now id a = lookup-erase_where (is_old d.window_seconds now) id d.seen_messages a

cleanup-Ascending :
    (d : Debouncer) (now : ℕ) → Ascending d.seen_messages → Ascending (cleanup d now).seen_messages
unfolding cleanup
cleanup-Ascending d now a = erase_all-Ascending _ d.seen_messages a

should_process-Ascending :
    (d : Debouncer) (id : Bytes) (cleaned now : ℕ)
    → Ascending d.seen_messages
    → Ascending (should_process d id cleaned now).0.seen_messages
unfolding should_process
should_process-Ascending d id cleaned now a =
    let c = cleanup d cleaned in
    elim (Bool-cases (contains id c.seen_messages)) [
      | inl e ↦ rw e (cleanup-Ascending d cleaned a)
      | inr e ↦ rw e (insert-Ascending id now c.seen_messages (cleanup-Ascending d cleaned a))
    ]

feed-Ascending :
    (ms : List (Bytes × (ℕ × ℕ))) (d : Debouncer)
    → Ascending d.seen_messages
    → Ascending (feed d ms).seen_messages
unfolding feed
feed-Ascending [] d a = a
feed-Ascending ((id, (cleaned, now)) ∷ ms) d a =
    feed-Ascending ms (should_process d id cleaned now).0
      (should_process-Ascending d id cleaned now a)

window_kept :
    (d : Debouncer) (id : Bytes) (cleaned now : ℕ)
    → (should_process d id cleaned now).0.window_seconds ≡ d.window_seconds
unfolding should_process cleanup
window_kept d id cleaned now = ground arith

-- What becomes of a recorded message when any message comes in within its window.
keeps_record :
    (d : Debouncer) (id other : Bytes) (t cleaned now : ℕ)
    → Ascending d.seen_messages
    → lookup id d.seen_messages ≡ some t
    → cleaned ≤ t + d.window_seconds
    → (lookup id (should_process d other cleaned now).0.seen_messages ≡ some t)
      × ((should_process d id cleaned now).1 ≡ false)
unfolding should_process
keeps_record d id other t cleaned now a e le =
    let c = cleanup d cleaned in
    let kept : lookup id c.seen_messages ≡ some t =
      lookup-cleanup d cleaned id a ∙ rw e (ground arith) in
    (
      ground (
        arith,
        kept,
        lookup-insert other id now c.seen_messages,
        contains-lookup other c.seen_messages,
        str_eq_iff other id,
      ),
      ground (arith, kept, contains-lookup id c.seen_messages),
    )

-- Every pair of readings is no later than `end`.
abbrev pub Until : ℕ → List (Bytes × (ℕ × ℕ)) → Type 0
Until end [] = Unit
Until end ((id, (cleaned, now)) ∷ rest) = (cleaned ≤ end) × Until end rest

feed_keeps :
    (ms : List (Bytes × (ℕ × ℕ))) (d : Debouncer) (id : Bytes) (t : ℕ)
    → Ascending d.seen_messages
    → lookup id d.seen_messages ≡ some t
    → Until (t + d.window_seconds) ms
    → (lookup id (feed d ms).seen_messages ≡ some t)
      × ((feed d ms).window_seconds ≡ d.window_seconds)
unfolding feed
feed_keeps [] d id t a e u = (e, refl)
feed_keeps ((other, (cleaned, now)) ∷ ms) d id t a e (le, u) =
    let d' = (should_process d other cleaned now).0 in
    let same = window_kept d other cleaned now in
    let ih =
      feed_keeps ms d' id t (should_process-Ascending d other cleaned now a)
        (keeps_record d id other t cleaned now a e le).0
        (subst (λ k. Until (t + k) ms) (sym same) u) in
    (ih.0, ih.1 ∙ same)

recorded :
    (d : Debouncer) (id : Bytes) (cleaned now : ℕ)
    → (should_process d id cleaned now).1 ≡ true
    → lookup id (should_process d id cleaned now).0.seen_messages ≡ some now
unfolding should_process
recorded d id cleaned now h =
    ground (arith, lookup-insert id id now (cleanup d cleaned).seen_messages, str_eq_refl id)

-- Past its window a message counts as new.
expires :
    (d : Debouncer) (id : Bytes) (t cleaned now : ℕ)
    → Ascending d.seen_messages
    → lookup id d.seen_messages ≡ some t
    → t + d.window_seconds < cleaned
    → (should_process d id cleaned now).1 ≡ true
unfolding should_process
expires d id t cleaned now a e lt =
    let c = cleanup d cleaned in
    let gone : lookup id c.seen_messages ≡ none =
      lookup-cleanup d cleaned id a ∙ rw e (ground arith) in
    ground (arith, gone, contains-lookup id c.seen_messages)

-- A message that was processed at the time `t` is refused as a duplicate as long as the readings stay
-- within the window after `t`, whatever other messages come in between; once the window is over it
-- is processed again.
pub should_process_lem :
    (d : Debouncer) (id : Bytes) (first t : ℕ) (between : List (Bytes × (ℕ × ℕ))) (cleaned now : ℕ)
    → Ascending d.seen_messages
    → (should_process d id first t).1 ≡ true
    → Until (t + d.window_seconds) between
    → let after = feed (should_process d id first t).0 between in
      (cleaned ≤ t + d.window_seconds → (should_process after id cleaned now).1 ≡ false)
      × (t + d.window_seconds < cleaned → (should_process after id cleaned now).1 ≡ true)
should_process_lem d id first t between cleaned now a h u =
    let d' = (should_process d id first t).0 in
    let a' = should_process-Ascending d id first t a in
    let same = window_kept d id first t in
    let (found, same') =
      feed_keeps between d' id t a' (recorded d id first t h)
        (subst (λ k. Until (t + k) between) (sym same) u) in
    let after = feed d' between in
    let a'' = feed-Ascending between d' a' in
    (
      (λ le. (keeps_record after id id t cleaned now a'' found (omega (arith, same, same'))).1),
      λ lt. expires after id t cleaned now a'' found (omega (arith, same, same')),
    )
