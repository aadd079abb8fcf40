-- ===== src/Session/Store/Laws.antt =====
-- What the session manager's operations do to the map of sessions.
use open_crank.Prelude.{
  ltb, if◌then◌else◌, Bool-cases, Option-cases, Bytes, str_eq, str_eq_iff, length, drop, count,
  length-drop, ℕ, ◌-◌, ◌≤◌, ◌≡◌, refl, ap, ◌∙◌, inl, inr, none, some, List, [], ◌∷◌, arith,
}
use open_crank.Prelude.Maps.{Map, str_key, lookup, lookup-insert}
use open_crank.Prelude.Maps.Order.{Ascending, drop_if, lookup-Above}
use open_crank.Session.Key.{or_default, default_agent_id}
use open_crank.Session.Store.{
  ConversationMessage, Session, SessionManager, Message, new_session, limit_history, get_session,
  message_key, get_session_for_message, is_inactive, sweep, cleanup_inactive,
}

abbrev pub history_of : SessionManager → Bytes → List ConversationMessage
history_of m key = elim (lookup key m.sessions) [ none ↦ [] | some s ↦ s.history ]

-- The last so many elements.
abbrev pub last_of : ℕ → List ConversationMessage → List ConversationMessage
last_of n xs = drop (length xs - n) xs

limit_history-history : (s : Session) (n : ℕ) → (limit_history s n).history ≡ last_of n s.history
unfolding limit_history
limit_history-history s n = elim (Bool-cases (ltb n (length s.history))) [
  | inl t ↦ rw t
  | inr f ↦ let z : length s.history - n ≡ 0 = ground arith in rw (f, z)
]

limit_history-activity : (s : Session) (n : ℕ) → (limit_history s n).last_activity ≡ s.last_activity
unfolding limit_history
limit_history-activity s n = ground arith

get_session-lookup :
    (m : SessionManager) (k : Bytes) (now : ℕ) (j : Bytes)
    → lookup j (get_session m k now).0.sessions
      ≡ (if str_eq k j then some (get_session m k now).1 else lookup j m.sessions)
unfolding get_session
get_session-lookup m k now j = lookup-insert k j (get_session m k now).1 m.sessions

get_session-fields :
    (m : SessionManager) (k : Bytes) (now : ℕ)
    → ((get_session m k now).1.history ≡ history_of m k)
      × ((get_session m k now).1.last_activity ≡ now)
unfolding get_session new_session
get_session-fields m k now = elim (Option-cases (lookup k m.sessions)) [
  | inl e ↦ rw (e, get_session, history_of) (refl, refl)
  | inr (old, e) ↦ rw (e, get_session, history_of) (refl, refl)
]

length-last_of : (n : ℕ) (xs : List ConversationMessage) → length (last_of n xs) ≤ n
length-last_of n xs = omega (arith, length-drop (length xs - n) xs)

-- A message gets the session under its key: its history is the last `max_history` messages of what
-- that session had before, or nothing for a new one, and never longer than `max_history`; its
-- activity is the reading. The manager now holds that session under the key, and all other
-- sessions are as they were.
pub get_session_for_message_lem :
    (m : SessionManager) (msg : Message) (agent_id : Bytes) (now : ℕ) (j : Bytes)
    → let k = message_key m msg agent_id in
      let after = get_session_for_message m msg agent_id now in
      (lookup j after.0.sessions ≡ (if str_eq k j then some after.1 else lookup j m.sessions))
      × (after.1.history ≡ last_of m.max_history (history_of m k))
      × (length after.1.history ≤ m.max_history)
      × (after.1.last_activity ≡ now)
unfolding get_session_for_message
get_session_for_message_lem m msg agent_id now j =
    let k = message_key m msg agent_id in
    let found = get_session m k now in
    let fields = get_session-fields m k now in
    let s = record found.1 {
      channel = msg.channel;
      peer_id = msg.sender;
      agent_id = or_default agent_id default_agent_id;
    } in
    let history : (limit_history s m.max_history).history ≡ last_of m.max_history (history_of m k) =
      limit_history-history s m.max_history ∙ ap (last_of m.max_history) fields.0 in
    (
      ground (
        arith,
        lookup-insert k j (limit_history s m.max_history) found.0.sessions,
        get_session-lookup m k now j,
      ),
      history,
      rw history (length-last_of m.max_history (history_of m k)),
      limit_history-activity s m.max_history ∙ fields.1,
    )

sweep-lookup :
    (max_age now : ℕ) (j : Bytes) (m : Map Bytes Session)
    → Ascending m
    → lookup j (sweep max_age now m).0 ≡ drop_if (is_inactive max_age now) (lookup j m)
unfolding sweep lookup
sweep-lookup max_age now j [] h = refl
sweep-lookup max_age now j ((k, s) ∷ m) (a, h) =
    ground (arith, str_eq_iff k j, sweep-lookup max_age now j m h, lookup-Above k m a)

sweep-count :
    (max_age now : ℕ) (m : Map Bytes Session)
    → (sweep max_age now m).1 ≡ count (λ e. is_inactive max_age now (e.1)) m
unfolding sweep
sweep-count max_age now [] = refl
sweep-count max_age now ((k, s) ∷ m) = ground (arith, sweep-count max_age now m)

-- `cleanup_inactive` keeps exactly the sessions that are not older than the age, unchanged, and
-- returns how many it removed. The keys of the map are in order, as in a `std::map`.
pub cleanup_inactive_lem :
    (m : SessionManager) (max_age now : ℕ) (j : Bytes)
    → Ascending m.sessions
    → (lookup j (cleanup_inactive m max_age now).0.sessions
        ≡ drop_if (is_inactive max_age now) (lookup j m.sessions))
      × ((cleanup_inactive m max_age now).1 ≡ count (λ e. is_inactive max_age now (e.1)) m.sessions)
unfolding cleanup_inactive
cleanup_inactive_lem m max_age now j h =
    (sweep-lookup max_age now j m.sessions h, sweep-count max_age now m.sessions)
