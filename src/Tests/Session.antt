-- ===== src/Tests/Session.antt =====
-- The theorems on sessions at concrete inputs.
use open_crank.Prelude.{
  if◌then◌else◌, codes, str_eq, str_lt, length, count, ◌≤◌, ◌≡◌, refl, ◌↔◌, some, [], ◌∷◌,
}
use open_crank.Prelude.Maps.{str_key, lookup}
use open_crank.Prelude.Maps.Order.{drop_if}
use open_crank.Text.Trim.{trim, to_lower}
use open_crank.Session.Key.{dm, per_peer, main_scope, build, build_main}
use open_crank.Session.Key.Laws.{build-build_main, build_per_peer_iff}
use open_crank.Session.Store.{
  SessionManager, Message, no_sessions, new_session, message_key, get_session_for_message,
  is_inactive, cleanup_inactive,
}
use open_crank.Session.Store.Laws.{
  history_of, last_of, get_session_for_message_lem, cleanup_inactive_lem,
}

build-build_main_example :
    build
      (codes "Bot")
      (codes "telegram")
      []
      (some (record { kind = dm; id = codes "42" }))
      main_scope
    ≡ build_main (codes "Bot")
build-build_main_example = build-build_main (codes "Bot") (codes "telegram") [] (codes "42")

build_per_peer_iff_example :
    (build
        (codes "Bot")
        (codes "telegram")
        []
        (some (record { kind = dm; id = codes "Ann" }))
        per_peer
      ≡ build
          (codes "Bot")
          (codes "whatsapp")
          []
          (some (record { kind = dm; id = codes " ann" }))
          per_peer)
    ↔ (to_lower (trim (codes "Ann")) ≡ to_lower (trim (codes " ann")))
build_per_peer_iff_example =
    build_per_peer_iff (codes "Bot") (codes "telegram") (codes "whatsapp") [] [] dm (codes "Ann")
      (codes " ann")

abbrev hello : Message
hello = record {
  channel = codes "telegram";
  sender = codes "ann";
  to = codes "42";
  chat_type = codes "direct";
}

get_session_for_message_lem_example :
    let k = message_key no_sessions hello [] in
    let after = get_session_for_message no_sessions hello [] 500 in
    (lookup (codes "x") after.0.sessions
      ≡ (if str_eq k (codes "x") then some after.1 else lookup (codes "x") no_sessions.sessions))
    × (after.1.history ≡ last_of no_sessions.max_history (history_of no_sessions k))
    × (length after.1.history ≤ no_sessions.max_history)
    × (after.1.last_activity ≡ 500)
get_session_for_message_lem_example =
    get_session_for_message_lem no_sessions hello [] 500 (codes "x")

abbrev two_sessions : SessionManager
two_sessions = record no_sessions {
  sessions =
      (codes "a", new_session (codes "a") 100) ∷ (codes "b", new_session (codes "b") 900) ∷ [];
}

cleanup_inactive_lem_example :
    (lookup (codes "a") (cleanup_inactive two_sessions 300 1000).0.sessions
      ≡ drop_if (is_inactive 300 1000) (lookup (codes "a") two_sessions.sessions))
    × ((cleanup_inactive two_sessions 300 1000).1
        ≡ count (λ e. is_inactive 300 1000 (e.1)) two_sessions.sessions)
unfolding str_lt
cleanup_inactive_lem_example =
    cleanup_inactive_lem two_sessions 300 1000 (codes "a") ((refl, tt), (tt, tt))
