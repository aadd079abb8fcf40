-- ===== src/Session/Store.antt =====
-- `Session` and `SessionManager` of src/core/session.cpp. `current_timestamp` is a number passed to
-- the operations that read it.
pub mod Laws
use open_crank.Prelude.{
  ltb, if◌then◌else◌, Bytes, codes, str_eq, length, drop, ℕ, suc, ◌+◌, ◌-◌, Bool, none, some, List,
  [], ◌∷◌, ◌++◌, map,
}
use open_crank.Prelude.Maps.{Map, Key, nat_key, str_key, lookup, contains, insert, erase}
use open_crank.Session.Key.{
  DmScope, main_scope, PeerKind, dm, group, channel, RoutePeer, default_agent_id,
  default_account_id, or_default, build,
}

pub data MessageRole : Type 0 where
  system : MessageRole
  user : MessageRole
  assistant : MessageRole

pub record ConversationMessage : Type 0 where
  pub role : MessageRole
  pub content : Bytes

pub record Session : Type 0 where
  pub key : Bytes
  pub agent_id : Bytes
  pub channel : Bytes
  pub peer_id : Bytes
  pub history : List ConversationMessage
  pub last_activity : ℕ
  pub data_map : Map Bytes Bytes

unfoldable pub new_session : Bytes → ℕ → Session
new_session key now = record {
  key = key;
  agent_id = [];
  channel = [];
  peer_id = [];
  history = [];
  last_activity = now;
  data_map = [];
}

abbrev pub touch : Session → ℕ → Session
touch s now = record s { last_activity = now }

unfoldable pub add_message : Session → ConversationMessage → ℕ → Session
add_message s msg now = touch (record s { history = s.history ++ msg ∷ [] }) now

unfoldable pub clear_history : Session → ℕ → Session
clear_history s now = touch (record s { history = [] }) now

unfoldable pub limit_history : Session → ℕ → Session
limit_history s max_messages =
    if ltb max_messages (length s.history)
    then record s { history = drop (length s.history - max_messages) s.history }
    else s

unfoldable pub set_data : Session → Bytes → Bytes → Session
set_data s key value = record s { data_map = insert key value s.data_map }

unfoldable pub get_data : Session → Bytes → Bytes → Bytes
get_data s key default_value = elim (lookup key s.data_map) [ none ↦ default_value | some v ↦ v ]

unfoldable pub has_data : Session → Bytes → Bool
has_data s key = contains key s.data_map

unfoldable pub remove_data : Session → Bytes → Session
remove_data s key = record s { data_map = erase key s.data_map }

pub record SessionManager : Type 0 where
  pub sessions : Map Bytes Session
  pub dm_scope : DmScope
  pub max_history : ℕ

abbrev pub no_sessions : SessionManager
no_sessions = record { sessions = []; dm_scope = main_scope; max_history = 20 }

-- `get_session` returns a reference: the session as it stands in the map.
unfoldable pub get_session : SessionManager → Bytes → ℕ → SessionManager × Session
unfolding new_session
get_session m key now =
    let s : Session = elim (lookup key m.sessions) [
      | none ↦ new_session key now
      | some old ↦ touch old now
    ] in
    (record m { sessions = insert key s m.sessions }, s)

unfoldable pub has_session : SessionManager → Bytes → Bool
has_session m key = contains key m.sessions

unfoldable pub remove_session : SessionManager → Bytes → SessionManager
remove_session m key = record m { sessions = erase key m.sessions }

-- The fields of a `Message` that the manager reads; `sender` is `from`.
pub record Message : Type 0 where
  pub channel : Bytes
  pub sender : Bytes
  pub to : Bytes
  pub chat_type : Bytes

unfoldable pub peer_kind : Message → PeerKind
peer_kind msg =
    if str_eq msg.chat_type (codes "group")
    then group
    else if str_eq msg.chat_type (codes "channel")
    then channel
    else dm

unfoldable pub message_key : SessionManager → Message → Bytes → Bytes
unfolding peer_kind
message_key m msg agent_id =
    build (or_default agent_id default_agent_id) msg.channel default_account_id
      (some (record { kind = peer_kind msg; id = msg.to })) m.dm_scope

unfoldable pub get_session_for_message :
    SessionManager → Message → Bytes → ℕ → SessionManager × Session
get_session_for_message m msg agent_id now =
    let session_key = message_key m msg agent_id in
    let found = get_session m session_key now in
    let s =
      limit_history
        (record found.1 {
          channel = msg.channel;
          peer_id = msg.sender;
          agent_id = or_default agent_id default_agent_id;
        })
        m.max_history in
    (record found.0 { sessions = insert session_key s found.0.sessions }, s)

unfoldable pub clear_all : SessionManager → SessionManager
clear_all m = record m { sessions = [] }

-- `now - last_activity > max_age_seconds`, for an age that is not negative.
unfoldable pub is_inactive : ℕ → ℕ → Session → Bool
is_inactive max_age now s = ltb (s.last_activity + max_age) now

-- The loop over the map, with the number of sessions removed.
pub sweep : ℕ → ℕ → Map Bytes Session → Map Bytes Session × ℕ
unfolding is_inactive
sweep max_age now [] = ([], 0)
sweep max_age now ((key, s) ∷ m) =
    let rest = sweep max_age now m in
    if is_inactive max_age now s then (rest.0, suc rest.1) else ((key, s) ∷ rest.0, rest.1)

unfoldable pub cleanup_inactive : SessionManager → ℕ → ℕ → SessionManager × ℕ
unfolding sweep
cleanup_inactive m max_age_seconds now =
    let swept = sweep max_age_seconds now m.sessions in (record m { sessions = swept.0 }, swept.1)

unfoldable pub session_keys : SessionManager → List Bytes
session_keys m = map (λ e. e.0) m.sessions
