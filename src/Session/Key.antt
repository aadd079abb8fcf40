-- ===== src/Session/Key.antt =====
-- `SessionKey` of src/core/session.cpp: a session's key says who shares the session.
pub mod Laws
use open_crank.Prelude.{
  leb, ◌==◌, if◌then◌else◌, Bytes, codes, str_eq, is_empty, keep, ℕ, Bool, true, false, not, ◌&&◌,
  ◌||◌, Option, none, some, List, [], ◌∷◌, ◌++◌,
}
use open_crank.Text.Trim.{trim, to_lower, starts_with}
use open_crank.Text.Split.{split_char, join}

pub data DmScope : Type 0 where
  main_scope : DmScope
  per_peer : DmScope
  per_channel_peer : DmScope
  per_account_peer : DmScope

pub data PeerKind : Type 0 where
  dm : PeerKind
  group : PeerKind
  channel : PeerKind

pub record RoutePeer : Type 0 where
  pub kind : PeerKind
  pub id : Bytes

abbrev pub default_agent_id : Bytes
default_agent_id = codes "default"

abbrev pub default_account_id : Bytes
default_account_id = codes "_default"

abbrev pub default_main_key : Bytes
default_main_key = codes "main"

-- `std::isalnum` on a byte in the "C" locale, '-' or '_'.
pub is_id_char : ℕ → Bool
is_id_char c =
    (leb b'0' c && leb c b'9')
    || (leb b'A' c && leb c b'Z')
    || (leb b'a' c && leb c b'z')
    || c == b'-'
    || c == b'_'

unfoldable pub normalize_agent_id : Bytes → Bytes
normalize_agent_id agent_id = to_lower (trim agent_id)

unfoldable pub sanitize_agent_id : Bytes → Bytes
unfolding normalize_agent_id is_id_char
sanitize_agent_id agent_id =
    let result = keep is_id_char (normalize_agent_id agent_id) in
    if is_empty result then default_agent_id else result

-- `s.empty() ? d : s`.
abbrev pub or_default : Bytes → Bytes → Bytes
or_default s d = if is_empty s then d else s

-- The name of a kind in a key.
pub kind_prefix : PeerKind → Bytes
kind_prefix dm = codes "dm:"
kind_prefix group = codes "group:"
kind_prefix channel = codes "channel:"

-- The switch on the scope: what follows the agent.
pub scoped : Bytes → Bytes → RoutePeer → DmScope → Bytes
unfolding kind_prefix
scoped safe_channel safe_account peer main_scope = elim peer.kind [
  | dm ↦ default_main_key
  | group ↦ safe_channel ++ codes ":" ++ codes "group:" ++ trim peer.id
  | channel ↦ safe_channel ++ codes ":" ++ codes "channel:" ++ trim peer.id
]
scoped safe_channel safe_account peer per_peer = kind_prefix peer.kind ++ trim peer.id
scoped safe_channel safe_account peer per_channel_peer =
    safe_channel ++ codes ":" ++ kind_prefix peer.kind ++ trim peer.id
scoped safe_channel safe_account peer per_account_peer =
    safe_account ++ codes ":" ++ safe_channel ++ codes ":" ++ kind_prefix peer.kind ++ trim peer.id

unfoldable pub build : Bytes → Bytes → Bytes → Option RoutePeer → DmScope → Bytes
unfolding scoped
build agent_id channel_name account_id peer scope =
    let safe_agent = sanitize_agent_id (or_default agent_id default_agent_id) in
    let safe_channel = to_lower (trim (or_default channel_name (codes "unknown"))) in
    let safe_account = trim (or_default account_id default_account_id) in
    let head = codes "agent:" ++ safe_agent ++ codes ":" in
    elim peer [
      | none ↦ head ++ default_main_key
      | some p ↦ to_lower (head ++ scoped safe_channel safe_account p scope)
    ]

unfoldable pub build_main : Bytes → Bytes
build_main agent_id =
    codes "agent:"
    ++ sanitize_agent_id (or_default agent_id default_agent_id)
    ++ codes ":"
    ++ default_main_key

pub record Parsed : Type 0 where
  pub agent_id : Bytes
  pub rest : Bytes
  pub valid : Bool

-- The checks of `parse` on the parts; the fields that an early return leaves unset are empty.
pub parse_parts : List Bytes → Parsed
parse_parts (p0 ∷ p1 ∷ p2 ∷ parts) =
    let agent = trim p1 in
    let tail = join (p2 ∷ parts) (codes ":") in
    if not (str_eq p0 (codes "agent"))
    then record { agent_id = []; rest = []; valid = false }
    else if is_empty agent
    then record { agent_id = []; rest = []; valid = false }
    else if is_empty tail
    then record { agent_id = agent; rest = []; valid = false }
    else record { agent_id = agent; rest = tail; valid = true }
parse_parts _ = record { agent_id = []; rest = []; valid = false }

unfoldable pub parse : Bytes → Parsed
unfolding parse_parts
parse session_key =
    let raw = trim session_key in
    if is_empty raw
    then record { agent_id = []; rest = []; valid = false }
    else parse_parts (split_char raw b':')

unfoldable pub is_subagent_key : Bytes → Bool
unfolding parse
is_subagent_key session_key =
    let raw = to_lower (trim session_key) in
    if is_empty raw
    then false
    else if starts_with raw (codes "subagent:")
    then true
    else if not (parse raw).valid
    then false
    else starts_with (to_lower (parse raw).rest) (codes "subagent:")
