-- ===== src/Monitor.antt =====
-- `AIProcessMonitor` of src/core/ai_monitor.cpp. Readings of the steady clock are numbers of
-- nanoseconds that are passed to the operations; a lock held by an operation is not part of the state.
-- The channels and the callbacks are parameters: what they are told is a list of events.
pub mod Laws
use open_crank.Prelude.{
  leb, if◌then◌else◌, Bytes, codes, length, ℕ, ◌+◌, ◌-◌, ◌/◌, Bool, true, false, not, ◌&&◌, Option,
  none, some, List, [], ◌∷◌, ◌++◌,
}
use open_crank.Prelude.Maps.{Map, Key, nat_key, str_key, lookup, contains, insert, erase}
use open_crank.Text.Find.{to_string}

pub record AiSessionState : Type 0 where
  pub channel_id : Bytes
  pub chat_id : Bytes
  pub started_at : ℕ
  pub last_heartbeat : ℕ
  pub heartbeat_count : ℕ
  pub is_hung : Bool

pub record MonitorConfig : Type 0 where
  pub hang_timeout_seconds : ℕ
  pub typing_interval_seconds : ℕ
  pub check_interval_ms : ℕ

pub record Monitor : Type 0 where
  pub config : MonitorConfig
  pub active_sessions : Map Bytes AiSessionState
  pub total_sessions_started : ℕ
  pub total_hung_detected : ℕ
  pub total_typing_indicators_sent : ℕ

abbrev pub new_monitor : MonitorConfig → Monitor
new_monitor config = record {
  config = config;
  active_sessions = [];
  total_sessions_started = 0;
  total_hung_detected = 0;
  total_typing_indicators_sent = 0;
}

unfoldable pub start_session : Monitor → Bytes → Bytes → Bytes → ℕ → Monitor
start_session m session_id channel_id chat_id now =
    let state : AiSessionState = record {
      channel_id = channel_id;
      chat_id = chat_id;
      started_at = now;
      last_heartbeat = now;
      heartbeat_count = 0;
      is_hung = false;
    } in
    record m {
      active_sessions = insert session_id state m.active_sessions;
      total_sessions_started = m.total_sessions_started + 1;
    }

-- A write through the iterator that `find` gave.
unfoldable pub heartbeat : Monitor → Bytes → ℕ → Monitor
heartbeat m session_id now = elim (lookup session_id m.active_sessions) [
  | none ↦ m
  | some state ↦
      let beaten : AiSessionState = record state {
        last_heartbeat = now;
        heartbeat_count = state.heartbeat_count + 1;
        is_hung = false;
      } in
      record m { active_sessions = insert session_id beaten m.active_sessions }
]

-- With the typing indicators that the plugins are told to stop: a channel and a chat.
unfoldable pub end_session : Monitor → Bytes → Monitor × List (Bytes × Bytes)
end_session m session_id = elim (lookup session_id m.active_sessions) [
  | none ↦ (m, [])
  | some state ↦ (
    record m { active_sessions = erase session_id m.active_sessions },
    (state.channel_id, state.chat_id) ∷ [],
  )
]

pub record Stats : Type 0 where
  pub active_sessions : ℕ
  pub total_sessions_started : ℕ
  pub total_hung_detected : ℕ
  pub total_typing_indicators_sent : ℕ

unfoldable pub get_stats : Monitor → Stats
get_stats m = record {
  active_sessions = length m.active_sessions;
  total_sessions_started = m.total_sessions_started;
  total_hung_detected = m.total_hung_detected;
  total_typing_indicators_sent = m.total_typing_indicators_sent;
}

-- A session found hung, and for how many seconds it was silent.
pub record Report : Type 0 where
  pub session_id : Bytes
  pub elapsed : ℕ

unfoldable pub elapsed_seconds : ℕ → ℕ → ℕ
elapsed_seconds now last = (now - last) / 1000000000

-- The text that is broadcast for a report.
unfoldable pub report_text : Report → Bytes
report_text r =
    codes "AI session '"
    ++ r.session_id
    ++ codes "' has been detected as hung after "
    ++ to_string r.elapsed
    ++ codes " seconds of inactivity"

-- The test of `check_session`.
unfoldable pub is_silent : MonitorConfig → ℕ → AiSessionState → Bool
is_silent config now state =
    not state.is_hung && leb config.hang_timeout_seconds (elapsed_seconds now state.last_heartbeat)

unfoldable pub check_session :
    MonitorConfig → ℕ → Bytes → AiSessionState → AiSessionState × List Report
check_session config now session_id state =
    if is_silent config now state
    then (
      record state { is_hung = true },
      record { session_id = session_id; elapsed = elapsed_seconds now state.last_heartbeat } ∷ [],
    )
    else (state, [])

-- The loop over the sessions; each check reads the clock.
unfoldable pub check_sessions :
    MonitorConfig → (Bytes → ℕ) → Map Bytes AiSessionState → Map Bytes AiSessionState × List Report
check_sessions config now [] = ([], [])
check_sessions config now ((session_id, state) ∷ sessions) =
    let (checked, reports) = check_session config (now session_id) session_id state in
    let (rest, more) = check_sessions config now sessions in
    ((session_id, checked) ∷ rest, reports ++ more)

-- `total_hung_detected_` counts each report.
unfoldable pub scan : Monitor → (Bytes → ℕ) → Monitor × List Report
scan m now =
    let (sessions, reports) = check_sessions m.config now m.active_sessions in
    (
      record m {
        active_sessions = sessions;
        total_hung_detected = m.total_hung_detected + length reports;
      },
      reports,
    )

-- What a channel says of typing: `send_typing_action` succeeds or fails.
pub record TypingChannel : Type 0 where
  pub supports_typing : Bool
  pub send_typing_action : Bytes → Bool

-- With what the plugins are told.
unfoldable pub send_typing_indicator :
    (Bytes → Option TypingChannel) → Monitor → Bytes → Bytes → Monitor × List (Bytes × Bytes)
send_typing_indicator get_channel m channel_id chat_id = elim (get_channel channel_id) [
  | none ↦ (m, [])
  | some channel ↦ if not channel.supports_typing then (m, []) else (
    (if channel.send_typing_action chat_id
        then record m { total_typing_indicators_sent = m.total_typing_indicators_sent + 1 }
        else m),
    (channel_id, chat_id) ∷ [],
  )
]

unfoldable pub send_typing_indicators :
    (Bytes → Option TypingChannel)
    → Monitor
    → Map Bytes AiSessionState
    → Monitor × List (Bytes × Bytes)
send_typing_indicators get_channel m [] = (m, [])
send_typing_indicators get_channel m ((session_id, state) ∷ sessions) =
    let (sent, told) = send_typing_indicator get_channel m state.channel_id state.chat_id in
    let (after, more) = send_typing_indicators get_channel sent sessions in (after, told ++ more)

-- A round of `monitor_loop`: the time of the last indicators, and the clock at its start.
unfoldable pub monitor_round :
    (Bytes → Option TypingChannel)
    → Monitor
    → ℕ
    → ℕ
    → (Bytes → ℕ)
    → (Monitor × ℕ) × (List Report × List (Bytes × Bytes))
monitor_round get_channel m last_typing_time now clock =
    let (checked, reports) = scan m clock in
    let (after, told) = send_typing_indicators get_channel checked checked.active_sessions in
    if leb m.config.typing_interval_seconds (elapsed_seconds now last_typing_time)
    then ((after, now), (reports, told))
    else ((checked, last_typing_time), (reports, []))
