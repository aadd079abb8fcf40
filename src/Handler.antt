-- ===== src/Handler.antt =====
-- The message handler of src/core/message_handler.cpp: what happens to a message that comes in, and to
-- one for the model. What the plugins and the skills do is not part of the model.
pub mod Laws
use open_crank.Prelude.{
  ltb, ◌==◌, if◌then◌else◌, Bytes, codes, take, drop, ℕ, ◌+◌, Bool, true, false, not, Option, none,
  some, List, [], ◌∷◌, ◌++◌,
}
use open_crank.Text.Find.{find_where, substr, to_string}
use open_crank.RateLimiter.Types.{RateLimitResult}
use open_crank.RateLimiter.Debouncer
use open_crank.RateLimiter.Debouncer.{Debouncer}
use open_crank.RateLimiter.Keyed
use open_crank.RateLimiter.Keyed.{KeyedRateLimiter, Readings}
use open_crank.RateLimiter.Typing
use open_crank.RateLimiter.Typing.{TypingIndicator}
use open_crank.ThreadPool
use open_crank.ThreadPool.{ThreadPool}
use open_crank.Session.Store.{ConversationMessage, Session, set_data, remove_data}
use open_crank.Monitor
use open_crank.Monitor.{Monitor}
use open_crank.Agent.Json.{JsonLib}
use open_crank.Agent.Types.{AgentResult, CompletionResult}
use open_crank.Agent.Tools.{Agent}
use open_crank.Agent.Run.{run}

-- The parts of the application that a message passes through.
pub record Intake : Type 0 where
  pub debouncer : Debouncer
  pub user_limiter : KeyedRateLimiter
  pub pool : ThreadPool

-- The clock readings of a message.
pub record Clock : Type 0 where
  pub cleaned : ℕ
  pub seen : ℕ
  pub limiter : Readings

-- `on_message` on the id and the sender of a message; the task that processes it is a number. The
-- Boolean says whether the plugins were told of it; `none` is what `check` leaves without a result.
unfoldable pub on_message : Intake → Bytes → Bytes → ℕ → Clock → Option (Intake × Bool)
on_message a id sender task clock =
    let (seen, fresh) = Debouncer.should_process a.debouncer id clock.cleaned clock.seen in
    elim fresh [
      | false ↦ some (record a { debouncer = seen }, false)
      | true ↦ elim (Keyed.check a.user_limiter sender clock.limiter) [
        | none ↦ none
        | some (limiter, result) ↦ some (
          record {
            debouncer = seen;
            user_limiter = limiter;
            pool = if result.allowed then ThreadPool.enqueue a.pool task else a.pool;
          },
          true,
        )
      ]
    ]

-- The text of a command without the name of the bot: "@name" before the first blank is taken out.
unfoldable pub strip_bot_name : Bytes → Bytes
strip_bot_name text = elim (find_where (λ c. c == b'@') text) [
  | none ↦ text
  | some at_pos ↦ elim (find_where (λ c. c == b' ') text) [
    | none ↦ take at_pos text
    | some space_pos ↦
        if ltb at_pos space_pos then take at_pos text ++ drop space_pos text else text
  ]
]

-- The command and its arguments.
unfoldable pub split_command : Bytes → Bytes × Bytes
split_command cmd_text = elim (find_where (λ c. c == b' ') cmd_text) [
  | none ↦ (cmd_text, [])
  | some space_pos ↦ (take space_pos cmd_text, drop (space_pos + 1) cmd_text)
]

abbrev pub paused_key : Bytes
paused_key = codes "agent_paused"

abbrev pub iterations_key : Bytes
iterations_key = codes "agent_iterations"

abbrev pub tool_calls_key : Bytes
tool_calls_key = codes "agent_tool_calls"

unfoldable pub set_paused : Session → AgentResult → Session
set_paused s r =
    set_data
      (set_data (set_data s paused_key (codes "true")) iterations_key (to_string r.iterations))
      tool_calls_key (to_string r.tool_calls_made)

unfoldable pub clear_paused : Session → Session
clear_paused s = remove_data (remove_data (remove_data s paused_key) iterations_key) tool_calls_key

-- The session after a run.
unfoldable pub settle : Session → AgentResult → Session
settle s r = if r.paused then set_paused s r else clear_paused s

-- The response to a run.
unfoldable pub response_of : AgentResult → Bytes
response_of r =
    if r.paused
    then r.pause_message
    else if r.success
    then r.final_response
    else (226 ∷ 157 ∷ 140 ∷ []) ++ codes " Agent error: " ++ r.error

-- The id under which a message is monitored.
unfoldable pub monitor_session_id : Bytes → Bytes → Bytes
monitor_session_id channel to = channel ++ codes ":" ++ to

module _ (lib : JsonLib) (W : Type 0)
    (chat : W → List ConversationMessage → Bytes → W × CompletionResult) where
  -- What the handling of messages for the model shares.
  pub record Shared : Type 0 where
    pub agent : Agent lib W
    pub monitor : Monitor
    pub typing : TypingIndicator
    pub system_prompt : Bytes
    pub world : W

  -- `handle_ai_message` on the channel, the chat and the text of a message; without a response it is
  -- left with an exception.
  unfoldable pub handle_ai_message :
      Shared → Bool → Bytes → Bytes → Bytes → Session → ℕ → (Shared × Session) × Option Bytes
  handle_ai_message a is_configured channel to text s now =
      let id = monitor_session_id channel to in
      let watched = Monitor.start_session a.monitor id channel to now in
      let typing = Typing.start_typing a.typing to in
      let (after, result) =
        run lib W chat a.agent a.world true text s.history a.system_prompt a.agent.config in
      let agent = record a.agent { chunker = after.env.1 } in
      let told = record s { history = after.history } in
      if not is_configured
      then (
        (a, s),
        some (
            codes "No AI provider configured. Set in config.json to enable AI features. "
            ++ codes "Type /help for available commands."),
      )
      else elim result [
        | none ↦ (
          (
            record a { agent = agent; monitor = watched; typing = typing; world = after.env.0 },
            told,
          ),
          none,
        )
        | some r ↦ (
          (
            record a {
              agent = agent;
              monitor = (Monitor.end_session watched id).0;
              typing = Typing.stop_typing typing to;
              world = after.env.0;
            },
            settle told r,
          ),
          some (response_of r),
        )
      ]
