-- ===== src/Handler/Laws.antt =====
-- What a message leaves behind.
use open_crank.Prelude.{Option, Bytes, ◌≡◌, true, false, none, some, List}
use open_crank.Prelude.Maps.{nat_key, str_key, lookup, contains}
use open_crank.Session.Store.{Session, has_data}
use open_crank.RateLimiter.Typing
use open_crank.Monitor
use open_crank.Monitor.{Monitor}
use open_crank.Agent.Json.{JsonLib}
use open_crank.Session.Store.{ConversationMessage}
use open_crank.Agent.Types.{AgentResult, CompletionResult}
use open_crank.Handler.{paused_key, response_of, monitor_session_id, Shared}

module _ {lib : JsonLib} {W : Type 0}
    (chat : W → List ConversationMessage → Bytes → W × CompletionResult) where
  -- The message is answered: the session is no longer monitored, the chat is not typing, and the session
  -- is marked as paused just when the run was.
  pub IsReplied :
      Bytes → Bytes → AgentResult → (Shared lib W chat × Session) × Option Bytes → Type 0
  IsReplied channel to r ((after, told), reply) =
      (reply ≡ some (response_of r))
      × (has_data told paused_key ≡ r.paused)
      × (lookup (monitor_session_id channel to) after.monitor.active_sessions ≡ none)
      × (Typing.typing after.typing to ≡ false)

  -- There is no answer: the session is still monitored, and the chat is typing.
  pub IsLeft : Bytes → Bytes → (Shared lib W chat × Session) × Option Bytes → Type 0
  IsLeft channel to ((after, told), reply) =
      (reply ≡ none)
      × (contains (monitor_session_id channel to) after.monitor.active_sessions ≡ true)
      × (Typing.typing after.typing to ≡ true)
