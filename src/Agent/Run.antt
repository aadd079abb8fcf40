-- ===== src/Agent/Run.antt =====
-- `Agent::run`: the loop around the model and the tools.
pub mod Laws
pub mod Turns
use open_crank.Prelude.{
  if◌then◌else◌, Bytes, codes, length, is_empty, ℕ, zero, suc, Bool, not, Option, none, some, List,
  [], ◌∷◌, ◌++◌,
}
use open_crank.Chunker.{ContentChunker}
use open_crank.Session.Store.{user, ConversationMessage}
use open_crank.Agent.Json.{JsonLib}
use open_crank.Agent.Types.{AgentConfig, AgentResult, CompletionResult}
use open_crank.Agent.Tools.{Agent, build_tools_prompt}
use open_crank.Agent.History.{message_of}
use open_crank.Agent.Round.{
  Tally, RunState, Outcome, continues, returns, aborts, failed, paused_with, limit_pause_text,
  round,
}

-- The prompt of the caller and the tools section.
unfoldable pub join_prompts : Bytes → Bytes → Bytes
join_prompts system_prompt tools_prompt =
    if is_empty tools_prompt
    then system_prompt
    else (if is_empty system_prompt then [] else system_prompt ++ codes "\n\n") ++ tools_prompt

abbrev pub no_tally : Tally
no_tally = record { iterations = 0; tool_calls_made = 0; tools_used = [] }

module _ (lib : JsonLib) (W : Type 0)
    (chat : W → List ConversationMessage → Bytes → W × CompletionResult) where
  -- The loop with as many iterations left as the number says; `none` is an exception.
  unfoldable pub run_loop :
      Agent lib W
      → AgentConfig
      → Bytes
      → ℕ
      → ℕ
      → RunState lib W
      → RunState lib W × Option AgentResult
  run_loop a config prompt initial zero s = (
    s,
    some (
        paused_with s.tally
          (limit_pause_text config.max_iterations s.accumulated_response s.tally)),
  )
  run_loop a config prompt initial (suc left) s =
      elim (round lib W a config initial s (chat s.env.0 s.history prompt)) [
        | continues after ↦ run_loop a config prompt initial left after
        | returns after result ↦ (after, some result)
        | aborts after ↦ (after, none)
      ]

  -- The world and the agent's chunker before and after; whether a configured model is given; the
  -- message, the history and the prompt. The history after the call is that of the state.
  unfoldable pub run :
      Agent lib W
      → W
      → Bool
      → Bytes
      → List ConversationMessage
      → Bytes
      → AgentConfig
      → RunState lib W × Option AgentResult
  run a world is_configured user_message history system_prompt config =
      let start : List ConversationMessage → RunState lib W = λ h. record {
        history = h;
        tally = no_tally;
        consecutive_errors = 0;
        token_limit_retries = 0;
        accumulated_response = [];
        recent_tool_calls = [];
        env = (world, a.chunker);
      } in
      if is_configured
      then run_loop a config (join_prompts system_prompt (build_tools_prompt lib W a))
          (length history) config.max_iterations
          (start (history ++ message_of user user_message ∷ []))
      else (start history, some (failed no_tally (codes "AI not configured")))
