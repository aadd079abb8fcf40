-- ===== src/Agent/Run/Turns.antt =====
-- What a model is shown: histories in which the roles alternate and the user spoke last.
use open_crank.Prelude.{
  ltb, leb, Bool-cases, Option-cases, Bytes, ℕ, zero, suc, ◌+◌, ◌≡◌, refl, sym, subst, ◌∙◌, inl,
  inr, Bool, true, false, ◌&&◌, Option, none, some, List, [], ◌∷◌,
}
use open_crank.Text.Trim.{to_lower}
use open_crank.Session.Store.{ConversationMessage}
use open_crank.Agent.Json.{JsonLib}
use open_crank.Agent.Types.{ParsedToolCall, AgentConfig, AgentResult, CompletionResult}
use open_crank.Agent.Calls.{parse_tool_calls}
use open_crank.Agent.Tools.{Agent}
use open_crank.Agent.History.{is_token_limit_error, try_truncate_history}
use open_crank.Agent.History.Turns.{
  IsTurn, IsAnswered, IsTurn-exchange, IsAnswered-ask, try_truncate_history-IsTurn,
}
use open_crank.Agent.Intent.{indicates_tool_intent}
use open_crank.Agent.Round.{
  RunState, Outcome, continues, returns, aborts, failed_round, silent_round, conclude,
  calling_round, answered_round, round,
}
use open_crank.Agent.Run.{run_loop, run}
use open_crank.Agent.Run.Laws.{Outcome-cases}
use Prim.{Unit, tt}

-- Two models that answer alike to every history of that form.
unfoldable pub AgreeOnTurns :
    {W : Type 0}
    → (W → List ConversationMessage → Bytes → W × CompletionResult)
    → (W → List ConversationMessage → Bytes → W × CompletionResult)
    → Type 0
AgreeOnTurns {W = W} chat chat' =
    (world : W) (history : List ConversationMessage) (prompt : Bytes)
    → IsTurn history
    → chat world history prompt ≡ chat' world history prompt

module _ {lib : JsonLib} {W : Type 0} where
  -- The history with which the loop goes on.
  KeepsTurn : Outcome lib W → Type 0
  KeepsTurn (continues s) = IsTurn s.history
  KeepsTurn (returns s r) = Unit
  KeepsTurn (aborts s) = Unit

  failed_round-KeepsTurn :
      (config : AgentConfig) (initial : ℕ) (s : RunState lib W) (error : Bytes)
      → IsTurn s.history
      → KeepsTurn (failed_round lib W config initial s error)
  unfolding failed_round KeepsTurn
  failed_round-KeepsTurn config initial s error turn =
      elim (Bool-cases (is_token_limit_error error)) [
        | inl t ↦
            elim (Bool-cases
              (leb (s.token_limit_retries + 1) 2 && (try_truncate_history s.history).1)) [
                | inl u ↦ rw (KeepsTurn, t, u) (try_truncate_history-IsTurn s.history turn)
                | inr f ↦ rw (KeepsTurn, t, f) tt
              ]
        | inr f ↦ elim (Bool-cases (leb config.max_consecutive_errors (s.consecutive_errors + 1))) [
          | inl u ↦ rw (KeepsTurn, f, u) tt
          | inr g ↦ rw (KeepsTurn, f, g) turn
        ]
      ]

  silent_round-KeepsTurn :
      (config : AgentConfig) (s : RunState lib W) (response : Bytes)
      → IsTurn s.history
      → KeepsTurn (silent_round lib W config s response)
  unfolding silent_round KeepsTurn
  silent_round-KeepsTurn config s response turn =
      elim (Bool-cases (
        indicates_tool_intent (to_lower response)
        && ltb s.tally.iterations config.max_iterations)) [
          | inl t ↦ rw (KeepsTurn, t) (IsTurn-exchange s.history response _ turn)
          | inr f ↦ rw (KeepsTurn, f) tt
        ]

  conclude-KeepsTurn :
      (b : Bool) (s : RunState lib W) (text : Bytes)
      → IsTurn s.history
      → KeepsTurn (conclude lib W b s text)
  unfolding conclude KeepsTurn
  conclude-KeepsTurn true s text turn = turn
  conclude-KeepsTurn false s text turn = tt

  calling_round-KeepsTurn :
      (a : Agent lib W) (s : RunState lib W) (response : Bytes) (calls : List (ParsedToolCall lib))
      → IsTurn s.history
      → KeepsTurn (calling_round lib W a s response calls)
  unfolding calling_round
  calling_round-KeepsTurn a s response calls turn =
      conclude-KeepsTurn _ _ _ (IsTurn-exchange s.history response _ turn)

  answered_round-KeepsTurn :
      (a : Agent lib W) (config : AgentConfig) (s : RunState lib W) (response : Bytes)
      → IsTurn s.history
      → KeepsTurn (answered_round lib W a config s response)
  unfolding answered_round KeepsTurn
  answered_round-KeepsTurn a config s response turn =
      elim (Option-cases (parse_tool_calls lib response)) [
        | inl e ↦ rw (answered_round, e) tt
        | inr ([], e) ↦ rw (answered_round, e) (silent_round-KeepsTurn config _ response turn)
        | inr (call ∷ more, e) ↦
            rw (answered_round, e) (calling_round-KeepsTurn a _ response (call ∷ more) turn)
      ]

  round-KeepsTurn :
      (a : Agent lib W) (config : AgentConfig) (initial : ℕ) (s : RunState lib W)
      (answer : W × CompletionResult)
      → IsTurn s.history
      → KeepsTurn (round lib W a config initial s answer)
  unfolding round
  round-KeepsTurn a config initial s (world, ai_result) turn = elim (Bool-cases ai_result.success) [
    | inl t ↦ rw (round, t) (answered_round-KeepsTurn a config _ _ turn)
    | inr f ↦ rw (round, f) (failed_round-KeepsTurn config initial _ _ turn)
  ]

  -- The loop after an iteration with a given outcome.
  after_outcome :
      (W → List ConversationMessage → Bytes → W × CompletionResult)
      → Agent lib W
      → AgentConfig
      → Bytes
      → ℕ
      → ℕ
      → Outcome lib W
      → RunState lib W × Option AgentResult
  after_outcome chat a config prompt initial left (continues after) =
      run_loop lib W chat a config prompt initial left after
  after_outcome chat a config prompt initial left (returns after result) = (after, some result)
  after_outcome chat a config prompt initial left (aborts after) = (after, none)

  run_loop_on :
      (chat : W → List ConversationMessage → Bytes → W × CompletionResult) (a : Agent lib W)
      (config : AgentConfig) (prompt : Bytes) (initial left : ℕ) (s : RunState lib W)
      (o : Outcome lib W)
      → round lib W a config initial s (chat s.env.0 s.history prompt) ≡ o
      → run_loop lib W chat a config prompt initial (suc left) s
        ≡ after_outcome chat a config prompt initial left o
  unfolding run_loop after_outcome
  run_loop_on chat a config prompt initial left s (continues after) e = rw (run_loop, e) refl
  run_loop_on chat a config prompt initial left s (returns after result) e = rw (run_loop, e) refl
  run_loop_on chat a config prompt initial left s (aborts after) e = rw (run_loop, e) refl

  run_loop_agree :
      (chat chat' : W → List ConversationMessage → Bytes → W × CompletionResult)
      → AgreeOnTurns chat chat'
      → (a : Agent lib W) (config : AgentConfig) (prompt : Bytes) (initial left : ℕ)
        (s : RunState lib W)
      → IsTurn s.history
      → run_loop lib W chat a config prompt initial left s
        ≡ run_loop lib W chat' a config prompt initial left s
  unfolding run_loop AgreeOnTurns KeepsTurn after_outcome
  run_loop_agree chat chat' agree a config prompt initial zero s turn = refl
  run_loop_agree chat chat' agree a config prompt initial (suc left) s turn =
      let same = agree s.env.0 s.history prompt turn in
      let keeps = round-KeepsTurn a config initial s (chat' s.env.0 s.history prompt) turn in
      let this = round lib W a config initial s (chat' s.env.0 s.history prompt) in
      let moved : round lib W a config initial s (chat s.env.0 s.history prompt) ≡ this =
        rw same refl in
      elim (Outcome-cases this) [
        | inl (after, e) ↦
            run_loop_on chat a config prompt initial left s _ (moved ∙ e)
            ∙ run_loop_agree chat chat' agree a config prompt initial left after
                (subst KeepsTurn e keeps)
            ∙ sym (run_loop_on chat' a config prompt initial left s _ e)
        | inr (inl (after, result, e)) ↦
            run_loop_on chat a config prompt initial left s _ (moved ∙ e)
            ∙ sym (run_loop_on chat' a config prompt initial left s _ e)
        | inr (inr (after, e)) ↦
            run_loop_on chat a config prompt initial left s _ (moved ∙ e)
            ∙ sym (run_loop_on chat' a config prompt initial left s _ e)
      ]

  -- Where the roles of the history alternate and the user did not speak last, the model is only ever
  -- asked about histories whose roles alternate and that end with the user, also after errors,
  -- truncations and tool calls: a run is the same with any other model that answers alike to these.
  pub run_agree :
      (chat chat' : W → List ConversationMessage → Bytes → W × CompletionResult)
      → AgreeOnTurns chat chat'
      → (a : Agent lib W) (world : W) (is_configured : Bool) (message : Bytes)
      → (history : List ConversationMessage) (system_prompt : Bytes) (config : AgentConfig)
      → IsAnswered history
      → run lib W chat a world is_configured message history system_prompt config
        ≡ run lib W chat' a world is_configured message history system_prompt config
  unfolding run
  run_agree chat chat' agree a world false message history system_prompt config answered = refl
  run_agree chat chat' agree a world true message history system_prompt config answered =
      run_loop_agree chat chat' agree a config _ _ config.max_iterations _
        (IsAnswered-ask history message answered)
