-- ===== src/Agent/Round/Laws.antt =====
-- What one iteration of the agent's loop counts, and how it ends.
use open_crank.Prelude.{
  ltb, leb, Bool-cases, Option-cases, Bytes, ℕ, ◌+◌, ◌≡◌, refl, ◌≢◌, ◌⊎◌, inl, inr, Bool, true,
  false, ◌&&◌, none, List, [], ◌∷◌, arith,
}
use open_crank.Agent.Json.{JsonLib}
use open_crank.Agent.Types.{ParsedToolCall, AgentConfig, AgentResult, CompletionResult}
use open_crank.Agent.Calls.{parse_tool_calls}
use open_crank.Agent.Calls.Throws.{HasBadTool, parse_tool_calls_throws}
use open_crank.Session.Store.{ConversationMessage}
use open_crank.Agent.Tools.{Agent}
use open_crank.Agent.History.{is_token_limit_error, try_truncate_history}
use open_crank.Text.Trim.{to_lower}
use open_crank.Agent.Intent.{indicates_tool_intent}
use open_crank.Agent.Round.{
  Tally, succeeded, failed, paused_with, RunState, Outcome, continues, returns, aborts,
  failed_round, silent_round, calling_round, conclude, answered_round, round,
}

-- A result is a success, a pause with its message, or an error with its text: one of the three.
pub IsSettled : AgentResult → Type 0
IsSettled r =
    ((r.success ≡ true) × (r.paused ≡ false) × (r.error ≡ []))
    ⊎ (((r.success ≡ false)
          × (r.paused ≡ true)
          × (r.error ≡ [])
          × (r.final_response ≡ r.pause_message))
        ⊎ ((r.success ≡ false) × (r.paused ≡ false) × (r.error ≢ [])))

pub succeeded-IsSettled : (t : Tally) (text : Bytes) → IsSettled (succeeded t text)
unfolding IsSettled succeeded
succeeded-IsSettled t text = inl (refl, refl, refl)

pub paused_with-IsSettled : (t : Tally) (text : Bytes) → IsSettled (paused_with t text)
unfolding IsSettled paused_with
paused_with-IsSettled t text = inr (inl (refl, refl, refl, refl))

pub failed-IsSettled : (t : Tally) (c : ℕ) (text : Bytes) → IsSettled (failed t (c ∷ text))
unfolding IsSettled failed
failed-IsSettled t c text = inr (inr (refl, refl, λ e. ground (arith)))

-- What an exception leaves: the history and the world of the question, and an answer in which an object
-- has something else than a string under "tool".
unfoldable pub HasThrown :
    (lib : JsonLib) (W : Type 0)
    → List ConversationMessage
    → W × CompletionResult
    → RunState lib W
    → Type 0
HasThrown lib W history (world, ai_result) after =
    (after.history ≡ history)
    × (after.env.0 ≡ world)
    × (ai_result.success ≡ true)
    × HasBadTool lib ai_result.content

module _ {lib : JsonLib} {W : Type 0} where
  -- The iteration was counted, a result is settled, and an exception has left what is said of it.
  unfoldable pub Counts : (RunState lib W → Type 0) → ℕ → Outcome lib W → Type 0
  Counts Thrown n (continues s) = s.tally.iterations ≡ n
  Counts Thrown n (returns s r) = (r.iterations ≡ n) × IsSettled r
  Counts Thrown n (aborts s) = Thrown s

  failed_round-Counts :
      (Thrown : RunState lib W → Type 0) (config : AgentConfig) (initial : ℕ) (s : RunState lib W)
      (error : Bytes)
      → Counts Thrown s.tally.iterations (failed_round lib W config initial s error)
  unfolding failed_round Counts failed paused_with
  failed_round-Counts Thrown config initial s error =
      elim (Bool-cases (is_token_limit_error error)) [
        | inl t ↦
            elim (Bool-cases
              (leb (s.token_limit_retries + 1) 2 && (try_truncate_history s.history).1)) [
                | inl u ↦ rw (Counts, t, u) refl
                | inr f ↦ rw (Counts, t, f) (refl, failed-IsSettled s.tally _ _)
              ]
        | inr f ↦ elim (Bool-cases (leb config.max_consecutive_errors (s.consecutive_errors + 1))) [
          | inl u ↦ rw (Counts, f, u) (refl, paused_with-IsSettled s.tally _)
          | inr g ↦ rw (Counts, f, g) refl
        ]
      ]

  silent_round-Counts :
      (Thrown : RunState lib W → Type 0) (config : AgentConfig) (s : RunState lib W)
      (response : Bytes)
      → Counts Thrown s.tally.iterations (silent_round lib W config s response)
  unfolding silent_round Counts succeeded
  silent_round-Counts Thrown config s response =
      elim (Bool-cases (
        indicates_tool_intent (to_lower response)
        && ltb s.tally.iterations config.max_iterations)) [
          | inl t ↦ rw (Counts, t) refl
          | inr f ↦ rw (Counts, f) (refl, succeeded-IsSettled s.tally response)
        ]

  conclude-Counts :
      (Thrown : RunState lib W → Type 0) (b : Bool) (s : RunState lib W) (text : Bytes)
      → Counts Thrown s.tally.iterations (conclude lib W b s text)
  unfolding conclude Counts succeeded
  conclude-Counts Thrown true s text = refl
  conclude-Counts Thrown false s text = (refl, succeeded-IsSettled s.tally _)

  calling_round-Counts :
      (Thrown : RunState lib W → Type 0) (a : Agent lib W) (s : RunState lib W) (response : Bytes)
      (calls : List (ParsedToolCall lib))
      → Counts Thrown s.tally.iterations (calling_round lib W a s response calls)
  unfolding calling_round
  calling_round-Counts Thrown a s response calls = conclude-Counts Thrown _ _ _

  answered_round-Counts :
      (Thrown : RunState lib W → Type 0) (a : Agent lib W) (config : AgentConfig)
      (s : RunState lib W) (response : Bytes)
      → (parse_tool_calls lib response ≡ none
          → Thrown (record s { consecutive_errors = 0; token_limit_retries = 0 }))
      → Counts Thrown s.tally.iterations (answered_round lib W a config s response)
  unfolding answered_round Counts
  answered_round-Counts Thrown a config s response thrown =
      elim (Option-cases (parse_tool_calls lib response)) [
        | inl e ↦ rw (answered_round, e) (thrown e)
        | inr ([], e) ↦ rw (answered_round, e) (silent_round-Counts Thrown config _ response)
        | inr (call ∷ more, e) ↦
            rw (answered_round, e) (calling_round-Counts Thrown a _ response (call ∷ more))
      ]

  pub round-Counts :
      (a : Agent lib W) (config : AgentConfig) (initial : ℕ) (s : RunState lib W)
      (answer : W × CompletionResult)
      → Counts
          (HasThrown lib W s.history answer)
          (s.tally.iterations + 1)
          (round lib W a config initial s answer)
  unfolding round HasThrown
  round-Counts a config initial s (world, ai_result) = elim (Bool-cases ai_result.success) [
    | inl t ↦
        rw (round, t)
          (answered_round-Counts _ a config _ ai_result.content
            (λ e. (refl, refl, refl, parse_tool_calls_throws ai_result.content e)))
    | inr f ↦ rw (round, f) (failed_round-Counts _ config initial _ _)
  ]
