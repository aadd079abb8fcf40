-- ===== src/Agent/Run/Laws.antt =====
-- How the agent's loop ends, and what an exception leaves.
use open_crank.Prelude.{Bytes, ℕ, ◌≤◌, ◌≡◌, refl, ◌⊎◌, inl, inr, Option, none, some, List}
use open_crank.Session.Store.{ConversationMessage}
use open_crank.Agent.Json.{JsonLib}
use open_crank.Agent.Types.{AgentResult, CompletionResult}
use open_crank.Agent.Tools.{Agent}
use open_crank.Agent.Round.{RunState, Outcome, continues, returns, aborts}
use open_crank.Agent.Round.Laws.{IsSettled, HasThrown}

module _ {lib : JsonLib} {W : Type 0} where
  pub Outcome-cases :
      (o : Outcome lib W)
      → ((s : RunState lib W) × (o ≡ continues s))
        ⊎ (((s : RunState lib W) × (r : AgentResult) × (o ≡ returns s r))
            ⊎ ((s : RunState lib W) × (o ≡ aborts s)))
  Outcome-cases (continues s) = inl (s, refl)
  Outcome-cases (returns s r) = inr (inl (s, r, refl))
  Outcome-cases (aborts s) = inr (inr (s, refl))

  -- A run that ends with a result, after no more iterations than the number.
  unfoldable pub Ends : ℕ → RunState lib W × Option AgentResult → Type 0
  Ends most (after, result) =
      (r : AgentResult) × (result ≡ some r) × IsSettled r × (r.iterations ≤ most)

module _ {lib : JsonLib} {W : Type 0}
    (chat : W → List ConversationMessage → Bytes → W × CompletionResult) where
  -- A run that is left with an exception: the model, asked about the history as it now stands, has just
  -- given an answer with an object that has something else than a string under "tool".
  unfoldable pub IsThrown : Bytes → RunState lib W × Option AgentResult → Type 0
  IsThrown prompt (after, result) =
      (result ≡ none)
      × (world : W) × HasThrown lib W after.history (chat world after.history prompt) after
