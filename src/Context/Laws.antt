-- ===== src/Context/Laws.antt =====
-- What the resume cycle leaves of a history.
use open_crank.Prelude.{
  Bool-cases, Bytes, length, take, is_empty, length-append, length-take, ◌+◌, ◌≤◌, ◌≡◌, refl, ◌≢◌,
  ◌⊎◌, inl, inr, Bool, true, false, Option, List, [], ◌∷◌, ◌++◌, arith,
}
use open_crank.Session.Store.{user, ConversationMessage}
use open_crank.Agent.Types.{CompletionResult}
use open_crank.Agent.History.{role_eq, message_of}
use open_crank.Agent.History.Laws.{Alternates}
use open_crank.Agent.History.Turns.{last_role, IsTurn, IsAnswered}
use open_crank.Context.{
  ContextConfig, estimate_chars, truncation_note, fit_resume, resume_footing, resumed_messages,
  build_resumed_history, resume_prompt, last_user_message, MemoryTool, generate_resume,
  perform_resume_cycle,
}

length-fit_resume :
    (config : ContextConfig) (content : Bytes)
    → length (fit_resume config content) ≤ config.max_resume_chars + 40
unfolding fit_resume
length-fit_resume config content = ground (
  arith,
  length-take config.max_resume_chars content,
  length-append (take config.max_resume_chars content) truncation_note,
)

estimate_chars-resumed_messages :
    (resume last : Bytes)
    → estimate_chars (resumed_messages resume last) ≤ length resume + length last + 520
unfolding estimate_chars resumed_messages
estimate_chars-resumed_messages resume [] = omega (arith, length-append resume resume_footing)
estimate_chars-resumed_messages resume (c ∷ last) =
    omega (arith, length-append resume resume_footing)

-- The roles of a resumed history alternate, and the user spoke last just when a message is repeated.
build_resumed_history_turns :
    (resume last system_prompt : Bytes)
    → (last ≢ [] → IsTurn (build_resumed_history resume last system_prompt))
      × (last ≡ [] → IsAnswered (build_resumed_history resume last system_prompt))
unfolding build_resumed_history resumed_messages IsTurn IsAnswered Alternates last_role role_eq
build_resumed_history_turns resume [] [] = ((λ h. ground (arith)), λ h. ((refl, _), refl))
build_resumed_history_turns resume [] (_ ∷ _) =
    ((λ h. ground (arith)), λ h. ((refl, (refl, _)), refl))
build_resumed_history_turns resume (_ ∷ _) [] =
    ((λ h. ((refl, (refl, _)), refl)), λ h. ground (arith))
build_resumed_history_turns resume (_ ∷ _) (_ ∷ _) =
    ((λ h. ((refl, (refl, (refl, _))), refl)), λ h. ground (arith))

estimate_chars-build_resumed_history :
    (resume last system_prompt : Bytes)
    → estimate_chars (build_resumed_history resume last system_prompt)
      ≤ length system_prompt + length resume + length last + 540
unfolding build_resumed_history estimate_chars
estimate_chars-build_resumed_history resume last [] =
    omega (arith, estimate_chars-resumed_messages resume last)
estimate_chars-build_resumed_history resume last (c ∷ prompt) =
    omega (arith, estimate_chars-resumed_messages resume last)

length-generate_resume :
    {W : Type 0} (chat : W → List ConversationMessage → Bytes → W × CompletionResult)
    (config : ContextConfig) (is_configured : Bool) (w : W) (history : List ConversationMessage)
    (system_prompt : Bytes)
    → length (generate_resume chat config is_configured w history system_prompt).1
      ≤ config.max_resume_chars + 40
unfolding generate_resume
length-generate_resume chat config is_configured w history system_prompt =
    let answer = (chat w (history ++ message_of user resume_prompt ∷ []) system_prompt).1 in
    elim (Bool-cases is_configured) [
      | inr f ↦ rw (generate_resume, f) (omega arith)
      | inl t ↦ elim (Bool-cases answer.success) [
        | inr f ↦ rw (generate_resume, t, f) (omega arith)
        | inl u ↦ rw (generate_resume, t, u) (length-fit_resume config answer.content)
      ]
    ]

-- A cycle that fails leaves the history as it was. After one that is done the roles alternate, the
-- user spoke last if a message of his was found to repeat, and the estimated size is bounded by the
-- limit for the resume, the prompt and that message, whatever the model said.
pub perform_resume_cycle_cases :
    {W : Type 0} (chat : W → List ConversationMessage → Bytes → W × CompletionResult)
    (tool : Option (MemoryTool W)) (config : ContextConfig) (is_configured : Bool) (w : W)
    (time : Bytes) (history : List ConversationMessage) (system_prompt session_key : Bytes)
    → let ((world, after), done) =
        perform_resume_cycle chat tool config is_configured w time history system_prompt
          session_key in
      let last = last_user_message history in
      ((done ≡ false) × (after ≡ history))
      ⊎ ((done ≡ true)
          × (last ≢ [] → IsTurn after)
          × (last ≡ [] → IsAnswered after)
          × (estimate_chars after
              ≤ length system_prompt + config.max_resume_chars + length last + 580))
unfolding perform_resume_cycle
perform_resume_cycle_cases chat tool config is_configured w time history system_prompt session_key =
    let asked = generate_resume chat config is_configured w history system_prompt in
    let turns = build_resumed_history_turns asked.1 (last_user_message history) system_prompt in
    elim (Bool-cases (is_empty asked.1)) [
      | inl t ↦ rw (perform_resume_cycle, t) (inl (refl, refl))
      | inr f ↦
          rw (perform_resume_cycle, f)
            (inr (
              refl,
              turns.0,
              turns.1,
              omega (
                arith,
                length-generate_resume chat config is_configured w history system_prompt,
                estimate_chars-build_resumed_history asked.1 (last_user_message history)
                    system_prompt,
              ),
            ))
    ]
