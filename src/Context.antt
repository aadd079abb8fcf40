-- ===== src/Context.antt =====
-- `ContextManager` of src/core/context_manager.cpp. The model, the memory tool and the comparison of
-- the usage ratio with the threshold, which is done on `double`, are parameters.
pub mod Laws
use open_crank.Prelude.{
  ltb, if◌then◌else◌, Bytes, codes, length, take, is_empty, any, ℕ, ◌+◌, ◌-◌, ◌%◌, ◌^◌, Bool, true,
  false, not, ◌&&◌, ◌||◌, Option, none, some, List, [], ◌∷◌, ◌++◌,
}
use open_crank.Text.Find.{has}
use open_crank.Session.Store.{MessageRole, system, user, assistant, ConversationMessage}
use open_crank.Agent.Types.{CompletionResult}
use open_crank.Agent.History.{role_eq, message_of}

-- `exceeds total budget` is `total / budget >= usage_threshold`, and `full` is `1.0 >= ...`.
pub record ContextConfig : Type 0 where
  pub exceeds : ℕ → ℕ → Bool
  pub full : Bool
  pub max_context_chars : ℕ
  pub reserve_for_response : ℕ
  pub max_resume_chars : ℕ
  pub auto_save_memory : Bool

pub record ContextUsage : Type 0 where
  pub system_prompt_chars : ℕ
  pub history_chars : ℕ
  pub total_chars : ℕ
  pub budget_chars : ℕ
  pub needs_resume : Bool

unfoldable pub estimate_chars : List ConversationMessage → ℕ
estimate_chars [] = 0
estimate_chars (msg ∷ messages) = length msg.content + 20 + estimate_chars messages

-- The budget is a difference in `size_t`.
unfoldable pub estimate_usage : ContextConfig → List ConversationMessage → Bytes → ContextUsage
estimate_usage config history system_prompt =
    let total = length system_prompt + estimate_chars history in
    let budget = (config.max_context_chars + 2 ^ 64 - config.reserve_for_response) % 2 ^ 64 in
    record {
      system_prompt_chars = length system_prompt;
      history_chars = estimate_chars history;
      total_chars = total;
      budget_chars = budget;
      needs_resume = if ltb 0 budget then config.exceeds total budget else config.full;
    }

abbrev pub resume_prompt : Bytes
resume_prompt =
    codes "You are about to run out of context window space. Your task now is to create "
    ++ codes "a RESUME of everything that has happened in this conversation. This resume will "
    ++ codes "capture the essence of the conversation that will be used to restore your memory "
    ++ codes "after the context is cleared.\n\n"
    ++ codes "The resume MUST include:\n"
    ++ codes
        "1. **Your original instructions and role** - What system prompt/personality you were given\n"
    ++ codes "2. **What the user asked for** - The original request and any follow-up requests\n"
    ++ codes
        "3. **What you did** - Brief overview of tools called, actions taken, results obtained\n"
    ++ codes "4. **Current state** - Where you are in the task, what's pending\n"
    ++ codes "5. **Important facts** - Any key information, file paths, URLs, names mentioned\n"
    ++ codes "6. **What to do next** - Clear instructions for continuing the task\n\n"
    ++ codes "What to avoid in the resume:\n"
    ++ codes "- Do NOT include irrelevant chit-chat or pleasantries\n"
    ++ codes
        "- Do NOT include any content that can be easily re-read from the conversation (e.g., simple acknowledgments)\n"
    ++ codes "- Do NOT include parameters used on the tools"
    ++ codes "Write the resume as a structured document. Be comprehensive but concise. "
    ++ codes "Do NOT use any tools. Just output the resume text directly."

abbrev pub truncation_note : Bytes
truncation_note = codes "\n\n[Resume truncated due to size limits]"

-- The content of an answer, cut to the limit.
unfoldable pub fit_resume : ContextConfig → Bytes → Bytes
fit_resume config content =
    if ltb config.max_resume_chars (length content)
    then take config.max_resume_chars content ++ truncation_note
    else content

abbrev pub resume_heading : Bytes
resume_heading =
    codes "[CONTEXT RESUME - Previous conversation was cleared to free up context space. "
    ++ codes "Below is a summary of everything that happened before this point.]\n\n"

abbrev pub resume_footing : Bytes
resume_footing =
    codes "\n\n[END CONTEXT RESUME - Continue from where you left off. "
    ++ codes "You have a fresh context window now.]"

abbrev pub acknowledgment : Bytes
acknowledgment =
    codes
      "Understood. I've reviewed the context resume and I'm ready to continue where we left off."

-- The messages after the system prompt.
unfoldable pub resumed_messages : Bytes → Bytes → List ConversationMessage
resumed_messages resume last_user_message =
    message_of user (resume_heading ++ resume ++ resume_footing)
    ∷ message_of assistant acknowledgment
    ∷ (if is_empty last_user_message then [] else message_of user last_user_message ∷ [])

unfoldable pub build_resumed_history : Bytes → Bytes → Bytes → List ConversationMessage
build_resumed_history resume last_user_message system_prompt =
    if is_empty system_prompt
    then resumed_messages resume last_user_message
    else message_of system system_prompt ∷ resumed_messages resume last_user_message

-- The test of the loop that looks for the last message of the user, from the end.
abbrev pub is_spoken : ConversationMessage → Bool
is_spoken msg = role_eq msg.role user && not (has msg.content (codes "[TOOL_RESULT"))

unfoldable pub last_user_message : List ConversationMessage → Bytes
last_user_message [] = []
last_user_message (msg ∷ history) =
    let later = last_user_message history in
    if any is_spoken history then later else if is_spoken msg then msg.content else []

-- The content that is saved; the time is given as its text.
unfoldable pub resume_entry : Bytes → Bytes → Bytes → Bytes
resume_entry time session_key resume =
    codes "# Context Resume\n\n"
    ++ codes "**Generated:** "
    ++ time
    ++ codes "\n"
    ++ (if is_empty session_key then [] else codes "**Session:** " ++ session_key ++ codes "\n")
    ++ codes "\n---\n\n"
    ++ resume

-- The memory tool: the calls of "file_save" and "memory_save" on a content, and whether they succeed.
pub record MemoryTool (W : Type 0) : Type 0 where
  pub is_initialized : Bool
  pub file_save : W → Bytes → W × Bool
  pub memory_save : W → Bytes → W × Bool

module _ {W : Type 0} where
  unfoldable pub save_resume_to_memory :
      Option (MemoryTool W) → W → Bytes → Bytes → Bytes → W × Bool
  save_resume_to_memory none w time session_key resume = (w, false)
  save_resume_to_memory (some tool) w time session_key resume =
      let content = resume_entry time session_key resume in
      let (filed, file_result) = tool.file_save w content in
      let (stored, db_result) = tool.memory_save filed content in
      if tool.is_initialized then (stored, file_result || db_result) else (w, false)

  unfoldable pub generate_resume :
      (W → List ConversationMessage → Bytes → W × CompletionResult)
      → ContextConfig
      → Bool
      → W
      → List ConversationMessage
      → Bytes
      → W × Bytes
  generate_resume chat config is_configured w history system_prompt =
      let (after, result) = chat w (history ++ message_of user resume_prompt ∷ []) system_prompt in
      if not is_configured
      then (w, [])
      else if not result.success
      then (after, [])
      else (after, fit_resume config result.content)

  -- The world and the history afterwards, and whether the cycle was done.
  unfoldable pub perform_resume_cycle :
      (W → List ConversationMessage → Bytes → W × CompletionResult)
      → Option (MemoryTool W)
      → ContextConfig
      → Bool
      → W
      → Bytes
      → List ConversationMessage
      → Bytes
      → Bytes
      → (W × List ConversationMessage) × Bool
  perform_resume_cycle chat tool config is_configured w time history system_prompt session_key =
      let (asked, resume) = generate_resume chat config is_configured w history system_prompt in
      let (saved, _) = save_resume_to_memory tool asked time session_key resume in
      if is_empty resume then ((asked, history), false) else (
        (
          (if config.auto_save_memory then saved else asked),
          build_resumed_history resume (last_user_message history) system_prompt,
        ),
        true,
      )
