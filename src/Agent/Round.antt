-- ===== src/Agent/Round.antt =====
-- One iteration of the loop of `Agent::run`. The model is a parameter: a function on the state of the
-- world, the history and the system prompt. Counters of type `int` are numbers without bound; a
-- negative limit is zero. Text beyond ASCII is written as its bytes.
pub mod Laws
use open_crank.Prelude.{
  ltb, leb, ◌==◌, if◌then◌else◌, Bytes, codes, str_eq, take, is_empty, any, ℕ, zero, suc, ◌+◌, ◌-◌,
  Bool, true, false, not, ◌&&◌, none, some, List, [], ◌∷◌, ◌++◌,
}
use open_crank.Prelude.Maps.{Map, Key, nat_key, str_key, lookup, contains, insert, erase}
use open_crank.Text.Trim.{to_lower}
use open_crank.Text.Find.{to_string}
use open_crank.Chunker.{ContentChunker}
use open_crank.Session.Store.{user, assistant, ConversationMessage}
use open_crank.Agent.Json.{JsonLib}
use open_crank.Agent.Types.{
  AgentToolResult, ParsedToolCall, AgentConfig, AgentResult, CompletionResult,
}
use open_crank.Agent.Calls.{parse_tool_calls, extract_response_text}
use open_crank.Agent.Tools.{AgentTool, Agent, execute_tool, format_tool_result}
use open_crank.Agent.History.{is_token_limit_error, message_of, try_truncate_history}
use open_crank.Agent.Intent.{indicates_tool_intent}

-- The parts of `AgentResult` that the loop counts.
pub record Tally : Type 0 where
  pub iterations : ℕ
  pub tool_calls_made : ℕ
  pub tools_used : List Bytes

abbrev pub bullet : Bytes
bullet = 226 ∷ 128 ∷ 162 ∷ []

unfoldable pub progress_text : Bytes → Bytes
progress_text accumulated =
    if is_empty accumulated then [] else codes "Progress so far:\n" ++ accumulated ++ codes "\n\n"

-- The message after too many errors in a row.
unfoldable pub error_pause_text : ℕ → Bytes → Bytes → Tally → Bytes
error_pause_text consecutive_errors error accumulated t =
    (226 ∷ 154 ∷ 160 ∷ 239 ∷ 184 ∷ 143 ∷ [])
    ++ codes " **Task paused after "
    ++ to_string consecutive_errors
    ++ codes " consecutive AI errors**\n\n"
    ++ codes "Last error: "
    ++ error
    ++ codes "\n\n"
    ++ progress_text accumulated
    ++ codes "The AI encountered repeated errors after "
    ++ to_string t.iterations
    ++ codes " iterations and "
    ++ to_string t.tool_calls_made
    ++ codes " tool calls.\n\n"
    ++ codes "**Options:**\n"
    ++ bullet
    ++ codes " `/continue` - Retry with 15 more iterations\n"
    ++ bullet
    ++ codes " `/continue <N>` - Retry with N more iterations\n"
    ++ bullet
    ++ codes " `/cancel` - Stop the task\n"

-- The message after the last iteration.
unfoldable pub limit_pause_text : ℕ → Bytes → Tally → Bytes
limit_pause_text max_iterations accumulated t =
    (226 ∷ 143 ∷ 184 ∷ 239 ∷ 184 ∷ 143 ∷ [])
    ++ codes " **Task paused after "
    ++ to_string max_iterations
    ++ codes " iterations**\n\n"
    ++ progress_text accumulated
    ++ codes "The AI has made "
    ++ to_string t.tool_calls_made
    ++ codes " tool calls "
    ++ codes "and needs more iterations to complete the task.\n\n"
    ++ codes "**Options:**\n"
    ++ bullet
    ++ codes " `/continue` - Allow 15 more iterations\n"
    ++ bullet
    ++ codes " `/continue <N>` - Allow N more iterations\n"
    ++ bullet
    ++ codes " `/continue no-stop` - Remove iteration limit (use with caution)\n"
    ++ bullet
    ++ codes " `/cancel` - Stop the task\n"

abbrev pub continuation_prompt : Bytes
continuation_prompt =
    codes "You said you would take action but didn't use a tool. "
    ++ codes "Stop planning and ACT NOW. Emit the tool call immediately:\n\n"
    ++ codes "{\"tool\": \"TOOLNAME\", \"arguments\": {\"param\": \"value\"}}\n\n"
    ++ codes "Do NOT explain. Do NOT plan. Just emit the tool call."

abbrev pub context_exceeded : Bytes
context_exceeded =
    codes "Context window exceeded and recovery failed. Try a simpler request or use smaller data."

unfoldable pub succeeded : Tally → Bytes → AgentResult
succeeded t response = record {
  success = true;
  final_response = response;
  error = [];
  iterations = t.iterations;
  tool_calls_made = t.tool_calls_made;
  tools_used = t.tools_used;
  paused = false;
  pause_message = [];
}

unfoldable pub failed : Tally → Bytes → AgentResult
failed t error = record {
  success = false;
  final_response = [];
  error = error;
  iterations = t.iterations;
  tool_calls_made = t.tool_calls_made;
  tools_used = t.tools_used;
  paused = false;
  pause_message = [];
}

unfoldable pub paused_with : Tally → Bytes → AgentResult
paused_with t message = record {
  success = false;
  final_response = message;
  error = [];
  iterations = t.iterations;
  tool_calls_made = t.tool_calls_made;
  tools_used = t.tools_used;
  paused = true;
  pause_message = message;
}

-- The result that stands for a call that is not made again.
unfoldable pub skipped_text : Bytes → Bytes → Bytes
skipped_text tool_name why =
    codes "[TOOL_RESULT tool="
    ++ tool_name
    ++ codes " success=true]\n"
    ++ why
    ++ codes "\n[/TOOL_RESULT]\n"

abbrev pub duplicate_note : Bytes
duplicate_note =
    codes "(Duplicate call skipped - same tool with same parameters "
    ++ codes "was already called in this response)"

abbrev pub repeated_note : Bytes
repeated_note =
    codes "(This exact tool call was already made in the previous iteration. "
    ++ codes "The result has not changed. Please use the previous result "
    ++ codes "or try a different approach.)"

module _ (lib : JsonLib) (W : Type 0) where
  -- The variables of the loop over the calls of one response.
  pub record CallState : Type 0 where
    pub results : Bytes
    pub should_continue : Bool
    pub seen_in_response : List Bytes
    pub recent_tool_calls : Map Bytes ℕ
    pub tool_calls_made : ℕ
    pub tools_used : List Bytes
    pub env : W × ContentChunker

  -- The variables of the loop of `run`, with the history that the caller passed.
  pub record RunState : Type 0 where
    pub history : List ConversationMessage
    pub tally : Tally
    pub consecutive_errors : ℕ
    pub token_limit_retries : ℕ
    pub accumulated_response : Bytes
    pub recent_tool_calls : Map Bytes ℕ
    pub env : W × ContentChunker

  -- How an iteration ends; `aborts` is an exception.
  pub data Outcome : Type 0 where
    continues : RunState → Outcome
    returns : RunState → AgentResult → Outcome
    aborts : RunState → Outcome

  -- A call is executed until it succeeds, as often as the number says.
  unfoldable pub retry_tool :
      Map Bytes (AgentTool lib W)
      → ParsedToolCall lib
      → ℕ
      → AgentToolResult
      → W × ContentChunker
      → (W × ContentChunker) × AgentToolResult
  retry_tool tools call zero last env = (env, last)
  retry_tool tools call (suc n) last env =
      let (after, result) = execute_tool lib W tools call env in
      elim result.success [ true ↦ (after, result) | false ↦ retry_tool tools call n result after ]

  -- `AgentToolResult()`.
  abbrev pub default_result : AgentToolResult
  default_result = record { success = false; output = []; error = []; should_continue = true }

  unfoldable pub dedup_key : ParsedToolCall lib → Bytes
  dedup_key call =
      call.tool_name ++ codes ":" ++ (if call.valid then lib.dump call.params else call.raw_content)

  -- The second half of the loop's body: the call is made.
  unfoldable pub make_tool_call :
      Agent lib W → ℕ → ParsedToolCall lib → Bytes → CallState → CallState
  make_tool_call a iteration call key s =
      let ((world, chunker), result) = retry_tool a.tools call 3 default_result s.env in
      let (chunker', text) = format_tool_result a.config chunker call.tool_name result in
      record {
        results = s.results ++ text ++ codes "\n";
        should_continue = if result.should_continue then s.should_continue else false;
        seen_in_response = s.seen_in_response;
        recent_tool_calls = insert key iteration s.recent_tool_calls;
        tool_calls_made = s.tool_calls_made + 1;
        tools_used =
            if any (str_eq call.tool_name) s.tools_used
            then s.tools_used
            else s.tools_used ++ call.tool_name ∷ [];
        env = (world, chunker');
      }

  abbrev pub with_result : CallState → Bytes → CallState
  with_result s text = record s { results = s.results ++ text }

  unfoldable pub call_step : Agent lib W → ℕ → ParsedToolCall lib → CallState → CallState
  call_step a iteration call s =
      let key = dedup_key call in
      let seen = record s { seen_in_response = key ∷ s.seen_in_response } in
      if any (str_eq key) s.seen_in_response
      then with_result s (skipped_text call.tool_name duplicate_note)
      else elim (lookup key s.recent_tool_calls) [
        | none ↦ make_tool_call a iteration call key seen
        | some prev ↦
            if prev + 1 == iteration
            then with_result seen (skipped_text call.tool_name repeated_note)
            else make_tool_call a iteration call key seen
      ]

  unfoldable pub run_calls : Agent lib W → ℕ → List (ParsedToolCall lib) → CallState → CallState
  run_calls a iteration [] s = s
  run_calls a iteration (call ∷ calls) s =
      run_calls a iteration calls (call_step a iteration call s)

  -- The branch for a failed call of the model.
  unfoldable pub failed_round : AgentConfig → ℕ → RunState → Bytes → Outcome
  failed_round config initial_history_size s error =
      let retries = s.token_limit_retries + 1 in
      let (shorter, truncated) = try_truncate_history s.history in
      let errors = s.consecutive_errors + 1 in
      if is_token_limit_error error
      then (if leb retries 2 && truncated
          then continues (record s {
            history = shorter;
            consecutive_errors = 0;
            token_limit_retries = retries;
          })
          else returns
              (record s {
                history = take initial_history_size s.history;
                token_limit_retries = retries;
              })
              (failed s.tally context_exceeded))
      else if leb config.max_consecutive_errors errors
      then returns (record s { consecutive_errors = errors })
          (paused_with s.tally (error_pause_text errors error s.accumulated_response s.tally))
      else continues (record s { consecutive_errors = errors })

  abbrev pub say : RunState → List ConversationMessage → RunState
  say s messages = record s { history = s.history ++ messages }

  -- The branch for an answer without tool calls.
  unfoldable pub silent_round : AgentConfig → RunState → Bytes → Outcome
  silent_round config s response =
      if indicates_tool_intent (to_lower response) && ltb s.tally.iterations config.max_iterations
      then continues
          (say s (message_of assistant response ∷ message_of user continuation_prompt ∷ []))
      else returns (say s (message_of assistant response ∷ [])) (succeeded s.tally response)

  -- The end of that branch: whether the tools let the loop go on, and the text around the calls.
  unfoldable pub conclude : Bool → RunState → Bytes → Outcome
  conclude true s text =
      let told : Bytes =
        if is_empty text
        then s.accumulated_response
        else if is_empty s.accumulated_response
        then text
        else s.accumulated_response ++ codes "\n\n" ++ text in
      continues (record s { accumulated_response = told })
  conclude false s text =
      returns s (succeeded s.tally (if is_empty text then codes "Task completed." else text))

  -- The branch for an answer with tool calls.
  unfoldable pub calling_round :
      Agent lib W → RunState → Bytes → List (ParsedToolCall lib) → Outcome
  calling_round a s response calls =
      let done : CallState = run_calls a s.tally.iterations calls (record {
        results = [];
        should_continue = true;
        seen_in_response = [];
        recent_tool_calls = s.recent_tool_calls;
        tool_calls_made = s.tally.tool_calls_made;
        tools_used = s.tally.tools_used;
        env = s.env;
      }) in
      let text = extract_response_text lib response calls in
      let after : RunState =
        record (say s (message_of assistant response ∷ message_of user done.results ∷ [])) {
          tally = record s.tally {
            tool_calls_made = done.tool_calls_made;
            tools_used = done.tools_used;
          };
          recent_tool_calls = done.recent_tool_calls;
          env = done.env;
        } in
      conclude done.should_continue after text

  unfoldable pub answered_round : Agent lib W → AgentConfig → RunState → Bytes → Outcome
  answered_round a config s response =
      let reset = record s { consecutive_errors = 0; token_limit_retries = 0 } in
      elim (parse_tool_calls lib response) [
        | none ↦ aborts reset
        | some calls ↦ elim calls [
          | [] ↦ silent_round config reset response
          | call ∷ more ↦ calling_round a reset response (call ∷ more)
        ]
      ]

  -- The body of the loop, on what the model says to the history.
  unfoldable pub round : Agent lib W → AgentConfig → ℕ → RunState → W × CompletionResult → Outcome
  round a config initial_history_size s (world, ai_result) =
      let next = record s {
        tally = record s.tally { iterations = s.tally.iterations + 1 };
        env = (world, s.env.1);
      } in
      if ai_result.success
      then answered_round a config next ai_result.content
      else failed_round config initial_history_size next ai_result.error
