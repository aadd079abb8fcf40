-- ===== src/Tests/Agent.antt =====
-- The theorems on the agent, the message handler and the resume cycle, with a small JSON library: a
-- text is its own value, it is an object when it starts with a brace, and it names one tool.
use open_crank.Prelude.{
  leb, ◌==◌, if◌then◌else◌, Bytes, codes, str_eq, length, is_empty, ℕ, ◌+◌, ◌*◌, ◌≤◌, ◌<◌, ◌≡◌,
  refl, ◌≢◌, ◌⊎◌, inl, Bool, true, false, none, some, List, [], ◌∷◌, ◌++◌,
}
use open_crank.Prelude.Maps.{nat_key, str_key}
use open_crank.Chunker.{no_content}
use open_crank.Session.Store.{user, assistant, ConversationMessage}
use open_crank.RateLimiter.Typing
use open_crank.Monitor.{new_monitor}
use open_crank.Agent.Json.{JsonLib}
use open_crank.Agent.Types.{result_ok, AgentConfig, CompletionResult, ParsedToolCall}
use open_crank.Text.Trim.{starts_with}
use open_crank.Text.Find.{find, has}
use open_crank.Agent.Recover.{trim_whitespace, try_parse_json}
use open_crank.Agent.Calls.{
  scan_object, other_items, read_arguments, make_call, judge_object, judge, parse_from,
  parse_tool_calls, extract_response_text,
}
use open_crank.Agent.Calls.Laws.{
  AreSpans, IsWoven, parse_tool_calls-AreSpans, extract_response_text-IsWoven,
}
use open_crank.Agent.Tools.{AgentTool, Agent}
use open_crank.Agent.History.{role_eq, message_of, try_truncate_history}
use open_crank.Agent.History.Laws.{AreShortened, IsReduced, Alternates, try_truncate_history_cases}
use open_crank.Agent.History.Turns.{last_role, IsTurn, IsAnswered}
use open_crank.Agent.Run.{run}
use open_crank.Agent.Run.Turns.{AgreeOnTurns, run_agree}
use open_crank.Handler.{Shared}
use open_crank.Context.{ContextConfig, estimate_chars, last_user_message, perform_resume_cycle}
use open_crank.Context.Laws.{perform_resume_cycle_cases}

abbrev starts_with_brace : Bytes → Bool
starts_with_brace [] = false
starts_with_brace (c ∷ s) = c == b'{'

abbrev small_json : JsonLib
small_json = record {
  Json = Bytes;
  parse = λ s. inl s;
  is_object = starts_with_brace;
  is_string = λ v. false;
  contains = λ v k. str_eq k (codes "tool");
  at = λ v k. v;
  string_at = λ v k. if has v (codes ": 1") then none else some (codes "echo");
  get_string = λ v. v;
  items = λ v. [];
  empty_object = [];
  null = [];
  set = λ v k x. x;
  of_string = λ s. s;
  dump = λ v. v;
}

-- The world counts the calls of the tool.
abbrev echo : AgentTool small_json ℕ
echo = record {
  name = codes "echo";
  description = codes "Says what it is told.";
  params = [];
  execute = λ params state. ((state.0 + 1, state.1), inl (result_ok params));
}

abbrev config : AgentConfig
config = record {
  max_iterations = 2;
  max_consecutive_errors = 5;
  max_tool_result_size = 15000;
  auto_chunk_large_results = true;
  chunk_size = 0;
  context_size = 0;
}

abbrev echo_agent : Agent small_json ℕ
echo_agent = record { tools = (codes "echo", echo) ∷ []; config = config; chunker = no_content }

abbrev response : Bytes
response = codes "Now: {\"tool\": \"echo\"} done"

-- A model that always asks for the tool, and one that fails where the user did not speak last.
abbrev asking : ℕ → List ConversationMessage → Bytes → ℕ × CompletionResult
asking world history prompt = (world, record { success = true; content = response; error = [] })

abbrev one_call : ParsedToolCall small_json
one_call = record {
  tool_name = codes "echo";
  params = [];
  raw_content = codes "{\"tool\": \"echo\"}";
  start_pos = 5;
  end_pos = 21;
  valid = true;
  parse_error = [];
}

one_call_parsed : parse_tool_calls small_json response ≡ some (one_call ∷ [])
unfolding parse_tool_calls parse_from judge judge_object make_call read_arguments other_items
    scan_object has find starts_with try_parse_json str_eq
one_call_parsed = refl

parse_tool_calls-AreSpans_example : AreSpans response 0 (one_call ∷ [])
parse_tool_calls-AreSpans_example =
    parse_tool_calls-AreSpans response (one_call ∷ []) one_call_parsed

extract_response_text-IsWoven_example :
    (text : Bytes) × IsWoven text (one_call ∷ []) response
    × (extract_response_text small_json response (one_call ∷ [])
        ≡ (if is_empty (one_call ∷ []) then response else trim_whitespace text))
extract_response_text-IsWoven_example =
    extract_response_text-IsWoven response (one_call ∷ []) one_call_parsed

abbrev said : List ConversationMessage
said = message_of user (codes "hello") ∷ message_of assistant (codes "hi") ∷ []

abbrev long_history : List ConversationMessage
long_history = said ++ said ++ said ++ message_of user (codes "go on") ∷ []

try_truncate_history_cases_example :
    let (after, truncated) = try_truncate_history long_history in
    ((truncated ≡ false) × (after ≡ long_history))
    ⊎ (((truncated ≡ true) × AreShortened long_history after)
        ⊎ ((truncated ≡ true)
            × (length after < length long_history)
            × IsReduced long_history after))
try_truncate_history_cases_example = try_truncate_history_cases long_history

-- The same model, but silent about an empty history.
abbrev asking_of_turns : ℕ → List ConversationMessage → Bytes → ℕ × CompletionResult
asking_of_turns world [] prompt = (world, record { success = false; content = []; error = [] })
asking_of_turns world (msg ∷ history) prompt = asking world (msg ∷ history) prompt

asking-AgreeOnTurns : AgreeOnTurns asking asking_of_turns
unfolding AgreeOnTurns IsTurn
asking-AgreeOnTurns world [] prompt turn = elim turn [ ]
asking-AgreeOnTurns world (msg ∷ history) prompt turn = refl

said-IsAnswered : IsAnswered said
unfolding IsAnswered Alternates last_role role_eq
said-IsAnswered = ((refl, _), refl)

run_agree_example :
    run small_json ℕ asking echo_agent 0 true (codes "go") said [] config
    ≡ run small_json ℕ asking_of_turns echo_agent 0 true (codes "go") said [] config
run_agree_example =
    run_agree asking asking_of_turns asking-AgreeOnTurns echo_agent 0 true (codes "go") said []
      config said-IsAnswered

abbrev shared : Shared small_json ℕ asking
shared = record {
  agent = echo_agent;
  monitor =
      new_monitor (record {
        hang_timeout_seconds = 60;
        typing_interval_seconds = 5;
        check_interval_ms = 5000;
      });
  typing = Typing.make;
  system_prompt = [];
  world = 0;
}

-- The model's answer has a number under "tool", so the run is left with an exception.
abbrev confused : ℕ → List ConversationMessage → Bytes → ℕ × CompletionResult
confused world history prompt =
    (world, record { success = true; content = codes "{\"tool\": 1}"; error = [] })

abbrev shared_confused : Shared small_json ℕ confused
shared_confused = record {
  agent = echo_agent;
  monitor = shared.monitor;
  typing = Typing.make;
  system_prompt = [];
  world = 0;
}

abbrev context : ContextConfig
context = record {
  exceeds = λ total budget. leb (budget * 3) (total * 4);
  full = true;
  max_context_chars = 16000;
  reserve_for_response = 4000;
  max_resume_chars = 3000;
  auto_save_memory = true;
}

perform_resume_cycle_cases_example :
    let ((world, after), done) =
      perform_resume_cycle asking none context true 0 (codes "12:00") said (codes "Be brief.") [] in
    let last = last_user_message said in
    ((done ≡ false) × (after ≡ said))
    ⊎ ((done ≡ true)
        × (last ≢ [] → IsTurn after)
        × (last ≡ [] → IsAnswered after)
        × (estimate_chars after ≤ length (codes "Be brief.") + 3000 + length last + 580))
perform_resume_cycle_cases_example =
    perform_resume_cycle_cases asking none context true 0 (codes "12:00") said (codes "Be brief.")
      []
