-- ===== src/Agent/Types.antt =====
-- The data of agent.hpp, and `CompletionResult` of ai.hpp.
use open_crank.Prelude.{ltb, if◌then◌else◌, Bytes, ℕ, ◌*◌, ◌/◌, Bool, true, false, List, []}
use open_crank.Agent.Json.{JsonLib}

pub record ToolParamSchema : Type 0 where
  pub name : Bytes
  pub type : Bytes
  pub description : Bytes
  pub required : Bool
  pub default_value : Bytes

pub record AgentToolResult : Type 0 where
  pub success : Bool
  pub output : Bytes
  pub error : Bytes
  pub should_continue : Bool

abbrev pub result_ok : Bytes → AgentToolResult
result_ok output = record { success = true; output = output; error = []; should_continue = true }

abbrev pub result_fail : Bytes → AgentToolResult
result_fail error = record { success = false; output = []; error = error; should_continue = true }

abbrev pub result_stop : Bytes → AgentToolResult
result_stop output = record { success = true; output = output; error = []; should_continue = false }

pub record ParsedToolCall (lib : JsonLib) : Type 0 where
  pub tool_name : Bytes
  pub params : lib.Json
  pub raw_content : Bytes
  pub start_pos : ℕ
  pub end_pos : ℕ
  pub valid : Bool
  pub parse_error : Bytes

-- The fields that the code reads.
pub record AgentConfig : Type 0 where
  pub max_iterations : ℕ
  pub max_consecutive_errors : ℕ
  pub max_tool_result_size : ℕ
  pub auto_chunk_large_results : Bool
  pub chunk_size : ℕ
  pub context_size : ℕ

unfoldable pub effective_chunk_size : AgentConfig → ℕ
effective_chunk_size c =
    let derived = c.context_size * 4 / 10 in
    if ltb 0 c.chunk_size
    then c.chunk_size
    else if ltb 0 c.context_size
    then (if ltb 2000 derived then derived else 2000)
    else 8000

pub record AgentResult : Type 0 where
  pub success : Bool
  pub final_response : Bytes
  pub error : Bytes
  pub iterations : ℕ
  pub tool_calls_made : ℕ
  pub tools_used : List Bytes
  pub paused : Bool
  pub pause_message : Bytes

-- What the agent reads of the answer of a model.
pub record CompletionResult : Type 0 where
  pub success : Bool
  pub content : Bytes
  pub error : Bytes
