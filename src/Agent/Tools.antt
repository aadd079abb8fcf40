-- ===== src/Agent/Tools.antt =====
-- The registered tools: `register_tool`, `build_tools_prompt`, `execute_tool` and
-- `format_tool_result`. What a tool does is a parameter: a function on the state of the world and the
-- agent's chunker, which gives a result or the text of an exception.
use open_crank.Prelude.{
  ltb, if◌then◌else◌, Bytes, codes, str_eq, length, take, is_empty, ℕ, min, ◌⊎◌, inl, inr, Bool,
  true, false, not, ◌&&◌, none, some, List, [], ◌∷◌, ◌++◌, map,
}
use open_crank.Prelude.Maps.{Map, nat_key, str_key, lookup, insert}
use open_crank.Text.Find.{to_string}
use open_crank.Chunker.{ContentChunker, store, get_total_chunks}
use open_crank.Agent.Json.{JsonLib}
use open_crank.Agent.Types.{
  ToolParamSchema, AgentToolResult, result_fail, ParsedToolCall, AgentConfig, effective_chunk_size,
}
use open_crank.Agent.Params.{recover_params_from_raw}

pub record AgentTool (lib : JsonLib) (W : Type 0) : Type 0 where
  pub name : Bytes
  pub description : Bytes
  pub params : List ToolParamSchema
  pub execute : lib.Json → W × ContentChunker → (W × ContentChunker) × (AgentToolResult ⊎ Bytes)

unfoldable pub param_line : ToolParamSchema → Bytes
param_line p =
    codes "  - `"
    ++ p.name
    ++ codes "` ("
    ++ p.type
    ++ (if p.required then codes ", required" else [])
    ++ codes "): "
    ++ p.description
    ++ codes "\n"

unfoldable pub param_lines : List ToolParamSchema → Bytes
param_lines [] = []
param_lines (p ∷ params) = param_line p ++ param_lines params

-- The names with commas between.
unfoldable pub join_names : List Bytes → Bytes
join_names [] = []
join_names (name ∷ names) = elim names [
  | [] ↦ name
  | _ ∷ _ ↦ name ++ codes ", " ++ join_names names
]

-- The text before the list of the tools.
abbrev tools_heading : Bytes
tools_heading =
    codes "## Available Tools\n\n"
    ++ codes
        "**ALWAYS use tools** - When you need to perform an action (schedule reminders, send messages, execute commands, etc.), you MUST call the appropriate tool. Do NOT just say you'll do it or pretend to do it\n"
    ++ codes "Use this JSON format:\n"
    ++ codes "```json\n"
    ++ codes "{\n"
    ++ codes "  \"tool\": \"TOOLNAME\",\n"
    ++ codes "  \"arguments\": {\n"
    ++ codes "    \"param\": \"value\"\n"
    ++ codes "  }\n"
    ++ codes "}\n"
    ++ codes "```\n\n"
    ++ codes "**FORMAT Rules:**\n"
    ++ codes "1. Start IMMEDIATELY with the JSON tool call - NO explanatory text before it\n"
    ++ codes "2. You can call multiple tools by emitting multiple JSON objects\n"
    ++ codes "3. You can explain AFTER the tool call(s), never before\n\n"
    ++ codes "### Large Content Handling\n"
    ++ codes
        "When a tool returns content too large to fit in context, it will be automatically chunked.\n"
    ++ codes
        "You'll see a message like 'Stored as chunk_N with X chunks'. Refer to the chunking tools to work with this content.\n"
    ++ codes "This allows you to work/filter/scan large web pages, files, or command outputs.\n\n"
    ++ codes "### User Notifications\n"
    ++ codes "Use 'notify_user' to tell the user what you're about to do BEFORE doing it, "
    ++ codes
        "but only for significant actions. Good uses: starting a complex multi-step task, or when something failed and it was not expected. "
    ++ codes "### Tools:\n\n"

module _ (lib : JsonLib) (W : Type 0) where
  -- The members of `Agent`.
  pub record Agent : Type 0 where
    pub tools : Map Bytes (AgentTool lib W)
    pub config : AgentConfig
    pub chunker : ContentChunker

  unfoldable pub register_tool : Agent → AgentTool lib W → Agent
  register_tool a tool = record a { tools = insert tool.name tool a.tools }

  unfoldable pub tool_entries : Map Bytes (AgentTool lib W) → Bytes
  tool_entries [] = []
  tool_entries ((name, tool) ∷ tools) =
      codes "**"
      ++ tool.name
      ++ codes "**: "
      ++ tool.description
      ++ codes "\n"
      ++ (if is_empty tool.params then [] else codes "  Parameters:\n" ++ param_lines tool.params)
      ++ codes "\n"
      ++ tool_entries tools

  unfoldable pub build_tools_prompt : Agent → Bytes
  build_tools_prompt a = if is_empty a.tools then [] else tools_heading ++ tool_entries a.tools

  -- The error for a call that names the format and not a tool.
  unfoldable pub tool_call_hint : Map Bytes (AgentTool lib W) → Bytes
  tool_call_hint tools =
      codes "ERROR: Used 'tool_call' as name. Must use actual tool name.\n"
      ++ codes "Available tools: "
      ++ join_names (map (λ e. e.0) tools)
      ++ codes "\nExample: {\"tool\": \"shell\", \"arguments\": {\"command\": \"ls\"}}"

  unfoldable pub invalid_call_text : Bytes → Bytes → Bytes
  invalid_call_text error raw_content =
      codes "Invalid tool call - JSON parsing failed.\n\n"
      ++ codes "Error: "
      ++ error
      ++ codes "\n\n"
      ++ codes "**Common issues:**\n"
      ++ codes "1. Unescaped quotes in strings - Use \\\" inside JSON strings\n"
      ++ codes "2. For curl commands, prefer single quotes on the outside:\n"
      ++ codes "   {\"command\": \"curl -H 'Header: value' 'https://url'\"}\n"
      ++ codes "3. Or properly escape all internal quotes:\n"
      ++ codes "   {\"command\": \"curl -H \\\"Header: value\\\" \\\"https://url\\\"\"}\n"
      ++ codes "4. For complex JSON payloads in curl -d, write to a file first:\n"
      ++ codes "   Use the 'write' tool to create a JSON file, then:\n"
      ++ codes "   {\"command\": \"curl -d @/tmp/payload.json https://url\"}\n\n"
      ++ codes "Raw content received:\n"
      ++ take 500 raw_content
      ++ (if ltb 500 (length raw_content) then codes "... [truncated]" else [])

  -- The parameters a tool is run with, or the text of the refusal.
  unfoldable pub effective_params : AgentTool lib W → ParsedToolCall lib → lib.Json ⊎ Bytes
  effective_params tool call =
      if call.valid
      then inl call.params
      else elim (recover_params_from_raw lib tool.params call.raw_content) [
        | inl recovered ↦ inl recovered
        | inr error ↦ inr (
            invalid_call_text (if is_empty error then call.parse_error else error) call.raw_content)
      ]

  -- What `execute` gives, an exception turned into a failure.
  abbrev pub caught :
      (W × ContentChunker) × (AgentToolResult ⊎ Bytes) → (W × ContentChunker) × AgentToolResult
  caught (after, inl result) = (after, result)
  caught (after, inr what) = (after, result_fail (codes "Tool exception: " ++ what))

  unfoldable pub execute_tool :
      Map Bytes (AgentTool lib W)
      → ParsedToolCall lib
      → W × ContentChunker
      → (W × ContentChunker) × AgentToolResult
  execute_tool tools call before =
      if str_eq call.tool_name (codes "tool_call")
      then (before, result_fail (tool_call_hint tools))
      else elim (lookup call.tool_name tools) [
        | none ↦ (
          before,
          result_fail (
              codes "Unknown tool: "
              ++ call.tool_name
              ++ codes "\nAvailable tools: "
              ++ join_names (map (λ e. e.0) tools)),
        )
        | some tool ↦ elim (effective_params tool call) [
          | inr refusal ↦ (before, result_fail refusal)
          | inl params ↦ caught (tool.execute params before)
        ]
      ]

-- The text for a result that was stored in chunks.
unfoldable pub stored_text : Bytes → Bytes → ℕ → Bytes
stored_text output id total_chunks =
    let preview_size = min 2000 (length output) in
    codes "Content too large ("
    ++ to_string (length output)
    ++ codes " characters). "
    ++ codes "Stored as '"
    ++ id
    ++ codes "' with "
    ++ to_string total_chunks
    ++ codes " chunks.\n\n"
    ++ codes "=== Preview (first "
    ++ to_string preview_size
    ++ codes " characters) ===\n"
    ++ take preview_size output
    ++ (if ltb preview_size (length output) then codes "\n... [content truncated] ...\n" else [])
    ++ codes "\n\n=== To access full content ===\n"
    ++ codes
        "Follow the instructions for working with chunked content in the tools documentation.\n"
    ++ codes "Total chunks available: "
    ++ to_string total_chunks

-- The lines around a result.
unfoldable pub wrap_result : Bytes → Bool → Bytes → Bytes
wrap_result tool_name success body =
    codes "[TOOL_RESULT tool="
    ++ tool_name
    ++ codes " success="
    ++ (if success then codes "true" else codes "false")
    ++ codes "]\n"
    ++ body
    ++ codes "\n[/TOOL_RESULT]"

unfoldable pub format_tool_result :
    AgentConfig → ContentChunker → Bytes → AgentToolResult → ContentChunker × Bytes
format_tool_result config chunker tool_name result =
    let (stored, id) = store chunker result.output tool_name (effective_chunk_size config) in
    if not result.success
    then (chunker, wrap_result tool_name false (codes "Error: " ++ result.error))
    else if config.auto_chunk_large_results
        && ltb config.max_tool_result_size (length result.output)
    then (
      stored,
      wrap_result tool_name true (stored_text result.output id (get_total_chunks stored id)),
    )
    else (chunker, wrap_result tool_name true result.output)
