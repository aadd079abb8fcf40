-- ===== src/Agent/Calls.antt =====
-- `has_tool_calls`, `parse_tool_calls` and `extract_response_text`.
pub mod Scan
pub mod Laws
pub mod Throws
use open_crank.Prelude.{
  ltb, leb, ◌==◌, if◌then◌else◌, Bytes, codes, str_eq, length, set, take, drop, count, ℕ, zero, suc,
  ◌+◌, ◌-◌, Bool, true, false, not, ◌&&◌, Option, none, some, List, [], ◌∷◌, ◌++◌,
}
use open_crank.Text.Find.{has, substr}
use open_crank.Agent.Json.{JsonLib}
use open_crank.Agent.Types.{ParsedToolCall}
use open_crank.Agent.Recover.{trim_whitespace, try_parse_json, JsonParse, parsed, unparsed}

-- The text that a tool call contains.
abbrev pub tool_mark : Bytes
tool_mark = codes "\"tool\""

unfoldable pub has_tool_calls : Bytes → Bool
has_tool_calls response = has response tool_mark

abbrev pub one_more : Option ℕ → Option ℕ
one_more none = none
one_more (some n) = some (suc n)

-- The search for the closing brace, on the text after an opening one: how many bytes it reads until
-- as many braces are closed as the count says. The Booleans are `in_string` and `escape_next`.
unfoldable pub scan_object : ℕ → Bool → Bool → Bytes → Option ℕ
scan_object count in_string escape_next [] = none
scan_object count in_string true (c ∷ s) = one_more (scan_object count in_string false s)
scan_object count true false (c ∷ s) = elim (c == b'\\') [
  | true ↦ one_more (scan_object count true true s)
  | false ↦ one_more (scan_object count (not (c == b'"')) false s)
]
scan_object count false false (c ∷ s) = elim (c == b'"') [
  | true ↦ one_more (scan_object count true false s)
  | false ↦ elim (c == b'{') [
    | true ↦ one_more (scan_object (count + 1) false false s)
    | false ↦ elim (c == b'}') [
      | true ↦ elim (leb count 1) [
        | true ↦ some 1
        | false ↦ one_more (scan_object (count - 1) false false s)
      ]
      | false ↦ one_more (scan_object count false false s)
    ]
  ]
]

module _ (lib : JsonLib) where
  -- What the loop does at an opening brace: go on behind it; go on behind the object, given by the
  -- number of its bytes behind the brace; leave with an exception; or take a call.
  pub data Verdict : Type 0 where
    reject : Verdict
    pass : ℕ → Verdict
    throws : Verdict
    found : ParsedToolCall lib → ℕ → Verdict

  -- `params[key] = value` for each item whose key is not "tool".
  unfoldable pub other_items : List (Bytes × lib.Json) → lib.Json → lib.Json
  other_items [] params = params
  other_items ((key, value) ∷ rest) params = elim (str_eq key (codes "tool")) [
    | true ↦ other_items rest params
    | false ↦ other_items rest (lib.set params key value)
  ]

  -- `params`, `valid` and `parse_error` of a call. The `params` of an invalid call are never set.
  unfoldable pub read_arguments : lib.Json → lib.Json × (Bool × Bytes)
  read_arguments value =
      let args = lib.at value (codes "arguments") in
      let text = lib.get_string args in
      if not (lib.contains value (codes "arguments"))
      then (other_items (lib.items value) lib.empty_object, (true, []))
      else if lib.is_object args
      then (args, (true, []))
      else if not (lib.is_string args)
      then (other_items (lib.items value) lib.empty_object, (true, []))
      else elim (try_parse_json lib text) [
        | unparsed _ ↦
            (lib.null, (false, codes "Arguments field is a string but not valid JSON: " ++ text))
        | parsed inner ↦ if lib.is_object inner then (inner, (true, [])) else (
          lib.null,
          (false, codes "Arguments field is a string but not valid JSON: " ++ text),
        )
      ]

  unfoldable pub make_call : lib.Json → Bytes → ℕ → Bytes → ParsedToolCall lib
  make_call value tool_name pos candidate =
      let (params, (valid, parse_error)) = read_arguments value in
      record {
        tool_name = tool_name;
        params = params;
        raw_content = candidate;
        start_pos = pos;
        end_pos = pos + length candidate;
        valid = valid;
        parse_error = parse_error;
      }

  -- The candidate at a position, with the number of its bytes behind the brace.
  unfoldable pub judge_object : ℕ → Bytes → ℕ → Verdict
  judge_object pos candidate k = elim (try_parse_json lib candidate) [
    | unparsed _ ↦ reject
    | parsed value ↦ elim (lib.is_object value && lib.contains value (codes "tool")) [
      | false ↦ pass k
      | true ↦ elim (lib.string_at value (codes "tool")) [
        | none ↦ throws
        | some tool_name ↦ elim tool_name [
          | [] ↦ pass k
          | c ∷ name ↦ found (make_call value (c ∷ name) pos candidate) k
        ]
      ]
    ]
  ]

  -- The text from an opening brace on.
  unfoldable pub judge : ℕ → Bytes → Verdict
  judge pos s = elim (has (take 200 s) tool_mark) [
    | false ↦ reject
    | true ↦ elim (scan_object 1 false false (drop 1 s)) [
      | none ↦ reject
      | some k ↦ judge_object pos (take (suc k) s) k
    ]
  ]

  abbrev pub cons_call :
      ParsedToolCall lib → Option (List (ParsedToolCall lib)) → Option (List (ParsedToolCall lib))
  cons_call call none = none
  cons_call call (some calls) = some (call ∷ calls)

  -- The loop: how many bytes it still passes over, the position, and the rest of the response;
  -- `none` is the exception of `value`.
  unfoldable pub parse_from : ℕ → ℕ → Bytes → Option (List (ParsedToolCall lib))
  parse_from skip pos [] = some []
  parse_from (suc skip) pos (c ∷ s) = parse_from skip (pos + 1) s
  parse_from zero pos (c ∷ s) = elim (c == b'{') [
    | false ↦ parse_from 0 (pos + 1) s
    | true ↦ elim (judge pos (c ∷ s)) [
      | reject ↦ parse_from 0 (pos + 1) s
      | pass k ↦ parse_from k (pos + 1) s
      | throws ↦ none
      | found call k ↦ cons_call call (parse_from k (pos + 1) s)
    ]
  ]

  unfoldable pub parse_tool_calls : Bytes → Option (List (ParsedToolCall lib))
  parse_tool_calls response = parse_from 0 0 response

  -- The loop that collects the text around the calls, from a position on.
  unfoldable pub text_around : Bytes → ℕ → List (ParsedToolCall lib) → Bytes
  text_around response pos [] = if ltb pos (length response) then drop pos response else []
  text_around response pos (call ∷ calls) =
      let after = text_around response call.end_pos calls in
      if ltb pos call.start_pos then substr response pos (call.start_pos - pos) ++ after else after

  unfoldable pub extract_response_text : Bytes → List (ParsedToolCall lib) → Bytes
  extract_response_text response [] = response
  extract_response_text response (call ∷ calls) =
      trim_whitespace (text_around response 0 (call ∷ calls))
