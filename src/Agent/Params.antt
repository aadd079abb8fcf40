-- ===== src/Agent/Params.antt =====
-- `extract_kv_value` and `recover_params_from_raw`: parameters read out of text that is no JSON.
use open_crank.Prelude.{
  leb, ◌==◌, if◌then◌else◌, Bytes, codes, str_eq, length, drop, is_empty, ℕ, ◌+◌, ◌⊎◌, inl, inr,
  Bool, true, false, not, ◌&&◌, ◌||◌, Option, none, some, List, [], ◌∷◌, ◌++◌,
}
use open_crank.Text.Trim.{starts_with}
use open_crank.Agent.Json.{JsonLib}
use open_crank.Agent.Types.{ToolParamSchema}
use open_crank.Agent.Recover.{trim_whitespace, try_parse_json, parsed, unparsed}

-- The positions after the occurrences of a pattern, in a text that starts at the given index.
unfoldable pub ends_of : Bytes → ℕ → Bytes → List ℕ
ends_of pattern i [] = if is_empty pattern then i ∷ [] else []
ends_of pattern i (c ∷ s) =
    let rest = ends_of pattern (i + 1) s in
    if starts_with (c ∷ s) pattern then (i + length pattern) ∷ rest else rest

-- `isalnum(c) || c == '_'`, in the "C" locale.
pub is_word_byte : ℕ → Bool
is_word_byte c =
    (leb b'0' c && leb c b'9')
    || (leb b'A' c && leb c b'Z')
    || (leb b'a' c && leb c b'z')
    || c == b'_'

abbrev head_is_word : Bytes → Bool
head_is_word [] = false
head_is_word (c ∷ s) = is_word_byte c

-- The same for a name that stands alone: no word byte on either side. The Boolean says whether one
-- stands before the text.
unfoldable pub ends_of_word : Bytes → Bool → ℕ → Bytes → List ℕ
ends_of_word key left i [] = if is_empty key && not left then i ∷ [] else []
ends_of_word key left i (c ∷ s) =
    let rest = ends_of_word key (is_word_byte c) (i + 1) s in
    if starts_with (c ∷ s) key && not left && not (head_is_word (drop (length key) (c ∷ s)))
    then (i + length key) ∷ rest
    else rest

-- `isspace`.
pub is_space : ℕ → Bool
is_space c = c == b' ' || (leb 9 c && leb c 13)

unfoldable pub skip_spaces : Bytes → Bytes
skip_spaces [] = []
skip_spaces (c ∷ s) = let rest = skip_spaces s in if is_space c then rest else c ∷ s

abbrev cons_to : ℕ → Option Bytes → Option Bytes
cons_to c none = none
cons_to c (some text) = some (c ∷ text)

-- The text up to the closing quote, if there is one; the Boolean is `escaped`.
unfoldable pub quoted_text : ℕ → Bool → Bytes → Option Bytes
quoted_text quote escaped [] = none
quoted_text quote escaped (c ∷ s) = elim escaped [
  | true ↦ cons_to c (quoted_text quote false s)
  | false ↦ elim (c == b'\\') [
    | true ↦ cons_to c (quoted_text quote true s)
    | false ↦ elim (c == quote) [ true ↦ some [] | false ↦ cons_to c (quoted_text quote false s) ]
  ]
]

-- The text up to a ',', a '}' or the end of the line.
unfoldable pub bare_text : Bytes → Bytes
bare_text [] = []
bare_text (c ∷ s) =
    let rest = bare_text s in
    if c == b',' || c == b'}' || c == b'\n' || c == b'\r' then [] else c ∷ rest

-- The value that stands after a name, past a ':'.
unfoldable pub value_after : Bytes → Option Bytes
value_after s = elim (skip_spaces s) [
  | [] ↦ none
  | c ∷ after ↦ elim (c == b':') [
    | false ↦ none
    | true ↦ elim (skip_spaces after) [
      | [] ↦ none
      | d ∷ text ↦
          let bare = trim_whitespace (bare_text (d ∷ text)) in
          if d == b'"' || d == b'\''
          then quoted_text d false text
          else if is_empty bare
          then none
          else some bare
    ]
  ]
]

unfoldable pub first_value : Bytes → List ℕ → Option Bytes
first_value content [] = none
first_value content (p ∷ ps) = elim (value_after (drop p content)) [
  | some v ↦ some v
  | none ↦ first_value content ps
]

unfoldable pub extract_kv_value : Bytes → Bytes → Option Bytes
extract_kv_value content key = first_value content (
    ends_of (codes "\"" ++ key ++ codes "\"") 0 content
    ++ ends_of (codes "'" ++ key ++ codes "'") 0 content
    ++ ends_of_word key false 0 content)

module _ (lib : JsonLib) where
  -- The loop over the parameters: the object, whether any was found, and whether a required one is
  -- missing.
  unfoldable pub recover_each :
      Bytes → List ToolParamSchema → lib.Json → Bool → Bool → lib.Json × (Bool × Bool)
  recover_each content [] recovered found_any missing = (recovered, (found_any, missing))
  recover_each content (p ∷ ps) recovered found_any missing =
      elim (extract_kv_value content p.name) [
        | some value ↦
            recover_each content ps (lib.set recovered p.name (lib.of_string value)) true missing
        | none ↦ recover_each content ps recovered found_any (missing || p.required)
      ]

  -- What is done when the text is no JSON; the error is that of the parser.
  unfoldable pub recover_from_text : List ToolParamSchema → Bytes → Bytes → lib.Json ⊎ Bytes
  recover_from_text params content error =
      let (recovered, (found_any, missing)) =
        recover_each content params lib.empty_object false false in
      if found_any && not missing then inl recovered else elim params [
        | [] ↦ inr error
        | p ∷ others ↦ elim others [
          | [] ↦ inl (lib.set lib.empty_object p.name (lib.of_string content))
          | _ ∷ _ ↦ inr error
        ]
      ]

  unfoldable pub recover_params_from_raw : List ToolParamSchema → Bytes → lib.Json ⊎ Bytes
  recover_params_from_raw params raw_content =
      let content = trim_whitespace raw_content in
      if is_empty content || str_eq content (codes "{}")
      then inl lib.empty_object
      else elim (try_parse_json lib content) [
        | parsed value ↦ inl value
        | unparsed error ↦ recover_from_text params content error
      ]
