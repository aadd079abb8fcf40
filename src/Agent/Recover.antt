-- ===== src/Agent/Recover.antt =====
-- The lenient reading of JSON: `trim_whitespace`, `remove_trailing_commas` and `try_parse_json`.
pub mod Laws
use open_crank.Prelude.{
  ltb, ◌==◌, if◌then◌else◌, Bytes, codes, length, take, drop, ℕ, zero, suc, ◌+◌, ◌-◌, ◌≡◌, refl,
  inl, inr, Bool, true, false, not, ◌&&◌, ◌||◌, Option, none, some, [], ◌∷◌, ◌++◌,
}
use open_crank.Text.Trim.{is_blank, find_first_not_blank, find_last_not_blank, ltrim}
use open_crank.Text.Find.{find, find_where, rfind, substr}
use open_crank.Agent.Json.{JsonLib}

unfoldable pub trim_whitespace : Bytes → Bytes
trim_whitespace input = elim (find_first_not_blank input) [
  | none ↦ []
  | some start ↦ elim (find_last_not_blank input) [
    | none ↦ []
    | some end ↦ substr input start (end - start + 1)
  ]
]

-- A comma before a '}' or a ']', with blanks between at most, is left out.
unfoldable pub remove_trailing_commas : Bytes → Bytes
remove_trailing_commas [] = []
remove_trailing_commas (c ∷ s) =
    let rest = remove_trailing_commas s in
    let closes : Bool = elim (ltrim s) [ [] ↦ false | d ∷ after ↦ d == b'}' || d == b']' ] in
    if c == b',' && closes then rest else c ∷ rest

-- `while (find("```")) erase(..., 3);` with fuel for each round.
unfoldable pub strip_fences : ℕ → Bytes → Bytes
strip_fences zero s = s
strip_fences (suc fuel) s = elim (find (codes "```") s) [
  | none ↦ s
  | some i ↦ strip_fences fuel (take i s ++ drop (i + 3) s)
]

-- The variables of the loop that escapes quotes within values.
pub record Quoting : Type 0 where
  pub in_string : Bool
  pub in_key : Bool
  pub escape_next : Bool
  pub colon_pos : Option ℕ

abbrev pub quoting_start : Quoting
quoting_start = record { in_string = false; in_key = false; escape_next = false; colon_pos = none }

-- `colon_pos == npos || i < colon_pos`.
abbrev pub before_colon : ℕ → Option ℕ → Bool
before_colon i none = true
before_colon i (some p) = ltb i p

-- A quote followed by something else than ',', '}', ']' or the end.
abbrev pub is_inner_quote : Bytes → Bool
is_inner_quote s = elim (ltrim s) [
  | [] ↦ false
  | d ∷ after ↦ not (d == b',') && not (d == b'}') && not (d == b']')
]

-- The loop at index `i` of the text under repair.
unfoldable pub escape_quotes : Quoting → ℕ → Bytes → Bytes
escape_quotes q i [] = []
escape_quotes q i (c ∷ s) = elim q.escape_next [
  | true ↦ c ∷ escape_quotes (record q { escape_next = false }) (i + 1) s
  | false ↦ elim (c == b'\\') [
    | true ↦ c ∷ escape_quotes (record q { escape_next = true }) (i + 1) s
    | false ↦ elim (c == b'"') [
      | false ↦ elim (c == b':' && not q.in_string) [
        | true ↦ c ∷ escape_quotes (record q { colon_pos = some i }) (i + 1) s
        | false ↦ c ∷ escape_quotes q (i + 1) s
      ]
      | true ↦ elim q.in_string [
        | false ↦
            c
            ∷ escape_quotes (record q { in_string = true; in_key = before_colon i q.colon_pos })
                (i + 1) s
        | true ↦ elim (not q.in_key && is_inner_quote s) [
          | true ↦ b'\\' ∷ c ∷ escape_quotes q (i + 2) s
          | false ↦ c ∷ escape_quotes (record q { in_string = false; in_key = false }) (i + 1) s
        ]
      ]
    ]
  ]
]

-- The text between the first '{' and the last '}'.
unfoldable pub braced : Bytes → Option Bytes
braced s = elim (find_where (λ c. c == b'{') s) [
  | none ↦ none
  | some first ↦ elim (rfind b'}' s) [
    | none ↦ none
    | some last ↦ if ltb first last then some (substr s first (last - first + 1)) else none
  ]
]

module _ (lib : JsonLib) where
  -- `ok` with the value, or the error of the last attempt.
  pub data JsonParse : Type 0 where
    parsed : lib.Json → JsonParse
    unparsed : Bytes → JsonParse

  -- The attempts on the text between the braces: without trailing commas, then with quotes escaped.
  unfoldable pub parse_braced : Bytes → JsonParse
  parse_braced candidate =
      let sanitized = remove_trailing_commas candidate in
      elim (lib.parse sanitized) [
        | inl value ↦ parsed value
        | inr _ ↦ elim (lib.parse (escape_quotes quoting_start 0 sanitized)) [
          | inl value ↦ parsed value
          | inr error ↦ unparsed error
        ]
      ]

  unfoldable pub try_parse_json : Bytes → JsonParse
  try_parse_json raw = elim (lib.parse raw) [
    | inl value ↦ parsed value
    | inr error ↦ elim (braced (trim_whitespace (strip_fences (length raw) raw))) [
      | none ↦ unparsed error
      | some candidate ↦ parse_braced candidate
    ]
  ]

escape_quotes_runs :
    escape_quotes quoting_start 0 (codes "{\"c\": \"a \"b\" d\"}")
    ≡ codes "{\"c\": \"a \\\"b\\\" d\"}"
unfolding escape_quotes ltrim
escape_quotes_runs = refl
