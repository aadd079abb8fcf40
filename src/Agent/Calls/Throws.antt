-- ===== src/Agent/Calls/Throws.antt =====
-- When the reading of tool calls raises an exception.
use open_crank.Prelude.{
  ◌==◌, Bool-cases, Option-cases, Bytes, codes, take, drop, take-append-drop, ℕ, zero, suc, ◌+◌,
  ◌≡◌, refl, ap, subst, ◌⊎◌, inl, inr, true, false, ◌&&◌, Option, none, some, List, [], ◌∷◌, ◌++◌,
  arith,
}
use open_crank.Text.Find.{has}
use open_crank.Agent.Json.{JsonLib}
use open_crank.Agent.Types.{ParsedToolCall}
use open_crank.Agent.Recover.{try_parse_json, JsonParse, parsed, unparsed}
use open_crank.Agent.Calls.{
  tool_mark, scan_object, reject, pass, throws, found, cons_call, judge_object, judge, parse_from,
  parse_tool_calls,
}
use open_crank.Agent.Calls.Laws.{Verdict-cases}

-- An object stands in the text that has the key "tool" with something else than a string under it, so
-- that `value("tool", "")` throws.
pub HasBadTool : JsonLib → Bytes → Type 0
HasBadTool lib s =
    (before : Bytes) × (candidate : Bytes) × (after : Bytes) × (value : lib.Json) × (s
      ≡ before ++ candidate ++ after)
    × (try_parse_json lib candidate ≡ parsed value)
    × (lib.is_object value && lib.contains value (codes "tool") ≡ true)
    × (lib.string_at value (codes "tool") ≡ none)

HasBadTool-cons : (lib : JsonLib) (c : ℕ) (s : Bytes) → HasBadTool lib s → HasBadTool lib (c ∷ s)
unfolding HasBadTool
HasBadTool-cons lib c s (before, candidate, after, v, e, read, has_tool, bad) =
    (c ∷ before, candidate, after, v, ap (◌∷◌ c) e, read, has_tool, bad)

module _ {lib : JsonLib} where
  JsonParse-cases :
      (p : JsonParse lib) → ((v : lib.Json) × (p ≡ parsed v)) ⊎ ((e : Bytes) × (p ≡ unparsed e))
  JsonParse-cases (parsed v) = inl (v, refl)
  JsonParse-cases (unparsed e) = inr (e, refl)

  judge_object_throws :
      (pos : ℕ) (candidate after : Bytes) (k : ℕ)
      → judge_object lib pos candidate k ≡ throws
      → HasBadTool lib (candidate ++ after)
  unfolding judge_object HasBadTool
  judge_object_throws pos candidate after k h =
      elim (JsonParse-cases (try_parse_json lib candidate)) [
        | inr (e, at) ↦ let h' : reject ≡ throws = rw (judge_object, at) at h in ground (arith)
        | inl (v, at) ↦ elim (Bool-cases (lib.is_object v && lib.contains v (codes "tool"))) [
          | inr f ↦ let h' : pass k ≡ throws = rw (judge_object, at, f) at h in ground (arith)
          | inl t ↦ elim (Option-cases (lib.string_at v (codes "tool"))) [
            | inl e ↦ ([], candidate, after, v, refl, at, t, e)
            | inr ([], e) ↦
                let h' : pass k ≡ throws = rw (judge_object, at, t, e) at h in ground (arith)
            | inr (c ∷ name, e) ↦
                let h' : found _ k ≡ throws = rw (judge_object, at, t, e) at h in ground (arith)
          ]
        ]
      ]

  judge_throws : (pos : ℕ) (s : Bytes) → judge lib pos s ≡ throws → HasBadTool lib s
  unfolding judge
  judge_throws pos s h = elim (Bool-cases (has (take 200 s) tool_mark)) [
    | inr f ↦ let h' : reject ≡ throws = rw (judge, f) at h in ground (arith)
    | inl t ↦ elim (Option-cases (scan_object 1 false false (drop 1 s))) [
      | inl e ↦ let h' : reject ≡ throws = rw (judge, t, e) at h in ground (arith)
      | inr (k, e) ↦
          subst (HasBadTool lib) (take-append-drop (suc k) s)
            (judge_object_throws pos (take (suc k) s) (drop (suc k) s) k (rw (judge, t, e) at h))
    ]
  ]

  cons_call-none :
      (call : ParsedToolCall lib) (calls : Option (List (ParsedToolCall lib)))
      → cons_call lib call calls ≡ none
      → calls ≡ none
  cons_call-none call none h = refl
  cons_call-none call (some calls) h = ground (arith)

  parse_from_throws :
      (skip pos : ℕ) (s : Bytes) → parse_from lib skip pos s ≡ none → HasBadTool lib s
  unfolding parse_from
  parse_from_throws skip pos [] h = ground (arith)
  parse_from_throws (suc skip) pos (c ∷ s) h =
      HasBadTool-cons lib c s (parse_from_throws skip (pos + 1) s h)
  parse_from_throws zero pos (c ∷ s) h = elim (Bool-cases (c == b'{')) [
    | inr f ↦ HasBadTool-cons lib c s (parse_from_throws 0 (pos + 1) s (rw (parse_from, f) at h))
    | inl t ↦ elim (Verdict-cases (judge lib pos (c ∷ s))) [
      | inl v ↦
          HasBadTool-cons lib c s (parse_from_throws 0 (pos + 1) s (rw (parse_from, t, v) at h))
      | inr (inl v) ↦ judge_throws pos (c ∷ s) v
      | inr (inr (inl (k, v))) ↦
          HasBadTool-cons lib c s (parse_from_throws k (pos + 1) s (rw (parse_from, t, v) at h))
      | inr (inr (inr (call, k, v))) ↦
          HasBadTool-cons lib c s
            (parse_from_throws k (pos + 1) s (cons_call-none call _ (rw (parse_from, t, v) at h)))
    ]
  ]

  -- An exception comes from a value under "tool" that is no string.
  pub parse_tool_calls_throws :
      (response : Bytes) → parse_tool_calls lib response ≡ none → HasBadTool lib response
  unfolding parse_tool_calls
  parse_tool_calls_throws response = parse_from_throws 0 0 response
