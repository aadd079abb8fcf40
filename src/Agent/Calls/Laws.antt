-- ===== src/Agent/Calls/Laws.antt =====
-- Where the calls of a response stand, and what is kept of the text around them.
use open_crank.Prelude.{
  ◌==◌, if◌then◌else◌, Bool-cases, Option-cases, Bytes, length, take, drop, is_empty, length-take,
  ℕ, zero, suc, ◌+◌, ◌-◌, ◌≤◌, ◌<◌, ◌≡◌, refl, ap, subst, ◌∙◌, ◌≢◌, ◌⊎◌, inl, inr, false, Option,
  none, some, List, [], ◌∷◌, ◌++◌, arith,
}
use open_crank.Text.Find.{has, substr}
use open_crank.Agent.Json.{JsonLib}
use open_crank.Agent.Types.{ParsedToolCall}
use open_crank.Agent.Recover.{trim_whitespace}
use open_crank.Agent.Calls.{
  scan_object, Verdict, reject, pass, throws, found, make_call, judge_object, judge, cons_call,
  parse_from, parse_tool_calls, text_around, extract_response_text, tool_mark,
}
use open_crank.Agent.Calls.Scan.{scan_object_le, drop_tail, if_drop, split_drop, if_gap}

module _ {lib : JsonLib} where
  -- The calls in order, from a position of the response on: each behind the one before, not empty,
  -- within the response, with the text that stands there and a name.
  pub AreSpans : Bytes → ℕ → List (ParsedToolCall lib) → Type 0
  AreSpans response from [] = from ≤ length response
  AreSpans response from (call ∷ calls) =
      (from ≤ call.start_pos)
      × (call.start_pos < call.end_pos)
      × (call.raw_content ≡ substr response call.start_pos (call.end_pos - call.start_pos))
      × (call.tool_name ≢ [])
      × AreSpans response call.end_pos calls

  -- A call is found only with a name, and its content is the candidate.
  judge_object-found :
      (pos : ℕ) (candidate : Bytes) (k n : ℕ) (call : ParsedToolCall lib)
      → judge_object lib pos candidate k ≡ found call n
      → (n ≡ k)
        × (call.tool_name ≢ [])
        × (call.start_pos ≡ pos)
        × (call.end_pos ≡ pos + length candidate)
        × (call.raw_content ≡ candidate)
  unfolding judge_object make_call
  judge_object-found pos candidate k n call h = ground (arith)

  judge_object-pass :
      (pos : ℕ) (candidate : Bytes) (k n : ℕ) → judge_object lib pos candidate k ≡ pass n → n ≡ k
  unfolding judge_object
  judge_object-pass pos candidate k n h = ground (arith)

  judge-pass : (pos : ℕ) (c : ℕ) (s : Bytes) (n : ℕ) → judge lib pos (c ∷ s) ≡ pass n → n ≤ length s
  unfolding judge
  judge-pass pos c s n h = elim (Bool-cases (has (take 200 (c ∷ s)) tool_mark)) [
    | inr f ↦ let h' : reject ≡ pass n = rw (judge, f) at h in ground (arith)
    | inl t ↦ elim (Option-cases (scan_object 1 false false s)) [
      | inl e ↦ let h' : reject ≡ pass n = rw (judge, t, e) at h in ground (arith)
      | inr (k, e) ↦
          let same = judge_object-pass pos (take (suc k) (c ∷ s)) k n (rw (judge, t, e) at h) in
          omega (arith, same, scan_object_le 1 false false s k e)
    ]
  ]

  judge-found :
      (pos : ℕ) (c : ℕ) (s : Bytes) (n : ℕ) (call : ParsedToolCall lib)
      → judge lib pos (c ∷ s) ≡ found call n
      → (n ≤ length s)
        × (call.tool_name ≢ [])
        × (call.start_pos ≡ pos)
        × (call.end_pos ≡ pos + suc n)
        × (call.raw_content ≡ take (suc n) (c ∷ s))
  unfolding judge
  judge-found pos c s n call h = elim (Bool-cases (has (take 200 (c ∷ s)) tool_mark)) [
    | inr f ↦ let h' : reject ≡ found call n = rw (judge, f) at h in ground (arith)
    | inl t ↦ elim (Option-cases (scan_object 1 false false s)) [
      | inl e ↦ let h' : reject ≡ found call n = rw (judge, t, e) at h in ground (arith)
      | inr (k, e) ↦
          let (same, named, start, end, raw) =
            judge_object-found pos (take (suc k) (c ∷ s)) k n call (rw (judge, t, e) at h) in
          let short : n ≤ length s = omega (arith, same, scan_object_le 1 false false s k e) in
          let raw' : call.raw_content ≡ take (suc n) (c ∷ s) = rw same raw in
          let size : length (take (suc k) (c ∷ s)) ≡ suc n =
            omega (arith, same, short, length-take (suc k) (c ∷ s)) in
          (short, named, start, rw size at end, raw')
    ]
  ]

  AreSpans-weaken :
      (response : Bytes) (a b : ℕ) (calls : List (ParsedToolCall lib))
      → a ≤ b
      → AreSpans response b calls
      → AreSpans response a calls
  unfolding AreSpans
  AreSpans-weaken response a b [] le h = omega arith
  AreSpans-weaken response a b (call ∷ calls) le (from, full, raw, named, rest) =
      (omega (arith, from), full, raw, named, rest)

  pub Verdict-cases :
      (v : Verdict lib)
      → (v ≡ reject)
        ⊎ ((v ≡ throws)
            ⊎ (((k : ℕ) × (v ≡ pass k))
                ⊎ ((call : ParsedToolCall lib) × (k : ℕ) × (v ≡ found call k))))
  Verdict-cases reject = inl refl
  Verdict-cases throws = inr (inl refl)
  Verdict-cases (pass k) = inr (inr (inl (k, refl)))
  Verdict-cases (found call k) = inr (inr (inr (call, k, refl)))

  cons_call_inv :
      (call : ParsedToolCall lib) (o : Option (List (ParsedToolCall lib)))
      (calls : List (ParsedToolCall lib))
      → cons_call lib call o ≡ some calls
      → (rest : List (ParsedToolCall lib)) × (o ≡ some rest) × (call ∷ rest ≡ calls)
  cons_call_inv call none calls h = ground (arith)
  cons_call_inv call (some rest) calls h = (rest, refl, ground (arith))

  parse_from-AreSpans :
      (response : Bytes) (skip pos : ℕ) (s : Bytes) (calls : List (ParsedToolCall lib))
      → drop pos response ≡ s
      → pos + length s ≡ length response
      → skip ≤ length s
      → parse_from lib skip pos s ≡ some calls
      → AreSpans response (pos + skip) calls
  unfolding parse_from AreSpans
  parse_from-AreSpans response skip pos [] calls at size le h =
      let e : [] ≡ calls = ground (arith) in
      subst (AreSpans response (pos + skip)) e (omega (arith, size, le))
  parse_from-AreSpans response (suc skip) pos (c ∷ s) calls at size le h =
      let next =
        parse_from-AreSpans response skip (pos + 1) s calls (drop_tail pos c s response at)
          (omega arith) (omega arith) h in
      AreSpans-weaken response (pos + suc skip) (pos + 1 + skip) calls (omega arith) next
  parse_from-AreSpans response zero pos (c ∷ s) calls at size le h =
      let at' = drop_tail pos c s response at in
      let pass_by : (k : ℕ)
          → k ≤ length s
          → parse_from lib k (pos + 1) s ≡ some calls
          → AreSpans response (pos + 0) calls =
        λ k short h'.
          AreSpans-weaken response (pos + 0) (pos + 1 + k) calls (omega arith)
            (parse_from-AreSpans response k (pos + 1) s calls at' (omega arith) short h') in
      elim (Bool-cases (c == b'{')) [
        | inr f ↦ pass_by 0 (omega arith) (rw (parse_from, f) at h)
        | inl t ↦ elim (Verdict-cases (judge lib pos (c ∷ s))) [
          | inl v ↦ pass_by 0 (omega arith) (rw (parse_from, t, v) at h)
          | inr (inl v) ↦ let h' : none ≡ some calls = rw (parse_from, t, v) at h in ground (arith)
          | inr (inr (inl (k, v))) ↦ pass_by k (judge-pass pos c s k v) (rw (parse_from, t, v) at h)
          | inr (inr (inr (call, k, v))) ↦
              let (short, named, start, end, raw) = judge-found pos c s k call v in
              let (rest, rest_at, whole) =
                cons_call_inv call _ calls (rw (parse_from, t, v) at h) in
              let next =
                parse_from-AreSpans response k (pos + 1) s rest at' (omega arith) short rest_at in
              let span : call.end_pos - pos ≡ suc k = omega (arith, end) in
              subst (AreSpans response (pos + 0)) whole (
                omega (arith, start),
                omega (arith, start, end),
                (rw (start, span, at) raw),
                named,
                let e : pos + 1 + k ≡ call.end_pos = omega (arith, end) in
                    subst (λ n. AreSpans response n rest) e next,
              )
        ]
      ]

  -- Whatever the response and the JSON library, the calls stand in order in the response, apart from
  -- one another, each with the text it was read from and a name that is not empty.
  pub parse_tool_calls-AreSpans :
      (response : Bytes) (calls : List (ParsedToolCall lib))
      → parse_tool_calls lib response ≡ some calls
      → AreSpans response 0 calls
  unfolding parse_tool_calls
  parse_tool_calls-AreSpans response calls h =
      parse_from-AreSpans response 0 0 response calls refl (omega arith) (omega arith) h

  -- A response that is woven of a text and the contents of calls, in their order.
  pub data IsWoven : Bytes → List (ParsedToolCall lib) → Bytes → Type 0 where
    rest : (text : Bytes) → IsWoven text [] text
    next :
        (before text response : Bytes) (call : ParsedToolCall lib)
        (calls : List (ParsedToolCall lib))
        → IsWoven text calls response
        → IsWoven (before ++ text) (call ∷ calls) (before ++ (call.raw_content ++ response))

  text_around-IsWoven :
      (response : Bytes) (from : ℕ) (calls : List (ParsedToolCall lib))
      → AreSpans response from calls
      → IsWoven (text_around lib response from calls) calls (drop from response)
  unfolding text_around AreSpans
  text_around-IsWoven response from [] le = rw (if_drop from response) (rest (drop from response))
  text_around-IsWoven response from (call ∷ calls) (le, full, raw, named, more) =
      let ih = text_around-IsWoven response call.end_pos calls more in
      let whole : substr response from (call.start_pos - from)
            ++ (call.raw_content ++ drop call.end_pos response)
          ≡ drop from response =
        ap (◌++◌ (substr response from (call.start_pos - from))) (
          ap (λ x. x ++ drop call.end_pos response) raw
          ∙ split_drop call.start_pos call.end_pos response (omega arith))
        ∙ split_drop from call.start_pos response le in
      let kept =
        if_gap from call.start_pos (drop from response)
          (text_around lib response call.end_pos calls) in
      rw kept (
        subst (IsWoven _ (call ∷ calls)) whole
          (next (substr response from (call.start_pos - from)) _ _ call calls ih))

  -- Nothing of the response is lost: it is the text kept around the calls, with the contents of the
  -- calls woven in; what is shown of it is that text without the blanks at its ends, or the whole
  -- response where it has no calls.
  pub extract_response_text-IsWoven :
      (response : Bytes) (calls : List (ParsedToolCall lib))
      → parse_tool_calls lib response ≡ some calls
      → (text : Bytes) × IsWoven text calls response
        × (extract_response_text lib response calls
            ≡ (if is_empty calls then response else trim_whitespace text))
  unfolding extract_response_text
  extract_response_text-IsWoven response [] h = (response, rest response, refl)
  extract_response_text-IsWoven response (call ∷ calls) h = (
    text_around lib response 0 (call ∷ calls),
    text_around-IsWoven response 0 (call ∷ calls)
        (parse_tool_calls-AreSpans response (call ∷ calls) h),
    refl,
  )
