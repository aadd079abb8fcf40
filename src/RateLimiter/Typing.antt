-- ===== src/RateLimiter/Typing.antt =====
-- `TypingIndicator`. Times are in milliseconds.
use open_crank.Prelude.{
  leb, if◌then◌else◌, Bool-cases, Bytes, str_eq, str_eq_refl, str_eq_iff, any, ℕ, ◌+◌, ◌≤◌, ◌≡◌,
  subst, ◌∙◌, ◌⊎◌, inl, inr, Bool, true, false, not, none, some, List, [], ◌∷◌, arith,
}
use open_crank.Prelude.Maps.{Map, str_key, lookup, insert, lookup-insert}
use open_crank.Prelude.Maps.Order.{Ascending, keys_where, any-keys_where}

pub record TypingIndicator : Type 0 where
  pub interval_ms : ℕ
  pub last_typing : Map Bytes ℕ
  pub is_typing : Map Bytes Bool

abbrev pub make : TypingIndicator
make = record { interval_ms = 5000; last_typing = []; is_typing = [] }

-- An interval is not negative.
unfoldable pub set_interval : TypingIndicator → ℕ → TypingIndicator
set_interval t ms = record t { interval_ms = ms }

unfoldable pub start_typing : TypingIndicator → Bytes → TypingIndicator
start_typing t chat_id = record t { is_typing = insert chat_id true t.is_typing }

unfoldable pub stop_typing : TypingIndicator → Bytes → TypingIndicator
stop_typing t chat_id = record t { is_typing = insert chat_id false t.is_typing }

-- `is_typing_` holds the chat with the value true.
abbrev pub typing : TypingIndicator → Bytes → Bool
typing t chat_id = elim (lookup chat_id t.is_typing) [ none ↦ false | some b ↦ b ]

-- No send yet, or the last one is an interval ago.
abbrev pub is_due : TypingIndicator → Bytes → ℕ → Bool
is_due t chat_id now = elim (lookup chat_id t.last_typing) [
  | none ↦ true
  | some last ↦ leb (last + t.interval_ms) now
]

unfoldable pub should_send_typing : TypingIndicator → Bytes → ℕ → TypingIndicator × Bool
should_send_typing t chat_id now =
    if not (typing t chat_id)
    then (t, false)
    else if is_due t chat_id now
    then (record t { last_typing = insert chat_id now t.last_typing }, true)
    else (t, false)

unfoldable pub active_chats : TypingIndicator → List Bytes
active_chats t = keys_where (λ b. b) t.is_typing

-- A call on the indicator.
pub data Call : Type 0 where
  starts stops : Bytes → Call
  asks : Bytes → ℕ → Call
  sets : ℕ → Call

unfoldable pub step : TypingIndicator → Call → TypingIndicator
step t (starts chat) = start_typing t chat
step t (stops chat) = stop_typing t chat
step t (asks chat now) = (should_send_typing t chat now).0
step t (sets ms) = set_interval t ms

unfoldable pub run : TypingIndicator → List Call → TypingIndicator
run t [] = t
run t (c ∷ cs) = run (step t c) cs

-- The chats that are listed as active are exactly those that are typing.
pub active_chats_lem :
    (t : TypingIndicator) (chat : Bytes)
    → Ascending t.is_typing
    → any (str_eq chat) (active_chats t) ≡ typing t chat
unfolding active_chats
active_chats_lem t chat a = any-keys_where (λ b. b) chat t.is_typing a

-- A later send for `chat` is at least an interval after the time `last`.
abbrev SentAt : TypingIndicator → Bytes → ℕ → Type 0
SentAt t chat last = (sent : ℕ) × (lookup chat t.last_typing ≡ some sent) × (last ≤ sent)

send_cases :
    (t : TypingIndicator) (chat : Bytes) (now : ℕ)
    → (should_send_typing t chat now ≡ (t, false))
      ⊎ ((typing t chat ≡ true)
          × (is_due t chat now ≡ true)
          × (should_send_typing t chat now
              ≡ (record t { last_typing = insert chat now t.last_typing }, true)))
unfolding should_send_typing
send_cases t chat now = elim (Bool-cases (typing t chat)) [
  | inl e ↦ elim (Bool-cases (is_due t chat now)) [
    | inl d ↦ inr (e, d, rw (e, d))
    | inr d ↦ inl (rw (e, d))
  ]
  | inr e ↦ inl (rw e)
]

due_after :
    (t : TypingIndicator) (chat : Bytes) (now sent : ℕ)
    → lookup chat t.last_typing ≡ some sent
    → is_due t chat now ≡ true
    → sent + t.interval_ms ≤ now
due_after t chat now sent e d = ground arith

asked-SentAt :
    (t : TypingIndicator) (other chat : Bytes) (now last : ℕ)
    → SentAt t chat last
    → SentAt (should_send_typing t other now).0 chat last
asked-SentAt t other chat now last (sent, e, le) = elim (send_cases t other now) [
  | inl q ↦ rw q (sent, e, le)
  | inr (_, d, q) ↦ elim (Bool-cases (str_eq other chat)) [
    | inl same ↦
        let here = (str_eq_iff other chat).0 same in
        let d' : is_due t chat now ≡ true = subst (λ k. is_due t k now ≡ true) here d in
        rw q (
          now,
          lookup-insert other chat now t.last_typing ∙ rw same,
          omega (arith, due_after t chat now sent e d'),
        )
    | inr ne ↦ rw q (sent, lookup-insert other chat now t.last_typing ∙ rw ne e, le)
  ]
]

step-SentAt :
    (t : TypingIndicator) (c : Call) (chat : Bytes) (last : ℕ)
    → SentAt t chat last
    → SentAt (step t c) chat last
unfolding step start_typing stop_typing set_interval
step-SentAt t (starts other) chat last h = h
step-SentAt t (stops other) chat last h = h
step-SentAt t (asks other now) chat last h = asked-SentAt t other chat now last h
step-SentAt t (sets ms) chat last h = h

run-SentAt :
    (cs : List Call) (t : TypingIndicator) (chat : Bytes) (last : ℕ)
    → SentAt t chat last
    → SentAt (run t cs) chat last
unfolding run
run-SentAt [] t chat last h = h
run-SentAt (c ∷ cs) t chat last h = run-SentAt cs (step t c) chat last (step-SentAt t c chat last h)

-- An indicator is sent only while the chat is typing; and once one was sent for a chat, the next one,
-- whatever calls come in between, is at least as much later as the interval that is set by then.
pub should_send_typing_lem :
    (t : TypingIndicator) (chat : Bytes) (last now : ℕ) (between : List Call)
    → (should_send_typing t chat last).1 ≡ true
    → let after = run (should_send_typing t chat last).0 between in
      (should_send_typing after chat now).1 ≡ true
      → (typing t chat ≡ true) × (typing after chat ≡ true) × (last + after.interval_ms ≤ now)
should_send_typing_lem t chat last now between h k = elim (send_cases t chat last) [
  | inl q ↦ absurd (cc)
  | inr (on, _, q) ↦
      let t' = (should_send_typing t chat last).0 in
      let start : SentAt t' chat last =
        rw q
          (last, lookup-insert chat chat last t.last_typing ∙ rw (str_eq_refl chat), omega arith) in
      let (sent, e, le) = run-SentAt between t' chat last start in
      elim (send_cases (run t' between) chat now) [
        | inl q' ↦ absurd (cc)
        | inr (on', due, q') ↦
            (on, on', omega (arith, due_after (run t' between) chat now sent e due))
      ]
]
