-- ===== src/Agent/History/Laws.antt =====
-- What truncating a history keeps.
use open_crank.Prelude.{
  ltb, Bool-cases, Option-cases, Bytes, length, drop, length-drop, ℕ, zero, suc, ◌+◌, ◌≤◌, ◌<◌, ◌≡◌,
  refl, ◌⊎◌, inl, inr, true, false, some, List, [], ◌∷◌, arith,
}
use open_crank.Session.Store.{MessageRole, system, user, assistant, ConversationMessage}
use open_crank.Agent.History.{
  role_eq, shorten_message, shorten_results, walk_back, alternate, drop_older, try_truncate_history,
}
use Prim.{Unit, tt, ⊥}

-- Messages none of which has the role of the one before, after one of the given role.
unfoldable pub Alternates : MessageRole → List ConversationMessage → Type 0
Alternates last [] = Unit
Alternates last (msg ∷ history) = (role_eq msg.role last ≡ false) × Alternates msg.role history

-- A history that keeps the first message of another, and in which roles alternate.
pub IsReduced : List ConversationMessage → List ConversationMessage → Type 0
IsReduced (first ∷ rest) (first' ∷ rest') = (first' ≡ first) × Alternates first.role rest'
IsReduced _ _ = ⊥

-- Message by message, the same one or another text for a long one of the user.
unfoldable pub AreShortened : List ConversationMessage → List ConversationMessage → Type 0
AreShortened [] [] = Unit
AreShortened (msg ∷ history) (msg' ∷ history') =
    ((msg' ≡ msg)
      ⊎ ((role_eq msg.role user ≡ true) × (msg'.role ≡ msg.role) × (10000 < length msg.content)))
    × AreShortened history history'
AreShortened _ _ = ⊥

alternate-Alternates :
    (last : MessageRole) (history : List ConversationMessage)
    → Alternates last (alternate last history)
unfolding alternate Alternates
alternate-Alternates last [] = tt
alternate-Alternates last (msg ∷ history) = elim (Bool-cases (role_eq msg.role last)) [
  | inl t ↦ rw t (alternate-Alternates last history)
  | inr f ↦ rw f (f, alternate-Alternates msg.role history)
]

length-alternate :
    (last : MessageRole) (history : List ConversationMessage)
    → length (alternate last history) ≤ length history
unfolding alternate
length-alternate last [] = omega arith
length-alternate last (msg ∷ history) =
    ground (arith, length-alternate last history, length-alternate msg.role history)

walk_back_bound :
    (rounds back : ℕ) (history : List ConversationMessage)
    → 1 ≤ back
    → length history ≤ walk_back (suc rounds) back history + back + rounds
unfolding walk_back
walk_back_bound zero back history le = ground (arith)
walk_back_bound (suc rounds) back history le =
    ground (arith, walk_back_bound rounds (back + 1) history)

drop_older_shorter :
    (first : ConversationMessage) (rest : List ConversationMessage)
    → 6 ≤ length rest
    → length (drop_older first rest) < length (first ∷ rest)
unfolding drop_older
drop_older_shorter first rest le =
    let last = drop (walk_back 4 1 (first ∷ rest)) (first ∷ rest) in
    ground (
      arith,
      walk_back_bound 3 1 (first ∷ rest),
      length-drop (walk_back 4 1 (first ∷ rest)) (first ∷ rest),
      length-alternate assistant last,
      length-alternate first.role last,
    )

pub user_not_assistant :
    (role : MessageRole) → role_eq role user ≡ true → role_eq assistant role ≡ false
unfolding role_eq
user_not_assistant system e = ground (arith)
user_not_assistant user e = refl
user_not_assistant assistant e = ground (arith)

drop_older-IsReduced :
    (first : ConversationMessage) (rest : List ConversationMessage)
    → IsReduced (first ∷ rest) (drop_older first rest)
unfolding drop_older IsReduced Alternates
drop_older-IsReduced first rest =
    let last = drop (walk_back 4 1 (first ∷ rest)) (first ∷ rest) in
    elim (Bool-cases (role_eq first.role user)) [
      | inl t ↦
          rw (IsReduced, t)
            (refl, (user_not_assistant first.role t, alternate-Alternates assistant last))
      | inr f ↦ rw (IsReduced, f) (refl, alternate-Alternates first.role last)
    ]

shorten_message_long :
    (msg : ConversationMessage) (content : Bytes)
    → shorten_message msg ≡ some content
    → (role_eq msg.role user ≡ true) × (10000 < length msg.content)
unfolding shorten_message
shorten_message_long msg content h = ground (arith)

pub shorten_results-AreShortened :
    (history : List ConversationMessage) → AreShortened history (shorten_results history).0
unfolding shorten_results AreShortened
shorten_results-AreShortened [] = tt
shorten_results-AreShortened (msg ∷ history) = elim (Option-cases (shorten_message msg)) [
  | inl e ↦ rw (AreShortened, e) (inl refl, shorten_results-AreShortened history)
  | inr (content, e) ↦
      let (of_user, long) = shorten_message_long msg content e in
      rw (AreShortened, e) (inr (of_user, refl, long), shorten_results-AreShortened history)
]

-- A history that is not truncated stays as it was; a truncated one either has the same messages, but
-- for long ones of the user, or is shorter, keeps its first message and has alternating roles.
pub try_truncate_history_cases :
    (history : List ConversationMessage)
    → let (after, truncated) = try_truncate_history history in
      ((truncated ≡ false) × (after ≡ history))
      ⊎ (((truncated ≡ true) × AreShortened history after)
          ⊎ ((truncated ≡ true) × (length after < length history) × IsReduced history after))
unfolding try_truncate_history
try_truncate_history_cases [] = inl (refl, refl)
try_truncate_history_cases (first ∷ rest) = elim (Bool-cases (ltb (length (first ∷ rest)) 3)) [
  | inl t ↦ rw t (inl (refl, refl))
  | inr f ↦ elim (Bool-cases (shorten_results (first ∷ rest)).1) [
    | inl t ↦ rw (f, t) (inr (inl (refl, shorten_results-AreShortened (first ∷ rest))))
    | inr g ↦ elim (Bool-cases (ltb 6 (length (first ∷ rest)))) [
      | inr u ↦ rw (f, g, u) (inl (refl, refl))
      | inl u ↦
          let long : 6 ≤ length rest = ground (arith) in
          rw (f, g, u)
            (inr (inr (refl, drop_older_shorter first rest long, drop_older-IsReduced first rest)))
    ]
  ]
]
