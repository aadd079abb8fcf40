-- ===== src/Agent/History/Turns.antt =====
-- Histories in which the roles alternate and the user spoke last: what truncating keeps of that.
use open_crank.Prelude.{
  ltb, Bool-cases, Bytes, length, get_elem?, drop, suc, ◌-◌, ◌≤◌, ◌≡◌, refl, sym, ap, subst, ◌∙◌,
  inl, inr, true, false, some, List, [], ◌∷◌, ◌++◌, arith,
}
use open_crank.Session.Store.{MessageRole, system, user, assistant, ConversationMessage}
use open_crank.Agent.History.{
  role_eq, is_user_at, bridge, message_of, shorten_results, walk_back, alternate, drop_older,
  try_truncate_history,
}
use open_crank.Agent.History.Laws.{
  Alternates, AreShortened, shorten_results-AreShortened, user_not_assistant,
}
use Prim.{Unit, ⊥}

unfoldable pub last_role : MessageRole → List ConversationMessage → MessageRole
last_role role [] = role
last_role role (msg ∷ history) = last_role msg.role history

-- The roles alternate, and the last message is the user's.
unfoldable pub IsTurn : List ConversationMessage → Type 0
IsTurn [] = ⊥
IsTurn (msg ∷ history) = Alternates msg.role history × (last_role msg.role history ≡ user)

-- The roles alternate, and the last message, if there is one, is not the user's.
unfoldable pub IsAnswered : List ConversationMessage → Type 0
IsAnswered [] = Unit
IsAnswered (msg ∷ history) =
    Alternates msg.role history × (role_eq user (last_role msg.role history) ≡ false)

Alternates-append :
    (role : MessageRole) (xs ys : List ConversationMessage)
    → Alternates role xs
    → Alternates (last_role role xs) ys
    → Alternates role (xs ++ ys)
unfolding Alternates last_role
Alternates-append role [] ys x y = y
Alternates-append role (msg ∷ xs) ys (differs, x) y =
    (differs, Alternates-append msg.role xs ys x y)

last_role-append :
    (role : MessageRole) (xs ys : List ConversationMessage)
    → last_role role (xs ++ ys) ≡ last_role (last_role role xs) ys
unfolding last_role
last_role-append role [] ys = refl
last_role-append role (msg ∷ xs) ys = last_role-append msg.role xs ys

-- The answer of the model and a message after it.
pub IsTurn-exchange :
    (history : List ConversationMessage) (response message : Bytes)
    → IsTurn history
    → IsTurn (history ++ message_of assistant response ∷ message_of user message ∷ [])
unfolding IsTurn Alternates last_role role_eq
IsTurn-exchange [] response message turn = elim turn [ ]
IsTurn-exchange (msg ∷ history) response message (alternates, last) =
    let new = message_of assistant response ∷ message_of user message ∷ [] in
    (
      Alternates-append msg.role history new alternates (rw last (refl, (refl, _))),
      last_role-append msg.role history new,
    )

pub IsAnswered-ask :
    (history : List ConversationMessage) (message : Bytes)
    → IsAnswered history
    → IsTurn (history ++ message_of user message ∷ [])
unfolding IsTurn IsAnswered Alternates last_role role_eq
IsAnswered-ask [] message h = (_, refl)
IsAnswered-ask (msg ∷ history) message (alternates, last) = (
  Alternates-append msg.role history (message_of user message ∷ []) alternates (last, _),
  last_role-append msg.role history (message_of user message ∷ []),
)

AreShortened-role :
    (msg msg' : ConversationMessage) (history history' : List ConversationMessage)
    → AreShortened (msg ∷ history) (msg' ∷ history')
    → msg'.role ≡ msg.role
unfolding AreShortened
AreShortened-role msg msg' history history' (inl same, more) = ap (λ m. m.role) same
AreShortened-role msg msg' history history' (inr (of_user, same, long), more) = same

AreShortened-Alternates :
    (role : MessageRole) (history history' : List ConversationMessage)
    → AreShortened history history'
    → Alternates role history
    → Alternates role history' × (last_role role history' ≡ last_role role history)
unfolding AreShortened Alternates last_role
AreShortened-Alternates role [] [] h alternates = (_, refl)
AreShortened-Alternates role [] (_ ∷ _) h alternates = elim h [ ]
AreShortened-Alternates role (_ ∷ _) [] h alternates = elim h [ ]
AreShortened-Alternates role (msg ∷ history) (msg' ∷ history') h (differs, alternates) =
    let same = AreShortened-role msg msg' history history' h in
    let (rest, last) = AreShortened-Alternates msg.role history history' h.1 alternates in
    rw same ((differs, rest), last)

AreShortened-IsTurn :
    (history history' : List ConversationMessage)
    → AreShortened history history'
    → IsTurn history
    → IsTurn history'
unfolding AreShortened IsTurn
AreShortened-IsTurn [] history' h turn = elim turn [ ]
AreShortened-IsTurn (_ ∷ _) [] h turn = elim h [ ]
AreShortened-IsTurn (msg ∷ history) (msg' ∷ history') h (alternates, last) =
    let same = AreShortened-role msg msg' history history' h in
    let (rest, same_last) = AreShortened-Alternates msg.role history history' h.1 alternates in
    rw same (rest, same_last ∙ last)

-- The last message of a list that is not empty.
last_message :
    (msg : ConversationMessage) (history : List ConversationMessage)
    → (last : ConversationMessage) × (get_elem? (msg ∷ history) (length history) ≡ some last)
      × (drop (length history) (msg ∷ history) ≡ last ∷ [])
      × (last.role ≡ last_role msg.role history)
unfolding last_role
last_message msg [] = (msg, refl, refl, refl)
last_message msg (next ∷ history) = last_message next history

walk_back_last :
    (msg : ConversationMessage) (history : List ConversationMessage)
    → last_role msg.role history ≡ user
    → 1 ≤ length history
    → walk_back 4 1 (msg ∷ history) ≡ length history
unfolding walk_back role_eq
walk_back_last msg history is_user le =
    let (last, at, _, role) = last_message msg history in
    let one_less : suc (length history) - 1 ≡ length history = omega arith in
    let u : is_user_at (msg ∷ history) (suc (length history) - 1) ≡ true =
      rw (one_less, is_user_at, at, role, is_user) refl in
    let t : ltb 1 (suc (length history)) ≡ true = ground (arith) in rw (walk_back, t, u) one_less

alternate_user :
    (role : MessageRole) (msg : ConversationMessage)
    → msg.role ≡ user
    → role_eq user role ≡ false
    → alternate role (msg ∷ []) ≡ msg ∷ []
unfolding alternate
alternate_user role msg is_user differs =
    let f : role_eq msg.role role ≡ false = rw is_user differs in rw f refl

role_eq_swap : (role : MessageRole) → role_eq role user ≡ false → role_eq user role ≡ false
unfolding role_eq
role_eq_swap system h = refl
role_eq_swap user h = h
role_eq_swap assistant h = refl

drop_older-IsTurn :
    (first : ConversationMessage) (rest : List ConversationMessage)
    → IsTurn (first ∷ rest)
    → 1 ≤ length rest
    → IsTurn (drop_older first rest)
unfolding IsTurn drop_older Alternates last_role role_eq
drop_older-IsTurn first rest (alternates, is_user) le =
    let (last, _, kept, role) = last_message first rest in
    let last_is_user : last.role ≡ user = role ∙ is_user in
    let dropped : drop (walk_back 4 1 (first ∷ rest)) (first ∷ rest) ≡ last ∷ [] =
      rw (walk_back_last first rest is_user le) kept in
    elim (Bool-cases (role_eq first.role user)) [
      | inl t ↦
          let whole : drop_older first rest ≡ first ∷ bridge ∷ last ∷ [] =
            rw (drop_older, t, dropped, alternate_user assistant last last_is_user refl) refl in
          subst IsTurn (sym whole)
            ((user_not_assistant first.role t, (rw last_is_user refl, _)), last_is_user)
      | inr f ↦
          let differs = role_eq_swap first.role f in
          let whole : drop_older first rest ≡ first ∷ last ∷ [] =
            rw (drop_older, f, dropped, alternate_user first.role last last_is_user differs) refl in
          subst IsTurn (sym whole) ((rw last_is_user differs, _), last_is_user)
    ]

-- Truncating keeps that the roles alternate and the user spoke last.
pub try_truncate_history-IsTurn :
    (history : List ConversationMessage) → IsTurn history → IsTurn (try_truncate_history history).0
unfolding try_truncate_history
try_truncate_history-IsTurn [] turn = turn
try_truncate_history-IsTurn (first ∷ rest) turn =
    elim (Bool-cases (ltb (length (first ∷ rest)) 3)) [
      | inl t ↦ rw (try_truncate_history, t) turn
      | inr f ↦ elim (Bool-cases (shorten_results (first ∷ rest)).1) [
        | inl t ↦
            rw (try_truncate_history, f, t)
              (AreShortened-IsTurn (first ∷ rest) _ (shorten_results-AreShortened (first ∷ rest))
                turn)
        | inr g ↦ elim (Bool-cases (ltb 6 (length (first ∷ rest)))) [
          | inr u ↦ rw (try_truncate_history, f, g, u) turn
          | inl u ↦
              rw (try_truncate_history, f, g, u)
                (drop_older-IsTurn first rest turn (ground (arith)))
        ]
      ]
    ]
