-- ===== src/Agent/History.antt =====
-- What the agent does when a model refuses a history as too long: `is_token_limit_error` and
-- `try_truncate_history`.
pub mod Laws
pub mod Turns
use open_crank.Prelude.{
  ltb, ◌==◌, if◌then◌else◌, Bytes, codes, length, get_elem?, drop, ℕ, zero, suc, ◌+◌, ◌-◌, ◌%◌, ◌^◌,
  Bool, true, false, not, ◌&&◌, ◌||◌, Option, none, some, List, [], ◌∷◌, ◌++◌,
}
use open_crank.Text.Trim.{to_lower}
use open_crank.Text.Find.{find, find_from_index, find_where, has, substr, to_string}
use open_crank.Session.Store.{MessageRole, system, user, assistant, ConversationMessage}

unfoldable pub is_token_limit_error : Bytes → Bool
is_token_limit_error error =
    let error_lower = to_lower error in
    (has error_lower (codes "exceeds")
      && (has error_lower (codes "context") || has error_lower (codes "token")))
    || has error_lower (codes "too long")
    || has error_lower (codes "context length")
    || has error_lower (codes "maximum context")
    || has error_lower (codes "token limit")
    || has error_lower (codes "context size")

unfoldable pub role_eq : MessageRole → MessageRole → Bool
role_eq system system = true
role_eq user user = true
role_eq assistant assistant = true
role_eq _ _ = false

abbrev pub message_of : MessageRole → Bytes → ConversationMessage
message_of role content = record { role = role; content = content }

-- The name between "tool=" and the next ' ' or ']', from the start of a result on.
unfoldable pub tool_name_in : Bytes → ℕ → Bytes
tool_name_in content result_start = elim (find_from_index (codes "tool=") content result_start) [
  | none ↦ codes "unknown"
  | some name ↦ elim (find_where (λ c. c == b' ' || c == b']') (drop (name + 5) content)) [
    | none ↦ codes "unknown"
    | some len ↦ substr content (name + 5) len
  ]
]

unfoldable pub content_start_in : Bytes → ℕ → ℕ
content_start_in content result_start = elim (find_from_index (codes "]\n") content result_start) [
  | none ↦ result_start
  | some i ↦ i + 2
]

-- The shorter text for a large result. The length is a difference of two positions in `size_t`.
unfoldable pub shortened : Bytes → ℕ → ℕ → Bytes
shortened content result_start result_end =
    let content_start = content_start_in content result_start in
    let content_len = (result_end + 2 ^ 64 - content_start) % 2 ^ 64 in
    codes "[TOOL_RESULT tool="
    ++ tool_name_in content result_start
    ++ codes " success=true]\n"
    ++ codes "[Content truncated to fit context window - original was "
    ++ to_string (length content)
    ++ codes " characters]\n"
    ++ (if ltb 2000 content_len
        then substr content content_start 2000 ++ codes "\n... [truncated] ..."
        else substr content content_start content_len)
    ++ codes "\n[/TOOL_RESULT]"

-- The body of the loop of the first strategy: the new content of a message that is shortened.
unfoldable pub shorten_message : ConversationMessage → Option Bytes
shorten_message msg =
    if not (role_eq msg.role user) then none else elim (find (codes "[TOOL_RESULT") msg.content) [
      | none ↦ none
      | some result_start ↦
          if not (ltb 10000 (length msg.content))
          then none
          else elim (find (codes "[/TOOL_RESULT]") msg.content) [
            | none ↦ none
            | some result_end ↦ some (shortened msg.content result_start result_end)
          ]
    ]

-- The messages after that loop, and `truncated_something`.
unfoldable pub shorten_results : List ConversationMessage → List ConversationMessage × Bool
shorten_results [] = ([], false)
shorten_results (msg ∷ history) =
    let (rest, changed) = shorten_results history in
    elim (shorten_message msg) [
      | none ↦ (msg ∷ rest, changed)
      | some content ↦ (record msg { content = content } ∷ rest, true)
    ]

abbrev pub is_user_at : List ConversationMessage → ℕ → Bool
is_user_at history i = elim (get_elem? history i) [
  | none ↦ false
  | some msg ↦ role_eq msg.role user
]

-- `last_start`: the index of the last user message among the last four, or that of the last message;
-- the first number counts the rounds left.
unfoldable pub walk_back : ℕ → ℕ → List ConversationMessage → ℕ
walk_back zero back history = length history - 1
walk_back (suc rounds) back history =
    let further = walk_back rounds (back + 1) history in
    if not (ltb back (length history))
    then length history - 1
    else if is_user_at history (length history - back)
    then length history - back
    else further

-- The messages that do not repeat the role of the one before.
unfoldable pub alternate : MessageRole → List ConversationMessage → List ConversationMessage
alternate last_role [] = []
alternate last_role (msg ∷ history) =
    let skipped = alternate last_role history in
    let kept = alternate msg.role history in
    if role_eq msg.role last_role then skipped else msg ∷ kept

abbrev pub bridge : ConversationMessage
bridge =
    message_of assistant
      (codes "[Earlier conversation context was truncated to fit context window.]")

-- The second strategy, for a history with a first message.
unfoldable pub drop_older :
    ConversationMessage → List ConversationMessage → List ConversationMessage
drop_older first rest =
    let last = drop (walk_back 4 1 (first ∷ rest)) (first ∷ rest) in
    if role_eq first.role user
    then first ∷ bridge ∷ alternate assistant last
    else first ∷ alternate first.role last

-- `history` after the call, and what it returns.
unfoldable pub try_truncate_history : List ConversationMessage → List ConversationMessage × Bool
try_truncate_history [] = ([], false)
try_truncate_history (first ∷ rest) =
    let history = first ∷ rest in
    let (shorter, changed) = shorten_results history in
    if ltb (length history) 3
    then (history, false)
    else if changed
    then (shorter, true)
    else if ltb 6 (length history)
    then (drop_older first rest, true)
    else (history, false)
