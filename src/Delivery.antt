-- ===== src/Delivery.antt =====
-- How a long message is cut into pieces: `split_message_chunks` of src/core/application.cpp.
pub mod Laws
use open_crank.Prelude.{
  leb, ◌==◌, if◌then◌else◌, Bytes, length, take, drop, is_empty, ℕ, zero, suc, ◌+◌, none, some,
  List, [], ◌∷◌,
}
use open_crank.Text.Utf8.{truncate_safe}
use open_crank.Text.Find.{rfind}

-- `while (start < size && text[start] == '\n') ++start;`
unfoldable pub skip_newlines : Bytes → Bytes
skip_newlines [] = []
skip_newlines (c ∷ s) = let rest = skip_newlines s in if c == b'\n' then rest else c ∷ s

-- The next piece of a text that is longer than the limit, and the text behind it. A newline is
-- looked for at the positions up to the limit, but not at the start.
unfoldable pub next_piece : ℕ → Bytes → Bytes × Bytes
next_piece max_len s =
    let slice = truncate_safe (take max_len s) max_len in
    elim (rfind b'\n' (take (suc max_len) s)) [
      | none ↦ (slice, drop (length slice) s)
      | some zero ↦ (slice, drop (length slice) s)
      | some (suc j) ↦ (take (suc j) s, drop (suc j + 1) s)
    ]

-- The loop on the text from `start` on, with fuel for each round. Only a slice can be empty.
unfoldable pub split_loop : ℕ → ℕ → Bytes → List Bytes
split_loop max_len zero s = []
split_loop max_len (suc fuel) s =
    let (piece, after) = next_piece max_len s in
    let rest = split_loop max_len fuel (skip_newlines after) in
    if is_empty s
    then []
    else if leb (length s) max_len
    then s ∷ []
    else if is_empty piece
    then []
    else piece ∷ rest

-- Each round takes a byte at least.
unfoldable pub split_message_chunks : Bytes → ℕ → List Bytes
split_message_chunks text max_len =
    if leb (length text) max_len then text ∷ [] else split_loop max_len (length text) text
