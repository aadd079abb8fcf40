-- ===== src/Text/Utf8.antt =====
-- `truncate_safe` and `sanitize_utf8` of src/core/utils.cpp. Masks of a byte are written as
-- divisions: `c & 0xC0` is 0x80 when `c / 64` is 2.
pub mod Laws
use open_crank.Prelude.{
  ltb, leb, ◌==◌, if◌then◌else◌, Bytes, length, get_or, take, ℕ, zero, suc, ◌-◌, ◌/◌, ◌≡◌, refl,
  Bool, true, false, ◌&&◌, ◌||◌, [], ◌∷◌, ◌++◌,
}

-- `(c & 0xC0) == 0x80`, for a byte.
pub is_continuation : ℕ → Bool
is_continuation c = c / 64 == 2

-- The loop that backs up from `len`.
pub back_up : Bytes → ℕ → ℕ
unfolding is_continuation
back_up s zero = 0
back_up s (suc len) =
    let rest = back_up s len in if is_continuation (get_or s (suc len) 0) then rest else suc len

unfoldable pub truncate_safe : Bytes → ℕ → Bytes
unfolding back_up
truncate_safe s max_len = if leb (length s) max_len then s else take (back_up s max_len) s

-- What the leading byte of a sequence announces.
pub data Lead : Type 0 where
  plain : Lead
  control : Lead
  invalid : Lead
  announces : ℕ → Lead  -- so many continuation bytes, `expected - 1`

-- The branches on the leading byte.
pub lead : ℕ → Lead
lead c =
    if ltb c 128
    then (if c == 9 || c == 10 || leb 32 c then plain else control)
    else if c / 32 == 6
    then announces 1
    else if c / 16 == 14
    then announces 2
    else if c / 8 == 30
    then announces 3
    else invalid

-- So many continuation bytes follow.
pub has_tail : ℕ → Bytes → Bool
unfolding is_continuation
has_tail zero s = true
has_tail (suc n) [] = false
has_tail (suc n) (c ∷ s) = is_continuation c && has_tail n s

-- U+FFFD.
abbrev pub replacement : Bytes
replacement = 239 ∷ 191 ∷ 189 ∷ []

-- The loop; the first argument counts the bytes of a valid sequence still to be copied.
pub sanitize_from : ℕ → Bytes → Bytes
sanitize_from n [] = []
sanitize_from (suc n) (c ∷ s) = c ∷ sanitize_from n s
sanitize_from zero (c ∷ s) = elim (lead c) [
  | plain ↦ c ∷ sanitize_from 0 s
  | control ↦ b' ' ∷ sanitize_from 0 s
  | invalid ↦ replacement ++ sanitize_from 0 s
  | announces n ↦ elim (has_tail n s) [
    | true ↦ c ∷ sanitize_from n s
    | false ↦ replacement ++ sanitize_from 0 s
  ]
]

unfoldable pub sanitize_utf8 : Bytes → Bytes
unfolding sanitize_from
sanitize_utf8 s = sanitize_from 0 s

sanitize_utf8_runs :
    sanitize_utf8 (97 ∷ 13 ∷ 195 ∷ 169 ∷ 195 ∷ 98 ∷ [])
    ≡ 97 ∷ 32 ∷ 195 ∷ 169 ∷ 239 ∷ 191 ∷ 189 ∷ 98 ∷ []
unfolding sanitize_utf8 lead has_tail
sanitize_utf8_runs = refl
