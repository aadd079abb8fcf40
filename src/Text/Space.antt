-- ===== src/Text/Space.antt =====
-- `normalize_whitespace` of src/core/utils.cpp.
pub mod Laws
use open_crank.Prelude.{◌==◌, if◌then◌else◌, Bytes, codes, ◌≡◌, refl, Bool, true, false, [], ◌∷◌}
use open_crank.Text.Trim.{is_blank}

-- The loop; the first argument is `last_was_space`.
pub collapse : Bool → Bytes → Bytes
unfolding is_blank
collapse last [] = []
collapse last (c ∷ s) = elim (is_blank c) [
  | true ↦ elim last [ true ↦ collapse true s | false ↦ b' ' ∷ collapse true s ]
  | false ↦ c ∷ collapse false s
]

-- The `pop_back` of a space at the end.
pub drop_trailing : Bytes → Bytes
drop_trailing [] = []
drop_trailing (c ∷ []) = if c == b' ' then [] else c ∷ []
drop_trailing (c ∷ d ∷ s) = c ∷ drop_trailing (d ∷ s)

unfoldable pub normalize_whitespace : Bytes → Bytes
unfolding collapse drop_trailing
normalize_whitespace s = drop_trailing (collapse true s)

normalize_whitespace_runs : normalize_whitespace (codes " a \t b\n ") ≡ codes "a b"
unfolding normalize_whitespace
normalize_whitespace_runs = refl
