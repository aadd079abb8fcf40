-- ===== src/Tests/Text.antt =====
-- The theorems on text at concrete inputs.
use open_crank.Prelude.{
  if◌then◌else◌, Bytes, codes, length, get_or, take, is_empty, ℕ, ◌≤◌, ◌<◌, ◌≡◌, refl, ◌⊎◌, true,
  false, List, [], ◌∷◌,
}
use open_crank.Text.Split.{join}
use open_crank.Text.Path.{in_order, is_absolute, normalize_path}
use open_crank.Text.Path.Laws.{IsResolved, normalize_path_lem}
use open_crank.Text.Utf8.{is_continuation, truncate_safe, sanitize_utf8}
use open_crank.Text.Utf8.Laws.{Shaped, sanitize_utf8_lem, truncate_safe_lem}

abbrev up_path : Bytes
up_path = codes "/a/../../b/./c"

normalize_path_lem_example :
    (result : List Bytes) × IsResolved (is_absolute up_path) result
    × (normalize_path up_path ≡ (
        if is_absolute up_path
        then b'/' ∷ join (in_order result) (codes "/")
        else if is_empty result
        then codes "."
        else join (in_order result) (codes "/")))
normalize_path_lem_example = normalize_path_lem up_path refl

-- An accented letter, a control character and a sequence cut short.
abbrev mixed : Bytes
mixed = 97 ∷ 195 ∷ 169 ∷ 13 ∷ 226 ∷ 130 ∷ []

sanitize_utf8_lem_example :
    Shaped 0 (sanitize_utf8 mixed) × (sanitize_utf8 (sanitize_utf8 mixed) ≡ sanitize_utf8 mixed)
sanitize_utf8_lem_example = sanitize_utf8_lem mixed

truncate_safe_lem_example :
    (length mixed ≤ 2 → truncate_safe mixed 2 ≡ mixed)
    × (2 < length mixed
        → (k : ℕ) × (truncate_safe mixed 2 ≡ take k mixed)
          × (k ≤ 2)
          × ((k ≡ 0) ⊎ (is_continuation (get_or mixed k 0) ≡ false))
          × ((i : ℕ) → k < i → i ≤ 2 → is_continuation (get_or mixed i 0) ≡ true))
truncate_safe_lem_example = truncate_safe_lem mixed 2
