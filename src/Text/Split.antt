-- ===== src/Text/Split.antt =====
-- The two `split`s and `join` of src/core/utils.cpp.
pub mod Laws
use open_crank.Prelude.{
  ◌==◌, if◌then◌else◌, Bytes, codes, length, is_empty, ℕ, zero, suc, ◌-◌, ◌≡◌, refl, true, false,
  List, [], ◌∷◌, ◌++◌,
}
use open_crank.Text.Trim.{starts_with}

-- `std::getline` until it fails; `part` is what it has read since the last delimiter. At the end of
-- the text it fails when it has read nothing.
pub getline_from : ℕ → Bytes → Bytes → List Bytes
getline_from delimiter part [] = if is_empty part then [] else part ∷ []
getline_from delimiter part (c ∷ s) = elim (c == delimiter) [
  | true ↦ part ∷ getline_from delimiter [] s
  | false ↦ getline_from delimiter (part ++ c ∷ []) s
]

unfoldable pub split_char : Bytes → ℕ → List Bytes
unfolding getline_from
split_char s delimiter = getline_from delimiter [] s

-- The loop of `find` and `substr`; the number is what is left to skip of a delimiter found, and
-- `part` is what stands since the last one.
pub find_from : Bytes → ℕ → Bytes → Bytes → List Bytes
unfolding starts_with
find_from delimiter n part [] = part ∷ []
find_from delimiter (suc n) part (c ∷ s) = find_from delimiter n part s
find_from delimiter zero part (c ∷ s) = elim (starts_with (c ∷ s) delimiter) [
  | true ↦ part ∷ find_from delimiter (length delimiter - 1) [] s
  | false ↦ find_from delimiter 0 (part ++ c ∷ []) s
]

unfoldable pub split : Bytes → Bytes → List Bytes
unfolding find_from
split s delimiter = if is_empty delimiter then s ∷ [] else find_from delimiter 0 [] s

-- `std::accumulate`.
unfoldable pub join_from : Bytes → List Bytes → Bytes → Bytes
join_from a [] delimiter = a
join_from a (b ∷ parts) delimiter = join_from (a ++ (delimiter ++ b)) parts delimiter

unfoldable pub join : List Bytes → Bytes → Bytes
unfolding join_from
join [] delimiter = []
join (part ∷ parts) delimiter = join_from part parts delimiter

split_char_runs : split_char (codes "/a//b/") b'/' ≡ [] ∷ codes "a" ∷ [] ∷ codes "b" ∷ []
unfolding split_char
split_char_runs = refl

split_runs : split (codes "a, b,") (codes ", ") ≡ codes "a" ∷ codes "b," ∷ []
unfolding split
split_runs = refl
