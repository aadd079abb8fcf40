-- ===== src/Text/Trim.antt =====
-- `ltrim`, `rtrim`, `trim`, `to_lower` and `starts_with` of src/core/utils.cpp.
pub mod Laws
use open_crank.Prelude.{
  ℕ, suc, ◌+◌, Bool, true, false, ◌&&◌, ◌||◌, Option, none, some, [], ◌∷◌, map, ◌≡◌, refl, Bytes,
  codes, leb, ◌==◌, if◌then◌else◌, take, drop,
}

-- A byte of " \t\n\r".
unfoldable pub is_blank : ℕ → Bool
is_blank c = c == b' ' || c == b'\t' || c == b'\n' || c == b'\r'

-- `find_first_not_of(" \t\n\r")`; `none` is `npos`.
unfoldable pub find_first_not_blank : Bytes → Option ℕ
unfolding is_blank
find_first_not_blank [] = none
find_first_not_blank (c ∷ s) =
    if is_blank c
    then (elim (find_first_not_blank s) [ none ↦ none | some i ↦ some (suc i) ])
    else some 0

-- `find_last_not_of(" \t\n\r")`.
pub find_last_not_blank : Bytes → Option ℕ
unfolding is_blank
find_last_not_blank [] = none
find_last_not_blank (c ∷ s) = elim (find_last_not_blank s) [
  | some i ↦ some (suc i)
  | none ↦ if is_blank c then none else some 0
]

unfoldable pub ltrim : Bytes → Bytes
unfolding find_first_not_blank
ltrim s = elim (find_first_not_blank s) [ none ↦ [] | some start ↦ drop start s ]

pub rtrim : Bytes → Bytes
unfolding find_last_not_blank
rtrim s = elim (find_last_not_blank s) [ none ↦ [] | some end ↦ take (suc end) s ]

unfoldable pub trim : Bytes → Bytes
unfolding ltrim rtrim
trim s = rtrim (ltrim s)

-- `std::tolower` on a byte, in the "C" locale.
unfoldable pub lower : ℕ → ℕ
lower c = if leb b'A' c && leb c b'Z' then c + 32 else c

unfoldable pub to_lower : Bytes → Bytes
unfolding lower
to_lower s = map lower s

unfoldable pub starts_with : Bytes → Bytes → Bool
starts_with s [] = true
starts_with [] (d ∷ prefix) = false
starts_with (c ∷ s) (d ∷ prefix) = c == d && starts_with s prefix

trim_runs : trim (codes " \t a b\n ") ≡ codes "a b"
unfolding trim
trim_runs = refl
