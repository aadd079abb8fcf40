-- ===== src/Text/Find.antt =====
-- `std::string::find` and its kin, and `std::to_string`, which the program uses throughout.
pub mod Laws
use open_crank.Prelude.{
  ltb, ◌==◌, if◌then◌else◌, Bytes, codes, take, drop, is_empty, ℕ, zero, suc, ◌+◌, ◌/◌, ◌%◌, ◌≡◌,
  refl, Bool, true, false, Option, none, some, [], ◌∷◌, ◌++◌,
}
use open_crank.Text.Trim.{starts_with}

-- `find(pattern)`: the index of the first occurrence; `none` is `npos`.
unfoldable pub find : Bytes → Bytes → Option ℕ
find pattern [] = if is_empty pattern then some 0 else none
find pattern (c ∷ s) =
    let later = find pattern s in
    if starts_with (c ∷ s) pattern
    then some 0
    else elim later [ none ↦ none | some i ↦ some (suc i) ]

-- `find(pattern, from)`, for a start within the text or at its end.
unfoldable pub find_from_index : Bytes → Bytes → ℕ → Option ℕ
find_from_index pattern s from = elim (find pattern (drop from s)) [
  | none ↦ none
  | some i ↦ some (from + i)
]

-- `find(pattern) != npos`.
unfoldable pub has : Bytes → Bytes → Bool
has s pattern = elim (find pattern s) [ none ↦ false | some i ↦ true ]

-- `find_first_of(set, from)`, by a test on bytes.
unfoldable pub find_where : (ℕ → Bool) → Bytes → Option ℕ
find_where p [] = none
find_where p (c ∷ s) =
    let later = find_where p s in
    if p c then some 0 else elim later [ none ↦ none | some i ↦ some (suc i) ]

-- `rfind(c)`.
unfoldable pub rfind : ℕ → Bytes → Option ℕ
rfind b [] = none
rfind b (c ∷ s) = elim (rfind b s) [
  | some i ↦ some (suc i)
  | none ↦ if c == b then some 0 else none
]

-- `substr(start, len)`.
abbrev pub substr : Bytes → ℕ → ℕ → Bytes
substr s start len = take len (drop start s)

-- The decimal digits of a number, given at least as much fuel as it has digits.
unfoldable pub digits : ℕ → ℕ → Bytes
digits zero n = []
digits (suc fuel) n =
    let front = digits fuel (n / 10) in
    if ltb n 10 then (48 + n) ∷ [] else front ++ (48 + n % 10) ∷ []

unfoldable pub to_string : ℕ → Bytes
to_string n = digits (suc n) n

to_string_runs : to_string 1205 ≡ codes "1205"
unfolding to_string digits
to_string_runs = refl

find_runs : find (codes "ab") (codes "aab") ≡ some 1
unfolding find starts_with
find_runs = refl
