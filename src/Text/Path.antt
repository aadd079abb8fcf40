-- ===== src/Text/Path.antt =====
-- `normalize_path` and `join_path` of src/core/utils.cpp.
pub mod Laws
use open_crank.Prelude.{
  ◌==◌, if◌then◌else◌, Bytes, codes, str_eq, get_or, drop, is_empty, ◌/◌, ◌≡◌, refl, Bool, false,
  not, ◌&&◌, ◌||◌, List, [], ◌∷◌, ◌++◌, map,
}
use open_crank.Text.Split.{split_char, join}

-- The branch on "..", on the parts kept so far, the last one first.
pub step_up : Bool → List Bytes → List Bytes
step_up absolute [] = if absolute then [] else codes ".." ∷ []
step_up absolute (top ∷ below) =
    if not (str_eq top (codes ".."))
    then below
    else if absolute
    then top ∷ below
    else codes ".." ∷ top ∷ below

-- One turn of the loop.
pub resolve_part : Bool → List Bytes → Bytes → List Bytes
unfolding step_up
resolve_part absolute result part =
    if is_empty part || str_eq part (codes ".")
    then result
    else if str_eq part (codes "..")
    then step_up absolute result
    else part ∷ result

pub resolve_parts : Bool → List Bytes → List Bytes → List Bytes
unfolding resolve_part
resolve_parts absolute result [] = result
resolve_parts absolute result (part ∷ parts) =
    resolve_parts absolute (resolve_part absolute result part) parts

-- The list in the order of the vector.
pub in_order : List Bytes → List Bytes
in_order [] = []
in_order (part ∷ below) = in_order below ++ part ∷ []

-- `path[0] == '/'`.
pub is_absolute : Bytes → Bool
is_absolute path = get_or path 0 0 == b'/'

unfoldable pub normalize_path : Bytes → Bytes
unfolding resolve_parts in_order is_absolute split_char join
normalize_path [] = []
normalize_path (c ∷ path) =
    let absolute = is_absolute (c ∷ path) in
    let result = resolve_parts absolute [] (split_char (c ∷ path) b'/') in
    let joined = join (in_order result) (codes "/") in
    let normalized = if absolute then b'/' ∷ joined else joined in
    if is_empty normalized then codes "." else normalized

-- `back() == '/'`.
pub ends_slash : Bytes → Bool
ends_slash [] = false
ends_slash (c ∷ []) = c == b'/'
ends_slash (c ∷ d ∷ s) = ends_slash (d ∷ s)

unfoldable pub join_path : Bytes → Bytes → Bytes
unfolding ends_slash is_absolute
join_path a b =
    if is_empty a
    then b
    else if is_empty b
    then a
    else if ends_slash a && is_absolute b
    then a ++ drop 1 b
    else if not (ends_slash a) && not (is_absolute b)
    then a ++ (b'/' ∷ b)
    else a ++ b

normalize_path_runs :
    map normalize_path (codes "/a/./b/../c//" ∷ codes "/.." ∷ codes "a/../../b" ∷ codes "a/.." ∷ [])
    ≡ codes "/a/c" ∷ codes "/" ∷ codes "../b" ∷ codes "." ∷ []
unfolding normalize_path str_eq
normalize_path_runs = refl
