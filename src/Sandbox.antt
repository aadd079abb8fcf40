-- ===== src/Sandbox.antt =====
-- The path checks of src/core/sandbox.cpp. `realpath` and `getcwd` are a parameter; what the kernel
-- enforces (`activate`) is not part of the model.
pub mod Laws
use open_crank.Prelude.{
  ◌==◌, if◌then◌else◌, Bytes, codes, str_eq, length, get_or, take, drop, is_empty, ◌+◌, Bool, true,
  false, not, ◌||◌, Option, none, some, List, [], ◌∷◌, ◌++◌,
}
use open_crank.Text.Trim.{starts_with}
use open_crank.Text.Find.{rfind}

-- `none` is a null pointer: the path does not resolve.
pub record FileSystem : Type 0 where
  pub realpath : Bytes → Option Bytes
  pub getcwd : Option Bytes

pub record Sandbox : Type 0 where
  pub active : Bool
  pub base_dir : Bytes
  pub db_dir : Bytes
  pub jail_dir : Bytes
  pub extra_allowed_paths : List Bytes

unfoldable pub memory_db_path : Sandbox → Bytes
memory_db_path s = s.db_dir ++ codes "/memory.db"

unfoldable pub allow_path : Sandbox → Bytes → Sandbox
allow_path s path =
    if s.active then s else record s { extra_allowed_paths = s.extra_allowed_paths ++ path ∷ [] }

-- `path.size() == dir.size() || path[dir.size()] == '/'`.
unfoldable pub ends_at : Bytes → Bytes → Bool
ends_at dir path = length path == length dir || get_or path (length dir) 0 == b'/'

-- A directory in front of a path: `none` where it is not, or whether it ends at a separator.
unfoldable pub compare_prefix : Bytes → Bytes → Option Bool
compare_prefix dir path = if starts_with path dir then some (ends_at dir path) else none

abbrev pub answer : Option Bool → Bool
answer none = false
answer (some b) = b

-- The resolved path, or the path as it is.
unfoldable pub resolved_or_raw : FileSystem → Bytes → Bytes
resolved_or_raw fs path = elim (fs.realpath path) [ none ↦ path | some resolved ↦ resolved ]

unfoldable pub is_path_in_jail : FileSystem → Sandbox → Bytes → Bool
is_path_in_jail fs s path =
    if is_empty s.jail_dir
    then false
    else answer (compare_prefix s.jail_dir (resolved_or_raw fs path))

-- The path that is compared: resolved, or resolved as far as its directory.
unfoldable pub check_path : FileSystem → Bytes → Bytes
check_path fs path = elim (fs.realpath path) [
  | some resolved ↦ resolved
  | none ↦ elim (rfind b'/' path) [
    | some slash ↦ elim (fs.realpath (take slash path)) [
      | some parent ↦ parent ++ codes "/" ++ drop (slash + 1) path
      | none ↦ path
    ]
    | none ↦ elim fs.getcwd [ some cwd ↦ cwd ++ codes "/" ++ path | none ↦ path ]
  ]
]

-- The answer of the first directory in front of the path.
unfoldable pub first_prefix : List Bytes → Bytes → Bool
first_prefix [] path = false
first_prefix (dir ∷ dirs) path = elim (compare_prefix dir path) [
  | some b ↦ b
  | none ↦ first_prefix dirs path
]

unfoldable pub is_path_allowed : FileSystem → Sandbox → Bytes → Bool
is_path_allowed fs s path =
    if not s.active
    then true
    else first_prefix (s.base_dir ∷ s.extra_allowed_paths) (check_path fs path)

unfoldable pub resolve_in_jail : Sandbox → Bytes → Bytes
resolve_in_jail s relative_path =
    if is_empty relative_path || str_eq relative_path (codes ".")
    then s.jail_dir
    else if get_or relative_path 0 0 == b'/'
    then relative_path
    else s.jail_dir ++ codes "/" ++ relative_path
