-- ===== src/Sandbox/Laws.antt =====
-- A path that is allowed lies in one of the directories.
use open_crank.Prelude.{
  codes, take, drop, ◌+◌, subst, sym, Bool-cases, Option-cases, Bytes, is_empty, ℕ, ◌≡◌, refl, ap,
  ◌∙◌, ◌↔◌, ◌⊎◌, inl, inr, true, false, none, some, List, [], ◌∷◌, ◌++◌, arith,
}
use open_crank.Text.Trim.{starts_with}
use open_crank.Text.Find.{rfind}
use Prim.{⊥}
use open_crank.Sandbox.{
  FileSystem, Sandbox, ends_at, compare_prefix, answer, resolved_or_raw, is_path_in_jail,
  check_path, first_prefix, is_path_allowed,
}

-- A path is a directory, or the directory, a separator and more.
pub IsUnder : Bytes → Bytes → Type 0
IsUnder dir path = (path ≡ dir) ⊎ ((rest : Bytes) × (path ≡ dir ++ b'/' ∷ rest))

-- The same for one of several directories.
pub IsUnderAny : List Bytes → Bytes → Type 0
IsUnderAny [] path = ⊥
IsUnderAny (dir ∷ dirs) path = IsUnder dir path ⊎ IsUnderAny dirs path

cons-IsUnder : (c : ℕ) (dir path : Bytes) → IsUnder dir path → IsUnder (c ∷ dir) (c ∷ path)
unfolding IsUnder
cons-IsUnder c dir path (inl e) = inl (ap (◌∷◌ c) e)
cons-IsUnder c dir path (inr (rest, e)) = inr (rest, ap (◌∷◌ c) e)

-- The two tests hold only of a path under the directory.
starts_with-IsUnder :
    (dir path : Bytes) → starts_with path dir ≡ true → ends_at dir path ≡ true → IsUnder dir path
unfolding IsUnder starts_with ends_at
starts_with-IsUnder [] [] starts ends = inl refl
starts_with-IsUnder [] (c ∷ path) starts ends =
    let e : c ≡ b'/' = ground (arith) in inr (path, ap (λ x. x ∷ path) e)
starts_with-IsUnder (d ∷ dir) [] starts ends = ground (arith)
starts_with-IsUnder (d ∷ dir) (c ∷ path) starts ends =
    let e : c ≡ d = ground (arith) in
    let starts' : starts_with path dir ≡ true = ground (arith) in
    let ends' : ends_at dir path ≡ true = ground (arith) in
    rw e (cons-IsUnder d dir path (starts_with-IsUnder dir path starts' ends'))

starts_with_self : (dir : Bytes) → (starts_with dir dir ≡ true) × (ends_at dir dir ≡ true)
unfolding starts_with ends_at
starts_with_self [] = (refl, refl)
starts_with_self (d ∷ dir) = ground (arith, starts_with_self dir)

starts_with_more :
    (dir rest : Bytes)
    → (starts_with (dir ++ b'/' ∷ rest) dir ≡ true) × (ends_at dir (dir ++ b'/' ∷ rest) ≡ true)
unfolding starts_with ends_at
starts_with_more [] rest = (refl, ground (arith))
starts_with_more (d ∷ dir) rest = let (starts, ends) = starts_with_more dir rest in ground (arith)

IsUnder-starts_with :
    (dir path : Bytes)
    → IsUnder dir path
    → (starts_with path dir ≡ true) × (ends_at dir path ≡ true)
unfolding IsUnder
IsUnder-starts_with dir path (inl e) = rw e (starts_with_self dir)
IsUnder-starts_with dir path (inr (rest, e)) = rw e (starts_with_more dir rest)

compare_prefix-IsUnder : (dir path : Bytes) → compare_prefix dir path ≡ some true → IsUnder dir path
unfolding compare_prefix
compare_prefix-IsUnder dir path h = elim (Bool-cases (starts_with path dir)) [
  | inr f ↦ let h' : none ≡ some true = rw (compare_prefix, f) at h in ground (arith)
  | inl t ↦
      let h' : some (ends_at dir path) ≡ some true = rw (compare_prefix, t) at h in
      starts_with-IsUnder dir path t (ground (arith))
]

first_prefix-IsUnderAny :
    (dirs : List Bytes) (path : Bytes) → first_prefix dirs path ≡ true → IsUnderAny dirs path
unfolding first_prefix IsUnderAny
first_prefix-IsUnderAny [] path h = ground (arith)
first_prefix-IsUnderAny (dir ∷ dirs) path h = elim (Option-cases (compare_prefix dir path)) [
  | inl e ↦ inr (first_prefix-IsUnderAny dirs path (rw (first_prefix, e) at h))
  | inr (b, e) ↦
      let b_true : b ≡ true = rw (first_prefix, e) at h in
      inl (compare_prefix-IsUnder dir path (e ∙ ap some b_true))
]

-- What a path stands for in the check: what it resolves to; where it does not resolve, the last part of it
-- in what its directory, or the working directory, resolves to; and where nothing does, its own text.
pub data StandsFor (fs : FileSystem) (path : Bytes) : Bytes → Type 0 where
  whole : (resolved : Bytes) → fs.realpath path ≡ some resolved → StandsFor fs path resolved
  in_parent :
      (parent : Bytes) (slash : ℕ)
      → fs.realpath path ≡ none
      → rfind b'/' path ≡ some slash
      → fs.realpath (take slash path) ≡ some parent
      → StandsFor fs path (parent ++ codes "/" ++ drop (slash + 1) path)
  in_cwd :
      (cwd : Bytes)
      → fs.realpath path ≡ none
      → rfind b'/' path ≡ none
      → fs.getcwd ≡ some cwd
      → StandsFor fs path (cwd ++ codes "/" ++ path)
  text_below :
      (slash : ℕ)
      → fs.realpath path ≡ none
      → rfind b'/' path ≡ some slash
      → fs.realpath (take slash path) ≡ none
      → StandsFor fs path path
  text_alone :
      fs.realpath path ≡ none → rfind b'/' path ≡ none → fs.getcwd ≡ none → StandsFor fs path path

check_path-StandsFor : (fs : FileSystem) (path : Bytes) → StandsFor fs path (check_path fs path)
unfolding check_path
check_path-StandsFor fs path = elim (Option-cases (fs.realpath path)) [
  | inr (resolved, e) ↦ rw (check_path, e) (whole resolved e)
  | inl e ↦ elim (Option-cases (rfind b'/' path)) [
    | inr (slash, at) ↦ elim (Option-cases (fs.realpath (take slash path))) [
      | inr (parent, d) ↦ rw (check_path, e, at, d) (in_parent parent slash e at d)
      | inl d ↦ rw (check_path, e, at, d) (text_below slash e at d)
    ]
    | inl at ↦ elim (Option-cases fs.getcwd) [
      | inr (cwd, d) ↦
          let beside : check_path fs path ≡ cwd ++ codes "/" ++ path =
            rw (check_path, e, at, d) refl in
          subst (StandsFor fs path) (sym beside) (in_cwd cwd e at d)
      | inl d ↦
          let same : check_path fs path ≡ path = rw (check_path, e, at, d) refl in
          subst (StandsFor fs path) (sym same) (text_alone e at d)
    ]
  ]
]

-- While the sandbox is active, a path is allowed only if what it stands for is the base directory, one of
-- the extra paths, or lies below one of them, past a separator. That is what the path resolves to, or
-- else its last part in the resolved directory; only where neither resolves it is the text of the path.
pub is_path_allowed-IsUnderAny :
    (fs : FileSystem) (s : Sandbox) (path : Bytes)
    → s.active ≡ true
    → is_path_allowed fs s path ≡ true
    → (checked : Bytes) × StandsFor fs path checked
      × IsUnderAny (s.base_dir ∷ s.extra_allowed_paths) checked
unfolding is_path_allowed
is_path_allowed-IsUnderAny fs s path active h = (
  check_path fs path,
  check_path-StandsFor fs path,
  first_prefix-IsUnderAny (s.base_dir ∷ s.extra_allowed_paths) (check_path fs path)
      (rw (is_path_allowed, active) at h),
)

compare_prefix_iff :
    (dir path : Bytes) → (answer (compare_prefix dir path) ≡ true) ↔ IsUnder dir path
unfolding compare_prefix
compare_prefix_iff dir path = (
  (λ h. elim (Bool-cases (starts_with path dir)) [
    | inr f ↦ let h' : false ≡ true = rw (compare_prefix, f) at h in ground (arith)
    | inl t ↦ starts_with-IsUnder dir path t (rw (compare_prefix, t) at h)
  ]),
  λ h. let (starts, ends) = IsUnder-starts_with dir path h in rw (compare_prefix, starts) ends,
)

-- The jail check holds just of the paths that lie in the jail: resolved where they resolve, as they
-- are where they do not.
pub is_path_in_jail_iff :
    (fs : FileSystem) (s : Sandbox) (path : Bytes)
    → is_empty s.jail_dir ≡ false
    → (is_path_in_jail fs s path ≡ true) ↔ IsUnder s.jail_dir (resolved_or_raw fs path)
unfolding is_path_in_jail
is_path_in_jail_iff fs s path jailed =
    rw (is_path_in_jail, jailed) (compare_prefix_iff s.jail_dir (resolved_or_raw fs path))
