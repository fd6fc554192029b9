-- ===== src/Deps/Imports.antt =====
-- Import strings, pkg/resolve/imports.go, and `ParseDependency` of pkg/deps/dependency.go. A string is
-- read by bytes: a rune that is no ASCII character is no valid rune of an import, and neither is any
-- byte of it.
pub mod RoundTrip
use unobin.Base.{
  ℕ, Bool, true, false, not, ◌&&◌, ◌||◌, Option, none, some, List, [], ◌∷◌, ◌==◌, leb,
  if◌then◌else◌, is_empty, Bytes, bytes, eqb, Result, ok, err, ◌>>=◌,
}
use unobin.Deps.Dependency.{Dependency}
use unobin.Deps.Versions.{has_prefix}

-- One constructor for each message.
pub data ImportError : Type 0 where
  empty_import_ref empty_repo_url no_host_and_path : ImportError
  invalid_character : ℕ → ImportError

-- `RemoteImport`, with the fields that `ParseImportRef` sets.
pub data ImportRef : Type 0 where
  local_import : Bytes → ImportRef
  remote_import : Dependency → ImportRef

-- `/`
abbrev pub slash : ℕ
slash = 47

abbrev pub starts_with_slash : Bytes → Bool
starts_with_slash [] = false
starts_with_slash (c ∷ s) = c == slash

abbrev pub drop_one : Bytes → Bytes
drop_one [] = []
drop_one (c ∷ s) = s

abbrev pub cons_left : ℕ → Option (Bytes × Bytes) → Option (Bytes × Bytes)
cons_left c none = none
cons_left c (some p) = some (c ∷ p.0, p.1)

-- `strings.Cut(s, "//")`
unfoldable pub cut_slashes : Bytes → Option (Bytes × Bytes)
cut_slashes [] = none
cut_slashes (c ∷ s) =
    let rest = cut_slashes s in
    if c == slash && starts_with_slash s then some ([], drop_one s) else cons_left c rest

-- `strings.TrimSuffix(left, "/")`
unfoldable pub trim_slash : Bytes → Bytes
trim_slash [] = []
trim_slash (c ∷ s) = let rest = trim_slash s in if c == slash && is_empty s then [] else c ∷ rest

-- `strings.TrimPrefix(right, "/")`
abbrev pub trim_left_slash : Bytes → Bytes
trim_left_slash s = if starts_with_slash s then drop_one s else s

-- `SplitRepoSubdir`, after the cut.
abbrev pub split_at : Bytes → Option (Bytes × Bytes) → Result ImportError Dependency
split_at s none = ok (record { url = s; subdir = [] })
split_at s (some p) =
    if is_empty (trim_slash p.0)
    then err empty_repo_url
    else ok (record { url = trim_slash p.0; subdir = trim_left_slash p.1 })

unfoldable pub split_repo_subdir : Bytes → Result ImportError Dependency
unfolding cut_slashes trim_slash
split_repo_subdir s = split_at s (cut_slashes s)

-- `strings.ContainsRune(url, '/')`
unfoldable pub contains_slash : Bytes → Bool
contains_slash [] = false
contains_slash (c ∷ s) = c == slash || contains_slash s

-- `ParseDependency`
unfoldable pub parse_dependency : Bytes → Result ImportError Dependency
unfolding split_repo_subdir contains_slash
parse_dependency id = do
  d ← split_repo_subdir id
  if not (contains_slash d.url) then err no_host_and_path else ok d

abbrev pub in_range : ℕ → ℕ → ℕ → Bool
in_range low high r = leb low r && leb r high

-- `validImportRune`
unfoldable pub valid_import_rune : ℕ → Bool
valid_import_rune r =
    in_range 97 122 r
    || in_range 65 90 r
    || in_range 48 57 r
    || r == 46
    || r == 45
    || r == 95
    || r == slash

-- The loop of `parseRemote`.
unfoldable pub check_runes : Bytes → Result ImportError (Unit {0})
unfolding valid_import_rune
check_runes [] = ok tt
check_runes (r ∷ rs) =
    let rest = check_runes rs in
    if not (valid_import_rune r) then err (invalid_character r) else rest

unfoldable pub parse_remote : Bytes → Result ImportError Dependency
unfolding check_runes parse_dependency
parse_remote raw = do
  checked ← check_runes raw
  d ← split_repo_subdir raw
  if not (contains_slash d.url) then err no_host_and_path else ok d

unfoldable pub is_local_path : Bytes → Bool
is_local_path s =
    if is_empty s
    then false
    else if starts_with_slash s
    then true
    else has_prefix s (bytes "./")
      || has_prefix s (bytes "../")
      || eqb s (bytes ".")
      || eqb s (bytes "..")

-- `ParseImportRef`
unfoldable pub parse_import_ref : Bytes → Result ImportError ImportRef
unfolding is_local_path parse_remote
parse_import_ref raw =
    if is_empty raw
    then err empty_import_ref
    else if is_local_path raw
    then ok (local_import raw)
    else parse_remote raw >>= λ d. ok (remote_import d)
