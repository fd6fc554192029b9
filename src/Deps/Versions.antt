-- ===== src/Deps/Versions.antt =====
-- The versions among the tags of a repository, pkg/deps/versions.go.
pub mod Highest
pub mod Best
use unobin.Base.{
  Bool, true, false, not, ◌&&◌, ◌||◌, Option, none, some, List, [], ◌∷◌, ◌++◌, ◌==◌, if◌then◌else◌,
  is_empty, Bytes, bytes, eqb, Result, ok, err,
}
use unobin.Deps.Semver.{Semver, is_higher}
use unobin.Deps.Dependency.{Dependency, tag_prefix}

-- `strings.CutPrefix`
unfoldable pub cut_prefix : Bytes → Bytes → Option Bytes
cut_prefix s [] = some s
cut_prefix [] (p ∷ ps) = none
cut_prefix (c ∷ cs) (p ∷ ps) = let rest = cut_prefix cs ps in if c == p then rest else none

-- `strings.HasPrefix`
abbrev pub is_some : Option Bytes → Bool
is_some none = false
is_some (some s) = true

abbrev pub has_prefix : Bytes → Bytes → Bool
has_prefix s p = is_some (cut_prefix s p)

-- One constructor for each message.
pub data VersionError : Type 0 where
  no_versions_available not_a_version not_available no_match : VersionError

-- `if v := Highest(...); v != ""`
abbrev pub or_error : VersionError → Bytes → Result VersionError Bytes
or_error e [] = err e
or_error e v = ok v

-- `for _, v := range available`
unfoldable pub find_version : Bytes → List Bytes → Result VersionError Bytes
find_version query [] = err not_available
find_version query (v ∷ vs) = let rest = find_version query vs in if eqb v query then ok v else rest

-- The loop that fills `matches`.
unfoldable pub matching : Bytes → List Bytes → List Bytes
matching query [] = []
matching query (v ∷ vs) =
    let rest = matching query vs in
    if eqb v query || has_prefix v (query ++ bytes ".") then v ∷ rest else rest

abbrev pub is_latest : Bytes → Bool
is_latest query = is_empty query || eqb query (bytes "latest")

module _ (sv : Semver) where
  abbrev pub keep : Option Bytes → List Bytes → List Bytes
  keep none vs = vs
  keep (some v) vs = if not (sv.is_valid v) then vs else v ∷ vs

  -- The loop of `versionsWithPrefix`.
  unfoldable pub with_prefix : Bytes → List Bytes → List Bytes
  with_prefix prefix [] = []
  with_prefix prefix (t ∷ ts) = keep (cut_prefix t prefix) (with_prefix prefix ts)

  unfoldable pub versions_with_prefix : Bytes → List Bytes → List Bytes
  unfolding with_prefix
  versions_with_prefix prefix tags = sv.sort (with_prefix prefix tags)

  unfoldable pub versions : Dependency → List Bytes → List Bytes
  unfolding versions_with_prefix
  versions dep tags = versions_with_prefix (tag_prefix dep) tags

  -- The loop of `Highest`.
  unfoldable pub highest_from : Bytes → List Bytes → Bytes
  highest_from best [] = best
  highest_from best (v ∷ vs) =
      highest_from (if is_empty best || is_higher (sv.compare v best) then v else best) vs

  unfoldable pub highest : List Bytes → Bytes
  unfolding highest_from
  highest vs = highest_from [] vs

  unfoldable pub resolve_version : Dependency → Bytes → List Bytes → Result VersionError Bytes
  unfolding versions highest find_version matching
  resolve_version dep query tags =
      let available = versions dep tags in
      if is_latest query
      then or_error no_versions_available (highest available)
      else if not (sv.is_valid query)
      then err not_a_version
      else if eqb (sv.canonical query) query
      then find_version query available
      else or_error no_match (highest (matching query available))
