-- ===== src/Deps/Packages.antt =====
-- Which project owns a package, pkg/deps/project_package.go, and which local path replaces a
-- dependency, pkg/deps/dependency.go. `ProjectID` and `RemotePackage` have the fields of a
-- `Dependency`, and are converted to it and back.
pub mod Contains
pub mod Owner
pub mod Replaced
use unobin.Base.{
  ℕ, Bool, true, false, not, Option, none, some, List, [], ◌∷◌, ◌++◌, map, length, ltb,
  if◌then◌else◌, is_empty, Bytes, bytes, eqb,
}
use unobin.Deps.Dependency.{Dependency}
use unobin.Deps.Versions.{cut_prefix}

-- `ProjectContains`; the first argument is the project.
unfoldable pub project_contains : Dependency → Dependency → Option Bytes
unfolding cut_prefix
project_contains project pkg =
    if not (eqb project.url pkg.url)
    then none
    else if is_empty project.subdir
    then (if is_empty pkg.subdir then some (bytes ".") else some pkg.subdir)
    else if eqb pkg.subdir project.subdir
    then some (bytes ".")
    else cut_prefix pkg.subdir (project.subdir ++ bytes "/")

pub record PackageOwner : Type 0 where
  pub project : Dependency
  pub package_subdir : Bytes

-- `if n := len(project.Subdir); n > bestLen`; there is no best owner as long as `bestLen` is -1.
abbrev pub is_longer : Option Dependency → Dependency → Bool
is_longer none project = true
is_longer (some best) project = ltb (length best.subdir) (length project.subdir)

abbrev pub project_of : Option PackageOwner → Option Dependency
project_of none = none
project_of (some o) = some o.project

-- A round of the loop.
abbrev pub better_owner : Option PackageOwner → Dependency → Option Bytes → Option PackageOwner
better_owner best project none = best
better_owner best project (some subdir) =
    if is_longer (project_of best) project
    then some (record { project = project; package_subdir = subdir })
    else best

unfoldable pub most_specific_from :
    Option PackageOwner → List Dependency → Dependency → Option PackageOwner
unfolding project_contains
most_specific_from best [] pkg = best
most_specific_from best (project ∷ projects) pkg =
    most_specific_from (better_owner best project (project_contains project pkg)) projects pkg

-- `MostSpecificProject`
unfoldable pub most_specific_project : List Dependency → Dependency → Option PackageOwner
unfolding most_specific_from
most_specific_project projects pkg = most_specific_from none projects pkg

pub record Replacement : Type 0 where
  pub dep : Dependency
  pub path : Bytes
  pub suffix : Bytes
  pub exact : Bool

abbrev pub below_subdir : Dependency → Bytes → Option Bytes → Option Replacement
below_subdir repl_dep path none = none
below_subdir repl_dep path (some after) =
    some (record { dep = repl_dep; path = path; suffix = after; exact = true })

unfoldable pub replacement_match : Dependency → Bytes → Dependency → Option Replacement
unfolding cut_prefix
replacement_match repl_dep path dep =
    if is_empty repl_dep.subdir
    then some (record { dep = repl_dep; path = path; suffix = dep.subdir; exact = false })
    else if eqb dep.subdir repl_dep.subdir
    then some (record { dep = repl_dep; path = path; suffix = []; exact = true })
    else below_subdir repl_dep path (cut_prefix dep.subdir (repl_dep.subdir ++ bytes "/"))

abbrev pub dep_of : Option Replacement → Option Dependency
dep_of none = none
dep_of (some r) = some r.dep

abbrev pub better_replacement :
    Option Replacement → Dependency → Option Replacement → Option Replacement
better_replacement best repl_dep none = best
better_replacement best repl_dep (some match) =
    if is_longer (dep_of best) repl_dep then some match else best

-- The loop of `ReplacementFor`, in an order in which `range` may go through the map.
unfoldable pub replacement_from :
    Option Replacement → List (Dependency × Bytes) → Dependency → Option Replacement
unfolding replacement_match
replacement_from best [] dep = best
replacement_from best (r ∷ rs) dep =
    replacement_from
      (if not (eqb r.0.url dep.url)
        then best
        else better_replacement best r.0 (replacement_match r.0 r.1 dep))
      rs dep

unfoldable pub replacement_for : List (Dependency × Bytes) → Dependency → Option Replacement
unfolding replacement_from
replacement_for replace dep = replacement_from none replace dep

-- `ProjectIDsFromReplace`
abbrev pub project_ids : List (Dependency × Bytes) → List Dependency
project_ids replace = map (λ r. r.0) replace
