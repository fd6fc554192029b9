-- ===== src/Deps/Examples.antt =====
-- Three dependencies, with versions that are ordered by their length.
use unobin.Base.{
  ℕ, Bool, true, false, not, ◌||◌, ◌≡◌, ◌≢◌, refl, inl, inr, Option, none, some, List, [], ◌∷◌, All,
  subst, ok-injective, ltb, length, if◌then◌else◌, is_empty, Bytes, bytes, eqb, mem, Result, ok,
  err, arith,
}
use unobin.Deps.Semver.{Sign, lower, equal, higher, flip, not_higher, Semver, IsSemver}
use unobin.Deps.Dependency.{Dependency, dependency_text, same_dep, put, has_dep, tag_prefix, tag}
use unobin.Deps.Selection.{Selection, new_selection, add}
use unobin.Deps.Resolve.{Project, require_versions, project_versions, out_of_fuel, resolve}
use unobin.Deps.Resolve.Enqueue.{Meets}
use unobin.Deps.Resolve.Closed.{IsClosed, resolve-IsClosed}
use unobin.Deps.Resolve.Rounds.{In, resolve-ne-out_of_fuel}
use unobin.Deps.Resolve.Ordered.{
  dep_a, dep_b, dep_c, fetch_by, fetch, root_ab, root_ba, resolve-order,
}
use unobin.Deps.Resolve.Required.{Required, resolve-Required}
use unobin.Deps.Versions.{cut_prefix, is_latest, resolve_version}
use unobin.Deps.Versions.Highest.{fits, is_tagged}
use unobin.Deps.Versions.Best.{IsBest, resolve_version-IsBest, resolve_version-found}
use unobin.Deps.Imports.{contains_slash, parse_dependency}
use unobin.Deps.Imports.RoundTrip.{has_no_cut, parse_dependency-dependency_text}
use unobin.Deps.Packages.{project_of, dep_of, most_specific_project, replacement_for, project_ids}
use unobin.Deps.Packages.Owner.{most_specific_project-order}
use unobin.Deps.Packages.Replaced.{replacement_for-project}

abbrev compare_lengths : ℕ → ℕ → Sign
compare_lengths m n = if ltb m n then lower else if ltb n m then higher else equal

compare_lengths-flip : (m n : ℕ) → compare_lengths n m ≡ flip (compare_lengths m n)
compare_lengths-flip m n = ground arith

compare_lengths_trans :
    (k m n : ℕ)
    → not_higher (compare_lengths k m) ≡ true
    → not_higher (compare_lengths m n) ≡ true
    → not_higher (compare_lengths k n) ≡ true
compare_lengths_trans k m n h j = ground arith

-- A version is longer the higher it is; the full ones have five bytes or more.
abbrev by_length : Semver
by_length = record {
  is_valid = λ v. not (is_empty v);
  canonical = λ v. if ltb (length v) 5 then [] else v;
  compare = λ a b. compare_lengths (length a) (length b);
  sort = λ vs. vs;
}

by_length-IsSemver : IsSemver by_length
by_length-IsSemver = record {
  compare_flip = λ a b. compare_lengths-flip (length a) (length b);
  compare_trans = λ a b c. compare_lengths_trans (length a) (length b) (length c);
  no_version = refl;
  sort_mem = λ v vs. refl;
}

abbrev old_version : Bytes
old_version = bytes "v1.0.0"

abbrev new_version : Bytes
new_version = bytes "v1.0.10"

abbrev two_versions : Dependency → Bytes → Result (Unit {0}) (Option Project)
two_versions = fetch old_version new_version

abbrev all_floors : List (Dependency × Bytes)
all_floors =
    (dep_a, old_version) ∷ (dep_b, old_version) ∷ (dep_c, old_version) ∷ (dep_a, new_version) ∷ []

abbrev with_c : Selection
with_c =
    put
      (put (put (put new_selection dep_a (some old_version)) dep_b (some old_version)) dep_c
        (some old_version))
      dep_a (some new_version)

resolved_ab : resolve by_length two_versions 4 (root_ab old_version) ≡ ok with_c
unfolding resolve add same_dep eqb
resolved_ab = refl

chosen_c : with_c dep_c ≡ some old_version
unfolding same_dep eqb
chosen_c = refl

resolve-order_example :
    (s : Selection) × (t : Selection) × (resolve by_length two_versions 4 (root_ab old_version)
      ≡ ok s)
    × (resolve by_length two_versions 4 (root_ba old_version) ≡ ok t)
    × (s dep_c ≡ some old_version)
    × (t dep_c ≡ none)
resolve-order_example =
    resolve-order by_length old_version new_version by_length-IsSemver refl refl refl

resolve-IsClosed_example :
    All (Meets by_length with_c) (require_versions (root_ab old_version))
    × IsClosed by_length by_length-IsSemver two_versions with_c
resolve-IsClosed_example =
    resolve-IsClosed by_length by_length-IsSemver two_versions 4 (root_ab old_version) resolved_ab

resolve-Required_example : Required by_length two_versions (root_ab old_version) dep_c old_version
resolve-Required_example =
    resolve-Required by_length two_versions (root_ab old_version) 4 resolved_ab dep_c old_version
      chosen_c

All-known :
    (d : Dependency) (v : Bytes) (p : Option Project)
    → two_versions d v ≡ ok p
    → All (λ r. In r all_floors) (project_versions p)
All-known d v p = by_case (same_dep d dep_a) (eqb v old_version) (same_dep d dep_b)
  where
    by_case :
        (x y z : Bool)
        → fetch_by old_version new_version x y z ≡ ok p
        → All (λ r. In r all_floors) (project_versions p)
    by_case true true z h =
        subst (λ q. All (λ r. In r all_floors) (project_versions q)) (ok-injective h)
          (inr (inr (inl refl)), tt)
    by_case true false z h =
        subst (λ q. All (λ r. In r all_floors) (project_versions q)) (ok-injective h) tt
    by_case false y true h =
        subst (λ q. All (λ r. In r all_floors) (project_versions q)) (ok-injective h)
          (inr (inr (inr (inl refl))), tt)
    by_case false y false h =
        subst (λ q. All (λ r. In r all_floors) (project_versions q)) (ok-injective h) tt

resolve-ne-out_of_fuel_example :
    resolve by_length two_versions 4 (root_ab old_version) ≢ err out_of_fuel
resolve-ne-out_of_fuel_example =
    resolve-ne-out_of_fuel by_length by_length-IsSemver all_floors two_versions All-known 4
      (root_ab old_version) (inl refl, (inr (inl refl), tt)) (omega arith)

abbrev library : Dependency
library = record { url = bytes "x/l"; subdir = bytes "sub" }

abbrev tags : List Bytes
tags = bytes "sub/v1.0.0" ∷ bytes "sub/v1.0.10" ∷ bytes "v2.0.0" ∷ bytes "sub/v2.0.0" ∷ []

resolved : resolve_version by_length library (bytes "v1") tags ≡ ok new_version
unfolding resolve_version cut_prefix tag_prefix eqb
resolved = refl

resolve_version-IsBest_example :
    IsBest by_length by_length-IsSemver library tags (bytes "v1") new_version
resolve_version-IsBest_example =
    resolve_version-IsBest by_length by_length-IsSemver library tags (bytes "v1") resolved

old-tagged : is_tagged by_length library tags old_version ≡ true
unfolding tag mem eqb
old-tagged = refl

old-fits : fits by_length (bytes "v1") old_version ≡ true
unfolding cut_prefix eqb
old-fits = refl

asked : (is_latest (bytes "v1") || by_length.is_valid (bytes "v1")) ≡ true
unfolding eqb
asked = refl

resolve_version-found_example :
    (v : Bytes) × (resolve_version by_length library (bytes "v1") tags ≡ ok v)
resolve_version-found_example =
    resolve_version-found by_length by_length-IsSemver library tags (bytes "v1") old_version asked
      old-tagged old-fits

abbrev repo : Dependency
repo = record { url = bytes "x/l"; subdir = [] }

abbrev app_package : Dependency
app_package = record { url = bytes "x/l"; subdir = bytes "sub/app" }

two_orders : (d : Dependency) → has_dep d (repo ∷ library ∷ []) ≡ has_dep d (library ∷ repo ∷ [])
unfolding has_dep
two_orders d = ground arith

most_specific_project-order_example :
    most_specific_project (repo ∷ library ∷ []) app_package
    ≡ most_specific_project (library ∷ repo ∷ []) app_package
most_specific_project-order_example =
    most_specific_project-order app_package (repo ∷ library ∷ []) (library ∷ repo ∷ []) two_orders

abbrev replaced : List (Dependency × Bytes)
replaced = (repo, bytes "../l") ∷ (library, bytes "../l/sub") ∷ []

replacement_for-project_example :
    dep_of (replacement_for replaced app_package)
    ≡ project_of (most_specific_project (project_ids replaced) app_package)
replacement_for-project_example = replacement_for-project replaced app_package

library-slashes : (contains_slash library.url ≡ true) × (has_no_cut library.url ≡ true)
unfolding contains_slash has_no_cut
library-slashes = (refl, refl)

parse_dependency-dependency_text_example : parse_dependency (dependency_text library) ≡ ok library
parse_dependency-dependency_text_example =
    parse_dependency-dependency_text library library-slashes.0 library-slashes.1 refl
