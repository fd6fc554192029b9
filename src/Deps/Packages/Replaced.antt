-- ===== src/Deps/Packages/Replaced.antt =====
-- `ReplacementFor` of pkg/deps/dependency.go against `MostSpecificProject` of
-- pkg/deps/project_package.go.
use unobin.Base.{
  Bool, true, false, not, ◌≡◌, refl, ap, ◌∙◌, ◌⊎◌, inl, inr, Option, none, some, List, [], ◌∷◌,
  ◌++◌, if◌then◌else◌, is_empty, Bytes, bytes, eqb, Bool-cases,
}
use unobin.Deps.Dependency.{Dependency}
use unobin.Deps.Versions.{cut_prefix}
use unobin.Deps.Packages.{
  project_contains, PackageOwner, is_longer, project_of, better_owner, most_specific_from,
  most_specific_project, Replacement, below_subdir, replacement_match, dep_of, better_replacement,
  replacement_from, replacement_for, project_ids,
}

-- Neither matches, or both do, and the replacement is of the project.
abbrev Agree : Dependency → Option Replacement → Option Bytes → Type 0
Agree d r s =
    ((r ≡ none) × (s ≡ none))
    ⊎ ((m : Replacement) × (x : Bytes) × (r ≡ some m) × (m.dep ≡ d) × (s ≡ some x))

better-Agree :
    (best : Option Replacement) (owner : Option PackageOwner) (d : Dependency)
    (r : Option Replacement) (s : Option Bytes)
    → dep_of best ≡ project_of owner
    → Agree d r s
    → dep_of (better_replacement best d r) ≡ project_of (better_owner owner d s)
better-Agree best owner d r s h (inl (no_r, no_s)) = rw (no_r, no_s) h
better-Agree best owner d r s h (inr (m, x, is_r, of_d, is_s)) =
    rw (is_r, is_s, h)
      (elim (Bool-cases (is_longer (project_of owner) d)) [
        | inl more ↦ rw more (ap some of_d)
        | inr less ↦ rw less h
      ])

below_subdir-Agree :
    (d : Dependency) (path : Bytes) (c : Option Bytes) → Agree d (below_subdir d path c) c
below_subdir-Agree d path none = inl (refl, refl)
below_subdir-Agree d path (some s) =
    inr (record { dep = d; path = path; suffix = s; exact = true }, s, refl, refl, refl)

project_contains-Agree :
    (d : Dependency) (path : Bytes) (dep : Dependency)
    → Agree d
        (if not (eqb d.url dep.url) then none else replacement_match d path dep)
        (project_contains d dep)
unfolding project_contains replacement_match
project_contains-Agree d path dep = elim (Bool-cases (eqb d.url dep.url)) [
  | inr other ↦ rw other (inl (refl, refl))
  | inl same ↦ rw same (elim (Bool-cases (is_empty d.subdir)) [
    | inl root ↦ rw root (whole (is_empty dep.subdir))
    | inr below ↦ rw below (elim (Bool-cases (eqb dep.subdir d.subdir)) [
      | inl at ↦ rw at (
          inr (
            record { dep = d; path = path; suffix = []; exact = true },
            bytes ".",
            refl,
            refl,
            refl,
          ))
      | inr off ↦ rw off (below_subdir-Agree d path (cut_prefix dep.subdir (d.subdir ++ bytes "/")))
    ])
  ])
]
  where
    whole :
        (b : Bool)
        → Agree d
            (some (record { dep = d; path = path; suffix = dep.subdir; exact = false }))
            (if b then some (bytes ".") else some dep.subdir)
    whole true = inr (
      record { dep = d; path = path; suffix = dep.subdir; exact = false },
      bytes ".",
      refl,
      refl,
      refl,
    )
    whole false = inr (
      record { dep = d; path = path; suffix = dep.subdir; exact = false },
      dep.subdir,
      refl,
      refl,
      refl,
    )

replacement_from-dep :
    (rs : List (Dependency × Bytes)) (best : Option Replacement) (owner : Option PackageOwner)
    (dep : Dependency)
    → dep_of best ≡ project_of owner
    → dep_of (replacement_from best rs dep)
      ≡ project_of (most_specific_from owner (project_ids rs) dep)
unfolding replacement_from most_specific_from
replacement_from-dep [] best owner dep h = h
replacement_from-dep (r ∷ rs) best owner dep h = replacement_from-dep rs _ _ dep (
    ap dep_of (guarded (eqb r.0.url dep.url))
    ∙ better-Agree best owner r.0 _ _ h (project_contains-Agree r.0 r.1 dep))
  where
    guarded :
        (b : Bool)
        → (if not b then best else better_replacement best r.0 (replacement_match r.0 r.1 dep))
          ≡ better_replacement best r.0 (if not b then none else replacement_match r.0 r.1 dep)
    guarded true = refl
    guarded false = refl

-- For the replaced dependencies in one order, the replacement that `ReplacementFor` chooses is of the
-- project that `MostSpecificProject` chooses, and there is one where there is the other.
pub replacement_for-project :
    (replace : List (Dependency × Bytes)) (dep : Dependency)
    → dep_of (replacement_for replace dep)
      ≡ project_of (most_specific_project (project_ids replace) dep)
unfolding replacement_for most_specific_project
replacement_for-project replace dep = replacement_from-dep replace none none dep refl
