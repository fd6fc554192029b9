-- ===== src/Deps/Packages/Owner.antt =====
-- The owner of a package: `MostSpecificProject` of pkg/deps/project_package.go.
use unobin.Base.{
  ℕ, ◌≤◌, Bool, true, false, ◌≡◌, ◌⊎◌, inl, inr, refl, sym, ap, ap₂, subst, ◌∙◌, Option, none, some,
  List, [], ◌∷◌, length, ltb, Bytes, arith, Bool-cases, false≢true,
}
use unobin.Deps.Dependency.{Dependency, same_dep, same_dep_iff, same_dep_self, has_dep}
use unobin.Deps.Packages.{
  project_contains, PackageOwner, is_longer, project_of, better_owner, most_specific_from,
  most_specific_project,
}
use unobin.Deps.Packages.Contains.{project_contains_unique}

-- There is an owner, and its subdir is at least that long.
abbrev AtLen : ℕ → Option PackageOwner → Type 0
AtLen n none = ◌≡◌ {A = Bool} false true
AtLen n (some o) = n ≤ length o.project.subdir

better_owner-AtLen :
    (n : ℕ) (best : Option PackageOwner) (p : Dependency) (c : Option Bytes)
    → AtLen n best
    → AtLen n (better_owner best p c)
better_owner-AtLen n none p none h = h
better_owner-AtLen n none p (some s) h = cc
better_owner-AtLen n (some b) p none h = h
better_owner-AtLen n (some b) p (some s) h =
    elim (Bool-cases (ltb (length b.project.subdir) (length p.subdir))) [
      | inl more ↦ rw more (ground arith)
      | inr less ↦ rw less h
    ]

better_owner-offered :
    (best : Option PackageOwner) (p : Dependency) (s : Bytes)
    → AtLen (length p.subdir) (better_owner best p (some s))
better_owner-offered none p s = omega arith
better_owner-offered (some b) p s =
    elim (Bool-cases (ltb (length b.project.subdir) (length p.subdir))) [
      | inl more ↦ rw more (omega arith)
      | inr less ↦ rw less (ground arith)
    ]

module _ (pkg : Dependency) where
  -- An owner among the projects.
  abbrev IsOwner : List Dependency → Option PackageOwner → Type 0
  IsOwner ps out =
      (o : PackageOwner) × (out ≡ some o)
      × (has_dep o.project ps ≡ true)
      × (project_contains o.project pkg ≡ some o.package_subdir)

  better_owner-cases :
      (best : Option PackageOwner) (p : Dependency) (c : Option Bytes)
      → (better_owner best p c ≡ best)
        ⊎ ((s : Bytes) × (c ≡ some s)
            × (better_owner best p c ≡ some (record { project = p; package_subdir = s })))
  better_owner-cases best p none = inl refl
  better_owner-cases best p (some s) = elim (Bool-cases (is_longer (project_of best) p)) [
    | inl more ↦ inr (s, refl, rw more refl)
    | inr less ↦ inl (rw less refl)
  ]

  record IsMost (best : Option PackageOwner) (ps : List Dependency) (out : Option PackageOwner)
      : Type 0 where
    from_one : (out ≡ best) ⊎ IsOwner ps out
    over_best : (n : ℕ) → AtLen n best → AtLen n out
    over_all :
        (p : Dependency)
        → has_dep p ps ≡ true
        → (s : Bytes) → project_contains p pkg ≡ some s
        → AtLen (length p.subdir) out

  most_specific_from-IsMost :
      (best : Option PackageOwner) (ps : List Dependency)
      → IsMost best ps (most_specific_from best ps pkg)
  unfolding most_specific_from has_dep
  most_specific_from-IsMost best [] = record {
    from_one = inl refl;
    over_best = λ n h. h;
    over_all = λ p h s c. cc;
  }
  most_specific_from-IsMost best (p ∷ ps) =
      let better = better_owner best p (project_contains p pkg) in
      let rest = most_specific_from-IsMost better ps in
      let out = most_specific_from better ps pkg in
      record {
        from_one = elim rest.from_one [
          | inr (o, is, old, c) ↦ inr (o, is, ground (arith, old), c)
          | inl same ↦ elim (better_owner-cases best p (project_contains p pkg)) [
            | inl kept ↦ inl (same ∙ kept)
            | inr (s, c, taken) ↦ inr (
              record { project = p; package_subdir = s },
              same ∙ taken,
              rw (same_dep_self p) refl,
              c,
            )
          ]
        ];
        over_best =
            λ n h. rest.over_best n (better_owner-AtLen n best p (project_contains p pkg) h);
        over_all = λ q h s c. elim (Bool-cases (same_dep p q)) [
          | inl here ↦
              subst (λ x. AtLen (length x.subdir) out) ((same_dep_iff p q).0 here)
                (rest.over_best (length p.subdir) (
                  subst (λ o. AtLen (length p.subdir) (better_owner best p o))
                    (sym (ap (λ x. project_contains x pkg) ((same_dep_iff p q).0 here) ∙ c))
                    (better_owner-offered best p s)))
          | inr other ↦ rest.over_all q (rw other at h) s c
        ];
      }

  absent : (n : ℕ) {out : Option PackageOwner} → out ≡ none → AtLen n out → false ≡ true
  absent n e h = subst (AtLen n) e h

  IsMost-unique :
      (ps qs : List Dependency) {out out' : Option PackageOwner}
      → ((d : Dependency) → has_dep d ps ≡ has_dep d qs)
      → IsMost none ps out
      → IsMost none qs out'
      → out ≡ out'
  IsMost-unique ps qs same a b = elim a.from_one [
    | inl no_p ↦ elim b.from_one [
      | inl no_q ↦ no_p ∙ sym no_q
      | inr (o, is, old, c) ↦
          let bad : false ≡ true =
            absent (length o.project.subdir) no_p
              (a.over_all o.project (same o.project ∙ old) o.package_subdir c) in
          absurd (false≢true bad)
    ]
    | inr (o, is, old, c) ↦ elim b.from_one [
      | inl no_q ↦
          let bad : false ≡ true =
            absent (length o.project.subdir) no_q
              (b.over_all o.project (sym (same o.project) ∙ old) o.package_subdir c) in
          absurd (false≢true bad)
      | inr (o', is', old', c') ↦
          let le : length o.project.subdir ≤ length o'.project.subdir =
            subst (AtLen (length o.project.subdir)) is'
              (b.over_all o.project (sym (same o.project) ∙ old) o.package_subdir c) in
          let ge : length o'.project.subdir ≤ length o.project.subdir =
            subst (AtLen (length o'.project.subdir)) is
              (a.over_all o'.project (same o'.project ∙ old') o'.package_subdir c') in
          let eq = project_contains_unique o.project o'.project pkg c c' (omega arith) in
          let path = some-injective (sym c ∙ ap (λ x. project_contains x pkg) eq ∙ c') in
          is ∙ ap₂ (λ x y. some (record { project = x; package_subdir = y })) eq path ∙ sym is'
    ]
  ]
    where
      some-injective : {x y : Bytes} → ◌≡◌ {A = Option Bytes} (some x) (some y) → x ≡ y
      some-injective e = cc

  -- Two lists of the same projects, in whatever order, have the same most specific project for a
  -- package, and the package the same path inside it.
  pub most_specific_project-order :
      (ps qs : List Dependency)
      → ((d : Dependency) → has_dep d ps ≡ has_dep d qs)
      → most_specific_project ps pkg ≡ most_specific_project qs pkg
  unfolding most_specific_project
  most_specific_project-order ps qs same =
      IsMost-unique ps qs same (most_specific_from-IsMost none ps)
        (most_specific_from-IsMost none qs)
