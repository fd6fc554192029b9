-- ===== src/Deps/Resolve/Enqueue.antt =====
-- What `enqueue` of pkg/deps/resolve.go does to the selection and the queue.
use unobin.Base.{
  Bool, true, false, ◌||◌, ◌≡◌, ◌⊎◌, inl, inr, refl, sym, ap, subst, ◌∙◌, Option, none, some, List,
  [], ◌∷◌, ◌++◌, All, Bytes, Result, ok, err, ok-injective, arith, Bool-cases,
}
use unobin.Deps.Semver.{Sign, lower, equal, higher, flip, not_higher, Semver, IsSemver}
use unobin.Deps.Dependency.{Dependency, same_dep, same_dep_iff, same_dep_self, put, has_dep}
use unobin.Deps.Selection.{Selection, is_met, add}
use unobin.Deps.Resolve.{Project, ResolveError, fetch_error, enqueue, fetch_project}

pub has_dep-append :
    (a : Dependency) (xs ys : List Dependency)
    → has_dep a (xs ++ ys) ≡ (has_dep a xs || has_dep a ys)
unfolding has_dep
has_dep-append a [] ys = refl
has_dep-append a (x ∷ xs) ys = ground (arith, has_dep-append a xs ys)

module _ (sv : Semver) where
  -- A version that is chosen for the dependency is at least the floor.
  abbrev pub AtLeast : Option Bytes → Bytes → Type 0
  AtLeast none floor = ◌≡◌ {A = Bool} false true
  AtLeast (some v) floor = not_higher (sv.compare floor v) ≡ true

  abbrev pub Meets : Selection → Dependency × Bytes → Type 0
  Meets s r = AtLeast (s r.0) r.1

  module _ (laws : IsSemver sv) where
    pub compare_self : (v : Bytes) → not_higher (sv.compare v v) ≡ true
    compare_self v = same_sign (sv.compare v v) (laws.compare_flip v v)
      where
        same_sign : (x : Sign) → x ≡ flip x → not_higher x ≡ true
        same_sign lower h = cc
        same_sign equal h = refl
        same_sign higher h = cc

    pub flipped :
        (a b : Bytes) → not_higher (sv.compare a b) ≡ false → not_higher (sv.compare b a) ≡ true
    flipped a b h =
        subst (λ x. not_higher x ≡ true) (sym (laws.compare_flip a b)) (lowered (sv.compare a b) h)
      where
        lowered : (x : Sign) → not_higher x ≡ false → not_higher (flip x) ≡ true
        lowered lower h = cc
        lowered equal h = cc
        lowered higher h = refl

    -- The second choice is at least the first.
    abbrev pub Grows : Selection → Selection → Type 0
    Grows s t = (d : Dependency) (floor : Bytes) → AtLeast (s d) floor → AtLeast (t d) floor

    pub AtLeast-raised :
        (o : Option Bytes) (floor floor' : Bytes)
        → is_met sv o floor ≡ false
        → AtLeast o floor'
        → AtLeast (some floor) floor'
    AtLeast-raised none floor floor' n h = cc
    AtLeast-raised (some v) floor floor' n h =
        laws.compare_trans floor' v floor h (flipped floor v n)

    pub add-Grows : (s : Selection) (d : Dependency) (floor : Bytes) → Grows s (add sv s d floor).0
    unfolding add
    add-Grows s d floor d' floor' h = elim (Bool-cases (is_met sv (s d) floor)) [
      | inl met ↦ rw met h
      | inr new ↦ rw new (elim (Bool-cases (same_dep d d')) [
        | inl same ↦ rw same (
            AtLeast-raised (s d) floor floor' new
              (subst (λ x. AtLeast (s x) floor') (sym ((same_dep_iff d d').0 same)) h))
        | inr other ↦ rw other h
      ])
    ]

    pub met_AtLeast :
        (o : Option Bytes) (floor : Bytes) → is_met sv o floor ≡ true → AtLeast o floor
    met_AtLeast none floor h = h
    met_AtLeast (some v) floor h = h

    add-Meets :
        (s : Selection) (d : Dependency) (floor : Bytes) → Meets (add sv s d floor).0 (d, floor)
    unfolding add
    add-Meets s d floor = elim (Bool-cases (is_met sv (s d) floor)) [
      | inl met ↦ rw met (met_AtLeast (s d) floor met)
      | inr new ↦ rw (new, same_dep_self d) (compare_self floor)
    ]

    pub enqueue-Grows :
        (s : Selection) (rs : List (Dependency × Bytes)) → Grows s (enqueue sv s rs).0
    unfolding enqueue
    enqueue-Grows s [] d floor h = h
    enqueue-Grows s (r ∷ rs) d floor h =
        enqueue-Grows (add sv s r.0 r.1).0 rs d floor (add-Grows s r.0 r.1 d floor h)

    pub enqueue-Meets :
        (s : Selection) (rs : List (Dependency × Bytes)) → All (Meets (enqueue sv s rs).0) rs
    unfolding enqueue
    enqueue-Meets s [] = tt
    enqueue-Meets s (r ∷ rs) =
        let added = (add sv s r.0 r.1).0 in
        (enqueue-Grows added rs r.0 r.1 (add-Meets s r.0 r.1), enqueue-Meets added rs)

    -- A dependency whose version changes goes on the queue.
    pub enqueue-pushed :
        (s : Selection) (rs : List (Dependency × Bytes)) (d : Dependency)
        → ((enqueue sv s rs).0 d ≡ s d) ⊎ (has_dep d (enqueue sv s rs).1 ≡ true)
    unfolding enqueue add has_dep
    enqueue-pushed s [] d = inl refl
    enqueue-pushed s (r ∷ rs) d = elim (Bool-cases (is_met sv (s r.0) r.1)) [
      | inl met ↦ rw met (enqueue-pushed s rs d)
      | inr new ↦ rw new (elim (enqueue-pushed (put s r.0 (some r.1)) rs d) [
        | inl same ↦ elim (Bool-cases (same_dep r.0 d)) [
          | inl here ↦ inr (rw here refl)
          | inr other ↦ inl (same ∙ rw other refl)
        ]
        | inr later ↦ inr (ground (arith, later))
      ])
    ]

    pub All-Meets-Grows :
        (s t : Selection) (rs : List (Dependency × Bytes))
        → Grows s t
        → All (Meets s) rs
        → All (Meets t) rs
    All-Meets-Grows s t [] g hs = tt
    All-Meets-Grows s t (r ∷ rs) g (h, hs) = (g r.0 r.1 h, All-Meets-Grows s t rs g hs)

module _ {ℓ} (sv : Semver) {E : Type ℓ}
    (fetch : Dependency → Bytes → Result E (Option Project)) where
  pub fetch_project-eq-ok :
      (d : Dependency) (v : Bytes) {p : Option Project}
      → fetch_project sv fetch d v ≡ ok p
      → fetch d v ≡ ok p
  fetch_project-eq-ok d v h = inverted (fetch d v) h
    where
      inverted :
          (r : Result E (Option Project)) {p : Option Project}
          → ◌≡◌ {A = Result (ResolveError E) (Option Project)}
              (elim r [ ok p ↦ ok p | err e ↦ err (fetch_error d v e) ])
              (ok p)
          → r ≡ ok p
      inverted (ok p) h = ap ok (ok-injective h)
      inverted (err e) h = cc
