-- ===== src/Deps/Resolve/Rounds.antt =====
-- The rounds of the loop of `Resolve` in pkg/deps/resolve.go.
use unobin.Base.{
  ℕ, zero, suc, ◌+◌, ◌≤◌, Bool, true, false, ◌≡◌, ◌≢◌, ◌⊎◌, inl, inr, refl, ap, subst, Option, none,
  some, List, [], ◌∷◌, ◌++◌, All, length, length-append, if◌then◌else◌, Bytes, eqb, Result, ok, err,
  ◌>>=◌, ok-injective, err-injective, arith, Bool-cases,
}
use unobin.Deps.Semver.{Semver, IsSemver}
use unobin.Deps.Dependency.{Dependency, same_dep_self, put}
use unobin.Deps.Selection.{Selection, new_selection, is_met, add, version}
use unobin.Deps.Resolve.{
  Project, require_versions, project_versions, ResolveError, fetch_error, out_of_fuel, Walk,
  enqueue, visited, visit, walk, resolve,
}
use unobin.Deps.Resolve.Enqueue.{AtLeast, Grows, met_AtLeast, compare_self, add-Grows}

abbrev pub In : Dependency × Bytes → List (Dependency × Bytes) → Type 0
In r [] = ◌≡◌ {A = Bool} false true
In r (x ∷ xs) = (r ≡ x) ⊎ In r xs

module _ (sv : Semver) where
  -- How many of the requirements the selection does not meet.
  unfoldable pub unmet : Selection → List (Dependency × Bytes) → ℕ
  unmet s [] = 0
  unmet s (r ∷ rs) = (if is_met sv (s r.0) r.1 then 0 else 1) + unmet s rs

  module _ (laws : IsSemver sv) where
    AtLeast-met : (o : Option Bytes) (floor : Bytes) → AtLeast sv o floor → is_met sv o floor ≡ true
    AtLeast-met none floor h = h
    AtLeast-met (some v) floor h = h

    Grows-met :
        (s t : Selection) (r : Dependency × Bytes)
        → Grows sv laws s t
        → is_met sv (s r.0) r.1 ≡ true
        → is_met sv (t r.0) r.1 ≡ true
    Grows-met s t r g h = AtLeast-met (t r.0) r.1 (g r.0 r.1 (met_AtLeast sv laws (s r.0) r.1 h))

    unmet-Grows :
        (s t : Selection) (rs : List (Dependency × Bytes))
        → Grows sv laws s t
        → unmet t rs ≤ unmet s rs
    unfolding unmet
    unmet-Grows s t [] g = omega arith
    unmet-Grows s t (r ∷ rs) g = elim (Bool-cases (is_met sv (s r.0) r.1)) [
      | inl met ↦ rw (met, Grows-met s t r g met) (omega (arith, unmet-Grows s t rs g))
      | inr new ↦ rw new (ground (arith, unmet-Grows s t rs g))
    ]

    unmet-less :
        (s t : Selection) (r : Dependency × Bytes) (rs : List (Dependency × Bytes))
        → Grows sv laws s t
        → is_met sv (s r.0) r.1 ≡ false
        → is_met sv (t r.0) r.1 ≡ true
        → In r rs
        → suc (unmet t rs) ≤ unmet s rs
    unfolding unmet
    unmet-less s t r [] g new met h = cc
    unmet-less s t r (x ∷ rs) g new met (inl h) =
        let rest = unmet-Grows s t rs g in rw (← h, new, met) (omega (arith, rest))
    unmet-less s t r (x ∷ rs) g new met (inr h) = elim (Bool-cases (is_met sv (s x.0) x.1)) [
      | inl old ↦ rw (old, Grows-met s t x g old) (omega (arith, unmet-less s t r rs g new met h))
      | inr other ↦ rw other (ground (arith, unmet-less s t r rs g new met h))
    ]

    unmet-new : (rs : List (Dependency × Bytes)) → unmet new_selection rs ≡ length rs
    unfolding unmet
    unmet-new [] = refl
    unmet-new (r ∷ rs) = omega (arith, unmet-new rs)

    module _ (all : List (Dependency × Bytes)) where
      enqueue-unmet :
          (s : Selection) (rs : List (Dependency × Bytes))
          → All (λ r. In r all) rs
          → length (enqueue sv s rs).1 + unmet (enqueue sv s rs).0 all ≤ unmet s all
      unfolding enqueue add
      enqueue-unmet s [] h = omega arith
      enqueue-unmet s (r ∷ rs) (h₁, hs) = elim (Bool-cases (is_met sv (s r.0) r.1)) [
        | inl met ↦ rw met (enqueue-unmet s rs hs)
        | inr new ↦
            let raised = put s r.0 (some r.1) in
            let less : suc (unmet raised all) ≤ unmet s all =
              unmet-less s raised r all (grows new) new (reached new) h₁ in
            rw new (omega (arith, less, enqueue-unmet raised rs hs))
      ]
        where
          grows : is_met sv (s r.0) r.1 ≡ false → Grows sv laws s (put s r.0 (some r.1))
          grows new =
              subst
                (λ b.
                  Grows sv laws s
                    (if◌then◌else◌ {A = Selection × Bool} b (s, false)
                      (put s r.0 (some r.1), true)).0)
                new (add-Grows sv laws s r.0 r.1)

          reached : is_met sv (s r.0) r.1 ≡ false → is_met sv (put s r.0 (some r.1) r.0) r.1 ≡ true
          reached new = rw (same_dep_self r.0) (compare_self sv laws r.1)

      module _ {ℓ} {E : Type ℓ} (fetch : Dependency → Bytes → Result E (Option Project))
          (known : (d : Dependency) (v : Bytes) (p : Option Project)
            → fetch d v ≡ ok p
            → All (λ r. In r all) (project_versions p)) where
        -- A round ends in an error of `Fetch`, or it leaves less to do.
        visit-less :
            (w : Walk) (dep : Dependency)
            → visit sv fetch w dep ≢ err out_of_fuel
              × ((w' : Walk)
                  → visit sv fetch w dep ≡ ok w'
                  → length w'.pushed + unmet w'.chosen all ≤ unmet w.chosen all)
        unfolding visit
        visit-less w dep = elim (Bool-cases (eqb (w.fetched_at dep) (version w.chosen dep))) [
          | inl done ↦ rw done (
            (λ h. cc),
            λ w' h.
                subst (λ x. length x.pushed + unmet x.chosen all ≤ unmet w.chosen all)
                  (ok-injective h) (omega arith),
          )
          | inr new ↦
              rw new (after (fetch dep (version w.chosen dep)) (known dep (version w.chosen dep)))
        ]
          where
            after :
                (m : Result E (Option Project))
                → ((p : Option Project) → m ≡ ok p → All (λ r. In r all) (project_versions p))
                → (elim m [ ok p ↦ ok p | err e ↦ err (fetch_error dep (version w.chosen dep) e) ]
                      >>= λ p. ok (visited sv fetch w dep p))
                    ≢ err out_of_fuel
                  × ((w' : Walk)
                      → (elim m [
                        | ok p ↦ ok p
                        | err e ↦ err (fetch_error dep (version w.chosen dep) e)
                      ]
                          >>= λ p. ok (visited sv fetch w dep p))
                        ≡ ok w'
                      → length w'.pushed + unmet w'.chosen all ≤ unmet w.chosen all)
            after (err e) k = ((λ h. cc), λ w' h. cc)
            after (ok p) k = (
              (λ h. cc),
              λ w' h.
                  subst (λ x. length x.pushed + unmet x.chosen all ≤ unmet w.chosen all)
                    (ok-injective h) (enqueue-unmet w.chosen (project_versions p) (k p refl)),
            )

        walk-ne-out_of_fuel :
            (n : ℕ) (queue : List Dependency) (w : Walk)
            → length queue + unmet w.chosen all ≤ n
            → walk sv fetch n queue w ≢ err out_of_fuel
        unfolding walk
        walk-ne-out_of_fuel n [] w h e = cc
        walk-ne-out_of_fuel zero (dep ∷ queue) w h e = absurd (omega arith)
        walk-ne-out_of_fuel (suc n) (dep ∷ queue) w h e =
            let less = visit-less w dep in
            next (visit sv fetch w dep) less.0 less.1
              (λ w' le. walk-ne-out_of_fuel n (queue ++ w'.pushed) w' le) e
          where
            next :
                (m : Result (ResolveError E) Walk)
                → m ≢ err out_of_fuel
                → ((w' : Walk)
                    → m ≡ ok w'
                    → length w'.pushed + unmet w'.chosen all ≤ unmet w.chosen all)
                → ((w' : Walk)
                    → length (queue ++ w'.pushed) + unmet w'.chosen all ≤ n
                    → walk sv fetch n (queue ++ w'.pushed) w' ≢ err out_of_fuel)
                → (m >>= λ w'. walk sv fetch n (queue ++ w'.pushed) w') ≢ err out_of_fuel
            next (err x) k l again e = k (ap err (err-injective e))
            next (ok w') k l again e =
                again w' (omega (arith, h, l w' refl, length-append queue w'.pushed)) e

        -- If all requirements of the root and of every project that `Fetch` may return are in a list,
        -- `Resolve` ends within as many rounds as the list has entries.
        pub resolve-ne-out_of_fuel :
            (fuel : ℕ) (root : Project)
            → All (λ r. In r all) (require_versions root)
            → length all ≤ fuel
            → resolve sv fetch fuel root ≢ err out_of_fuel
        unfolding resolve
        resolve-ne-out_of_fuel fuel root h enough = walk-ne-out_of_fuel fuel _ _ (
            omega
              (arith, enough, enqueue-unmet new_selection (require_versions root) h, unmet-new all))
