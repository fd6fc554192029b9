-- ===== src/Deps/Resolve/Required.antt =====
-- Where the selected versions of `Resolve` in pkg/deps/resolve.go come from.
use unobin.Base.{
  ℕ, zero, suc, ◌≡◌, inl, inr, refl, sym, ap, subst, ◌∙◌, Option, some, List, [], ◌∷◌, ◌++◌, All,
  All-append, if_cases, Bytes, eqb, Result, ok, bind-eq-ok, ok-injective, Bool-cases,
}
use unobin.Deps.Semver.{Semver}
use unobin.Deps.Dependency.{Dependency, same_dep, same_dep_iff, same_dep_self, put}
use unobin.Deps.Selection.{Selection, new_selection, is_met, add, version}
use unobin.Deps.Resolve.{
  Project, require_versions, project_versions, Walk, enqueue, fetch_project, visit, walk, resolve,
}
use unobin.Deps.Resolve.Enqueue.{fetch_project-eq-ok}
use unobin.Deps.Resolve.Rounds.{In}

module _ {ℓ} (sv : Semver) {E : Type ℓ} (fetch : Dependency → Bytes → Result E (Option Project))
    (root : Project) where
  -- The root requires the version of the dependency, or a project at a required version does.
  pub data Required : Dependency → Bytes → Type ℓ where
    by_root : {d : Dependency} {v : Bytes} → In (d, v) (require_versions root) → Required d v
    by_project :
        {d d' : Dependency} {v v' : Bytes} {p : Option Project}
        → Required d v
        → fetch d v ≡ ok p
        → In (d', v') (project_versions p)
        → Required d' v'

  AllRequired : Selection → Type ℓ
  AllRequired s = (d : Dependency) (v : Bytes) → s d ≡ some v → Required d v

  abbrev IsChosen : Selection → Dependency → Type 0
  IsChosen s d = (v : Bytes) × (s d ≡ some v)

  add-IsChosen :
      (s : Selection) (d d' : Dependency) (v : Bytes) → IsChosen s d' → IsChosen (add sv s d v).0 d'
  unfolding add
  add-IsChosen s d d' v h = elim (Bool-cases (is_met sv (s d) v)) [
    | inl met ↦ rw met h
    | inr new ↦ rw new (elim (Bool-cases (same_dep d d')) [
      | inl same ↦ rw same (v, refl)
      | inr other ↦ rw other h
    ])
  ]

  enqueue-IsChosen :
      (s : Selection) (rs : List (Dependency × Bytes)) (d : Dependency)
      → IsChosen s d
      → IsChosen (enqueue sv s rs).0 d
  unfolding enqueue
  enqueue-IsChosen s [] d h = h
  enqueue-IsChosen s (r ∷ rs) d h =
      enqueue-IsChosen (add sv s r.0 r.1).0 rs d (add-IsChosen s r.0 d r.1 h)

  enqueue-pushed-IsChosen :
      (s : Selection) (rs : List (Dependency × Bytes))
      → All (IsChosen (enqueue sv s rs).0) (enqueue sv s rs).1
  unfolding enqueue add
  enqueue-pushed-IsChosen s [] = tt
  enqueue-pushed-IsChosen s (r ∷ rs) = elim (Bool-cases (is_met sv (s r.0) r.1)) [
    | inl met ↦ rw met (enqueue-pushed-IsChosen s rs)
    | inr new ↦ rw new (
      enqueue-IsChosen (put s r.0 (some r.1)) rs r.0 (r.1, rw (same_dep_self r.0) refl),
      enqueue-pushed-IsChosen (put s r.0 (some r.1)) rs,
    )
  ]

  enqueue-AllRequired :
      (s : Selection) (rs : List (Dependency × Bytes))
      → ((d : Dependency) (v : Bytes) → In (d, v) rs → Required d v)
      → AllRequired s
      → AllRequired (enqueue sv s rs).0
  unfolding enqueue add AllRequired
  enqueue-AllRequired s [] k h d v c = h d v c
  enqueue-AllRequired s (r ∷ rs) k h d v c = elim (Bool-cases (is_met sv (s r.0) r.1)) [
    | inl met ↦ enqueue-AllRequired s rs later h d v (rw met at c)
    | inr new ↦ enqueue-AllRequired (put s r.0 (some r.1)) rs later raised d v (rw new at c)
  ]
    where
      later : (d : Dependency) (v : Bytes) → In (d, v) rs → Required d v
      later d v i = k d v (inr i)

      raised : AllRequired (put s r.0 (some r.1))
      raised d v c = elim (Bool-cases (same_dep r.0 d)) [
        | inl same ↦
            k d v (inl (pair (sym ((same_dep_iff r.0 d).0 same)) (sym (cc (rw same at c)))))
        | inr other ↦ h d v (rw other at c)
      ]
        where
          pair : d ≡ r.0 → v ≡ r.1 → ◌≡◌ {A = Dependency × Bytes} (d, v) r
          pair a b = cc

  All-IsChosen-enqueue :
      (s : Selection) (rs : List (Dependency × Bytes)) (ds : List Dependency)
      → All (IsChosen s) ds
      → All (IsChosen (enqueue sv s rs).0) ds
  All-IsChosen-enqueue s rs [] hs = tt
  All-IsChosen-enqueue s rs (d ∷ ds) (h, hs) =
      (enqueue-IsChosen s rs d h, All-IsChosen-enqueue s rs ds hs)

  abbrev IsTraced : List Dependency → Walk → Type ℓ
  IsTraced queue w = All (IsChosen w.chosen) queue × AllRequired w.chosen

  visit-IsTraced :
      (w : Walk) (dep : Dependency) (queue : List Dependency) {w' : Walk}
      → visit sv fetch w dep ≡ ok w'
      → IsTraced (dep ∷ queue) w
      → IsTraced (queue ++ w'.pushed) w'
  unfolding visit AllRequired
  visit-IsTraced w dep queue h ((chosen, rest), required) =
      elim (if_cases (eqb (w.fetched_at dep) (version w.chosen dep)) h) [
        | inl (done, same) ↦
            subst (λ x. IsTraced (queue ++ x.pushed) x) (ok-injective same)
              (All-append (IsChosen w.chosen) queue [] rest tt, required)
        | inr (_, h₁) ↦
            let (p, got, h₂) =
              bind-eq-ok (fetch_project sv fetch dep (version w.chosen dep)) _ h₁ in
            let at : version w.chosen dep ≡ chosen.0 = rw chosen.1 refl in
            let fetched =
              sym (ap (fetch dep) at)
              ∙ fetch_project-eq-ok sv fetch dep (version w.chosen dep) got in
            let reqs : List (Dependency × Bytes) = project_versions p in
            subst (λ x. IsTraced (queue ++ x.pushed) x) (ok-injective h₂)
              (
                All-append (IsChosen (enqueue sv w.chosen reqs).0) queue _
                    (All-IsChosen-enqueue w.chosen reqs queue rest)
                    (enqueue-pushed-IsChosen w.chosen reqs),
                enqueue-AllRequired w.chosen reqs
                    (λ d v i. by_project (required dep chosen.0 chosen.1) fetched i) required,
              )
      ]

  walk-AllRequired :
      (n : ℕ) (queue : List Dependency) (w : Walk) {s : Selection}
      → walk sv fetch n queue w ≡ ok s
      → IsTraced queue w
      → AllRequired s
  unfolding walk
  walk-AllRequired n [] w h t = subst AllRequired (ok-injective h) t.1
  walk-AllRequired zero (dep ∷ queue) w h t = cc
  walk-AllRequired (suc n) (dep ∷ queue) w h t =
      let (w', seen, h₁) = bind-eq-ok (visit sv fetch w dep) _ h in
      walk-AllRequired n (queue ++ w'.pushed) w' h₁ (visit-IsTraced w dep queue seen t)

  -- If `Resolve` returns a selection, each version in it is one that the root requires, or that a
  -- project requires which is fetched at a version that is required itself.
  pub resolve-Required :
      (fuel : ℕ) {s : Selection}
      → resolve sv fetch fuel root ≡ ok s
      → (d : Dependency) (v : Bytes) → s d ≡ some v
      → Required d v
  unfolding resolve AllRequired
  resolve-Required fuel h = walk-AllRequired fuel _ _ h (
    enqueue-pushed-IsChosen new_selection (require_versions root),
    enqueue-AllRequired new_selection (require_versions root) (λ d v i. by_root i) (λ d v c. cc),
  )
