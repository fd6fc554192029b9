-- ===== src/Deps/Resolve/Closed.antt =====
-- The invariant of the loop of `Resolve` in pkg/deps/resolve.go: what is fetched and what waits.
use unobin.Base.{
  ℕ, zero, suc, Bool, true, false, ◌||◌, ◌≡◌, ◌⊎◌, inl, inr, refl, sym, ap, subst, ◌∙◌, Option,
  some, List, [], ◌∷◌, ◌++◌, All, if_cases, is_empty, Bytes, eqb, eqb_iff, Result, ok, bind-eq-ok,
  ok-injective, arith, Bool-cases,
}
use unobin.Deps.Semver.{Semver, IsSemver}
use unobin.Deps.Dependency.{Dependency, same_dep, same_dep_iff, same_dep_self, put, has_dep}
use unobin.Deps.Selection.{Selection, new_selection, or_empty, version}
use unobin.Deps.Resolve.{
  Project, require_versions, project_versions, Walk, enqueue, fetch_project, visited, visit, walk,
  resolve,
}
use unobin.Deps.Resolve.Enqueue.{
  has_dep-append, Meets, Grows, enqueue-Grows, enqueue-Meets, enqueue-pushed, All-Meets-Grows,
  fetch_project-eq-ok,
}

module _ {ℓ} (sv : Semver) (laws : IsSemver sv) {E : Type ℓ}
    (fetch : Dependency → Bytes → Result E (Option Project)) where
  -- The dependency was fetched at the version, and the selection meets what its project requires.
  pub record IsRead (s : Selection) (d : Dependency) (v : Bytes) : Type ℓ where
    pub project : Option Project
    pub fetched : fetch d v ≡ ok project
    pub meets : All (Meets sv s) (project_versions project)

  IsRead-Grows :
      {s t : Selection} {d : Dependency} {v : Bytes}
      → Grows sv laws s t
      → IsRead s d v
      → IsRead t d v
  IsRead-Grows {s} {t} g h = record {
    project = h.project;
    fetched = h.fetched;
    meets = All-Meets-Grows sv laws s t (project_versions h.project) g h.meets;
  }

  -- Of the selected versions, those that are not fetched are on the queue.
  record Inv (queue : List Dependency) (s : Selection) (fetched_at : Dependency → Bytes)
      : Type ℓ where
    pending : (d : Dependency) → (has_dep d queue ≡ true) ⊎ (fetched_at d ≡ version s d)
    read : (d : Dependency) → is_empty (fetched_at d) ≡ false → IsRead s d (fetched_at d)

  visited-Inv :
      (w : Walk) (dep : Dependency) (queue : List Dependency) (p : Option Project)
      → fetch dep (version w.chosen dep) ≡ ok p
      → Inv (dep ∷ queue) w.chosen w.fetched_at
      → let w' = visited sv fetch w dep p in Inv (queue ++ w'.pushed) w'.chosen w'.fetched_at
  unfolding has_dep
  visited-Inv w dep queue p got inv = record {
    pending = λ d. elim (enqueue-pushed sv laws w.chosen (project_versions p) d) [
      | inr later ↦ inl (
          has_dep-append d queue (enqueue sv w.chosen (project_versions p)).1
          ∙ rw later (or_true (has_dep d queue)))
      | inl same ↦ elim (Bool-cases (same_dep dep d)) [
        | inl here ↦ inr (rw (here, same) (ap (version w.chosen) ((same_dep_iff dep d).0 here)))
        | inr other ↦ elim (inv.pending d) [
          | inl old ↦ inl (
              has_dep-append d queue (enqueue sv w.chosen (project_versions p)).1
              ∙ rw (in_tail d other old) refl)
          | inr done ↦ inr (rw (other, same) done)
        ]
      ]
    ];
    read = λ d filled. elim (Bool-cases (same_dep dep d)) [
      | inl here ↦
          subst
            (λ x.
              IsRead (enqueue sv w.chosen (project_versions p)).0 x
                (put w.fetched_at dep (version w.chosen dep) x))
            ((same_dep_iff dep d).0 here)
            (rw (same_dep_self dep) (record {
              project = p;
              fetched = got;
              meets = enqueue-Meets sv laws w.chosen (project_versions p);
            }))
      | inr other ↦
          subst (IsRead (enqueue sv w.chosen (project_versions p)).0 d) (sym (skip d other)) (
            IsRead-Grows (enqueue-Grows sv laws w.chosen (project_versions p))
              (inv.read d (ap is_empty (sym (skip d other)) ∙ filled)))
    ];
  }
    where
      or_true : (b : Bool) → (b || true) ≡ true
      or_true true = refl
      or_true false = refl

      in_tail :
          (d : Dependency)
          → same_dep dep d ≡ false
          → has_dep d (dep ∷ queue) ≡ true
          → has_dep d queue ≡ true
      in_tail d other h = ground arith

      skip :
          (d : Dependency)
          → same_dep dep d ≡ false
          → put w.fetched_at dep (version w.chosen dep) d ≡ w.fetched_at d
      skip d other = rw other refl

  visit-Inv :
      (w : Walk) (dep : Dependency) (queue : List Dependency) {w' : Walk}
      → visit sv fetch w dep ≡ ok w'
      → Inv (dep ∷ queue) w.chosen w.fetched_at
      → Grows sv laws w.chosen w'.chosen × Inv (queue ++ w'.pushed) w'.chosen w'.fetched_at
  unfolding visit has_dep
  visit-Inv w dep queue h inv = elim (if_cases (eqb (w.fetched_at dep) (version w.chosen dep)) h) [
    | inl (done, same) ↦
        subst (λ x. Grows sv laws w.chosen x.chosen × Inv (queue ++ x.pushed) x.chosen x.fetched_at)
          (ok-injective same)
          (
            λ d floor m. m,
            record {
              pending = λ d. elim (inv.pending d) [
                | inr read ↦ inr read
                | inl old ↦ elim (Bool-cases (same_dep dep d)) [
                  | inl here ↦ inr (
                      subst (λ x. w.fetched_at x ≡ version w.chosen x) ((same_dep_iff dep d).0 here)
                        ((eqb_iff _ _).0 done))
                  | inr other ↦ inl (has_dep-append d queue [] ∙ ground (arith, old))
                ]
              ];
              read = inv.read;
            },
          )
    | inr (_, h₁) ↦
        let (p, got, h₂) = bind-eq-ok (fetch_project sv fetch dep (version w.chosen dep)) _ h₁ in
        subst (λ x. Grows sv laws w.chosen x.chosen × Inv (queue ++ x.pushed) x.chosen x.fetched_at)
          (ok-injective h₂)
          (
            enqueue-Grows sv laws w.chosen (project_versions p),
            visited-Inv w dep queue p (fetch_project-eq-ok sv fetch dep (version w.chosen dep) got)
                inv,
          )
  ]

  -- The selection meets the requirements of every project that it selects.
  abbrev pub IsClosed : Selection → Type ℓ
  IsClosed s = (d : Dependency) (v : Bytes) → s d ≡ some v → is_empty v ≡ false → IsRead s d v

  walk-IsClosed :
      (n : ℕ) (queue : List Dependency) (w : Walk) {s : Selection}
      → walk sv fetch n queue w ≡ ok s
      → Inv queue w.chosen w.fetched_at
      → Grows sv laws w.chosen s × IsClosed s
  unfolding walk has_dep
  walk-IsClosed n [] w h inv =
      subst (λ s. Grows sv laws w.chosen s × IsClosed s) (ok-injective h)
        (λ d floor m. m, λ d v chosen filled. closed d v chosen filled (inv.pending d))
    where
      closed :
          (d : Dependency) (v : Bytes)
          → w.chosen d ≡ some v
          → is_empty v ≡ false
          → (has_dep d [] ≡ true) ⊎ (w.fetched_at d ≡ version w.chosen d)
          → IsRead w.chosen d v
      closed d v chosen filled (inl p) = cc
      closed d v chosen filled (inr done) =
          let at : w.fetched_at d ≡ v = done ∙ ap or_empty chosen in
          subst (IsRead w.chosen d) at (inv.read d (ap is_empty at ∙ filled))
  walk-IsClosed zero (dep ∷ queue) w h inv = cc
  walk-IsClosed (suc n) (dep ∷ queue) w h inv =
      let (w', seen, h₁) = bind-eq-ok (visit sv fetch w dep) _ h in
      let (grows, inv') = visit-Inv w dep queue seen inv in
      let (later, closed) = walk-IsClosed n (queue ++ w'.pushed) w' h₁ inv' in
      (λ d floor m. later d floor (grows d floor m), closed)

  -- If versions are ordered and `Resolve` returns a selection, the selection meets every requirement
  -- of the root; and for every dependency in it with a version that is not the empty string, the
  -- project was fetched at that version, and the selection meets every requirement of the project.
  pub resolve-IsClosed :
      (fuel : ℕ) (root : Project) {s : Selection}
      → resolve sv fetch fuel root ≡ ok s
      → All (Meets sv s) (require_versions root) × IsClosed s
  unfolding resolve
  resolve-IsClosed fuel root h =
      let reqs : List (Dependency × Bytes) = require_versions root in
      let (grows, closed) = walk-IsClosed fuel _ _ h (start reqs) in
      (All-Meets-Grows sv laws _ _ reqs grows (enqueue-Meets sv laws new_selection reqs), closed)
    where
      start :
          (rs : List (Dependency × Bytes))
          → Inv (enqueue sv new_selection rs).1 (enqueue sv new_selection rs).0 (λ _. [])
      start rs = record {
        pending = λ d. elim (enqueue-pushed sv laws new_selection rs d) [
          | inl same ↦ inr (sym (ap or_empty same))
          | inr later ↦ inl later
        ];
        read = λ d filled. cc;
      }
