-- ===== src/Deps/Resolve.antt =====
-- `Resolve` of pkg/deps/resolve.go. The map of a project's requirements is the list of them, in an
-- order in which `range` may go through it.
pub mod Enqueue
pub mod Closed
pub mod Rounds
pub mod Required
pub mod Ordered
use unobin.Base.{
  ℕ, zero, suc, Bool, true, false, Option, none, some, List, [], ◌∷◌, ◌++◌, map, if◌then◌else◌,
  Bytes, eqb, Result, ok, err, ◌>>=◌,
}
use unobin.Deps.Semver.{Semver}
use unobin.Deps.Dependency.{Dependency, put}
use unobin.Deps.Selection.{Selection, new_selection, add, version}

-- `Requirement` and `Project` of pkg/deps/project.go, which `Fetch` returns.
pub record Requirement : Type 0 where
  pub version : Bytes
  pub indirect : Bool

pub record Project : Type 0 where
  pub unobin_version : Bytes
  pub requires : List (Dependency × Requirement)
  pub replace : List (Dependency × Bytes)

-- `RequireVersions`
abbrev pub require_versions : Project → List (Dependency × Bytes)
require_versions p = map (λ r. (r.0, r.1.version)) p.requires

abbrev pub project_versions : Option Project → List (Dependency × Bytes)
project_versions none = []
project_versions (some p) = require_versions p

pub data ResolveError {ℓ} (E : Type ℓ) : Type ℓ where
  fetch_error : Dependency → Bytes → E → ResolveError E
  out_of_fuel : ResolveError E

-- The variables of the loop: `sel`, `fetchedAt` and what a round puts on the queue.
pub record Walk : Type 0 where
  pub chosen : Selection
  pub fetched_at : Dependency → Bytes
  pub pushed : List Dependency

abbrev pub push_if : Bool → Dependency → List Dependency → List Dependency
push_if true d ds = d ∷ ds
push_if false d ds = ds

module _ (sv : Semver) where
  -- `enqueue`: the new selection and the dependencies that go on the queue.
  unfoldable pub enqueue : Selection → List (Dependency × Bytes) → Selection × List Dependency
  enqueue s [] = (s, [])
  enqueue s (r ∷ rs) =
      let added = add sv s r.0 r.1 in
      let rest = enqueue added.0 rs in (rest.0, push_if added.1 r.0 rest.1)

  module _ {ℓ} {E : Type ℓ} (fetch : Dependency → Bytes → Result E (Option Project)) where
    abbrev pub fetch_project : Dependency → Bytes → Result (ResolveError E) (Option Project)
    fetch_project dep v = elim (fetch dep v) [ ok p ↦ ok p | err e ↦ err (fetch_error dep v e) ]

    -- After a fetch.
    abbrev pub visited : Walk → Dependency → Option Project → Walk
    visited w dep p =
        let queued = enqueue w.chosen (project_versions p) in
        record {
          chosen = queued.0;
          fetched_at = put w.fetched_at dep (version w.chosen dep);
          pushed = queued.1;
        }

    -- The body of the loop, for the head of the queue.
    unfoldable pub visit : Walk → Dependency → Result (ResolveError E) Walk
    unfolding enqueue
    visit w dep =
        if eqb (w.fetched_at dep) (version w.chosen dep)
        then ok (record w { pushed = [] })
        else fetch_project dep (version w.chosen dep) >>= λ p. ok (visited w dep p)

    unfoldable pub walk : ℕ → List Dependency → Walk → Result (ResolveError E) Selection
    unfolding visit
    walk n [] w = ok w.chosen
    walk zero (dep ∷ queue) w = err out_of_fuel
    walk (suc n) (dep ∷ queue) w = visit w dep >>= λ w'. walk n (queue ++ w'.pushed) w'

    -- `Resolve`, with at most `fuel` rounds.
    unfoldable pub resolve : ℕ → Project → Result (ResolveError E) Selection
    unfolding walk
    resolve fuel root =
        let queued = enqueue new_selection (require_versions root) in
        walk fuel queued.1 (record { chosen = queued.0; fetched_at = λ _. []; pushed = [] })
