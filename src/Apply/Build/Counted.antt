-- ===== src/Apply/Build/Counted.antt =====
-- The in-degrees count the edges, in every loop of `buildStepGraph`.
use unobin.Base.{
  update, ◌+◌, Bool, true, false, not, ◌&&◌, ◌≡◌, refl, List, [], ◌∷◌, ◌++◌, if◌then◌else◌, if_elim,
  Option, none, some, Bytes, eqb, eqb_iff, mem, count, count-append, arith, inl, inr, Bool-cases,
}
use unobin.Apply.Graph.{StepGraph}
use unobin.Apply.Schedule.Invariant.Defs.{Distinct, pending}
use unobin.Apply.Build.Keys.{template_address}
use unobin.Apply.Build.Plan.{
  Dag, Node, is_node, add_edge, instances, links, link_instances, link_templates, link_steps,
  PlanStep, destroys, reverse_deps, reverse_steps, no_edges, add_destroy_edges, set_lock, set_locks,
  build_step_graph_with_pair_key, build_step_graph, addresses_of,
}
use unobin.Apply.Build.Edges.{mem-instances}

-- `indegree[d]` is the number of edges into `d` from the addresses.
unfoldable pub Counted : List Bytes → StepGraph → Type 0
Counted ps g = (d : Bytes) → g.indegree d ≡ pending g.dependents (λ _. false) ps d

count-update_append :
    (m : Bytes → List Bytes) (p x q d : Bytes)
    → count d (update m p (m p ++ x ∷ []) q) ≡ count d (m q) + (if eqb p q && eqb x d then 1 else 0)
unfolding count
count-update_append m p x q d = elim (Bool-cases (eqb p q)) [
  | inl same ↦ rw (same, count-append d (m p) (x ∷ []), (eqb_iff p q).0 same) (ground arith)
  | inr other ↦ rw other (ground arith)
]

pending-update_append :
    (m : Bytes → List Bytes) (p x : Bytes) (ps : List Bytes) (d : Bytes)
    → Distinct ps
    → pending (update m p (m p ++ x ∷ [])) (λ _. false) ps d
      ≡ pending m (λ _. false) ps d + (if mem p ps && eqb x d then 1 else 0)
unfolding pending mem
pending-update_append m p x [] d u = omega arith
pending-update_append m p x (q ∷ ps) d (new, u) = ground (
  arith,
  pending-update_append m p x ps d u,
  count-update_append m p x q d,
  eqb_iff p q,
  eqb_iff q p,
)

add_edge-Counted :
    (ps : List Bytes) (p d : Bytes) (g : StepGraph)
    → Distinct ps
    → mem p ps ≡ true
    → Counted ps g
    → Counted ps (add_edge p d g)
unfolding add_edge Counted
add_edge-Counted ps p d g u h c b =
    ground (arith, pending-update_append g.dependents p d ps b u, c b, eqb_iff d b)

link_instances-Counted :
    (ps : List Bytes) (a : Bytes) (narrow : Bool) (is : List Bytes) (g : StepGraph)
    → Distinct ps
    → ((i : Bytes) → mem i is ≡ true → mem i ps ≡ true)
    → Counted ps g
    → Counted ps (link_instances a narrow is g)
unfolding link_instances mem
link_instances-Counted ps a narrow [] g u h c = c
link_instances-Counted ps a narrow (i ∷ is) g u h c =
    link_instances-Counted ps a narrow is _ u (λ j m. h j (ground arith))
      (if_elim (Counted ps) (links a narrow i) _ _
        (λ _. add_edge-Counted ps i a g u (h i (ground (arith, eqb_iff i i))) c) (λ _. c))

link_templates-Counted :
    (ps : List Bytes) (dag : Dag) (by_template : Bytes → List Bytes) (a : Bytes)
    (pairs : Bytes → Bool) (ts : List Bytes) (g : StepGraph)
    → Distinct ps
    → ((t i : Bytes) → mem i (by_template t) ≡ true → mem i ps ≡ true)
    → Counted ps g
    → Counted ps (link_templates dag by_template a pairs ts g)
unfolding link_templates
link_templates-Counted ps dag by_template a pairs [] g u h c = c
link_templates-Counted ps dag by_template a pairs (t ∷ ts) g u h c =
    link_templates-Counted ps dag by_template a pairs ts _ u h (
      if_elim (Counted ps) (is_node (dag.nodes t)) _ _
        (λ _. link_instances-Counted ps a _ (by_template t) g u (h t) c) (λ _. c))

link_steps-Counted :
    (ps : List Bytes) (dag : Dag) (by_template : Bytes → List Bytes)
    (pair_key : Bytes → Bytes → Bool) (destroying : Bytes → Bool) (as' : List Bytes) (g : StepGraph)
    → Distinct ps
    → ((t i : Bytes) → mem i (by_template t) ≡ true → mem i ps ≡ true)
    → Counted ps g
    → Counted ps (link_steps dag by_template pair_key destroying as' g)
unfolding link_steps
link_steps-Counted ps dag by_template pair_key destroying [] g u h c = c
link_steps-Counted ps dag by_template pair_key destroying (a ∷ as') g u h c =
    link_steps-Counted ps dag by_template pair_key destroying as' _ u h (
      if_elim (Counted ps) (destroying a) _ _ (λ _. c)
        (λ _.
          link_templates-Counted ps dag by_template a (pair_key a) (dag.edges (template_address a))
            g u h c))

reverse_deps-Counted :
    (ps : List Bytes) (destroying : Bytes → Bool) (a : Bytes) (deps : List Bytes) (g : StepGraph)
    → Distinct ps
    → mem a ps ≡ true
    → Counted ps g
    → Counted ps (reverse_deps destroying a deps g)
unfolding reverse_deps
reverse_deps-Counted ps destroying a [] g u h c = c
reverse_deps-Counted ps destroying a (dep ∷ deps) g u h c =
    reverse_deps-Counted ps destroying a deps _ u h (
      if_elim (Counted ps) (not (destroying dep)) _ _ (λ _. c)
        (λ _. add_edge-Counted ps a dep g u h c))

reverse_steps-Counted :
    (ps : List Bytes) (destroying : Bytes → Bool) (ss : List PlanStep) (g : StepGraph)
    → Distinct ps
    → ((a : Bytes) → mem a (addresses_of ss) ≡ true → mem a ps ≡ true)
    → Counted ps g
    → Counted ps (reverse_steps destroying ss g)
unfolding reverse_steps mem
reverse_steps-Counted ps destroying [] g u h c = c
reverse_steps-Counted ps destroying (s ∷ ss) g u h c =
    reverse_steps-Counted ps destroying ss _ u (λ a m. h a (ground arith))
      (if_elim (Counted ps) (destroys s.decision) _ _
        (λ _.
          reverse_deps-Counted ps destroying s.address s.depends_on g u
            (h s.address (ground (arith, eqb_iff s.address s.address))) c)
        (λ _. c))

set_lock-Counted :
    (ps : List Bytes) (n : Option Node) (a : Bytes) (g : StepGraph)
    → Counted ps g
    → Counted ps (set_lock n a g)
unfolding Counted
set_lock-Counted ps none a g c = c
set_lock-Counted ps (some n) a g c = if_elim (Counted ps) _ _ _ (λ _. c) (λ _. c)

set_locks-Counted :
    (ps : List Bytes) (dag : Dag) (as' : List Bytes) (g : StepGraph)
    → Counted ps g
    → Counted ps (set_locks dag as' g)
unfolding set_locks
set_locks-Counted ps dag [] g c = c
set_locks-Counted ps dag (a ∷ as') g c =
    set_locks-Counted ps dag as' _ (set_lock-Counted ps (dag.nodes (template_address a)) a g c)

no_edges-Counted : (ps : List Bytes) → Counted ps no_edges
unfolding Counted pending count
no_edges-Counted [] d = refl
no_edges-Counted (p ∷ ps) d = omega (arith, no_edges-Counted ps d)

pub build_step_graph-Counted :
    (steps : List PlanStep) (dag : Dag)
    → Distinct (addresses_of steps)
    → Counted (addresses_of steps) (build_step_graph steps dag)
unfolding build_step_graph build_step_graph_with_pair_key add_destroy_edges mem
build_step_graph-Counted steps dag u =
    reverse_steps-Counted ps _ steps _ u (λ _ m. m)
      (set_locks-Counted ps dag ps _ (
        link_steps-Counted ps dag (instances (λ _. []) ps) _ _ ps _ u member (no_edges-Counted ps)))
  where
    ps : List Bytes
    ps = addresses_of steps

    member : (t i : Bytes) → mem i (instances (λ _. []) ps t) ≡ true → mem i ps ≡ true
    member t i h = ground (arith, mem-instances (λ _. []) ps t i)
