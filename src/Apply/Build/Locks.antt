-- ===== src/Apply/Build/Locks.antt =====
-- The locks of the graph: those of the nodes, which the loops that add edges leave alone.
use unobin.Base.{
  Bool, true, false, not, ◌&&◌, ◌≡◌, refl, ap, ◌∙◌, List, [], ◌∷◌, if◌then◌else◌, if_elim, Option,
  none, some, Bytes, eqb, eqb_iff, is_empty, mem, arith,
}
use unobin.Apply.Graph.{StepGraph}
use unobin.Apply.Build.Keys.{template_address}
use unobin.Apply.Build.Plan.{
  Dag, Node, is_node, links, link_instances, is_narrow, link_templates, link_steps, PlanStep,
  destroys, instances, no_edges, reverse_deps, reverse_steps, set_lock, set_locks,
  add_destroy_edges, build_step_graph_with_pair_key, build_step_graph, addresses_of,
}

module _ (locks : Bytes → Bytes) where
  unfoldable Locked : StepGraph → Type 0
  Locked g = g.locks ≡ locks

  link_instances-Locked :
      (a : Bytes) (narrow : Bool) (is : List Bytes) (g : StepGraph)
      → Locked g
      → Locked (link_instances a narrow is g)
  unfolding link_instances Locked
  link_instances-Locked a narrow [] g h = h
  link_instances-Locked a narrow (i ∷ is) g h =
      link_instances-Locked a narrow is _ (if_elim Locked (links a narrow i) _ _ (λ _. h) (λ _. h))

  link_templates-Locked :
      (dag : Dag) (by_template : Bytes → List Bytes) (a : Bytes) (pairs : Bytes → Bool)
      (ts : List Bytes) (g : StepGraph)
      → Locked g
      → Locked (link_templates dag by_template a pairs ts g)
  unfolding link_templates
  link_templates-Locked dag by_template a pairs [] g h = h
  link_templates-Locked dag by_template a pairs (t ∷ ts) g h =
      link_templates-Locked dag by_template a pairs ts _ (
        if_elim Locked (is_node (dag.nodes t)) _ _
          (λ _. link_instances-Locked a (is_narrow pairs a t) (by_template t) g h) (λ _. h))

  link_steps-Locked :
      (dag : Dag) (by_template : Bytes → List Bytes) (pair_key : Bytes → Bytes → Bool)
      (destroying : Bytes → Bool) (as' : List Bytes) (g : StepGraph)
      → Locked g
      → Locked (link_steps dag by_template pair_key destroying as' g)
  unfolding link_steps
  link_steps-Locked dag by_template pair_key destroying [] g h = h
  link_steps-Locked dag by_template pair_key destroying (a ∷ as') g h =
      link_steps-Locked dag by_template pair_key destroying as' _ (
        if_elim Locked (destroying a) _ _ (λ _. h)
          (λ _.
            link_templates-Locked dag by_template a (pair_key a) (dag.edges (template_address a)) g
              h))

  reverse_deps-Locked :
      (destroying : Bytes → Bool) (a : Bytes) (deps : List Bytes) (g : StepGraph)
      → Locked g
      → Locked (reverse_deps destroying a deps g)
  unfolding reverse_deps Locked
  reverse_deps-Locked destroying a [] g h = h
  reverse_deps-Locked destroying a (dep ∷ deps) g h =
      reverse_deps-Locked destroying a deps _
        (if_elim Locked (not (destroying dep)) _ _ (λ _. h) (λ _. h))

  reverse_steps-Locked :
      (destroying : Bytes → Bool) (ss : List PlanStep) (g : StepGraph)
      → Locked g
      → Locked (reverse_steps destroying ss g)
  unfolding reverse_steps
  reverse_steps-Locked destroying [] g h = h
  reverse_steps-Locked destroying (s ∷ ss) g h = reverse_steps-Locked destroying ss _ (
      if_elim Locked (destroys s.decision) _ _
        (λ _. reverse_deps-Locked destroying s.address s.depends_on g h) (λ _. h))

-- The lock of a node, or the empty string for no node.
abbrev pub lock_of : Option Node → Bytes
lock_of none = []
lock_of (some n) = n.lock_name

locks-set_lock :
    (n : Option Node) (a : Bytes) (g : StepGraph) (b : Bytes)
    → (set_lock n a g).locks b
      ≡ (if eqb a b && not (is_empty (lock_of n)) then lock_of n else g.locks b)
locks-set_lock none a g b = ground arith
locks-set_lock (some n) a g b = ground arith

locks-set_locks :
    (dag : Dag) (as' : List Bytes) (g : StepGraph) (b : Bytes)
    → (set_locks dag as' g).locks b ≡ (
        if mem b as' && not (is_empty (lock_of (dag.nodes (template_address b))))
        then lock_of (dag.nodes (template_address b))
        else g.locks b)
unfolding set_locks mem
locks-set_locks dag [] g b = refl
locks-set_locks dag (a ∷ as') g b = ground (
  arith,
  locks-set_locks dag as' (set_lock (dag.nodes (template_address a)) a g) b,
  locks-set_lock (dag.nodes (template_address a)) a g b,
  eqb_iff a b,
)

locks-build_step_graph_with_pair_key :
    (addresses : List Bytes) (dag : Dag) (pair_key : Bytes → Bytes → Bool)
    (destroying : Bytes → Bool)
    → (build_step_graph_with_pair_key addresses dag pair_key destroying).locks ≡ (λ _. [])
unfolding build_step_graph_with_pair_key Locked
locks-build_step_graph_with_pair_key addresses dag pair_key destroying =
    link_steps-Locked (λ _. []) dag (instances (λ _. []) addresses) pair_key destroying addresses
      no_edges refl

empty_lock :
    (l : Bytes) (b : Bool) → (if b && not (is_empty l) then l else []) ≡ (if b then l else [])
empty_lock [] true = refl
empty_lock [] false = refl
empty_lock (c ∷ l) true = refl
empty_lock (c ∷ l) false = refl

-- A step of the plan is under the lock of its node, and under none if the node has none or the
-- DAG has no such node; nothing else is under a lock.
pub locks-build_step_graph :
    (steps : List PlanStep) (dag : Dag) (a : Bytes)
    → (build_step_graph steps dag).locks a
      ≡ (if mem a (addresses_of steps) then lock_of (dag.nodes (template_address a)) else [])
unfolding build_step_graph add_destroy_edges Locked
locks-build_step_graph steps dag a =
    ap (λ l. l a) (reverse_steps-Locked _ _ steps _ refl)
    ∙ locks-set_locks dag (addresses_of steps) _ a
    ∙ rw (locks-build_step_graph_with_pair_key (addresses_of steps) dag _ _)
        (empty_lock (lock_of (dag.nodes (template_address a))) (mem a (addresses_of steps)))
