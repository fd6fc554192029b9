-- ===== src/Apply/Build/Edges.antt =====
-- Which edges the loops of `buildStepGraphWithPairKey` and `addDestroyEdges` add.
use unobin.Base.{
  update, Bool, false, not, ◌&&◌, ◌||◌, ◌≡◌, refl, List, [], ◌∷◌, ◌++◌, if◌then◌else◌, Bytes, eqb,
  eqb_iff, mem, mem-append, arith, inl, inr, Bool-cases,
}
use unobin.Apply.Graph.{StepGraph}
use unobin.Apply.Build.Keys.{template_address}
use unobin.Apply.Build.Plan.{
  Dag, is_node, add_edge, instances, links, link_instances, is_narrow, link_templates, link_steps,
  PlanStep, destroys, reverse_deps, reverse_steps,
}

mem-update_append :
    (m : Bytes → List Bytes) (k x t a : Bytes)
    → mem a (update m k (m k ++ x ∷ []) t) ≡ (mem a (m t) || eqb k t && eqb x a)
unfolding mem
mem-update_append m k x t a = elim (Bool-cases (eqb k t)) [
  | inl same ↦ rw (same, mem-append a (m k) (x ∷ []), (eqb_iff k t).0 same) (ground arith)
  | inr other ↦ rw other (ground arith)
]

-- Whether the graph has an edge from `p` to `d`.
abbrev pub edge : StepGraph → Bytes → Bytes → Bool
edge g p d = mem d (g.dependents p)

pub edge-add_edge :
    (p d : Bytes) (g : StepGraph) (q b : Bytes)
    → edge (add_edge p d g) q b ≡ (edge g q b || eqb p q && eqb d b)
unfolding add_edge
edge-add_edge p d g q b = mem-update_append g.dependents p d q b

pub mem-instances :
    (m : Bytes → List Bytes) (as' : List Bytes) (t a : Bytes)
    → mem a (instances m as' t) ≡ (mem a (m t) || mem a as' && eqb (template_address a) t)
unfolding instances mem
mem-instances m [] t a = ground arith
mem-instances m (x ∷ as') t a = ground (
  arith,
  mem-instances (update m (template_address x) (m (template_address x) ++ x ∷ [])) as' t a,
  mem-update_append m (template_address x) x t a,
  eqb_iff x a,
)

pub edge-link_instances :
    (a : Bytes) (narrow : Bool) (is : List Bytes) (g : StepGraph) (p d : Bytes)
    → edge (link_instances a narrow is g) p d
      ≡ (edge g p d || eqb a d && mem p is && links a narrow p)
unfolding link_instances mem
edge-link_instances a narrow [] g p d = ground arith
edge-link_instances a narrow (i ∷ is) g p d = ground (
  arith,
  edge-link_instances a narrow is (if links a narrow i then add_edge i a g else g) p d,
  edge-add_edge i a g p d,
  eqb_iff i p,
)

-- Whether the loop over `dag.Edges[t]` takes an edge from `p` to `a`.
unfoldable pub takes :
    Dag → (Bytes → List Bytes) → Bytes → (Bytes → Bool) → List Bytes → Bytes → Bool
takes dag by_template a pairs [] p = false
takes dag by_template a pairs (t ∷ ts) p =
    is_node (dag.nodes t) && (mem p (by_template t) && links a (is_narrow pairs a t) p)
    || takes dag by_template a pairs ts p

pub edge-link_templates :
    (dag : Dag) (by_template : Bytes → List Bytes) (a : Bytes) (pairs : Bytes → Bool)
    (ts : List Bytes) (g : StepGraph) (p d : Bytes)
    → edge (link_templates dag by_template a pairs ts g) p d
      ≡ (edge g p d || eqb a d && takes dag by_template a pairs ts p)
unfolding link_templates takes
edge-link_templates dag by_template a pairs [] g p d = ground arith
edge-link_templates dag by_template a pairs (t ∷ ts) g p d = ground (
  arith,
  edge-link_templates dag by_template a pairs ts
      (if is_node (dag.nodes t)
        then link_instances a (is_narrow pairs a t) (by_template t) g
        else g)
      p d,
  edge-link_instances a (is_narrow pairs a t) (by_template t) g p d,
)

-- Whether the loop for the step `a` takes an edge from `p`.
abbrev pub step_takes :
    Dag → (Bytes → List Bytes) → (Bytes → Bytes → Bool) → (Bytes → Bool) → Bytes → Bytes → Bool
step_takes dag by_template pair_key destroying a p =
    not (destroying a) && takes dag by_template a (pair_key a) (dag.edges (template_address a)) p

pub edge-link_steps :
    (dag : Dag) (by_template : Bytes → List Bytes) (pair_key : Bytes → Bytes → Bool)
    (destroying : Bytes → Bool) (as' : List Bytes) (g : StepGraph) (p d : Bytes)
    → edge (link_steps dag by_template pair_key destroying as' g) p d
      ≡ (edge g p d || mem d as' && step_takes dag by_template pair_key destroying d p)
unfolding link_steps mem
edge-link_steps dag by_template pair_key destroying [] g p d = ground arith
edge-link_steps dag by_template pair_key destroying (a ∷ as') g p d = ground (
  arith,
  edge-link_steps dag by_template pair_key destroying as'
      (if destroying a
        then g
        else link_templates dag by_template a (pair_key a) (dag.edges (template_address a)) g)
      p d,
  edge-link_templates dag by_template a (pair_key a) (dag.edges (template_address a)) g p d,
  eqb_iff a d,
)

pub takes-instances :
    (dag : Dag) (addresses : List Bytes) (a : Bytes) (pairs : Bytes → Bool) (ts : List Bytes)
    (p : Bytes)
    → takes dag (instances (λ _. []) addresses) a pairs ts p ≡ (
        mem (template_address p) ts
        && mem p addresses
        && is_node (dag.nodes (template_address p))
        && links a (is_narrow pairs a (template_address p)) p)
unfolding takes mem
takes-instances dag addresses a pairs [] p = refl
takes-instances dag addresses a pairs (t ∷ ts) p = ground (
  arith,
  takes-instances dag addresses a pairs ts p,
  mem-instances (λ _. []) addresses t p,
  eqb_iff t (template_address p),
  eqb_iff (template_address p) t,
)

edge-reverse_deps :
    (destroying : Bytes → Bool) (a : Bytes) (deps : List Bytes) (g : StepGraph) (p d : Bytes)
    → edge (reverse_deps destroying a deps g) p d
      ≡ (edge g p d || eqb a p && mem d deps && destroying d)
unfolding reverse_deps mem
edge-reverse_deps destroying a [] g p d = ground arith
edge-reverse_deps destroying a (dep ∷ deps) g p d = ground (
  arith,
  edge-reverse_deps destroying a deps (if not (destroying dep) then g else add_edge a dep g) p d,
  edge-add_edge a dep g p d,
  eqb_iff dep d,
)

-- Whether a destroy step `p` of the list depended on the address `d`.
unfoldable pub depended : List PlanStep → Bytes → Bytes → Bool
depended [] p d = false
depended (s ∷ ss) p d =
    destroys s.decision && eqb s.address p && mem d s.depends_on || depended ss p d

pub edge-reverse_steps :
    (destroying : Bytes → Bool) (ss : List PlanStep) (g : StepGraph) (p d : Bytes)
    → edge (reverse_steps destroying ss g) p d ≡ (edge g p d || depended ss p d && destroying d)
unfolding reverse_steps depended
edge-reverse_steps destroying [] g p d = ground arith
edge-reverse_steps destroying (s ∷ ss) g p d = ground (
  arith,
  edge-reverse_steps destroying ss
      (if destroys s.decision then reverse_deps destroying s.address s.depends_on g else g) p d,
  edge-reverse_deps destroying s.address s.depends_on g p d,
)
