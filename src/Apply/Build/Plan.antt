-- ===== src/Apply/Build/Plan.antt =====
-- The plan and the DAG as `buildStepGraph` of pkg/runtime/apply_graph.go reads them, and the loops
-- that add its edges. A Go map that is read by key is a function.
use unobin.Base.{
  update, ◌+◌, Bool, true, false, not, ◌&&◌, Option, none, some, List, [], ◌∷◌, ◌++◌, map, ◌==◌,
  if◌then◌else◌, is_empty, length, Bytes, eqb,
}
use unobin.Apply.Graph.{StepGraph}
use unobin.Apply.Build.Keys.{key_path, key_paths_agree, pair_key_matches, template_address}

pub data Decision : Type 0 where
  create replaced updated destroy no_op rerun skip read eval : Decision

abbrev pub destroys : Decision → Bool
destroys destroy = true
destroys _ = false

pub record PlanStep : Type 0 where
  pub address : Bytes
  pub decision : Decision
  pub depends_on : List Bytes

-- `pair_deps` is what `pairKeyDeps` returns for the body of the node; nil holds no address.
pub record Node : Type 0 where
  pub lock_name : Bytes
  pub pair_deps : Bytes → Bool

pub record Dag : Type 0 where
  pub nodes : Bytes → Option Node
  pub edges : Bytes → List Bytes

abbrev pub is_node : Option Node → Bool
is_node none = false
is_node (some n) = true

-- `g.dependents[p] = append(g.dependents[p], d); g.indegree[d]++`
unfoldable pub add_edge : Bytes → Bytes → StepGraph → StepGraph
add_edge p d g = record g {
  dependents = update g.dependents p (g.dependents p ++ d ∷ []);
  indegree = update g.indegree d (g.indegree d + 1);
}

-- The loop that fills `instancesByTemplate`.
unfoldable pub instances : (Bytes → List Bytes) → List Bytes → Bytes → List Bytes
instances m [] = m
instances m (a ∷ as') =
    instances (update m (template_address a) (m (template_address a) ++ a ∷ [])) as'

-- The guards before an edge from the instance `i` to the step `a`.
unfoldable pub links : Bytes → Bool → Bytes → Bool
links a narrow i =
    if eqb i a
    then false
    else if not (key_paths_agree (key_path a) (key_path i))
    then false
    else if narrow && not (pair_key_matches (key_path a) (key_path i))
    then false
    else true

unfoldable pub link_instances : Bytes → Bool → List Bytes → StepGraph → StepGraph
unfolding add_edge
link_instances a narrow [] g = g
link_instances a narrow (i ∷ is) g =
    link_instances a narrow is (if links a narrow i then add_edge i a g else g)

-- `narrow`: the step is to be paired with the instance of its own key.
abbrev pub is_narrow : (Bytes → Bool) → Bytes → Bytes → Bool
is_narrow pairs a t = pairs t && length (key_path a) == 1

-- The loop over `dag.Edges[t]`.
unfoldable pub link_templates :
    Dag → (Bytes → List Bytes) → Bytes → (Bytes → Bool) → List Bytes → StepGraph → StepGraph
unfolding link_instances
link_templates dag by_template a pairs [] g = g
link_templates dag by_template a pairs (t ∷ ts) g =
    link_templates dag by_template a pairs ts (
      if is_node (dag.nodes t) then link_instances a (is_narrow pairs a t) (by_template t) g else g)

-- The loop over the addresses.
unfoldable pub link_steps :
    Dag
    → (Bytes → List Bytes)
    → (Bytes → Bytes → Bool)
    → (Bytes → Bool)
    → List Bytes
    → StepGraph
    → StepGraph
unfolding link_templates
link_steps dag by_template pair_key destroying [] g = g
link_steps dag by_template pair_key destroying (a ∷ as') g =
    link_steps dag by_template pair_key destroying as' (
      if destroying a
      then g
      else link_templates dag by_template a (pair_key a) (dag.edges (template_address a)) g)

abbrev pub no_edges : StepGraph
no_edges = record { indegree = λ _. 0; dependents = λ _. []; locks = λ _. [] }

-- `buildStepGraphWithPairKey`
unfoldable pub build_step_graph_with_pair_key :
    List Bytes → Dag → (Bytes → Bytes → Bool) → (Bytes → Bool) → StepGraph
unfolding link_steps instances
build_step_graph_with_pair_key addresses dag pair_key destroying =
    link_steps dag (instances (λ _. []) addresses) pair_key destroying addresses no_edges

-- The loop that fills `destroying`.
unfoldable pub mark_destroying : (Bytes → Bool) → List PlanStep → Bytes → Bool
mark_destroying m [] = m
mark_destroying m (s ∷ ss) =
    mark_destroying (if destroys s.decision then update m s.address true else m) ss

-- The loop of `addDestroyEdges` over `s.DependsOn`.
unfoldable pub reverse_deps : (Bytes → Bool) → Bytes → List Bytes → StepGraph → StepGraph
unfolding add_edge
reverse_deps destroying a [] g = g
reverse_deps destroying a (dep ∷ deps) g =
    reverse_deps destroying a deps (if not (destroying dep) then g else add_edge a dep g)

unfoldable pub reverse_steps : (Bytes → Bool) → List PlanStep → StepGraph → StepGraph
unfolding reverse_deps
reverse_steps destroying [] g = g
reverse_steps destroying (s ∷ ss) g =
    reverse_steps destroying ss
      (if destroys s.decision then reverse_deps destroying s.address s.depends_on g else g)

unfoldable pub add_destroy_edges : StepGraph → List PlanStep → StepGraph
unfolding reverse_steps mark_destroying
add_destroy_edges g steps = reverse_steps (mark_destroying (λ _. false) steps) steps g

-- `if node, ok := dag.Nodes[...]; ok { pairKey[addr] = pairKeyDeps(...) }`
abbrev pub set_pair_key : Option Node → Bytes → (Bytes → Bytes → Bool) → Bytes → Bytes → Bool
set_pair_key none a m = m
set_pair_key (some n) a m = update m a n.pair_deps

unfoldable pub pair_keys : Dag → (Bytes → Bytes → Bool) → List Bytes → Bytes → Bytes → Bool
pair_keys dag m [] = m
pair_keys dag m (a ∷ as') = pair_keys dag (set_pair_key (dag.nodes (template_address a)) a m) as'

abbrev pub set_lock : Option Node → Bytes → StepGraph → StepGraph
set_lock none a g = g
set_lock (some n) a g =
    if not (is_empty n.lock_name) then record g { locks = update g.locks a n.lock_name } else g

-- The loop that fills `g.locks`.
unfoldable pub set_locks : Dag → List Bytes → StepGraph → StepGraph
set_locks dag [] g = g
set_locks dag (a ∷ as') g = set_locks dag as' (set_lock (dag.nodes (template_address a)) a g)

abbrev pub addresses_of : List PlanStep → List Bytes
addresses_of = map (λ s. s.address)

unfoldable pub build_step_graph : List PlanStep → Dag → StepGraph
unfolding build_step_graph_with_pair_key pair_keys mark_destroying set_locks add_destroy_edges
build_step_graph steps dag =
    let addresses = addresses_of steps in
    let pair_key = pair_keys dag (λ _ _. false) addresses in
    let destroying = mark_destroying (λ _. false) steps in
    let g = build_step_graph_with_pair_key addresses dag pair_key destroying in
    add_destroy_edges (set_locks dag addresses g) steps
