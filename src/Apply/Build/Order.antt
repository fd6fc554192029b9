-- ===== src/Apply/Build/Order.antt =====
-- What `buildStepGraph` promises to the scheduler: its edges, its locks, in-degrees that count the
-- edges, and no cycle.
use unobin.Base.{
  update, ℕ, suc, ◌+◌, ◌≤◌, ◌<◌, Bool, true, false, not, ◌&&◌, ◌||◌, ◌≡◌, ◌≢◌, refl, ◌∙◌, List, [],
  ◌∷◌, if◌then◌else◌, if_elim, Option, none, some, Bytes, eqb, eqb_iff, mem, length, arith,
}
use unobin.Apply.Graph.{StepGraph}
use unobin.Apply.Schedule.State.{Config, RunState}
use unobin.Apply.Schedule.Loop.{Choice, drain, stop, blocked, round}
use unobin.Apply.Schedule.Bounded.{Rounds, Rounds-Reach, Rounds-le}
use unobin.Apply.Schedule.Progress.{round_progress}
use unobin.Apply.Schedule.Result.{applied, steps_left, finish}
use unobin.Apply.Schedule.Invariant.Defs.{Distinct, IsConfig, completed}
use unobin.Apply.Schedule.Completion.{IsAcyclic, finish-completed}
use unobin.Apply.Build.Keys.{template_address, key_path, key_paths_agree, pair_key_matches}
use unobin.Apply.Build.Plan.{
  Dag, Node, is_node, instances, links, is_narrow, PlanStep, destroys, mark_destroying, no_edges,
  add_destroy_edges, set_lock, set_locks, pair_keys, build_step_graph_with_pair_key,
  build_step_graph, addresses_of,
}
use unobin.Apply.Build.Edges.{edge, edge-link_steps, takes-instances, depended, edge-reverse_steps}
use unobin.Apply.Build.Counted.{Counted, build_step_graph-Counted}

-- What `runApplySchedule` schedules.
abbrev pub plan_config : List PlanStep → Dag → ℕ → Config
plan_config steps dag parallelism = record {
  graph = build_step_graph steps dag;
  steps = addresses_of steps;
  parallelism = parallelism;
}

-- For a plan with distinct addresses: the in-degree that `buildStepGraph` counts for an address is
-- the number of edges into it from the steps of the plan.
pub build_step_graph-IsConfig :
    (steps : List PlanStep) (dag : Dag) (parallelism : ℕ)
    → Distinct (addresses_of steps)
    → IsConfig (plan_config steps dag parallelism)
unfolding Counted
build_step_graph-IsConfig steps dag parallelism u = record {
  distinct = u;
  counted = build_step_graph-Counted steps dag u;
}

abbrev pub destroying : List PlanStep → Bytes → Bool
destroying = mark_destroying (λ _. false)

-- The step `d`, which is not destroyed, refers to the node of another step `p`; their keys agree,
-- and match if `d` refers to the instance of its own key.
abbrev pub is_forward : List PlanStep → Dag → Bytes → Bytes → Bool
is_forward steps dag p d =
    let t = template_address p in
    let pairs = pair_keys dag (λ _ _. false) (addresses_of steps) d in
    mem p (addresses_of steps)
    && mem d (addresses_of steps)
    && not (destroying steps d)
    && (mem t (dag.edges (template_address d))
        && is_node (dag.nodes t)
        && not (eqb p d)
        && key_paths_agree (key_path d) (key_path p)
        && not (is_narrow pairs d t && not (pair_key_matches (key_path d) (key_path p))))

-- Both are destroyed, and `p` was created after `d`.
abbrev pub is_reversed : List PlanStep → Bytes → Bytes → Bool
is_reversed steps p d = depended steps p d && destroying steps d

set_locks-dependents :
    (dag : Dag) (as' : List Bytes) (g : StepGraph) → (set_locks dag as' g).dependents ≡ g.dependents
unfolding set_locks
set_locks-dependents dag [] g = refl
set_locks-dependents dag (a ∷ as') g =
    set_locks-dependents dag as' _ ∙ kept (dag.nodes (template_address a))
  where
    kept : (n : Option Node) → (set_lock n a g).dependents ≡ g.dependents
    kept none = refl
    kept (some n) =
        if_elim {A = StepGraph} (λ h. h.dependents ≡ g.dependents) _ _ _ (λ _. refl) (λ _. refl)

-- The graph of `buildStepGraph` has an edge from `p` to `d` exactly when `d` is not destroyed, refers
-- to the node of another step `p`, and their keys fit; or both are destroyed, and a step at `p`
-- recorded that it depends on `d`.
pub edge-build_step_graph :
    (steps : List PlanStep) (dag : Dag) (p d : Bytes)
    → edge (build_step_graph steps dag) p d ≡ (is_forward steps dag p d || is_reversed steps p d)
unfolding build_step_graph build_step_graph_with_pair_key add_destroy_edges mem links
edge-build_step_graph steps dag p d =
    edge-reverse_steps (destroying steps) steps _ p d
    ∙ rw (set_locks-dependents dag (addresses_of steps) _) (
        rw
          (edge-link_steps dag (instances (λ _. []) (addresses_of steps)) _ (destroying steps)
            (addresses_of steps) no_edges p d)
          (rw
            (takes-instances dag (addresses_of steps) d
              (pair_keys dag (λ _ _. false) (addresses_of steps) d) (dag.edges (template_address d))
              p)
            (ground arith)))

-- The DAG has no cycle among its nodes, and the recorded dependencies of the destroyed steps have
-- none: a rank falls along each of them.
pub record IsRanked (steps : List PlanStep) (dag : Dag) : Type 0 where
  pub node_rank : Bytes → ℕ
  pub node_falls :
      (t u : Bytes)
      → mem u (dag.edges t) ≡ true
      → is_node (dag.nodes u) ≡ true
      → node_rank u < node_rank t
  pub destroy_rank : Bytes → ℕ
  pub destroy_falls : (p d : Bytes) → is_reversed steps p d ≡ true → destroy_rank p < destroy_rank d

total : (Bytes → ℕ) → List Bytes → ℕ
total r [] = 0
total r (a ∷ as') = r a + total r as'

rank_le_total :
    (r : Bytes → ℕ) (as' : List Bytes) (a : Bytes) → mem a as' ≡ true → r a ≤ total r as'
unfolding total mem
rank_le_total r [] a h = cc
rank_le_total r (x ∷ as') a h = ground (arith, rank_le_total r as' a, eqb_iff x a)

mark_destroying-marked :
    (m : Bytes → Bool) (ss : List PlanStep) (a : Bytes) → m a ≡ true → mark_destroying m ss a ≡ true
unfolding mark_destroying
mark_destroying-marked m [] a h = h
mark_destroying-marked m (s ∷ ss) a h =
    mark_destroying-marked (if destroys s.decision then update m s.address true else m) ss a (
      if_elim {A = Bytes → Bool} (λ n. n a ≡ true) (destroys s.decision) _ _ (λ _. ground arith)
        (λ _. h))

depended-destroying :
    (m : Bytes → Bool) (ss : List PlanStep) (p d : Bytes)
    → depended ss p d ≡ true
    → mark_destroying m ss p ≡ true
unfolding depended mark_destroying
depended-destroying m [] p d h = cc
depended-destroying m (s ∷ ss) p d h = ground (
  arith,
  depended-destroying (if destroys s.decision then update m s.address true else m) ss p d,
  mark_destroying-marked (update m s.address true) ss p,
)

length-addresses_of : (steps : List PlanStep) → length (addresses_of steps) ≡ length steps
length-addresses_of [] = refl
length-addresses_of (s ∷ ss) = omega (arith, length-addresses_of ss)

-- If the DAG has no cycle and the recorded dependencies among the destroyed steps have none, then
-- the step graph has none: forward and reversed edges never close a cycle together.
pub build_step_graph-IsAcyclic :
    (steps : List PlanStep) (dag : Dag) (parallelism : ℕ)
    → IsRanked steps dag
    → IsAcyclic (plan_config steps dag parallelism)
build_step_graph-IsAcyclic steps dag parallelism r = record {
  rank = λ a.
      if destroying steps a
      then r.destroy_rank a
      else suc (total r.destroy_rank (addresses_of steps)) + r.node_rank (template_address a);
  falls = λ p d e. ground (
    arith,
    edge-build_step_graph steps dag p d,
    r.node_falls (template_address d) (template_address p),
    r.destroy_falls p d,
    rank_le_total r.destroy_rank (addresses_of steps) p,
    depended-destroying (λ _. false) steps p d,
  );
}

-- For a plan with distinct addresses over a DAG and recorded dependencies with no cycle, and at least
-- one worker: the loop over the graph of `buildStepGraph` takes at most two rounds for each step and
-- two more, repeated reads of a closed `Drain` aside; before each round some case that is no read of
-- `Drain` can be taken, unless the loop stops; and when it stops, the error for steps left unread is
-- not returned, and if nil is returned, every step of the plan has a `done` event.
pub finish-build_step_graph :
    (steps : List PlanStep) (dag : Dag) (parallelism : ℕ) {n : ℕ} {s : RunState}
    → Distinct (addresses_of steps)
    → IsRanked steps dag
    → 0 < parallelism
    → Rounds (plan_config steps dag parallelism) n s
    → (n ≤ length steps + length steps + 2)
      × ((polled : Bool)
          → (choice : Choice) × (choice ≢ drain)
            × (round (plan_config steps dag parallelism) polled choice s ≢ blocked))
      × ((polled : Bool) (choice : Choice) (t : RunState)
          → round (plan_config steps dag parallelism) polled choice s ≡ stop t
          → (finish (plan_config steps dag parallelism) t ≢ steps_left)
            × (finish (plan_config steps dag parallelism) t ≡ applied
                → (d : Bytes) → mem d (addresses_of steps) ≡ true
                → completed t.events d ≡ true))
finish-build_step_graph steps dag parallelism u r h rounds =
    let ok = build_step_graph-IsConfig steps dag parallelism u in
    let acyclic = build_step_graph-IsAcyclic steps dag parallelism r in
    (
      omega (arith, Rounds-le ok rounds, length-addresses_of steps),
      (round_progress ok h (Rounds-Reach rounds)).0,
      λ polled choice t e. finish-completed polled choice ok acyclic (Rounds-Reach rounds) e,
    )
