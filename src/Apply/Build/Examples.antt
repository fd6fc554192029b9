-- ===== src/Apply/Build/Examples.antt =====
-- The graph of a plan with two new steps, of which one refers to the other, and two steps to
-- destroy, of which one was created after the other.
use unobin.Base.{
  Bool, ◌≤◌, true, false, ◌≡◌, ◌≢◌, refl, List, [], ◌∷◌, ◌||◌, if◌then◌else◌, none, some, Bytes,
  bytes, eqb, eqb_iff, eqb_self, mem, arith,
}
use unobin.Apply.Schedule.Invariant.Defs.{IsConfig}
use unobin.Apply.Schedule.Completion.{IsAcyclic}
use unobin.Apply.Build.Keys.{template_address, key_path, key_paths_agree}
use unobin.Apply.Build.Plan.{
  Dag, PlanStep, create, destroy, mark_destroying, build_step_graph, addresses_of, links,
}
use unobin.Apply.Build.Edges.{edge, depended}
use unobin.Apply.Build.Locks.{locks-build_step_graph, lock_of}
use unobin.Apply.Build.Order.{
  plan_config, is_forward, is_reversed, destroying, IsRanked, build_step_graph-IsConfig,
  edge-build_step_graph, build_step_graph-IsAcyclic, finish-build_step_graph,
}
use unobin.StateRef.Operations.{template}
use unobin.StateRef.Parser.{
  parse_state_ref, contains_outside_key, split_segments, parse_segments, parse_segment, cut_byte,
  parse_category, named_segment, contains_byte,
}
use unobin.StateRef.Syntax.{
  valid_ident, ref_text, join_slash, segment_text, category_text, replace_all, ascii_letter,
  ascii_digit,
}
use unobin.Apply.Schedule.Queue.{heap_push, push_all}
use unobin.Apply.Schedule.State.{Config, RunState, next_ready, dispatch, handle_result}
use unobin.Apply.Schedule.Loop.{
  Choice, send, receive, drain, Round, stop, next, blocked, round, initial,
}
use unobin.Apply.Schedule.Bounded.{Rounds, none_yet, one_more}
use unobin.Apply.Schedule.Result.{applied, steps_left, finish}
use unobin.Apply.Schedule.Invariant.Defs.{Distinct, completed}

abbrev net : Bytes
net = bytes "resource.net"

abbrev web : Bytes
web = bytes "resource.web"

abbrev old_net : Bytes
old_net = bytes "resource.old-net"

abbrev old_web : Bytes
old_web = bytes "resource.old-web"

-- `resource.web` refers to `resource.net`, which has the lock `vpc`.
abbrev dag : Dag
dag = record {
  nodes = λ a.
      if eqb a net
      then some (record { lock_name = bytes "vpc"; pair_deps = λ _. false })
      else if eqb a web
      then some (record { lock_name = []; pair_deps = λ _. false })
      else none;
  edges = λ a. if eqb a web then net ∷ [] else [];
}

abbrev plan : List PlanStep
plan =
    record { address = net; decision = create; depends_on = [] }
    ∷ record { address = web; decision = create; depends_on = net ∷ [] }
    ∷ record { address = old_net; decision = destroy; depends_on = [] }
    ∷ record { address = old_web; decision = destroy; depends_on = old_net ∷ net ∷ [] }
    ∷ []

names_differ :
    (eqb net web ≡ false)
    × (eqb old_web old_net ≡ false)
    × (eqb net web ≡ false)
    × (eqb net old_net ≡ false)
    × (destroying plan net ≡ false)
unfolding eqb mark_destroying
names_differ = (refl, refl, refl, refl, refl)

plan-IsRanked : IsRanked plan dag
unfolding mem depended
plan-IsRanked = record {
  node_rank = λ a. if eqb a web then 1 else 0;
  node_falls = λ t u e n. ground (arith, eqb_iff t web, eqb_iff net u, names_differ);
  destroy_rank = λ a. if eqb a old_net then 1 else 0;
  destroy_falls = λ p d e.
      ground (
        arith,
        eqb_iff old_web p,
        eqb_iff old_net d,
        eqb_iff net d,
        eqb_self old_net,
        names_differ,
      );
}

build_step_graph-IsConfig_example : IsConfig (plan_config plan dag 2)
unfolding mem eqb
build_step_graph-IsConfig_example =
    build_step_graph-IsConfig plan dag 2 (refl, (refl, (refl, (refl, tt))))

edge-build_step_graph_example :
    edge (build_step_graph plan dag) old_web old_net
    ≡ (is_forward plan dag old_web old_net || is_reversed plan old_web old_net)
edge-build_step_graph_example = edge-build_step_graph plan dag old_web old_net

build_step_graph-IsAcyclic_example : IsAcyclic (plan_config plan dag 2)
build_step_graph-IsAcyclic_example = build_step_graph-IsAcyclic plan dag 2 plan-IsRanked

locks-build_step_graph_example :
    (build_step_graph plan dag).locks net
    ≡ (if mem net (addresses_of plan) then lock_of (dag.nodes (template_address net)) else [])
locks-build_step_graph_example = locks-build_step_graph plan dag net

plan_edges :
    ((build_step_graph plan dag).dependents net ≡ web ∷ [])
    × ((build_step_graph plan dag).dependents old_web ≡ old_net ∷ [])
    × ((build_step_graph plan dag).dependents old_net ≡ [])
unfolding build_step_graph template_address template parse_state_ref contains_outside_key
    split_segments parse_segments parse_segment cut_byte parse_category valid_ident eqb mem links
    key_path key_paths_agree named_segment contains_byte ref_text join_slash segment_text
    category_text replace_all ascii_letter ascii_digit
plan_edges = (refl, refl, refl)

-- The two new steps alone, applied to the end.
abbrev new_plan : List PlanStep
new_plan =
    record { address = net; decision = create; depends_on = [] }
    ∷ record { address = web; decision = create; depends_on = net ∷ [] }
    ∷ []

new_plan-IsRanked : IsRanked new_plan dag
unfolding mem depended
new_plan-IsRanked = record {
  node_rank = plan-IsRanked.node_rank;
  node_falls = plan-IsRanked.node_falls;
  destroy_rank = λ a. 0;
  destroy_falls = λ p d e. ground arith;
}

abbrev new_config : Config
new_config = plan_config new_plan dag 2

abbrev after_next : Config → Round → RunState
after_next cfg (next t) = t
after_next cfg (stop t) = t
after_next cfg blocked = initial cfg

abbrev sent_net : RunState
sent_net = after_next new_config (round new_config false send (initial new_config))

abbrev done_net : RunState
done_net = after_next new_config (round new_config false (receive net false) sent_net)

abbrev sent_web : RunState
sent_web = after_next new_config (round new_config false send done_net)

abbrev done_web : RunState
done_web = after_next new_config (round new_config false (receive web false) sent_web)

done_web-Rounds : Rounds new_config 4 done_web
unfolding round initial next_ready heap_push push_all dispatch handle_result build_step_graph
    template_address template parse_state_ref contains_outside_key split_segments parse_segments
    parse_segment cut_byte parse_category valid_ident eqb mem links key_path key_paths_agree
    named_segment contains_byte ref_text join_slash segment_text category_text replace_all
    ascii_letter ascii_digit
done_web-Rounds =
    one_more false (receive web false)
      (one_more false send
        (one_more false (receive net false) (one_more false send none_yet refl refl) refl refl) refl
        refl)
      refl refl

new_plan-Distinct : Distinct (addresses_of new_plan)
unfolding mem eqb
new_plan-Distinct = (refl, (refl, tt))

finish-build_step_graph_example :
    (4 ≤ 6)
    × ((polled : Bool)
        → (choice : Choice) × (choice ≢ drain)
          × (round new_config polled choice done_web ≢ blocked))
    × ((polled : Bool) (choice : Choice) (t : RunState)
        → round new_config polled choice done_web ≡ stop t
        → (finish new_config t ≢ steps_left)
          × (finish new_config t ≡ applied
              → (d : Bytes) → mem d (addresses_of new_plan) ≡ true
              → completed t.events d ≡ true))
finish-build_step_graph_example =
    finish-build_step_graph new_plan dag 2 new_plan-Distinct new_plan-IsRanked (omega arith)
      done_web-Rounds
