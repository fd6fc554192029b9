-- ===== src/Apply/Schedule/Examples.antt =====
-- A run of the scheduler over two steps under one lock, where the second depends on the first.
use unobin.Base.{
  ◌≤◌, ◌<◌, true, false, ◌≡◌, ◌≢◌, ◌⊎◌, refl, [], ◌∷◌, Bool, if◌then◌else◌, Bytes, bytes, eqb,
  eqb_iff, mem, count, length, arith, is_empty,
}
use unobin.Apply.Schedule.State.{Config, RunState, next_ready, handle_result, dispatch}
use unobin.Apply.Schedule.Loop.{
  Choice, send, receive, drain, Round, stop, next, blocked, Reach, start, later, round, initial,
  halt,
}
use unobin.Apply.Schedule.Queue.{heap_push, push_all}
use unobin.Apply.Schedule.Result.{
  applied, steps_left, finish, all_dispatched, failed_at, count_succeeded,
}
use unobin.Apply.Schedule.Invariant.Defs.{IsConfig, pending, completed, starts}
use unobin.Apply.Schedule.Safety.{lock_exclusion, dispatched_after_done, round_halted}
use unobin.Apply.Schedule.Completion.{IsAcyclic, finish-completed}
use unobin.Apply.Schedule.Measure.{measure}
use unobin.Apply.Schedule.Progress.{round_progress}

abbrev net : Bytes
net = bytes "resource.net"

abbrev web : Bytes
web = bytes "resource.web"

abbrev two_steps : Config
two_steps = record {
  graph = record {
    indegree = λ d. if eqb web d then 1 else 0;
    dependents = λ p. if eqb net p then web ∷ [] else [];
    locks = λ a. bytes "vpc";
  };
  steps = net ∷ web ∷ [];
  parallelism = 2;
}

two_steps-IsConfig : IsConfig two_steps
unfolding pending mem eqb count
two_steps-IsConfig = record { distinct = (refl, (refl, tt)); counted = λ d. ground arith }

two_steps-IsAcyclic : IsAcyclic two_steps
unfolding mem
two_steps-IsAcyclic = record {
  rank = λ d. if eqb net d then 0 else 1;
  falls = λ p d e. ground (arith, eqb_iff web d, eqb_iff net d);
}

abbrev after_next : Round → RunState
after_next (next t) = t
after_next (stop t) = t
after_next blocked = initial two_steps

-- Both steps in turn; the second waits for the first.
abbrev sent_net : RunState
sent_net = after_next (round two_steps false send (initial two_steps))

abbrev done_net : RunState
done_net = after_next (round two_steps false (receive net false) sent_net)

abbrev sent_web : RunState
sent_web = after_next (round two_steps false send done_net)

abbrev done_web : RunState
done_web = after_next (round two_steps false (receive web false) sent_web)

abbrev at_end : RunState
at_end = after_next (round two_steps false send done_web)

sent_net-Reach : Reach two_steps sent_net
unfolding round initial eqb next_ready heap_push push_all dispatch handle_result mem
sent_net-Reach = later false send start refl

done_net-Reach : Reach two_steps done_net
unfolding round initial eqb next_ready heap_push push_all dispatch handle_result mem
done_net-Reach = later false (receive net false) sent_net-Reach refl

sent_web-Reach : Reach two_steps sent_web
unfolding round initial eqb next_ready heap_push push_all dispatch handle_result mem
sent_web-Reach = later false send done_net-Reach refl

done_web-Reach : Reach two_steps done_web
unfolding round initial eqb next_ready heap_push push_all dispatch handle_result mem
done_web-Reach = later false (receive web false) sent_web-Reach refl

at_end-stop : round two_steps false send done_web ≡ stop at_end
unfolding round initial eqb next_ready heap_push push_all dispatch handle_result mem
at_end-stop = refl

at_end-finish : finish two_steps at_end ≡ applied
unfolding round initial eqb next_ready heap_push push_all dispatch handle_result mem finish
    all_dispatched
at_end-finish = refl

-- A failure of the first step leaves the second unsent.
abbrev net_fails : RunState
net_fails = after_next (round two_steps false (receive net true) sent_net)

net_fails-finish :
    finish two_steps (after_next (round two_steps false send net_fails)) ≡ failed_at net 0
unfolding round initial eqb next_ready heap_push push_all dispatch handle_result mem finish
    all_dispatched count_succeeded
net_fails-finish = refl

sent_web-dispatched : sent_web.dispatched web ≡ true
unfolding round initial eqb next_ready heap_push push_all dispatch handle_result mem
sent_web-dispatched = refl

lock_exclusion_example :
    (length sent_web.workers ≤ 2)
    × ((a : Bytes) → count a sent_web.workers ≤ 1)
    × ((a b : Bytes)
        → mem a sent_web.workers ≡ true
        → mem b sent_web.workers ≡ true
        → is_empty (two_steps.graph.locks a) ≡ false
        → two_steps.graph.locks a ≡ two_steps.graph.locks b
        → a ≡ b)
lock_exclusion_example = lock_exclusion two_steps-IsConfig sent_web-Reach

dispatched_after_done_example :
    (mem web two_steps.steps ≡ true)
    × (starts sent_web.events web ≡ 1)
    × ((p : Bytes)
        → mem p two_steps.steps ≡ true
        → mem web (two_steps.graph.dependents p) ≡ true
        → completed sent_web.events p ≡ true)
dispatched_after_done_example =
    dispatched_after_done two_steps-IsConfig sent_web-Reach web sent_web-dispatched

halted_round : round two_steps false drain (halt sent_web) ≡ next (halt sent_web)
unfolding round initial eqb next_ready heap_push push_all dispatch handle_result mem
halted_round = refl

round_halted_example :
    ((halt sent_web).halted ≡ true) × ((halt sent_web).dispatched ≡ (halt sent_web).dispatched)
round_halted_example = round_halted two_steps false drain (halt sent_web) refl halted_round

finish-completed_example :
    (finish two_steps at_end ≢ steps_left)
    × (finish two_steps at_end ≡ applied
        → (d : Bytes) → mem d two_steps.steps ≡ true
        → completed at_end.events d ≡ true)
finish-completed_example =
    finish-completed false send two_steps-IsConfig two_steps-IsAcyclic done_web-Reach at_end-stop

round_progress_example :
    ((polled : Bool)
      → (choice : Choice) × (choice ≢ drain) × (round two_steps polled choice sent_web ≢ blocked))
    × ((polled : Bool) (a : Bytes) (failed : Bool)
        → mem a sent_web.workers ≡ true
        → round two_steps polled (receive a failed) sent_web ≢ blocked)
    × ((polled : Bool) (choice : Choice) (t : RunState)
        → round two_steps polled choice sent_web ≡ next t
        → (measure two_steps t < measure two_steps sent_web)
          ⊎ ((choice ≡ drain)
              × (sent_web.halted ≡ true)
              × (sent_web.drained ≡ true)
              × (t ≡ sent_web)))
round_progress_example = round_progress two_steps-IsConfig (omega arith) sent_web-Reach
