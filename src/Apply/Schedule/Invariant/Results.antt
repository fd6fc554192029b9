-- ===== src/Apply/Schedule/Invariant/Results.antt =====
-- A send and a result keep the invariant of the queues.
use unobin.Base.{
  ℕ, Bool, true, false, ◌||◌, ◌≡◌, ap, ◌∙◌, ◌∷◌, if◌then◌else◌, Bytes, eqb, eqb_iff, mem, arith,
}
use unobin.Apply.Schedule.Queue.{ReadyItem, queued}
use unobin.Apply.Schedule.State.{
  Config, RunState, dispatch, settle, emit, ApplyStage, stage_done, stage_fail, fail_step,
  handle_result,
}
use unobin.Apply.Schedule.Invariant.Defs.{QueuesInv, IsConfig, owed_by, pending, completed}
use unobin.Apply.Schedule.Invariant.Queues.{queued-heap_push, queued-push_all}
use unobin.Apply.Schedule.Invariant.Owed.{pending_complete}
use unobin.Apply.Schedule.Invariant.Promote.{
  with_edges, QueuesInv-owed, promote-QueuesInv, promote-frame,
}
use unobin.Apply.Schedule.Invariant.NextReady.{push_back}

module _ {cfg : Config} (owed : Bytes → ℕ) (s : RunState) (item : ReadyItem)
    (inv : QueuesInv cfg owed (push_back item s)) where
  pub dispatch-QueuesInv : QueuesInv cfg owed (dispatch cfg item.step s)
  unfolding dispatch
  dispatch-QueuesInv = record {
    counted = inv.counted;
    ready_ok = λ a h. ground (arith, inv.ready_ok a, queued-heap_push a item s.ready);
    waiting_ok = λ l a h. ground (arith, inv.waiting_ok l a);
    cover = λ d m u o.
        ground (arith, eqb_iff item.step d, inv.cover d, queued-heap_push d item s.ready);
    dispatched_ok = λ d h. ground (
      arith,
      eqb_iff item.step d,
      inv.dispatched_ok d,
      inv.ready_ok d,
      queued-heap_push d item s.ready,
    );
  }

pub settle-QueuesInv :
    {cfg : Config} (owed : Bytes → ℕ) (s : RunState) (a : Bytes)
    → QueuesInv cfg owed s
    → QueuesInv cfg owed (settle cfg a s)
unfolding settle queued
settle-QueuesInv {cfg} owed s a inv = record {
  counted = λ d. ground (arith, inv.counted d);
  ready_ok = λ b h. ground (
    arith,
    inv.ready_ok b,
    inv.waiting_ok (cfg.graph.locks a) b,
    queued-push_all b (s.waiting_by_lock (cfg.graph.locks a)) s.ready,
  );
  waiting_ok = λ l b h. ground (arith, inv.waiting_ok l b, eqb_iff (cfg.graph.locks a) l);
  cover = λ d m u o. ground (
    arith,
    inv.cover d,
    eqb_iff (cfg.graph.locks a) (cfg.graph.locks d),
    queued-push_all d (s.waiting_by_lock (cfg.graph.locks a)) s.ready,
  );
  dispatched_ok = λ d h. ground (arith, inv.dispatched_ok d);
}

settle-events : (cfg : Config) (a : Bytes) (s : RunState) → (settle cfg a s).events ≡ s.events
unfolding settle
settle-events cfg a s = ground arith

-- An event, and the flags of a failure, do not touch the queues.
emit-QueuesInv :
    {cfg : Config} {owed : Bytes → ℕ} {s : RunState} (a : Bytes) (stage : ApplyStage)
    → QueuesInv cfg owed s
    → QueuesInv cfg owed (emit a stage s)
emit-QueuesInv a stage inv = record {
  counted = inv.counted;
  ready_ok = inv.ready_ok;
  waiting_ok = inv.waiting_ok;
  cover = inv.cover;
  dispatched_ok = inv.dispatched_ok;
}

fail_step-QueuesInv :
    {cfg : Config} {owed : Bytes → ℕ} {s : RunState} (a : Bytes)
    → QueuesInv cfg owed s
    → QueuesInv cfg owed (fail_step a s)
unfolding fail_step
fail_step-QueuesInv a inv = record {
  counted = inv.counted;
  ready_ok = inv.ready_ok;
  waiting_ok = inv.waiting_ok;
  cover = inv.cover;
  dispatched_ok = inv.dispatched_ok;
}

-- The events that `handleResult` leaves.
pub handle_result-events :
    (cfg : Config) (s : RunState) (a : Bytes) (failed : Bool)
    → (handle_result cfg a failed s).events
      ≡ record { address = a; stage = if failed then stage_fail else stage_done } ∷ s.events
unfolding handle_result fail_step
handle_result-events cfg s a true = rw (settle-events cfg a s)
handle_result-events cfg s a false =
    ap (λ t. t.events)
      (promote-frame cfg (cfg.graph.dependents a) (emit a stage_done (settle cfg a s)))
    ∙ rw (settle-events cfg a s)

module _ {cfg : Config} (s : RunState) (a : Bytes) (ok : IsConfig cfg) (m : mem a cfg.steps ≡ true)
    (fresh : completed s.events a ≡ false) where
  -- The pending edges when `a` is done.
  abbrev left_by : Bytes → ℕ
  left_by = pending cfg.graph.dependents (λ x. eqb a x || completed s.events x) cfg.steps

  owed-left_by : (d : Bytes) → owed_by cfg s d ≡ with_edges (cfg.graph.dependents a) left_by d
  owed-left_by d = omega (
    arith,
    pending_complete cfg.graph.dependents (completed s.events) a cfg.steps d ok.distinct m fresh,
  )

  handle_result-fail :
      QueuesInv cfg (owed_by cfg s) s → QueuesInv cfg (owed_by cfg s) (handle_result cfg a true s)
  unfolding handle_result
  handle_result-fail inv = fail_step-QueuesInv a (settle-QueuesInv (owed_by cfg s) s a inv)

  handle_result-done :
      QueuesInv cfg (owed_by cfg s) s → QueuesInv cfg left_by (handle_result cfg a false s)
  unfolding handle_result
  handle_result-done inv = promote-QueuesInv cfg left_by (cfg.graph.dependents a) _ (
      QueuesInv-owed owed-left_by
        (emit-QueuesInv a stage_done (settle-QueuesInv (owed_by cfg s) s a inv)))

  -- What `handleResult` leaves to be counted down is what the completed steps leave.
  pub handle_result-QueuesInv :
      (failed : Bool)
      → QueuesInv cfg (owed_by cfg s) s
      → QueuesInv cfg (owed_by cfg (handle_result cfg a failed s)) (handle_result cfg a failed s)
  unfolding completed
  handle_result-QueuesInv true inv =
      QueuesInv-owed (λ d. rw (handle_result-events cfg s a true)) (handle_result-fail inv)
  handle_result-QueuesInv false inv =
      QueuesInv-owed (λ d. rw (handle_result-events cfg s a false)) (handle_result-done inv)
