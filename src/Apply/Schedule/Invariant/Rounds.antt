-- ===== src/Apply/Schedule/Invariant/Rounds.antt =====
-- Every round of the loop keeps the invariant, and the loop stops only with nothing in flight.
use unobin.Base.{
  ℕ, ◌<◌, Bool, true, false, ◌≡◌, ◌⊎◌, inl, inr, refl, sym, ap, subst, Option, none, some, [],
  if_elim, ltb, ◌==◌, Bytes, mem, length, arith,
}
use unobin.Apply.Schedule.Queue.{ReadyItem, ReadyQueue, heap_push}
use unobin.Apply.Schedule.State.{
  Config, RunState, dispatch, settle, emit, stage_done, fail_step, handle_result, promote,
  next_ready, is_blocked,
}
use unobin.Apply.Schedule.Loop.{
  Choice, send, receive, drain, Round, stop, next, blocked, halt, remove_one, take_result,
  select_idle, wait_round, select_step, offer, round,
}
use unobin.Apply.Schedule.Invariant.Defs.{IsConfig, WorkersInv, QueuesInv, Inv, owed_by, completed}
use unobin.Apply.Schedule.Invariant.Promote.{promote-frame}
use unobin.Apply.Schedule.Invariant.NextReady.{
  push_back, pushed_back, Offered, next_ready-frame, next_ready-QueuesInv,
}
use unobin.Apply.Schedule.Invariant.Workers.{dispatch-WorkersInv, settle-WorkersInv}
use unobin.Apply.Schedule.Invariant.Results.{dispatch-QueuesInv, handle_result-QueuesInv}
use unobin.Apply.Schedule.Invariant.Fates.{dispatch-FatesInv, handle_result-FatesInv}

-- The parts of the state that the workers' invariant does not read.
reframe-WorkersInv :
    {cfg : Config} (s t : RunState)
    → t.in_flight ≡ s.in_flight
    → t.workers ≡ s.workers
    → t.dispatched ≡ s.dispatched
    → t.held_locks ≡ s.held_locks
    → WorkersInv cfg s
    → WorkersInv cfg t
reframe-WorkersInv s t e f g h inv = record {
  counter = rw (e, f) inv.counter;
  width = rw f inv.width;
  unique = rw f inv.unique;
  started = rw (f, g) inv.started;
  held = rw (f, h) inv.held;
  exclusive = rw f inv.exclusive;
  owner = rw (f, h) inv.owner;
}

handle_result-WorkersInv :
    {cfg : Config} {s : RunState} (a : Bytes) (failed : Bool)
    → WorkersInv cfg s
    → mem a s.workers ≡ true
    → WorkersInv cfg (handle_result cfg a failed (record s { workers = remove_one a s.workers }))
unfolding handle_result fail_step
handle_result-WorkersInv {cfg} {s} a true inv worker =
    reframe-WorkersInv (settle cfg a (record s { workers = remove_one a s.workers })) _ refl refl
      refl refl (settle-WorkersInv a inv worker)
handle_result-WorkersInv {cfg} {s} a false inv worker =
    reframe-WorkersInv (settle cfg a (record s { workers = remove_one a s.workers })) _
      (ap (λ t. t.in_flight) framed) (ap (λ t. t.workers) framed) (ap (λ t. t.dispatched) framed)
      (ap (λ t. t.held_locks) framed) (settle-WorkersInv a inv worker)
  where
    done : RunState
    done = emit a stage_done (settle cfg a (record s { workers = remove_one a s.workers }))

    framed : promote cfg (cfg.graph.dependents a) done ≡ record done {
      indegree = (promote cfg (cfg.graph.dependents a) done).indegree;
      ready = (promote cfg (cfg.graph.dependents a) done).ready;
    }
    framed = promote-frame cfg (cfg.graph.dependents a) done

-- The queues do not read the workers.
abbrev free_worker : Bytes → RunState → RunState
free_worker a s = record s { workers = remove_one a s.workers }

free_worker-QueuesInv :
    {cfg : Config} {owed : Bytes → ℕ} {s : RunState} (a : Bytes)
    → QueuesInv cfg owed s
    → QueuesInv cfg owed (free_worker a s)
free_worker-QueuesInv a inv = record {
  counted = inv.counted;
  ready_ok = inv.ready_ok;
  waiting_ok = inv.waiting_ok;
  cover = inv.cover;
  dispatched_ok = inv.dispatched_ok;
}

halt-Inv : {cfg : Config} {s : RunState} → Inv cfg s → Inv cfg (halt s)
halt-Inv {cfg} {s} inv = record {
  workers_inv = reframe-WorkersInv s (halt s) refl refl refl refl inv.workers_inv;
  queues_inv = record {
    counted = inv.queues_inv.counted;
    ready_ok = inv.queues_inv.ready_ok;
    waiting_ok = inv.queues_inv.waiting_ok;
    cover = inv.queues_inv.cover;
    dispatched_ok = inv.queues_inv.dispatched_ok;
  };
  fates_inv = record {
    once = inv.fates_inv.once;
    done_ok = inv.fates_inv.done_ok;
    fate = inv.fates_inv.fate;
    stopped = λ a h. (refl, (inv.fates_inv.stopped a h).1);
    cause = λ h. inl refl;
  };
}

-- Where the loop stops, nothing is in flight, and it was halted or had no step to send.
abbrev pub AtStop : RunState → Type 0
AtStop t = (t.in_flight ≡ 0) × ((t.halted ≡ true) ⊎ (t.ready ≡ []))

abbrev pub Keeps : Config → Round → Type 0
Keeps cfg (next t) = Inv cfg t
Keeps cfg (stop t) = Inv cfg t × AtStop t
Keeps cfg blocked = Unit

pushed_back-frame :
    (s : RunState) (r : RunState × Option ReadyItem)
    → r.0 ≡ record s { ready = r.0.ready; waiting_by_lock = r.0.waiting_by_lock }
    → pushed_back r ≡ record s {
      ready = (pushed_back r).ready;
      waiting_by_lock = (pushed_back r).waiting_by_lock;
    }
pushed_back-frame s (t, none) e = e
pushed_back-frame s (t, some item) e =
    ap {A = RunState} {B = RunState} (λ u. record u { ready = heap_push item t.ready }) e

module _ {cfg : Config} (ok : IsConfig cfg) where
  take_result-Keeps :
      (s : RunState) (a : Bytes) (failed : Bool)
      → Inv cfg s
      → Keeps cfg (take_result cfg a failed s)
  unfolding take_result
  take_result-Keeps s a failed inv = if_elim (Keeps cfg) (mem a s.workers) _ _ received (λ _. tt)
    where
      received : mem a s.workers ≡ true → Inv cfg (handle_result cfg a failed (free_worker a s))
      received worker = record {
        workers_inv = handle_result-WorkersInv a failed inv.workers_inv worker;
        queues_inv =
            handle_result-QueuesInv (free_worker a s) a ok
              (inv.queues_inv.dispatched_ok a (inv.workers_inv.started a worker)).0
              (ground (arith, inv.fates_inv.done_ok a)) failed
              (free_worker-QueuesInv a inv.queues_inv);
        fates_inv = handle_result-FatesInv a failed inv.workers_inv inv.fates_inv worker;
      }

  wait_round-Keeps :
      (choice : Choice) (s : RunState)
      → Inv cfg s
      → (s.halted ≡ true) ⊎ (s.ready ≡ [])
      → Keeps cfg (wait_round cfg choice s)
  unfolding wait_round select_idle
  wait_round-Keeps choice s inv idle =
      if_elim (Keeps cfg) (s.in_flight == 0) _ _ (λ e. (inv, (ground arith, idle)))
        (λ _. waits choice)
    where
      waits : (choice : Choice) → Keeps cfg (select_idle cfg choice s)
      waits send = tt
      waits (receive a failed) = take_result-Keeps s a failed inv
      waits drain = halt-Inv inv

  -- A step that only the queues see: `nextReady`, and a push of its item.
  requeued-Inv :
      (s : RunState) (q : ReadyQueue) (waiting : Bytes → ReadyQueue)
      → Inv cfg s
      → QueuesInv cfg (owed_by cfg s) (record s { ready = q; waiting_by_lock = waiting })
      → Inv cfg (record s { ready = q; waiting_by_lock = waiting })
  requeued-Inv s q waiting inv queues = record {
    workers_inv = reframe-WorkersInv s _ refl refl refl refl inv.workers_inv;
    queues_inv = queues;
    fates_inv = record {
      once = inv.fates_inv.once;
      done_ok = inv.fates_inv.done_ok;
      fate = inv.fates_inv.fate;
      stopped = inv.fates_inv.stopped;
      cause = inv.fates_inv.cause;
    };
  }

  dispatch-Inv :
      (s : RunState) (item : ReadyItem)
      → Inv cfg (push_back item s)
      → s.dispatched item.step ≡ false
      → is_blocked cfg s item.step ≡ false
      → length s.workers < cfg.parallelism
      → Inv cfg (dispatch cfg item.step s)
  dispatch-Inv s item inv fresh free room = record {
    workers_inv =
        dispatch-WorkersInv item.step
          (reframe-WorkersInv (push_back item s) s refl refl refl refl inv.workers_inv) fresh free
          room;
    queues_inv = dispatched;
    fates_inv = dispatch-FatesInv cfg s item.step fresh (record {
      once = inv.fates_inv.once;
      done_ok = inv.fates_inv.done_ok;
      fate = inv.fates_inv.fate;
      stopped = inv.fates_inv.stopped;
      cause = inv.fates_inv.cause;
    });
  }
    where
      dispatched : QueuesInv cfg (owed_by cfg (dispatch cfg item.step s)) (dispatch cfg item.step s)
      dispatched =
          unfold dispatch completed in dispatch-QueuesInv (owed_by cfg s) s item inv.queues_inv

  offer-Keeps :
      (choice : Choice) (r : RunState × Option ReadyItem)
      → Inv cfg (pushed_back r)
      → Offered cfg r
      → Keeps cfg (offer cfg choice r)
  unfolding offer select_step
  offer-Keeps choice (s, none) inv drained = wait_round-Keeps choice s inv (inr drained)
  offer-Keeps send (s, some item) inv (fresh, free) =
      if_elim (Keeps cfg) (ltb (length s.workers) cfg.parallelism) _ _
        (λ room. dispatch-Inv s item inv fresh free (ground arith)) (λ _. tt)
  offer-Keeps (receive a failed) (s, some item) inv off =
      take_result-Keeps (push_back item s) a failed inv
  offer-Keeps drain (s, some item) inv off = halt-Inv inv

  pub next_ready-Inv : (s : RunState) → Inv cfg s → Inv cfg (pushed_back (next_ready cfg s))
  next_ready-Inv s inv =
      let framed = pushed_back-frame s (next_ready cfg s) (next_ready-frame cfg s) in
      subst (Inv cfg) (sym framed) (
        requeued-Inv s _ _ inv (
          subst (QueuesInv cfg (owed_by cfg s)) framed
            (next_ready-QueuesInv cfg s (owed_by cfg s) inv.queues_inv).0))

  pub round-Keeps :
      (polled : Bool) (choice : Choice) (s : RunState)
      → Inv cfg s
      → Keeps cfg (round cfg polled choice s)
  unfolding round
  round-Keeps polled choice s inv =
      if_elim (Keeps cfg) s.halted _ _ (λ h. wait_round-Keeps choice s inv (inl h))
        (λ _.
          if_elim (Keeps cfg) polled _ _
            (λ _. wait_round-Keeps choice (halt s) (halt-Inv inv) (inl refl))
            (λ _.
              offer-Keeps choice (next_ready cfg s) (next_ready-Inv s inv)
                (next_ready-QueuesInv cfg s (owed_by cfg s) inv.queues_inv).1))
