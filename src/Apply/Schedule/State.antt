-- ===== src/Apply/Schedule/State.antt =====
-- The variables of `runApplySchedule`, and its closures. Times, and the fields of an event that are
-- copied from the step, are left out.
use unobin.Base.{
  update, ℕ, ◌+◌, ◌-◌, Bool, true, false, Option, none, some, List, [], ◌∷◌, not, ◌&&◌,
  if◌then◌else◌, Bytes, eqb, is_empty, mem, ℤ, decrement, is_zero,
}
use unobin.Apply.Graph.{StepGraph}
use unobin.Apply.Schedule.Queue.{ReadyItem, ReadyQueue, heap_push, push_all}

pub data ApplyStage : Type 0 where
  stage_start stage_done stage_fail : ApplyStage

pub record ApplyEvent : Type 0 where
  pub address : Bytes
  pub stage : ApplyStage

-- What does not change: the graph, the addresses of `pf.Steps`, and the number of workers.
pub record Config : Type 0 where
  pub graph : StepGraph
  pub steps : List Bytes
  pub parallelism : ℕ

-- `workers` holds the steps that worker goroutines have received and have not answered. `events`
-- has the latest event first. `first_fail` is the address in `firstFail`.
pub record RunState : Type 0 where
  pub indegree : Bytes → ℤ
  pub dispatched : Bytes → Bool
  pub ready : ReadyQueue
  pub first_fail : Option Bytes
  pub halted : Bool
  pub drained : Bool
  pub in_flight : ℕ
  pub held_locks : Bytes → Bool
  pub waiting_by_lock : Bytes → ReadyQueue
  pub failed : Bytes → Bool
  pub events : List ApplyEvent
  pub workers : List Bytes

-- `stepIndex[addr]`: the last position of the address.
unfoldable pub step_index : List Bytes → ℕ → ℕ → Bytes → ℕ
step_index [] i found a = found
step_index (x ∷ xs) i found a = step_index xs (i + 1) (if eqb x a then i else found) a

abbrev pub item_for : Config → Bytes → ReadyItem
item_for cfg a = record { step = a; index = step_index cfg.steps 0 0 a }

abbrev pub emit : Bytes → ApplyStage → RunState → RunState
emit a stage s = record s { events = record { address = a; stage = stage } ∷ s.events }

-- `enqueueReady`
unfoldable pub enqueue_ready : Config → Bytes → RunState → RunState
enqueue_ready cfg a s =
    if mem a cfg.steps then record s { ready = heap_push (item_for cfg a) s.ready } else s

-- `blockOnLock`
unfoldable pub block_on_lock : Bytes → ReadyItem → RunState → RunState
block_on_lock lock item s = record s {
  waiting_by_lock = update s.waiting_by_lock lock (heap_push item (s.waiting_by_lock lock));
}

-- `releaseLock`
unfoldable pub release_lock : Bytes → RunState → RunState
release_lock lock s = record s {
  held_locks = update s.held_locks lock false;
  ready = push_all (s.waiting_by_lock lock) s.ready;
  waiting_by_lock = update s.waiting_by_lock lock [];
}

-- Whether `nextReady` has to leave the step: `lock != "" && heldLocks[lock]`.
abbrev pub is_blocked : Config → RunState → Bytes → Bool
is_blocked cfg s a = not (is_empty (cfg.graph.locks a)) && s.held_locks (cfg.graph.locks a)

-- The loop of `nextReady`, on what is left of the ready queue.
unfoldable pub next_ready_loop : Config → ReadyQueue → RunState → RunState × Option ReadyItem
unfolding block_on_lock
next_ready_loop cfg [] s = (record s { ready = [] }, none)
next_ready_loop cfg (item ∷ q) s =
    let skip = next_ready_loop cfg q s in
    let block = next_ready_loop cfg q (block_on_lock (cfg.graph.locks item.step) item s) in
    if s.dispatched item.step
    then skip
    else if is_blocked cfg s item.step
    then block
    else (record s { ready = q }, some item)

-- `nextReady`
unfoldable pub next_ready : Config → RunState → RunState × Option ReadyItem
unfolding next_ready_loop
next_ready cfg s = next_ready_loop cfg s.ready s

-- One round of the loop over `graph.dependents` in `handleResult`.
unfoldable pub promote_one : Config → Bytes → RunState → RunState
unfolding enqueue_ready
promote_one cfg dep s =
    let lowered = record s { indegree = update s.indegree dep (decrement (s.indegree dep)) } in
    if is_zero (lowered.indegree dep) then enqueue_ready cfg dep lowered else lowered

unfoldable pub promote : Config → List Bytes → RunState → RunState
unfolding promote_one
promote cfg [] s = s
promote cfg (dep ∷ deps) s = promote cfg deps (promote_one cfg dep s)

-- The head of `handleResult`: `inFlight--`, and the lock of the step.
unfoldable pub settle : Config → Bytes → RunState → RunState
unfolding release_lock
settle cfg a s =
    let counted = record s { in_flight = s.in_flight - 1 } in
    let lock = cfg.graph.locks a in if is_empty lock then counted else release_lock lock counted

-- `if firstErr == nil`
abbrev pub or_first : Option Bytes → Bytes → Option Bytes
or_first none a = some a
or_first (some f) a = some f

-- The branch of `handleResult` for an error.
unfoldable pub fail_step : Bytes → RunState → RunState
fail_step a s = record (emit a stage_fail s) {
  failed = update s.failed a true;
  first_fail = or_first s.first_fail a;
  halted = true;
}

-- `handleResult`; the flag is `r.err != nil`.
unfoldable pub handle_result : Config → Bytes → Bool → RunState → RunState
unfolding settle fail_step promote
handle_result cfg a true s = fail_step a (settle cfg a s)
handle_result cfg a false s =
    promote cfg (cfg.graph.dependents a) (emit a stage_done (settle cfg a s))

-- `case ready <- next.step`
unfoldable pub dispatch : Config → Bytes → RunState → RunState
dispatch cfg a s =
    let lock = cfg.graph.locks a in
    record (emit a stage_start s) {
      dispatched = update s.dispatched a true;
      in_flight = s.in_flight + 1;
      held_locks = if is_empty lock then s.held_locks else update s.held_locks lock true;
      workers = a ∷ s.workers;
    }
