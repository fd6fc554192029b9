-- ===== src/Apply/Schedule/Loop.antt =====
-- The loop of `runApplySchedule`, one round at a time. What the runtime and the workers decide is an
-- argument: whether the poll finds `Drain` closed, and which case a `select` takes.
use unobin.Base.{
  Bool, true, false, Option, none, some, List, [], ◌∷◌, ltb, ◌==◌, if◌then◌else◌, Bytes, eqb, mem,
  pos, ◌≡◌, length,
}
use unobin.Apply.Schedule.Queue.{ReadyItem, ReadyQueue, heap_push}
use unobin.Apply.Schedule.State.{Config, RunState, item_for, next_ready, handle_result, dispatch}

-- A case of a `select`. `receive a failed`: the worker that holds `a` answers. `drain`: `Drain` is
-- closed by the time of the `select`, whatever the poll before it found.
pub data Choice : Type 0 where
  send : Choice
  receive : Bytes → Bool → Choice
  drain : Choice

-- `blocked`: no goroutine is ready for the case, so that the `select` cannot take it.
pub data Round : Type 0 where
  stop : RunState → Round
  next : RunState → Round
  blocked : Round

abbrev pub halt : RunState → RunState
halt s = record s { halted = true; drained = true }

-- A worker that has answered waits for the next step.
unfoldable pub remove_one : Bytes → List Bytes → List Bytes
remove_one a [] = []
remove_one a (x ∷ xs) = if eqb x a then xs else x ∷ remove_one a xs

-- `case r := <-results`
unfoldable pub take_result : Config → Bytes → Bool → RunState → Round
unfolding remove_one
take_result cfg a failed s =
    if mem a s.workers
    then next (handle_result cfg a failed (record s { workers = remove_one a s.workers }))
    else blocked

-- The `select` with no step to send.
unfoldable pub select_idle : Config → Choice → RunState → Round
unfolding take_result
select_idle cfg send s = blocked
select_idle cfg (receive a failed) s = take_result cfg a failed s
select_idle cfg drain s = next (halt s)

-- `if inFlight == 0 { break }`, and the `select` behind it.
unfoldable pub wait_round : Config → Choice → RunState → Round
unfolding select_idle
wait_round cfg choice s = if s.in_flight == 0 then stop s else select_idle cfg choice s

-- The `select` with a step to send. A send needs a worker that waits for a step.
unfoldable pub select_step : Config → Choice → ReadyItem → RunState → Round
unfolding take_result
select_step cfg send item s =
    if ltb (length s.workers) cfg.parallelism then next (dispatch cfg item.step s) else blocked
select_step cfg (receive a failed) item s =
    take_result cfg a failed (record s { ready = heap_push item s.ready })
select_step cfg drain item s = next (halt (record s { ready = heap_push item s.ready }))

unfoldable pub offer : Config → Choice → RunState × Option ReadyItem → Round
unfolding wait_round select_step
offer cfg choice (s, none) = wait_round cfg choice s
offer cfg choice (s, some item) = select_step cfg choice item s

-- One round of the loop; `polled` is what the first `select` finds.
unfoldable pub round : Config → Bool → Choice → RunState → Round
unfolding offer
round cfg polled choice s =
    if s.halted
    then wait_round cfg choice s
    else if polled
    then wait_round cfg choice (halt s)
    else offer cfg choice (next_ready cfg s)

-- The first loop over the steps: the steps with no predecessor are ready.
unfoldable pub push_roots : Config → List Bytes → ReadyQueue → ReadyQueue
push_roots cfg [] q = q
push_roots cfg (a ∷ as') q =
    push_roots cfg as' (if cfg.graph.indegree a == 0 then heap_push (item_for cfg a) q else q)

-- The variables before the loop.
unfoldable pub initial : Config → RunState
unfolding push_roots
initial cfg = record {
  indegree = λ a. pos (cfg.graph.indegree a);
  dispatched = λ a. false;
  ready = push_roots cfg cfg.steps [];
  first_fail = none;
  halted = false;
  drained = false;
  in_flight = 0;
  held_locks = λ a. false;
  waiting_by_lock = λ a. [];
  failed = λ a. false;
  events = [];
  workers = [];
}

-- The states that the loop can be in at the head of a round.
pub data Reach (cfg : Config) : RunState → Type 0 where
  start : Reach cfg (initial cfg)
  later :
      {s t : RunState} (polled : Bool) (choice : Choice)
      → Reach cfg s
      → round cfg polled choice s ≡ next t
      → Reach cfg t
