-- ===== src/Apply/Schedule/Invariant/Defs.antt =====
-- The invariant of the scheduler, in three parts.
use unobin.Base.{
  ℕ, ◌+◌, ◌≤◌, Bool, true, false, ◌&&◌, ◌||◌, ◌≡◌, ◌≢◌, ◌⊎◌, List, [], ◌∷◌, if◌then◌else◌, Bytes,
  eqb, is_empty, mem, count, length, pos, none,
}
use unobin.Apply.Schedule.Queue.{queued}
use unobin.Apply.Schedule.State.{Config, RunState, ApplyEvent, ApplyStage, stage_start, stage_done}

abbrev pub Distinct : List Bytes → Type 0
Distinct [] = Unit
Distinct (x ∷ xs) = (mem x xs ≡ false) × Distinct xs

-- The edges into `d` from the steps that are not done.
unfoldable pub pending : (Bytes → List Bytes) → (Bytes → Bool) → List Bytes → Bytes → ℕ
pending dependents done [] d = 0
pending dependents done (p ∷ ps) d =
    (if done p then 0 else count d (dependents p)) + pending dependents done ps d

abbrev pub is_done : ApplyStage → Bool
is_done stage_done = true
is_done _ = false

abbrev pub is_start : ApplyStage → Bool
is_start stage_start = true
is_start _ = false

-- Whether the events hold a `done` of the step.
unfoldable pub completed : List ApplyEvent → Bytes → Bool
completed [] a = false
completed (e ∷ es) a = is_done e.stage && eqb e.address a || completed es a

-- How many `start` events the step has.
unfoldable pub starts : List ApplyEvent → Bytes → ℕ
starts [] a = 0
starts (e ∷ es) a = (if is_start e.stage && eqb e.address a then 1 else 0) + starts es a

-- The steps of a plan have distinct addresses, and the in-degree of a step counts its edges.
pub record IsConfig (cfg : Config) : Type 0 where
  pub distinct : Distinct cfg.steps
  pub counted :
      (d : Bytes) → cfg.graph.indegree d ≡ pending cfg.graph.dependents (λ _. false) cfg.steps d

-- The workers and the locks.
pub record WorkersInv (cfg : Config) (s : RunState) : Type 0 where
  pub counter : s.in_flight ≡ length s.workers
  pub width : length s.workers ≤ cfg.parallelism
  pub unique : (a : Bytes) → count a s.workers ≤ 1
  pub started : (a : Bytes) → mem a s.workers ≡ true → s.dispatched a ≡ true
  pub held :
      (a : Bytes)
      → mem a s.workers ≡ true
      → is_empty (cfg.graph.locks a) ≡ false
      → s.held_locks (cfg.graph.locks a) ≡ true
  pub exclusive :
      (a b : Bytes)
      → mem a s.workers ≡ true
      → mem b s.workers ≡ true
      → is_empty (cfg.graph.locks a) ≡ false
      → cfg.graph.locks a ≡ cfg.graph.locks b
      → a ≡ b
  pub owner :
      (l : Bytes)
      → s.held_locks l ≡ true
      → (a : Bytes) × (mem a s.workers ≡ true) × (cfg.graph.locks a ≡ l) × (is_empty l ≡ false)

-- The queues, where `owed d` edges into `d` have not been counted down.
pub record QueuesInv (cfg : Config) (owed : Bytes → ℕ) (s : RunState) : Type 0 where
  pub counted : (d : Bytes) → s.indegree d ≡ pos (owed d)
  pub ready_ok : (a : Bytes) → queued a s.ready ≡ true → (mem a cfg.steps ≡ true) × (owed a ≡ 0)
  pub waiting_ok :
      (l a : Bytes)
      → queued a (s.waiting_by_lock l) ≡ true
      → (mem a cfg.steps ≡ true) × (owed a ≡ 0) × (s.held_locks l ≡ true)
  pub cover :
      (d : Bytes)
      → mem d cfg.steps ≡ true
      → s.dispatched d ≡ false
      → owed d ≡ 0
      → (queued d s.ready ≡ true) ⊎ (queued d (s.waiting_by_lock (cfg.graph.locks d)) ≡ true)
  pub dispatched_ok : (d : Bytes) → s.dispatched d ≡ true → (mem d cfg.steps ≡ true) × (owed d ≡ 0)

-- What has become of the steps that were dispatched.
pub record FatesInv (s : RunState) : Type 0 where
  pub once : (a : Bytes) → starts s.events a ≡ (if s.dispatched a then 1 else 0)
  pub done_ok :
      (a : Bytes)
      → completed s.events a ≡ true
      → (s.dispatched a ≡ true) × (mem a s.workers ≡ false)
  pub fate :
      (a : Bytes)
      → s.dispatched a ≡ true
      → (mem a s.workers ≡ true) ⊎ (completed s.events a ≡ true) ⊎ (s.failed a ≡ true)
  pub stopped : (a : Bytes) → s.failed a ≡ true → (s.halted ≡ true) × (s.first_fail ≢ none)
  pub cause : s.halted ≡ true → (s.drained ≡ true) ⊎ (s.first_fail ≢ none)

-- The edges that the completed steps leave.
abbrev pub owed_by : Config → RunState → Bytes → ℕ
owed_by cfg s = pending cfg.graph.dependents (completed s.events) cfg.steps

pub record Inv (cfg : Config) (s : RunState) : Type 0 where
  pub workers_inv : WorkersInv cfg s
  pub queues_inv : QueuesInv cfg (owed_by cfg s) s
  pub fates_inv : FatesInv s
