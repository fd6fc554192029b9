-- ===== src/Apply/Schedule/Completion.antt =====
-- When the loop stops: a run that was not halted has applied every step, and the error for steps
-- left unread is never returned.
use unobin.Base.{
  ℕ, zero, suc, ◌<◌, Bool, true, false, not, ◌&&◌, ◌≡◌, ◌≢◌, inl, inr, refl, sym, ap, subst, ◌∙◌,
  Option, none, some, List, [], ◌∷◌, Bytes, eqb_iff, mem, arith, Bool-cases, count-mem-false,
  mem-length_zero, false≢true,
}
use unobin.Apply.Schedule.Queue.{queued}
use unobin.Apply.Schedule.State.{Config, RunState}
use unobin.Apply.Schedule.Loop.{Choice, stop, Reach, round}
use unobin.Apply.Schedule.Result.{applied, steps_left, all_dispatched, result_of, finish}
use unobin.Apply.Schedule.Invariant.Defs.{IsConfig, Inv, pending, completed, owed_by}
use unobin.Apply.Schedule.Invariant.Rounds.{Keeps, AtStop, round-Keeps}
use unobin.Apply.Schedule.Invariant.Reachable.{Reach-Inv}

-- No step depends on itself through the edges: a rank falls along each of them.
pub record IsAcyclic (cfg : Config) : Type 0 where
  pub rank : Bytes → ℕ
  pub falls : (p d : Bytes) → mem d (cfg.graph.dependents p) ≡ true → rank p < rank d

-- The loop has stopped in state `t`.
pub record Stopped (cfg : Config) (t : RunState) : Type 0 where
  pub inv : Inv cfg t
  pub at_stop : AtStop t

pub stop-Stopped :
    {cfg : Config} {s t : RunState} (polled : Bool) (choice : Choice)
    → IsConfig cfg
    → Reach cfg s
    → round cfg polled choice s ≡ stop t
    → Stopped cfg t
stop-Stopped {cfg} {s} polled choice ok r e =
    let (inv, at) = subst (Keeps cfg) e (round-Keeps ok polled choice s (Reach-Inv ok r)) in
    record { inv = inv; at_stop = at }

-- A step with pending edges has a predecessor that is not done.
pending-pred :
    (deps : Bytes → List Bytes) (done : Bytes → Bool) (ps : List Bytes) (d : Bytes)
    → pending deps done ps d ≢ 0
    → (p : Bytes) × (mem p ps ≡ true) × (done p ≡ false) × (mem d (deps p) ≡ true)
unfolding pending mem
pending-pred deps done [] d h = absurd (h refl)
pending-pred deps done (q ∷ ps) d h = elim (Bool-cases (mem d (deps q) && not (done q))) [
  | inl here ↦ (q, ground (arith, eqb_iff q q), ground arith, ground arith)
  | inr past ↦
      let (p, m, fresh, edge) =
        pending-pred deps done ps d (λ z. h (ground (arith, count-mem-false d (deps q)))) in
      (p, rw m (ground arith), fresh, edge)
]

module _ {cfg : Config} {t : RunState} (stopped : Stopped cfg t) where
  open stopped use {inv, at_stop}

  no_worker : (a : Bytes) → mem a t.workers ≡ false
  no_worker a = mem-length_zero a t.workers (omega (arith, inv.workers_inv.counter, at_stop.0))

  no_lock : (l : Bytes) → t.held_locks l ≡ false
  no_lock l = elim (Bool-cases (t.held_locks l)) [
    | inl held ↦
        let (a, worker, _, _) = inv.workers_inv.owner l held in
        absurd (false≢true (sym (no_worker a) ∙ worker))
    | inr free ↦ free
  ]

  module _ (acyclic : IsAcyclic cfg) (running : t.halted ≡ false) where
    empty_queue : t.ready ≡ []
    empty_queue = ground arith

    not_failed : (a : Bytes) → t.failed a ≡ false
    not_failed a = ground (arith, inv.fates_inv.stopped a)

    -- A step that was sent is done.
    done_of_dispatched : (a : Bytes) → t.dispatched a ≡ true → completed t.events a ≡ true
    done_of_dispatched a h = ground (arith, inv.fates_inv.fate a, no_worker a, not_failed a)

    waits_for_edge :
        (d : Bytes) → mem d cfg.steps ≡ true → t.dispatched d ≡ false → owed_by cfg t d ≢ 0
    unfolding queued
    waits_for_edge d m u o = ground (
      arith,
      inv.queues_inv.cover d,
      inv.queues_inv.waiting_ok (cfg.graph.locks d) d,
      no_lock (cfg.graph.locks d),
      ap (queued d) empty_queue,
    )

    sent_below :
        (n : ℕ) (d : Bytes) → acyclic.rank d < n → mem d cfg.steps ≡ true → t.dispatched d ≡ true
    sent_below zero d h m = absurd (omega arith)
    sent_below (suc n) d h m = elim (Bool-cases (t.dispatched d)) [
      | inl sent ↦ sent
      | inr left ↦
          let (p, mp, fresh, edge) =
            pending-pred cfg.graph.dependents (completed t.events) cfg.steps d
              (waits_for_edge d m left) in
          let sent : t.dispatched p ≡ true =
            sent_below n p (omega (arith, acyclic.falls p d edge)) mp in
          absurd (false≢true (sym fresh ∙ done_of_dispatched p sent))
    ]

    pub completed_at_stop : (d : Bytes) → mem d cfg.steps ≡ true → completed t.events d ≡ true
    completed_at_stop d m =
        done_of_dispatched d (sent_below (suc (acyclic.rank d)) d (omega arith) m)

    sent_at_stop :
        (xs : List Bytes)
        → ((d : Bytes) → mem d xs ≡ true → mem d cfg.steps ≡ true)
        → all_dispatched xs t.dispatched ≡ true
    unfolding all_dispatched mem
    sent_at_stop [] inside = refl
    sent_at_stop (x ∷ xs) inside =
        let sent : t.dispatched x ≡ true =
          sent_below (suc (acyclic.rank x)) x (omega arith)
            (inside x (ground (arith, eqb_iff x x))) in
        rw sent (sent_at_stop xs (λ d m. inside d (ground arith)))

  -- Without a failure and without a drain the loop was not halted.
  not_halted : t.first_fail ≡ none → t.drained ≡ false → t.halted ≡ false
  not_halted f d = ground (arith, inv.fates_inv.cause)

result_of-applied :
    (cfg : Config) (f : Option Bytes) (s : RunState)
    → result_of cfg f s ≡ applied
    → (f ≡ none) × (s.drained ≡ false)
unfolding result_of
result_of-applied cfg none s h = ground arith
result_of-applied cfg (some a) s h = cc

result_of-steps_left :
    (cfg : Config) (f : Option Bytes) (s : RunState)
    → result_of cfg f s ≡ steps_left
    → (f ≡ none) × (s.drained ≡ false) × (all_dispatched cfg.steps s.dispatched ≡ false)
unfolding result_of
result_of-steps_left cfg none s h = ground arith
result_of-steps_left cfg (some a) s h = cc

-- For steps with distinct addresses, in-degrees that count the edges, and edges with no cycle: when
-- the loop stops behind a reachable state, `runApplySchedule` does not return the error for steps
-- left unread, and if it returns nil, every step of the plan has a `done` event.
pub finish-completed :
    {cfg : Config} {s t : RunState} (polled : Bool) (choice : Choice)
    → IsConfig cfg
    → IsAcyclic cfg
    → Reach cfg s
    → round cfg polled choice s ≡ stop t
    → (finish cfg t ≢ steps_left)
      × (finish cfg t ≡ applied
          → (d : Bytes) → mem d cfg.steps ≡ true
          → completed t.events d ≡ true)
unfolding finish
finish-completed {cfg} {t = t} polled choice ok acyclic r e = (
  (λ h.
      let (f, d, left) = result_of-steps_left cfg t.first_fail t h in
      absurd (
        false≢true
          (sym left ∙ sent_at_stop stopped acyclic (not_halted stopped f d) cfg.steps (λ x m. m)))),
  (λ h.
      let (f, d) = result_of-applied cfg t.first_fail t h in
      completed_at_stop stopped acyclic (not_halted stopped f d)),
)
  where
    stopped : Stopped cfg t
    stopped = stop-Stopped polled choice ok r e
