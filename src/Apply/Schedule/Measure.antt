-- ===== src/Apply/Schedule/Measure.antt =====
-- All rounds but repeated reads of a closed `Drain` use up a measure.
use unobin.Base.{
  update, ℕ, ◌+◌, ◌≤◌, ◌<◌, Bool, true, false, ◌≡◌, ◌⊎◌, inl, inr, refl, sym, ap, ◌∙◌, Option, none,
  some, List, [], ◌∷◌, if◌then◌else◌, if_elim, ltb, ◌==◌, Bytes, eqb_iff, eqb_self, mem, length,
  arith, Bool-cases,
}
use unobin.Apply.Schedule.Queue.{ReadyItem, queued}
use unobin.Apply.Schedule.State.{Config, RunState, dispatch, next_ready}
use unobin.Apply.Schedule.Loop.{
  Choice, send, receive, drain, Round, stop, next, blocked, halt, initial, remove_one, take_result,
  select_idle, wait_round, select_step, offer, round,
}
use unobin.Apply.Schedule.Invariant.Defs.{IsConfig, Distinct, Inv}
use unobin.Apply.Schedule.Invariant.Queues.{queued-heap_push}
use unobin.Apply.Schedule.Invariant.Remove.{length-remove_one}
use unobin.Apply.Schedule.Invariant.NextReady.{
  pushed_back, push_back, Offered, next_ready-frame, next_ready-QueuesInv,
}
use unobin.Apply.Schedule.Invariant.Fates.{
  handle_result-dispatched, handle_result-workers, handle_result-halted, handle_result-drained,
}
use unobin.Apply.Schedule.Invariant.Rounds.{next_ready-Inv}

-- The steps that were not sent.
pub unsent : (Bytes → Bool) → List Bytes → ℕ
unsent dispatched [] = 0
unsent dispatched (a ∷ as') = (if dispatched a then 0 else 1) + unsent dispatched as'

abbrev flag : Bool → ℕ
flag b = if b then 0 else 1

-- Two for each step that was not sent, one for each that is in flight, and one for each flag that
-- can still be set.
pub measure : Config → RunState → ℕ
unfolding unsent
measure cfg s =
    unsent s.dispatched cfg.steps
    + unsent s.dispatched cfg.steps
    + length s.workers
    + flag s.halted
    + flag s.drained

unsent-none : (as' : List Bytes) → unsent (λ a. false) as' ≡ length as'
unfolding unsent
unsent-none [] = refl
unsent-none (a ∷ as') = omega (arith, unsent-none as')

pub measure-initial :
    (cfg : Config) → measure cfg (initial cfg) ≡ length cfg.steps + length cfg.steps + 2
unfolding measure initial
measure-initial cfg = omega (arith, unsent-none cfg.steps)

unsent-same :
    (dispatched : Bytes → Bool) (a : Bytes) (xs : List Bytes)
    → mem a xs ≡ false
    → unsent (update dispatched a true) xs ≡ unsent dispatched xs
unfolding unsent mem
unsent-same dispatched a [] h = refl
unsent-same dispatched a (x ∷ xs) h =
    ground (arith, eqb_iff a x, eqb_iff x a, unsent-same dispatched a xs)

unsent-update :
    (dispatched : Bytes → Bool) (a : Bytes) (xs : List Bytes)
    → Distinct xs
    → mem a xs ≡ true
    → dispatched a ≡ false
    → unsent (update dispatched a true) xs + 1 ≡ unsent dispatched xs
unfolding unsent mem
unsent-update dispatched a [] ds h f = cc
unsent-update dispatched a (x ∷ xs) (out, ds) h f =
    ground (
      arith,
      eqb_iff a x,
      eqb_iff x a,
      unsent-same dispatched a xs,
      unsent-update dispatched a xs ds,
    )

-- The measure of the state after the round is below `n`.
abbrev Below : Config → ℕ → Round → Type 0
Below cfg n (next t) = measure cfg t < n
Below cfg n (stop t) = Unit
Below cfg n blocked = Unit

module _ (cfg : Config) where
  take_result-Below :
      (s : RunState) (a : Bytes) (failed : Bool)
      → Below cfg (measure cfg s) (take_result cfg a failed s)
  unfolding take_result measure
  take_result-Below s a failed =
      if_elim (Below cfg (measure cfg s)) (mem a s.workers) _ _
        (λ worker.
          rw
            (
              handle_result-dispatched cfg a (before a) failed,
              handle_result-workers cfg a (before a) failed,
              handle_result-halted cfg a (before a) failed,
              handle_result-drained cfg a (before a) failed,
            )
            (ground (arith, length-remove_one a s.workers worker)))
        (λ _. tt)
    where
      before : Bytes → RunState
      before a = record s { workers = remove_one a s.workers }

  dispatch-Below :
      (s : RunState) (a : Bytes)
      → Distinct cfg.steps
      → mem a cfg.steps ≡ true
      → s.dispatched a ≡ false
      → measure cfg (dispatch cfg a s) < measure cfg s
  unfolding dispatch measure
  dispatch-Below s a ds m fresh = omega (arith, unsent-update s.dispatched a cfg.steps ds m fresh)

  measure-halt : (s : RunState) → measure cfg (halt s) ≤ measure cfg s
  unfolding measure
  measure-halt s = ground arith

  measure-halt_lt : (s : RunState) → s.halted ≡ false → measure cfg (halt s) < measure cfg s
  unfolding measure
  measure-halt_lt s h = ground arith

  measure-drain_lt : (s : RunState) → s.drained ≡ false → measure cfg (halt s) < measure cfg s
  unfolding measure
  measure-drain_lt s h = ground arith

  -- The round uses the measure up, or reads a `Drain` that it has read before, with no effect.
  abbrev pub Falls : RunState → Choice → Round → Type 0
  Falls s choice (next t) =
      (measure cfg t < measure cfg s)
      ⊎ ((choice ≡ drain) × (s.halted ≡ true) × (s.drained ≡ true) × (t ≡ s))
  Falls s choice (stop t) = Unit
  Falls s choice blocked = Unit

  Below-Falls :
      (s : RunState) (choice : Choice) (n : ℕ) (r : Round)
      → n ≤ measure cfg s
      → Below cfg n r
      → Falls s choice r
  Below-Falls s choice n (next t) h k = inl (omega arith)
  Below-Falls s choice n (stop t) h k = tt
  Below-Falls s choice n blocked h k = tt

  halted-Falls :
      (choice : Choice) (s : RunState) → s.halted ≡ true → Falls s choice (wait_round cfg choice s)
  unfolding wait_round select_idle
  halted-Falls choice s h =
      if_elim (Falls s choice) (s.in_flight == 0) _ _ (λ _. tt) (λ _. waits choice)
    where
      waits : (choice : Choice) → Falls s choice (select_idle cfg choice s)
      waits send = tt
      waits (receive a failed) =
          Below-Falls s (receive a failed) (measure cfg s) _ (omega arith)
            (take_result-Below s a failed)
      waits drain = elim (Bool-cases s.drained) [
        | inl again ↦
            inr (refl, h, again, λ i. record s { halted = sym h i; drained = sym again i })
        | inr first ↦ inl (measure-drain_lt s first)
      ]

  -- A wait behind a poll that found `Drain` closed, or with no step to send.
  going-Below :
      (choice : Choice) (s : RunState)
      → s.halted ≡ false
      → Below cfg (measure cfg s) (wait_round cfg choice s)
  unfolding wait_round select_idle
  going-Below choice s h =
      if_elim (Below cfg (measure cfg s)) (s.in_flight == 0) _ _ (λ _. tt) (λ _. waits choice)
    where
      waits : (choice : Choice) → Below cfg (measure cfg s) (select_idle cfg choice s)
      waits send = tt
      waits (receive a failed) = take_result-Below s a failed
      waits drain = measure-halt_lt s h

  Below-le : (m n : ℕ) (r : Round) → m ≤ n → Below cfg m r → Below cfg n r
  Below-le m n (next t) h k = omega arith
  Below-le m n (stop t) h k = tt
  Below-le m n blocked h k = tt

  polled-Below :
      (choice : Choice) (s : RunState)
      → s.halted ≡ false
      → Below cfg (measure cfg s) (wait_round cfg choice (halt s))
  unfolding wait_round select_idle
  polled-Below choice s h =
      if_elim (Below cfg (measure cfg s)) (s.in_flight == 0) _ _ (λ _. tt) (λ _. waits choice)
    where
      waits : (choice : Choice) → Below cfg (measure cfg s) (select_idle cfg choice (halt s))
      waits send = tt
      waits (receive a failed) =
          Below-le (measure cfg (halt s)) (measure cfg s) _ (measure-halt s)
            (take_result-Below (halt s) a failed)
      waits drain = measure-halt_lt s h

  item_queued : (s : RunState) (item : ReadyItem) → queued item.step (push_back item s).ready ≡ true
  item_queued s item = rw (queued-heap_push item.step item s.ready) (rw (eqb_self item.step))

  offer-Below :
      (choice : Choice) (r : RunState × Option ReadyItem)
      → Distinct cfg.steps
      → r.0.halted ≡ false
      → Inv cfg (pushed_back r)
      → Offered cfg r
      → Below cfg (measure cfg r.0) (offer cfg choice r)
  unfolding offer select_step
  offer-Below choice (s, none) ds h inv off = going-Below choice s h
  offer-Below send (s, some item) ds h inv (fresh, free) =
      if_elim (Below cfg (measure cfg s)) (ltb (length s.workers) cfg.parallelism) _ _
        (λ _.
          dispatch-Below s item.step ds (inv.queues_inv.ready_ok item.step (item_queued s item)).0
            fresh)
        (λ _. tt)
  offer-Below (receive a failed) (s, some item) ds h inv off =
      unfold measure in take_result-Below (push_back item s) a failed
  offer-Below drain (s, some item) ds h inv off =
      unfold measure in measure-halt_lt (push_back item s) h

  next_ready-measure : (s : RunState) → measure cfg (next_ready cfg s).0 ≡ measure cfg s
  unfolding measure
  next_ready-measure s = ap (measure cfg) (next_ready-frame cfg s)

  pub round-Falls :
      (ok : IsConfig cfg) (polled : Bool) (choice : Choice) (s : RunState)
      → Inv cfg s
      → Falls s choice (round cfg polled choice s)
  unfolding round
  round-Falls ok polled choice s inv =
      if_elim (Falls s choice) s.halted _ _ (halted-Falls choice s) (λ going.
        if_elim (Falls s choice) polled _ _
          (λ _. Below-Falls s choice (measure cfg s) _ (omega arith) (polled-Below choice s going))
          (λ _.
            Below-Falls s choice (measure cfg (next_ready cfg s).0) _
              (omega (arith, next_ready-measure s))
              (offer-Below choice (next_ready cfg s) ok.distinct
                (ap (λ t. t.halted) (next_ready-frame cfg s) ∙ going) (next_ready-Inv ok s inv)
                (next_ready-QueuesInv cfg s _ inv.queues_inv).1)))
