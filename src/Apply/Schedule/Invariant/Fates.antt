-- ===== src/Apply/Schedule/Invariant/Fates.antt =====
-- A send and a result keep the account of the steps that were sent.
use unobin.Base.{
  update, Bool, true, false, not, ◌&&◌, ◌≡◌, ◌≢◌, ◌⊎◌, refl, ap, ◌∙◌, none, if◌then◌else◌, Bytes,
  eqb, eqb_iff, mem, arith,
}
use unobin.Apply.Schedule.State.{
  Config, RunState, dispatch, settle, emit, stage_done, fail_step, handle_result, or_first,
}
use unobin.Apply.Schedule.Loop.{remove_one}
use unobin.Apply.Schedule.Invariant.Defs.{FatesInv, WorkersInv, completed, starts}
use unobin.Apply.Schedule.Invariant.Remove.{mem-remove_one}
use unobin.Apply.Schedule.Invariant.Promote.{promote-frame}
use unobin.Apply.Schedule.Invariant.Results.{handle_result-events}

pub dispatch-FatesInv :
    (cfg : Config) (s : RunState) (a : Bytes)
    → s.dispatched a ≡ false
    → FatesInv s
    → FatesInv (dispatch cfg a s)
unfolding dispatch mem completed starts
dispatch-FatesInv cfg s a fresh inv = record {
  once = λ b. ground (arith, eqb_iff a b, inv.once b);
  done_ok = λ b h. ground (arith, eqb_iff a b, inv.done_ok b);
  fate = λ b h. ground (arith, eqb_iff a b, inv.fate b);
  stopped = λ b h. ground (arith, inv.stopped b);
  cause = inv.cause;
}

-- The fields that the account speaks of, behind `handleResult`.
module _ (cfg : Config) (a : Bytes) (s : RunState) where
  pub handle_result-workers : (failed : Bool) → (handle_result cfg a failed s).workers ≡ s.workers
  unfolding handle_result settle fail_step
  handle_result-workers true = ground arith
  handle_result-workers false =
      ap (λ t. t.workers)
        (promote-frame cfg (cfg.graph.dependents a) (emit a stage_done (settle cfg a s)))
      ∙ ground arith

  pub handle_result-dispatched :
      (failed : Bool) → (handle_result cfg a failed s).dispatched ≡ s.dispatched
  unfolding handle_result settle fail_step
  handle_result-dispatched true = ground arith
  handle_result-dispatched false =
      ap (λ t. t.dispatched)
        (promote-frame cfg (cfg.graph.dependents a) (emit a stage_done (settle cfg a s)))
      ∙ ground arith

  handle_result-failed :
      (failed : Bool)
      → (handle_result cfg a failed s).failed
        ≡ (if failed then update s.failed a true else s.failed)
  unfolding handle_result settle fail_step
  handle_result-failed true = ground arith
  handle_result-failed false =
      ap (λ t. t.failed)
        (promote-frame cfg (cfg.graph.dependents a) (emit a stage_done (settle cfg a s)))
      ∙ ground arith

  pub handle_result-halted :
      (failed : Bool) → (handle_result cfg a failed s).halted ≡ (if failed then true else s.halted)
  unfolding handle_result settle fail_step
  handle_result-halted true = refl
  handle_result-halted false =
      ap (λ t. t.halted)
        (promote-frame cfg (cfg.graph.dependents a) (emit a stage_done (settle cfg a s)))
      ∙ ground arith

  pub handle_result-first_fail :
      (failed : Bool)
      → (handle_result cfg a failed s).first_fail
        ≡ (if failed then or_first s.first_fail a else s.first_fail)
  unfolding handle_result settle fail_step
  handle_result-first_fail true = ground arith
  handle_result-first_fail false =
      ap (λ t. t.first_fail)
        (promote-frame cfg (cfg.graph.dependents a) (emit a stage_done (settle cfg a s)))
      ∙ ground arith

  pub handle_result-drained : (failed : Bool) → (handle_result cfg a failed s).drained ≡ s.drained
  unfolding handle_result settle fail_step
  handle_result-drained true = ground arith
  handle_result-drained false =
      ap (λ t. t.drained)
        (promote-frame cfg (cfg.graph.dependents a) (emit a stage_done (settle cfg a s)))
      ∙ ground arith

module _ {cfg : Config} {s : RunState} (a : Bytes) (failed : Bool) (w : WorkersInv cfg s)
    (inv : FatesInv s) (worker : mem a s.workers ≡ true) where
  abbrev before : RunState
  before = record s { workers = remove_one a s.workers }

  abbrev result : RunState
  result = handle_result cfg a failed before

  gone : (b : Bytes) → mem b (remove_one a s.workers) ≡ (mem b s.workers && not (eqb a b))
  gone b = mem-remove_one a b s.workers (w.unique a)

  result-once : (b : Bytes) → starts result.events b ≡ (if result.dispatched b then 1 else 0)
  unfolding starts
  result-once b =
      rw (handle_result-events cfg before a failed, handle_result-dispatched cfg a before failed)
        (ground (arith, inv.once b))

  result-done_ok :
      (b : Bytes)
      → completed result.events b ≡ true
      → (result.dispatched b ≡ true) × (mem b result.workers ≡ false)
  unfolding completed
  result-done_ok b h =
      rw (handle_result-dispatched cfg a before failed, handle_result-workers cfg a before failed)
        (ground (
          arith,
          rw (handle_result-events cfg before a failed) at h,
          eqb_iff a b,
          gone b,
          inv.done_ok b,
          w.started a,
        ))

  result-fate :
      (b : Bytes)
      → result.dispatched b ≡ true
      → (mem b result.workers ≡ true)
        ⊎ (completed result.events b ≡ true)
        ⊎ (result.failed b ≡ true)
  unfolding completed
  result-fate b h =
      rw
        (
          handle_result-events cfg before a failed,
          handle_result-workers cfg a before failed,
          handle_result-failed cfg a before failed,
        )
        (ground (
          arith,
          rw (handle_result-dispatched cfg a before failed) at h,
          eqb_iff a b,
          gone b,
          inv.fate b,
        ))

  result-stopped :
      (b : Bytes) → result.failed b ≡ true → (result.halted ≡ true) × (result.first_fail ≢ none)
  result-stopped b h =
      rw (handle_result-halted cfg a before failed, handle_result-first_fail cfg a before failed)
        (ground (arith, rw (handle_result-failed cfg a before failed) at h, inv.stopped b))

  result-cause : result.halted ≡ true → (result.drained ≡ true) ⊎ (result.first_fail ≢ none)
  result-cause h =
      rw (handle_result-drained cfg a before failed, handle_result-first_fail cfg a before failed)
        (ground (arith, rw (handle_result-halted cfg a before failed) at h, inv.cause))

  pub handle_result-FatesInv : FatesInv result
  handle_result-FatesInv = record {
    once = result-once;
    done_ok = result-done_ok;
    fate = result-fate;
    stopped = result-stopped;
    cause = result-cause;
  }
