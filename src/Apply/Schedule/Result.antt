-- ===== src/Apply/Schedule/Result.antt =====
-- What `runApplySchedule` returns behind its loop. `SkippedCount` is left out.
use unobin.Base.{
  ℕ, ◌+◌, Bool, true, false, not, ◌&&◌, Option, none, some, List, [], ◌∷◌, if◌then◌else◌, Bytes,
}
use unobin.Apply.Schedule.State.{Config, RunState}

pub data ApplyResult : Type 0 where
  applied : ApplyResult  -- nil
  failed_at : Bytes → (succeeded : ℕ) → ApplyResult  -- the `ApplyError` of `firstFail`
  interrupted : ApplyResult  -- `ErrInterrupted`
  steps_left : ApplyResult  -- "scheduler exited with steps left unread"

-- `countSucceeded`
unfoldable pub count_succeeded : List Bytes → (Bytes → Bool) → (Bytes → Bool) → ℕ
count_succeeded [] dispatched failed = 0
count_succeeded (a ∷ as') dispatched failed =
    (if dispatched a && not (failed a) then 1 else 0) + count_succeeded as' dispatched failed

-- `allDispatched`
unfoldable pub all_dispatched : List Bytes → (Bytes → Bool) → Bool
all_dispatched [] dispatched = true
all_dispatched (a ∷ as') dispatched =
    if not (dispatched a) then false else all_dispatched as' dispatched

-- `firstErr` is nil exactly when `firstFail` is.
unfoldable pub result_of : Config → Option Bytes → RunState → ApplyResult
result_of cfg (some a) s = failed_at a (count_succeeded cfg.steps s.dispatched s.failed)
result_of cfg none s =
    if s.drained
    then interrupted
    else if not (all_dispatched cfg.steps s.dispatched)
    then steps_left
    else applied

unfoldable pub finish : Config → RunState → ApplyResult
unfolding result_of
finish cfg s = result_of cfg s.first_fail s
