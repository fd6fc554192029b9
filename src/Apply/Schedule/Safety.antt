-- ===== src/Apply/Schedule/Safety.antt =====
-- What holds in every state that the loop reaches, whatever the workers and the runtime do.
use unobin.Base.{
  ◌≤◌, Bool, true, false, ◌≡◌, refl, sym, List, [], ◌∷◌, if◌then◌else◌, if_elim, Bytes, eqb_iff,
  is_empty, mem, count, length, arith, mem-count_zero, false≢true, ◌∙◌, subst, ◌==◌,
}
use unobin.Apply.Schedule.State.{Config, RunState}
use unobin.Apply.Schedule.Loop.{
  Choice, send, receive, drain, Round, stop, next, blocked, Reach, round, wait_round, select_idle,
  take_result, remove_one,
}
use unobin.Apply.Schedule.Invariant.Defs.{IsConfig, pending, completed, starts}
use unobin.Apply.Schedule.Invariant.Fates.{handle_result-dispatched, handle_result-halted}
use unobin.Apply.Schedule.Invariant.Reachable.{Reach-Inv}

-- For steps with distinct addresses and in-degrees that count the edges, in every reachable state:
-- at most `parallelism` steps are in the hands of workers, each step is in the hands of at most one,
-- and two steps under the same named lock that are in the hands of workers are the same step.
pub lock_exclusion :
    {cfg : Config} {s : RunState}
    → IsConfig cfg
    → Reach cfg s
    → (length s.workers ≤ cfg.parallelism)
      × ((a : Bytes) → count a s.workers ≤ 1)
      × ((a b : Bytes)
          → mem a s.workers ≡ true
          → mem b s.workers ≡ true
          → is_empty (cfg.graph.locks a) ≡ false
          → cfg.graph.locks a ≡ cfg.graph.locks b
          → a ≡ b)
lock_exclusion ok r =
    let w = (Reach-Inv ok r).workers_inv in
    (w.width, λ a. w.unique a, λ a b ha hb filled same. w.exclusive a b ha hb filled same)

pending-done :
    (deps : Bytes → List Bytes) (done : Bytes → Bool) (ps : List Bytes) (p d : Bytes)
    → pending deps done ps d ≡ 0
    → mem p ps ≡ true
    → mem d (deps p) ≡ true
    → done p ≡ true
unfolding pending mem
pending-done deps done [] p d h m e = cc
pending-done deps done (q ∷ ps) p d h m e =
    ground (arith, eqb_iff q p, mem-count_zero d (deps p), pending-done deps done ps p d)

-- For steps with distinct addresses and in-degrees that count the edges, in every reachable state:
-- a step that was sent to a worker is a step of the plan, has exactly one `start` event, and every
-- step of the plan that it depends on has a `done` event.
pub dispatched_after_done :
    {cfg : Config} {s : RunState}
    → IsConfig cfg
    → Reach cfg s
    → (d : Bytes) → s.dispatched d ≡ true
    → (mem d cfg.steps ≡ true)
      × (starts s.events d ≡ 1)
      × ((p : Bytes)
          → mem p cfg.steps ≡ true
          → mem d (cfg.graph.dependents p) ≡ true
          → completed s.events p ≡ true)
dispatched_after_done {cfg} {s} ok r d sent =
    let inv = Reach-Inv ok r in
    let settled = inv.queues_inv.dispatched_ok d sent in
    (
      settled.0,
      ground (arith, inv.fates_inv.once d),
      λ p m e. pending-done cfg.graph.dependents (completed s.events) cfg.steps p d settled.1 m e,
    )

abbrev SameSent : RunState → Round → Type 0
SameSent s (next t) = (t.halted ≡ true) × (t.dispatched ≡ s.dispatched)
SameSent s (stop t) = (t.halted ≡ true) × (t.dispatched ≡ s.dispatched)
SameSent s blocked = Unit

take_result-SameSent :
    (cfg : Config) (s : RunState) (a : Bytes) (failed : Bool)
    → s.halted ≡ true
    → SameSent s (take_result cfg a failed s)
unfolding take_result
take_result-SameSent cfg s a failed h =
    if_elim (SameSent s) (mem a s.workers) _ _
      (λ _. (
        handle_result-halted cfg a (record s { workers = remove_one a s.workers }) failed
            ∙ stays failed,
        handle_result-dispatched cfg a (record s { workers = remove_one a s.workers }) failed,
      ))
      (λ _. tt)
  where
    stays : (failed : Bool) → (if failed then true else s.halted) ≡ true
    stays true = refl
    stays false = h

-- A round of a halted loop, whatever is chosen, leaves it halted and sends no step.
pub round_halted :
    (cfg : Config) (polled : Bool) (choice : Choice) (s : RunState) {t : RunState}
    → s.halted ≡ true
    → round cfg polled choice s ≡ next t
    → (t.halted ≡ true) × (t.dispatched ≡ s.dispatched)
unfolding round wait_round select_idle
round_halted cfg polled choice s h e = subst (SameSent s) e (
    if_elim (SameSent s) s.halted _ _ (λ _. waits choice)
      (λ going. absurd (false≢true (sym going ∙ h))))
  where
    waits : (choice : Choice) → SameSent s (wait_round cfg choice s)
    waits send = if_elim (SameSent s) (s.in_flight == 0) _ _ (λ _. (h, refl)) (λ _. tt)
    waits (receive a failed) =
        if_elim (SameSent s) (s.in_flight == 0) _ _ (λ _. (h, refl))
          (λ _. take_result-SameSent cfg s a failed h)
    waits drain = if_elim (SameSent s) (s.in_flight == 0) _ _ (λ _. (h, refl)) (λ _. (refl, refl))
