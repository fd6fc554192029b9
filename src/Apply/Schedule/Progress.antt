-- ===== src/Apply/Schedule/Progress.antt =====
-- The cases that a round of `runApplySchedule` can take.
use unobin.Base.{
  ◌<◌, Bool, true, false, ◌≡◌, ◌≢◌, ◌⊎◌, refl, ap, subst, ◌∙◌, Option, none, some, List, [], ◌∷◌,
  if_elim, ltb, ◌==◌, Bytes, eqb_self, mem, length, arith,
}
use unobin.Apply.Schedule.Queue.{ReadyItem}
use unobin.Apply.Schedule.State.{Config, RunState, next_ready}
use unobin.Apply.Schedule.Loop.{
  Choice, send, receive, drain, Round, stop, next, blocked, Reach, halt, take_result, select_idle,
  wait_round, select_step, offer, round,
}
use unobin.Apply.Schedule.Invariant.Defs.{IsConfig}
use unobin.Apply.Schedule.Invariant.NextReady.{push_back, next_ready-frame}
use unobin.Apply.Schedule.Invariant.Reachable.{Reach-Inv}
use unobin.Apply.Schedule.Measure.{measure, Falls, round-Falls}

module _ (cfg : Config) where
  -- Some case is not blocked.
  abbrev Proceeds : Round → Type 0
  Proceeds (next t) = Unit
  Proceeds (stop t) = Unit
  Proceeds blocked = ⊥

  Proceeds-ne-blocked : (r : Round) → Proceeds r → r ≢ blocked
  Proceeds-ne-blocked (next t) h e = cc
  Proceeds-ne-blocked (stop t) h e = cc
  Proceeds-ne-blocked blocked h e = h

  open_choice : List Bytes → Choice
  open_choice [] = send
  open_choice (a ∷ as') = receive a false

  open_choice-ne-drain : (workers : List Bytes) → open_choice workers ≢ drain
  unfolding open_choice
  open_choice-ne-drain [] e = cc
  open_choice-ne-drain (a ∷ as') e = cc

  take_result-Proceeds :
      (s : RunState) (a : Bytes) (failed : Bool)
      → mem a s.workers ≡ true
      → Proceeds (take_result cfg a failed s)
  unfolding take_result
  take_result-Proceeds s a failed h = rw h tt

  wait_round-receive :
      (s : RunState) (a : Bytes) (failed : Bool)
      → mem a s.workers ≡ true
      → Proceeds (wait_round cfg (receive a failed) s)
  unfolding wait_round select_idle
  wait_round-receive s a failed h =
      if_elim Proceeds (s.in_flight == 0) _ _ (λ _. tt) (λ _. take_result-Proceeds s a failed h)

  offer-receive :
      (r : RunState × Option ReadyItem) (a : Bytes) (failed : Bool)
      → mem a r.0.workers ≡ true
      → Proceeds (offer cfg (receive a failed) r)
  unfolding offer select_step
  offer-receive (s, none) a failed h = wait_round-receive s a failed h
  offer-receive (s, some item) a failed h = take_result-Proceeds (push_back item s) a failed h

  framed :
      (s : RunState)
      → (next_ready cfg s).0 ≡ record s {
        ready = (next_ready cfg s).0.ready;
        waiting_by_lock = (next_ready cfg s).0.waiting_by_lock;
      }
  framed s = next_ready-frame cfg s

  round-receive :
      (polled : Bool) (s : RunState) (a : Bytes) (failed : Bool)
      → mem a s.workers ≡ true
      → Proceeds (round cfg polled (receive a failed) s)
  unfolding round
  round-receive polled s a failed h =
      if_elim Proceeds s.halted _ _ (λ _. wait_round-receive s a failed h)
        (λ _.
          if_elim Proceeds polled _ _ (λ _. wait_round-receive (halt s) a failed h)
            (λ _.
              offer-receive (next_ready cfg s) a failed (ap (λ t. mem a t.workers) (framed s) ∙ h)))

  -- With no worker at work, nothing is in flight, and a step can be sent.
  wait_round-idle : (s : RunState) → s.in_flight ≡ 0 → Proceeds (wait_round cfg send s)
  unfolding wait_round
  wait_round-idle s c = rw c tt

  offer-idle :
      (r : RunState × Option ReadyItem)
      → 0 < cfg.parallelism
      → length r.0.workers ≡ 0
      → r.0.in_flight ≡ 0
      → Proceeds (offer cfg send r)
  unfolding offer select_step
  offer-idle (s, none) h l c = wait_round-idle s c
  offer-idle (s, some item) h l c =
      if_elim Proceeds (ltb (length s.workers) cfg.parallelism) _ _ (λ _. tt)
        (λ full. absurd (ground arith))

  round-idle :
      (polled : Bool) (s : RunState)
      → 0 < cfg.parallelism
      → length s.workers ≡ 0
      → s.in_flight ≡ 0
      → Proceeds (round cfg polled send s)
  unfolding round
  round-idle polled s h l c =
      if_elim Proceeds s.halted _ _ (λ _. wait_round-idle s c)
        (λ _.
          if_elim Proceeds polled _ _ (λ _. wait_round-idle (halt s) c)
            (λ _.
              offer-idle (next_ready cfg s) h (ap (λ t. length t.workers) (framed s) ∙ l)
                (ap (λ t. t.in_flight) (framed s) ∙ c)))

  round-Proceeds :
      (polled : Bool) (s : RunState) (workers : List Bytes)
      → 0 < cfg.parallelism
      → s.workers ≡ workers
      → s.in_flight ≡ length s.workers
      → Proceeds (round cfg polled (open_choice workers) s)
  unfolding open_choice
  round-Proceeds polled s [] h e c = round-idle polled s h (ap length e) (c ∙ ap length e)
  round-Proceeds polled s (a ∷ as') h e c =
      round-receive polled s a false (ap (mem a) e ∙ unfold mem in rw (eqb_self a))

-- For steps with distinct addresses, in-degrees that count the edges, and at least one worker, in
-- every reachable state, whatever the poll finds: some case of the round's `select` that is no read
-- of `Drain` can be taken, unless the loop stops; the answer of every worker that holds a step can
-- be taken, unless the loop stops; and every round that goes on lowers the measure, but for a read
-- of a closed `Drain` when the loop is halted and drained already, which changes nothing.
pub round_progress :
    {cfg : Config} {s : RunState}
    → IsConfig cfg
    → 0 < cfg.parallelism
    → Reach cfg s
    → ((polled : Bool)
        → (choice : Choice) × (choice ≢ drain) × (round cfg polled choice s ≢ blocked))
      × ((polled : Bool) (a : Bytes) (failed : Bool)
          → mem a s.workers ≡ true
          → round cfg polled (receive a failed) s ≢ blocked)
      × ((polled : Bool) (choice : Choice) (t : RunState)
          → round cfg polled choice s ≡ next t
          → (measure cfg t < measure cfg s)
            ⊎ ((choice ≡ drain) × (s.halted ≡ true) × (s.drained ≡ true) × (t ≡ s)))
round_progress {cfg} {s} ok h r =
    let inv = Reach-Inv ok r in
    (
      λ polled. (
        open_choice cfg s.workers,
        open_choice-ne-drain cfg s.workers,
        Proceeds-ne-blocked cfg _
            (round-Proceeds cfg polled s s.workers h refl inv.workers_inv.counter),
      ),
      λ polled a failed m. Proceeds-ne-blocked cfg _ (round-receive cfg polled s a failed m),
      λ polled choice t e. subst (Falls cfg s choice) e (round-Falls cfg ok polled choice s inv),
    )
