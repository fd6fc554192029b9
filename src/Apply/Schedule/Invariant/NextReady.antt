-- ===== src/Apply/Schedule/Invariant/NextReady.antt =====
-- `nextReady` drops items of steps that were sent, moves items whose lock is held to the queue of
-- the lock, and returns the first that is left.
use unobin.Base.{
  ℕ, true, false, ◌≡◌, refl, Option, none, some, [], ◌∷◌, if_elim, Bytes, eqb_iff, arith,
}
use unobin.Apply.Schedule.Queue.{ReadyItem, ReadyQueue, heap_push, queued}
use unobin.Apply.Schedule.State.{
  Config, RunState, block_on_lock, is_blocked, next_ready_loop, next_ready,
}
use unobin.Apply.Schedule.Invariant.Defs.{QueuesInv}
use unobin.Apply.Schedule.Invariant.Queues.{queued-heap_push}

-- The state with the item back in the queue.
abbrev pub push_back : ReadyItem → RunState → RunState
push_back item s = record s { ready = heap_push item s.ready }

abbrev pub pushed_back : RunState × Option ReadyItem → RunState
pushed_back (s, none) = s
pushed_back (s, some item) = push_back item s

-- What is known of the result.
abbrev pub Offered : Config → RunState × Option ReadyItem → Type 0
Offered cfg (s, none) = s.ready ≡ []
Offered cfg (s, some item) = (s.dispatched item.step ≡ false) × (is_blocked cfg s item.step ≡ false)

module _ {cfg : Config} (owed : Bytes → ℕ) (s : RunState) (x : ReadyItem) (q : ReadyQueue)
    (inv : QueuesInv cfg owed (record s { ready = x ∷ q })) where
  drop_item : s.dispatched x.step ≡ true → QueuesInv cfg owed (record s { ready = q })
  unfolding queued
  drop_item sent = record {
    counted = inv.counted;
    ready_ok = λ a h. ground (arith, inv.ready_ok a);
    waiting_ok = inv.waiting_ok;
    cover = λ d m u o. ground (arith, eqb_iff x.step d, inv.cover d);
    dispatched_ok = inv.dispatched_ok;
  }

  found_item : QueuesInv cfg owed (record s { ready = heap_push x q })
  unfolding queued
  found_item = record {
    counted = inv.counted;
    ready_ok = λ a h. ground (arith, inv.ready_ok a, queued-heap_push a x q);
    waiting_ok = inv.waiting_ok;
    cover = λ d m u o. ground (arith, inv.cover d, queued-heap_push d x q);
    dispatched_ok = inv.dispatched_ok;
  }

  block_item :
      is_blocked cfg s x.step ≡ true
      → QueuesInv cfg owed (record (block_on_lock (cfg.graph.locks x.step) x s) { ready = q })
  unfolding queued block_on_lock
  block_item held = record {
    counted = inv.counted;
    ready_ok = λ a h. ground (arith, inv.ready_ok a);
    waiting_ok = λ l a h. ground (
      arith,
      eqb_iff (cfg.graph.locks x.step) l,
      eqb_iff x.step a,
      inv.waiting_ok l a,
      inv.ready_ok a,
      queued-heap_push a x (s.waiting_by_lock (cfg.graph.locks x.step)),
    );
    cover = λ d m u o. ground (
      arith,
      eqb_iff x.step d,
      eqb_iff (cfg.graph.locks x.step) (cfg.graph.locks d),
      inv.cover d,
      queued-heap_push d x (s.waiting_by_lock (cfg.graph.locks x.step)),
    );
    dispatched_ok = inv.dispatched_ok;
  }

pub next_ready_loop-QueuesInv :
    (cfg : Config) (owed : Bytes → ℕ) (q : ReadyQueue) (s : RunState)
    → QueuesInv cfg owed (record s { ready = q })
    → QueuesInv cfg owed (pushed_back (next_ready_loop cfg q s))
      × Offered cfg (next_ready_loop cfg q s)
unfolding next_ready_loop
next_ready_loop-QueuesInv cfg owed [] s inv = (inv, refl)
next_ready_loop-QueuesInv cfg owed (x ∷ q) s inv =
    if_elim Kept (s.dispatched x.step) _ _
      (λ sent. next_ready_loop-QueuesInv cfg owed q s (drop_item owed s x q inv sent))
      (λ fresh.
        if_elim Kept (is_blocked cfg s x.step) _ _
          (λ held.
            next_ready_loop-QueuesInv cfg owed q (block_on_lock (cfg.graph.locks x.step) x s)
              (block_item owed s x q inv held))
          (λ free. (found_item owed s x q inv, (fresh, free))))
  where
    Kept : RunState × Option ReadyItem → Type 0
    Kept r = QueuesInv cfg owed (pushed_back r) × Offered cfg r

-- All but the ready queue and the queues of the locks stays as it is.
abbrev Framed : RunState → RunState × Option ReadyItem → Type 0
Framed s r = r.0 ≡ record s { ready = r.0.ready; waiting_by_lock = r.0.waiting_by_lock }

next_ready_loop-frame :
    (cfg : Config) (q : ReadyQueue) (s : RunState) → Framed s (next_ready_loop cfg q s)
unfolding next_ready_loop block_on_lock
next_ready_loop-frame cfg [] s = refl
next_ready_loop-frame cfg (x ∷ q) s =
    if_elim (Framed s) (s.dispatched x.step) _ _ (λ _. next_ready_loop-frame cfg q s)
      (λ _.
        if_elim (Framed s) (is_blocked cfg s x.step) _ _
          (λ _. next_ready_loop-frame cfg q (block_on_lock (cfg.graph.locks x.step) x s))
          (λ _. refl))

module _ (cfg : Config) (s : RunState) where
  pub next_ready-frame : (next_ready cfg s).0 ≡ record s {
    ready = (next_ready cfg s).0.ready;
    waiting_by_lock = (next_ready cfg s).0.waiting_by_lock;
  }
  unfolding next_ready
  next_ready-frame = next_ready_loop-frame cfg s.ready s

  pub next_ready-QueuesInv :
      (owed : Bytes → ℕ)
      → QueuesInv cfg owed s
      → QueuesInv cfg owed (pushed_back (next_ready cfg s)) × Offered cfg (next_ready cfg s)
  unfolding next_ready
  next_ready-QueuesInv owed inv = next_ready_loop-QueuesInv cfg owed s.ready s inv
