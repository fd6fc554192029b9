-- ===== src/Apply/Schedule/Invariant/Workers.antt =====
-- A send and a result keep the invariant of the workers and the locks.
use unobin.Base.{
  ◌<◌, true, false, not, ◌&&◌, ◌≡◌, inl, inr, ◌∷◌, Bytes, eqb, eqb_iff, is_empty, mem, count,
  length, arith, Bool-cases, count-mem-false,
}
use unobin.Apply.Schedule.State.{Config, RunState, is_blocked, dispatch, settle}
use unobin.Apply.Schedule.Loop.{remove_one}
use unobin.Apply.Schedule.Invariant.Defs.{WorkersInv}
use unobin.Apply.Schedule.Invariant.Remove.{mem-remove_one, count-remove_one, length-remove_one}

module _ {cfg : Config} {s : RunState} (a : Bytes) (inv : WorkersInv cfg s) where
  module _ (fresh : s.dispatched a ≡ false) (free : is_blocked cfg s a ≡ false) where
    new_worker : mem a s.workers ≡ false
    new_worker = ground (arith, inv.started a)

    dispatch-exclusive :
        (b c : Bytes)
        → mem b (a ∷ s.workers) ≡ true
        → mem c (a ∷ s.workers) ≡ true
        → is_empty (cfg.graph.locks b) ≡ false
        → cfg.graph.locks b ≡ cfg.graph.locks c
        → b ≡ c
    unfolding mem
    dispatch-exclusive b c hb hc filled same =
        ground (arith, eqb_iff a b, eqb_iff a c, inv.exclusive b c, inv.held b, inv.held c)

    dispatch-owner :
        (l : Bytes)
        → (dispatch cfg a s).held_locks l ≡ true
        → (b : Bytes) × (mem b (a ∷ s.workers) ≡ true)
          × (cfg.graph.locks b ≡ l)
          × (is_empty l ≡ false)
    unfolding dispatch mem
    dispatch-owner l h = elim (Bool-cases (s.held_locks l)) [
      | inl old ↦
          let (b, worker, lock, filled) = inv.owner l old in
          (b, rw worker (ground arith), lock, filled)
      | inr new ↦ (
        a,
        ground (arith, eqb_iff a a),
        ground (arith, eqb_iff (cfg.graph.locks a) l),
        ground (arith, eqb_iff (cfg.graph.locks a) l),
      )
    ]

    pub dispatch-WorkersInv : length s.workers < cfg.parallelism → WorkersInv cfg (dispatch cfg a s)
    unfolding dispatch mem count
    dispatch-WorkersInv room = record {
      counter = omega (arith, inv.counter);
      width = room;
      unique =
          λ b. ground (arith, eqb_iff a b, inv.unique b, count-mem-false a s.workers, new_worker);
      started = λ b h. ground (arith, eqb_iff a b, inv.started b);
      held = λ b h f.
          ground (arith, eqb_iff a b, inv.held b, eqb_iff (cfg.graph.locks a) (cfg.graph.locks b));
      exclusive = dispatch-exclusive;
      owner = dispatch-owner;
    }

  -- The state in which `handleResult` runs: the worker is free again.
  abbrev pub answered : RunState
  answered = record s { workers = remove_one a s.workers }

  module _ (worker : mem a s.workers ≡ true) where
    gone : (b : Bytes) → mem b (remove_one a s.workers) ≡ (mem b s.workers && not (eqb a b))
    gone b = mem-remove_one a b s.workers (inv.unique a)

    settle-held :
        (b : Bytes)
        → mem b (remove_one a s.workers) ≡ true
        → is_empty (cfg.graph.locks b) ≡ false
        → (settle cfg a answered).held_locks (cfg.graph.locks b) ≡ true
    unfolding settle
    settle-held b h f = ground (
      arith,
      gone b,
      eqb_iff a b,
      inv.held b,
      inv.exclusive a b,
      eqb_iff (cfg.graph.locks a) (cfg.graph.locks b),
    )

    settle-owner :
        (l : Bytes)
        → (settle cfg a answered).held_locks l ≡ true
        → (b : Bytes) × (mem b (remove_one a s.workers) ≡ true)
          × (cfg.graph.locks b ≡ l)
          × (is_empty l ≡ false)
    unfolding settle
    settle-owner l h =
        let (b, old, lock, filled) = inv.owner l (was_held l h) in
        (b, ground (arith, gone b, eqb_iff a b, eqb_iff (cfg.graph.locks a) l), lock, filled)
      where
        was_held : (l : Bytes) → (settle cfg a answered).held_locks l ≡ true → s.held_locks l ≡ true
        was_held l h = ground arith

    settle-counter : (settle cfg a answered).in_flight ≡ length (remove_one a s.workers)
    unfolding settle
    settle-counter = ground (arith, inv.counter, length-remove_one a s.workers worker)

    settle-workers : (settle cfg a answered).workers ≡ remove_one a s.workers
    unfolding settle
    settle-workers = ground arith

    settle-dispatched : (settle cfg a answered).dispatched ≡ s.dispatched
    unfolding settle
    settle-dispatched = ground arith

    pub settle-WorkersInv : WorkersInv cfg (settle cfg a answered)
    settle-WorkersInv = record {
      counter = rw settle-workers settle-counter;
      width = rw settle-workers (omega (arith, length-remove_one a s.workers worker, inv.width));
      unique = λ b. rw settle-workers (omega (arith, count-remove_one a b s.workers, inv.unique b));
      started = λ b h.
          rw settle-dispatched (ground (arith, rw settle-workers at h, gone b, inv.started b));
      held = λ b h f. settle-held b (rw settle-workers at h) f;
      exclusive = λ b c hb hc f e.
          inv.exclusive b c (ground (arith, rw settle-workers at hb, gone b))
            (ground (arith, rw settle-workers at hc, gone c)) f e;
      owner = λ l h. rw settle-workers (settle-owner l h);
    }
