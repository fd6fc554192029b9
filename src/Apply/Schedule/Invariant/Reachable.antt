-- ===== src/Apply/Schedule/Invariant/Reachable.antt =====
-- The invariant holds in every state that the loop reaches.
use unobin.Base.{
  ◌&&◌, ◌||◌, ◌≡◌, inl, refl, subst, List, [], ◌∷◌, ◌==◌, Bytes, eqb_iff, mem, count, arith,
}
use unobin.Apply.Schedule.Queue.{ReadyQueue, heap_push, queued}
use unobin.Apply.Schedule.State.{Config, RunState, item_for}
use unobin.Apply.Schedule.Loop.{push_roots, initial, Reach, start, later}
use unobin.Apply.Schedule.Invariant.Defs.{
  IsConfig, WorkersInv, QueuesInv, FatesInv, Inv, owed_by, completed, starts,
}
use unobin.Apply.Schedule.Invariant.Queues.{queued-heap_push}
use unobin.Apply.Schedule.Invariant.Rounds.{Keeps, round-Keeps}

queued-push_roots :
    (cfg : Config) (a : Bytes) (xs : List Bytes) (q : ReadyQueue)
    → queued a (push_roots cfg xs q) ≡ (queued a q || mem a xs && (cfg.graph.indegree a == 0))
unfolding push_roots mem
queued-push_roots cfg a [] q = ground arith
queued-push_roots cfg a (x ∷ xs) q = ground (
  arith,
  eqb_iff x a,
  queued-push_roots cfg a xs q,
  queued-push_roots cfg a xs (heap_push (item_for cfg x) q),
  queued-heap_push a (item_for cfg x) q,
)

module _ (cfg : Config) (ok : IsConfig cfg) where
  initial-WorkersInv : WorkersInv cfg (initial cfg)
  unfolding initial mem count
  initial-WorkersInv = record {
    counter = refl;
    width = omega arith;
    unique = λ a. omega arith;
    started = λ a h. cc;
    held = λ a h f. cc;
    exclusive = λ a b h k f e. cc;
    owner = λ l h. cc;
  }

  initial-QueuesInv : QueuesInv cfg (owed_by cfg (initial cfg)) (initial cfg)
  unfolding initial completed queued
  initial-QueuesInv = record {
    counted = λ d. rw (ok.counted d);
    ready_ok = λ a h. ground (arith, queued-push_roots cfg a cfg.steps [], ok.counted a);
    waiting_ok = λ l a h. cc;
    cover = λ d m u o. inl (ground (arith, queued-push_roots cfg d cfg.steps [], ok.counted d));
    dispatched_ok = λ d h. cc;
  }

  initial-FatesInv : FatesInv (initial cfg)
  unfolding initial completed starts mem
  initial-FatesInv = record {
    once = λ a. refl;
    done_ok = λ a h. cc;
    fate = λ a h. cc;
    stopped = λ a h. cc;
    cause = λ h. cc;
  }

  pub initial-Inv : Inv cfg (initial cfg)
  initial-Inv = record {
    workers_inv = initial-WorkersInv;
    queues_inv = initial-QueuesInv;
    fates_inv = initial-FatesInv;
  }

pub Reach-Inv : {cfg : Config} {s : RunState} → IsConfig cfg → Reach cfg s → Inv cfg s
Reach-Inv {cfg} ok start = initial-Inv cfg ok
Reach-Inv {cfg} ok (later {s} polled choice r e) =
    subst (Keeps cfg) e (round-Keeps ok polled choice s (Reach-Inv ok r))
