-- ===== src/Apply/Schedule/Invariant/Promote.antt =====
-- The loop over the dependents of a step that is done: each round counts one edge down, and queues
-- the dependent whose last edge it was.
use unobin.Base.{
  ℕ, ◌+◌, true, false, ◌≡◌, ◌⊎◌, refl, ap, subst, fun_ext, ◌∙◌, List, [], ◌∷◌, Bytes, eqb_iff, mem,
  count, pos, arith,
}
use unobin.Apply.Schedule.Queue.{queued}
use unobin.Apply.Schedule.State.{Config, RunState, item_for, promote_one, promote}
use unobin.Apply.Schedule.Invariant.Defs.{QueuesInv}
use unobin.Apply.Schedule.Invariant.Queues.{queued-heap_push}

-- The edges still to be counted down, and those that remain after.
abbrev pub with_edges : List Bytes → (Bytes → ℕ) → Bytes → ℕ
with_edges deps owed d = count d deps + owed d

module _ {cfg : Config} (owed : Bytes → ℕ) {s : RunState} (dep : Bytes) (deps : List Bytes)
    (inv : QueuesInv cfg (with_edges (dep ∷ deps) owed) s) where
  promote_one-counted :
      (d : Bytes) → (promote_one cfg dep s).indegree d ≡ pos (with_edges deps owed d)
  unfolding promote_one count
  promote_one-counted d = ground (arith, eqb_iff dep d, inv.counted d, inv.counted dep)

  promote_one-ready :
      (a : Bytes)
      → queued a (promote_one cfg dep s).ready ≡ true
      → (mem a cfg.steps ≡ true) × (with_edges deps owed a ≡ 0)
  unfolding promote_one count
  promote_one-ready a h = ground (
    arith,
    eqb_iff dep a,
    inv.counted dep,
    inv.ready_ok a,
    queued-heap_push a (item_for cfg dep) s.ready,
  )

  promote_one-cover :
      (d : Bytes)
      → mem d cfg.steps ≡ true
      → (promote_one cfg dep s).dispatched d ≡ false
      → with_edges deps owed d ≡ 0
      → (queued d (promote_one cfg dep s).ready ≡ true)
        ⊎ (queued d ((promote_one cfg dep s).waiting_by_lock (cfg.graph.locks d)) ≡ true)
  unfolding promote_one count
  promote_one-cover d m u o = ground (
    arith,
    eqb_iff dep d,
    inv.counted dep,
    inv.cover d,
    queued-heap_push d (item_for cfg dep) s.ready,
  )

  promote_one-waiting :
      (l a : Bytes)
      → queued a ((promote_one cfg dep s).waiting_by_lock l) ≡ true
      → (mem a cfg.steps ≡ true)
        × (with_edges deps owed a ≡ 0)
        × ((promote_one cfg dep s).held_locks l ≡ true)
  unfolding promote_one count
  promote_one-waiting l a h = ground (arith, inv.waiting_ok l a)

  promote_one-dispatched :
      (d : Bytes)
      → (promote_one cfg dep s).dispatched d ≡ true
      → (mem d cfg.steps ≡ true) × (with_edges deps owed d ≡ 0)
  unfolding promote_one count
  promote_one-dispatched d h = ground (arith, inv.dispatched_ok d)

  promote_one-QueuesInv : QueuesInv cfg (with_edges deps owed) (promote_one cfg dep s)
  promote_one-QueuesInv = record {
    counted = promote_one-counted;
    ready_ok = promote_one-ready;
    waiting_ok = promote_one-waiting;
    cover = promote_one-cover;
    dispatched_ok = promote_one-dispatched;
  }

pub QueuesInv-owed :
    {cfg : Config} {o o' : Bytes → ℕ} {s : RunState}
    → ((d : Bytes) → o d ≡ o' d)
    → QueuesInv cfg o s
    → QueuesInv cfg o' s
QueuesInv-owed {cfg} {s = s} same inv = subst (λ o. QueuesInv cfg o s) (fun_ext same) inv

pub promote-QueuesInv :
    (cfg : Config) (owed : Bytes → ℕ) (deps : List Bytes) (s : RunState)
    → QueuesInv cfg (with_edges deps owed) s
    → QueuesInv cfg owed (promote cfg deps s)
unfolding promote count
promote-QueuesInv cfg owed [] s inv = QueuesInv-owed (λ d. omega arith) inv
promote-QueuesInv cfg owed (dep ∷ deps) s inv =
    promote-QueuesInv cfg owed deps (promote_one cfg dep s)
      (promote_one-QueuesInv owed dep deps inv)

-- All but the in-degrees and the ready queue stays as it is.
promote_one-frame :
    (cfg : Config) (dep : Bytes) (s : RunState)
    → promote_one cfg dep s ≡ record s {
      indegree = (promote_one cfg dep s).indegree;
      ready = (promote_one cfg dep s).ready;
    }
unfolding promote_one
promote_one-frame cfg dep s = ground arith

pub promote-frame :
    (cfg : Config) (deps : List Bytes) (s : RunState)
    → promote cfg deps s
      ≡ record s { indegree = (promote cfg deps s).indegree; ready = (promote cfg deps s).ready }
unfolding promote
promote-frame cfg [] s = refl
promote-frame cfg (dep ∷ deps) s =
    promote-frame cfg deps (promote_one cfg dep s)
    ∙ ap {A = RunState} {B = RunState}
        (λ t. record t {
          indegree = (promote cfg deps (promote_one cfg dep s)).indegree;
          ready = (promote cfg deps (promote_one cfg dep s)).ready;
        })
        (promote_one-frame cfg dep s)
