-- ===== src/Apply/Schedule/Queue.antt =====
-- `applyReadyQueue`: `container/heap` over items that are compared by their plan index. `Pop` takes
-- an item of least index, so the queue is kept as a list in the order of the indices.
use unobin.Base.{ℕ, Bool, false, ◌||◌, List, [], ◌∷◌, ltb, if◌then◌else◌, Bytes, eqb}

-- A step is named by its address.
pub record ReadyItem : Type 0 where
  pub step : Bytes
  pub index : ℕ

abbrev pub ReadyQueue : Type 0
ReadyQueue = List ReadyItem

-- `heap.Push`; `heap.Pop` takes the head.
unfoldable pub heap_push : ReadyItem → ReadyQueue → ReadyQueue
heap_push item [] = item ∷ []
heap_push item (x ∷ q) = if ltb item.index x.index then item ∷ x ∷ q else x ∷ heap_push item q

-- Pops every item of the first queue, and pushes it on the second.
unfoldable pub push_all : ReadyQueue → ReadyQueue → ReadyQueue
push_all [] q = q
push_all (item ∷ items) q = push_all items (heap_push item q)

-- Whether an item for the step waits in the queue.
unfoldable pub queued : Bytes → ReadyQueue → Bool
queued a [] = false
queued a (x ∷ q) = eqb x.step a || queued a q
