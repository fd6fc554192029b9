-- ===== src/Apply/Schedule/Invariant/Queues.antt =====
-- What a queue holds after a push.
use unobin.Base.{◌||◌, ◌≡◌, refl, [], ◌∷◌, Bytes, eqb, arith}
use unobin.Apply.Schedule.Queue.{ReadyItem, ReadyQueue, heap_push, push_all, queued}

pub queued-heap_push :
    (a : Bytes) (x : ReadyItem) (q : ReadyQueue)
    → queued a (heap_push x q) ≡ (eqb x.step a || queued a q)
unfolding queued heap_push
queued-heap_push a x [] = refl
queued-heap_push a x (y ∷ q) = ground (arith, queued-heap_push a x q)

pub queued-push_all :
    (a : Bytes) (xs q : ReadyQueue) → queued a (push_all xs q) ≡ (queued a xs || queued a q)
unfolding queued push_all
queued-push_all a [] q = refl
queued-push_all a (x ∷ xs) q =
    ground (arith, queued-push_all a xs (heap_push x q), queued-heap_push a x q)
