-- ===== src/Apply/Schedule/Invariant/Remove.antt =====
-- Taking a step from the workers.
use unobin.Base.{
  ◌+◌, ◌≤◌, true, not, ◌&&◌, ◌≡◌, refl, List, [], ◌∷◌, Bytes, eqb, eqb_iff, mem, count, length,
  arith, mem-count_zero,
}
use unobin.Apply.Schedule.Loop.{remove_one}

pub mem-remove_one :
    (a b : Bytes) (xs : List Bytes)
    → count a xs ≤ 1
    → mem b (remove_one a xs) ≡ (mem b xs && not (eqb a b))
unfolding remove_one mem count
mem-remove_one a b [] h = refl
mem-remove_one a b (x ∷ xs) h =
    ground
      (arith, eqb_iff x a, eqb_iff x b, eqb_iff a b, mem-count_zero a xs, mem-remove_one a b xs)

pub count-remove_one : (a b : Bytes) (xs : List Bytes) → count b (remove_one a xs) ≤ count b xs
unfolding remove_one count
count-remove_one a b [] = omega arith
count-remove_one a b (x ∷ xs) = ground (arith, count-remove_one a b xs)

pub length-remove_one :
    (a : Bytes) (xs : List Bytes) → mem a xs ≡ true → length (remove_one a xs) + 1 ≡ length xs
unfolding remove_one mem
length-remove_one a [] h = cc
length-remove_one a (x ∷ xs) h = ground (arith, length-remove_one a xs)
