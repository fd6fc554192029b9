-- ===== src/Apply/Schedule/Invariant/Owed.antt =====
-- How the completion of a step changes the number of pending edges.
use unobin.Base.{
  ◌+◌, Bool, true, false, ◌||◌, ◌≡◌, List, [], ◌∷◌, Bytes, eqb, eqb_iff, mem, count, refl, arith,
}
use unobin.Apply.Schedule.Invariant.Defs.{Distinct, pending}

pending-same :
    (deps : Bytes → List Bytes) (done : Bytes → Bool) (p : Bytes) (ps : List Bytes) (d : Bytes)
    → mem p ps ≡ false
    → pending deps (λ x. eqb p x || done x) ps d ≡ pending deps done ps d
unfolding pending mem
pending-same deps done p [] d h = refl
pending-same deps done p (q ∷ ps) d h =
    ground (arith, eqb_iff p q, eqb_iff q p, pending-same deps done p ps d)

-- The edges of a step that completes are no longer pending.
pub pending_complete :
    (deps : Bytes → List Bytes) (done : Bytes → Bool) (p : Bytes) (ps : List Bytes) (d : Bytes)
    → Distinct ps
    → mem p ps ≡ true
    → done p ≡ false
    → pending deps (λ x. eqb p x || done x) ps d + count d (deps p) ≡ pending deps done ps d
unfolding pending mem
pending_complete deps done p [] d ds h k = cc
pending_complete deps done p (q ∷ ps) d (out, ds) h k = ground (
  arith,
  eqb_iff p q,
  eqb_iff q p,
  pending-same deps done p ps d,
  pending_complete deps done p ps d ds,
)
