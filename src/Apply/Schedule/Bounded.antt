-- ===== src/Apply/Schedule/Bounded.antt =====
-- How many rounds the loop of `runApplySchedule` can take.
use unobin.Base.{
  ℕ, suc, ◌+◌, ◌≤◌, ◌<◌, Bool, true, false, ◌≡◌, ◌⊎◌, inl, inr, refl, sym, ap, subst, ◌∙◌, ◌&&◌,
  false≢true, length, arith,
}
use unobin.Apply.Schedule.State.{Config, RunState}
use unobin.Apply.Schedule.Loop.{Choice, drain, next, Reach, start, later, round, initial}
use unobin.Apply.Schedule.Invariant.Defs.{IsConfig}
use unobin.Apply.Schedule.Invariant.Reachable.{Reach-Inv}
use unobin.Apply.Schedule.Measure.{measure, measure-initial, Falls, round-Falls}

-- A read of a closed `Drain` by a loop that is halted and drained already.
abbrev pub is_again : Choice → RunState → Bool
is_again drain s = s.halted && s.drained
is_again choice s = false

-- The states at the head of a round, with the number of rounds before it; repeated reads of a closed
-- `Drain` are not counted.
pub data Rounds (cfg : Config) : ℕ → RunState → Type 0 where
  none_yet : Rounds cfg 0 (initial cfg)
  one_more :
      {n : ℕ} {s t : RunState} (polled : Bool) (choice : Choice)
      → Rounds cfg n s
      → is_again choice s ≡ false
      → round cfg polled choice s ≡ next t
      → Rounds cfg (suc n) t
  drain_again :
      {n : ℕ} {s t : RunState} (polled : Bool) (choice : Choice)
      → Rounds cfg n s
      → is_again choice s ≡ true
      → round cfg polled choice s ≡ next t
      → Rounds cfg n t

pub Rounds-Reach : {cfg : Config} {n : ℕ} {s : RunState} → Rounds cfg n s → Reach cfg s
Rounds-Reach none_yet = start
Rounds-Reach (one_more polled choice r c e) = later polled choice (Rounds-Reach r) e
Rounds-Reach (drain_again polled choice r c e) = later polled choice (Rounds-Reach r) e

module _ {cfg : Config} (ok : IsConfig cfg) where
  not_again :
      {choice : Choice} {s t : RunState}
      → is_again choice s ≡ false
      → (measure cfg t < measure cfg s)
        ⊎ ((choice ≡ drain) × (s.halted ≡ true) × (s.drained ≡ true) × (t ≡ s))
      → measure cfg t < measure cfg s
  not_again c (inl less) = less
  not_again {choice} {s} c (inr (is, h, d, same)) =
      absurd (false≢true (sym c ∙ ap (λ x. is_again x s) is ∙ rw (h, d) refl))

  not_more :
      {choice : Choice} {s t : RunState}
      → (measure cfg t < measure cfg s)
        ⊎ ((choice ≡ drain) × (s.halted ≡ true) × (s.drained ≡ true) × (t ≡ s))
      → measure cfg t ≤ measure cfg s
  not_more (inl less) = omega (arith, less)
  not_more {choice} {s} {t} (inr (is, h, d, same)) =
      let e : measure cfg t ≡ measure cfg s = ap (measure cfg) same in omega (arith, e)

  Rounds-measure :
      {n : ℕ} {s : RunState} → Rounds cfg n s → n + measure cfg s ≤ measure cfg (initial cfg)
  Rounds-measure none_yet = omega arith
  Rounds-measure (one_more {s = s} {t = t} polled choice r c e) =
      let falls =
        subst (Falls cfg s choice) e
          (round-Falls cfg ok polled choice s (Reach-Inv ok (Rounds-Reach r))) in
      let less = not_again c falls in omega (arith, less, Rounds-measure r)
  Rounds-measure (drain_again {s = s} {t = t} polled choice r c e) =
      let falls =
        subst (Falls cfg s choice) e
          (round-Falls cfg ok polled choice s (Reach-Inv ok (Rounds-Reach r))) in
      let less = not_more falls in omega (arith, less, Rounds-measure r)

  -- Two rounds for each step, and two for the flags.
  pub Rounds-le :
      {n : ℕ} {s : RunState} → Rounds cfg n s → n ≤ length cfg.steps + length cfg.steps + 2
  Rounds-le r = omega (arith, Rounds-measure r, measure-initial cfg)
