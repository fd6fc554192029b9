-- ===== src/StateRef/Panics.antt =====
-- The refs that `ParseStateRef` returns are not empty, so that no index in the operations over them
-- is out of range.
use unobin.Base.{◌≡◌, ◌≢◌, refl, subst, List, [], ◌∷◌, Bytes, Result, ok, err, err-injective, ◌>>=◌}
use unobin.StateRef.Syntax.{StateAddressSegment, StateRef}
use unobin.StateRef.Parser.{ParseError, index_panic, parse_state_ref}
use unobin.StateRef.Operations.{
  add_last_key, append_instance_key, last_key, split_instance_key, drop_last, is_single, is_some,
  parent,
}
use unobin.StateRef.Ensures.{
  Ensures, Ensures-if, Ensures-bind, Anything, IsParsed, parse_state_ref-Ensures,
}

add_last_key-Ensures :
    (key : Bytes) (ss : List StateAddressSegment) → ss ≢ [] → Ensures Anything (add_last_key key ss)
unfolding add_last_key
add_last_key-Ensures key [] ne = absurd (ne refl)
add_last_key-Ensures key (s ∷ []) ne = Ensures-if Anything (is_some s.key) _ _ (λ e. cc) tt
add_last_key-Ensures key (s ∷ t ∷ ss) ne =
    Ensures-bind Anything Anything (add_last_key key (t ∷ ss)) _
      (add_last_key-Ensures key (t ∷ ss) (λ e. cc)) (λ _ _. tt)

last_key-Ensures : (ss : List StateAddressSegment) → ss ≢ [] → Ensures Anything (last_key ss)
unfolding last_key
last_key-Ensures [] ne = absurd (ne refl)
last_key-Ensures (s ∷ []) ne = tt
last_key-Ensures (s ∷ t ∷ ss) ne = last_key-Ensures (t ∷ ss) (λ e. cc)

drop_last-Ensures : (ss : List StateAddressSegment) → ss ≢ [] → Ensures Anything (drop_last ss)
unfolding drop_last
drop_last-Ensures [] ne = absurd (ne refl)
drop_last-Ensures (s ∷ []) ne = tt
drop_last-Ensures (s ∷ t ∷ ss) ne =
    Ensures-bind Anything Anything (drop_last (t ∷ ss)) _ (drop_last-Ensures (t ∷ ss) (λ e. cc))
      (λ _ _. tt)

Ensures-ne-panic :
    {A : Type 0} (P : A → Type 0) (r : Result ParseError A) → Ensures P r → r ≢ err index_panic
Ensures-ne-panic P (ok a) h e = cc
Ensures-ne-panic P (err x) h e = h (err-injective e)

-- Every ref that `ParseStateRef` returns has at least one segment, and its names are valid.
pub parse_state_ref-IsParsed : (s : Bytes) {r : StateRef} → parse_state_ref s ≡ ok r → IsParsed r
parse_state_ref-IsParsed s e = subst (Ensures IsParsed) e (parse_state_ref-Ensures s)

-- On no input does `AppendInstanceKey`, `SplitInstanceKey` or `Parent` index a segment list out of
-- its range.
pub operations-ne-panic :
    (s key : Bytes)
    → (append_instance_key s key ≢ err index_panic)
      × (split_instance_key s ≢ err index_panic)
      × (parent s ≢ err index_panic)
unfolding append_instance_key split_instance_key parent
operations-ne-panic s key = (
  Ensures-ne-panic Anything _ (
      parsed _ λ r h.
        Ensures-bind Anything Anything (add_last_key key r.segments) _
          (add_last_key-Ensures key r.segments h) (λ _ _. tt)),
  Ensures-ne-panic Anything _ (
      parsed _ λ r h.
        Ensures-bind Anything Anything (last_key r.segments) _ (last_key-Ensures r.segments h)
          (λ _ _. tt)),
  Ensures-ne-panic Anything _ (
      parsed _ λ r h. Ensures-if Anything (is_single r.segments) _ _ tt (
        Ensures-bind Anything Anything (drop_last r.segments) _ (drop_last-Ensures r.segments h)
          (λ _ _. tt))),
)
  where
    parsed :
        {B : Type 0} (f : StateRef → Result ParseError B)
        → ((r : StateRef) → r.segments ≢ [] → Ensures Anything (f r))
        → Ensures Anything (parse_state_ref s >>= f)
    parsed f k =
        Ensures-bind IsParsed Anything (parse_state_ref s) f (parse_state_ref-Ensures s)
          (λ r h. k r h.0)
