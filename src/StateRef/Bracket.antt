-- ===== src/StateRef/Bracket.antt =====
-- Keys that start with `]/`: the scanner of `splitSegments` ends the key at once.
use unobin.Base.{
  Bool, true, false, ◌≡◌, refl, sym, subst, ◌∙◌, none, List, [], ◌∷◌, ◌++◌, append_assoc,
  if◌then◌else◌, Bytes, Result, ok, err, ◌>>=◌, is_empty, is_empty-append-cons,
}
use unobin.StateRef.Syntax.{Category, category_text, escape_key, join_slash, ref_text, valid_ident}
use unobin.StateRef.Parser.{
  ParseError, malformed_key, split_loop, split_segments, parse_key, key_loop, parse_segment,
  parse_segments, contains_outside_key, parse_state_ref,
}
use unobin.StateRef.Operations.{append_instance_key}
use unobin.StateRef.Escape.{head_text, escape_key-escaped, head_text-IsPlain}
use unobin.StateRef.Split.{split-IsPlain}
use unobin.StateRef.Segments.{parse_segment-bad_key}
use unobin.StateRef.Keys.{ending_in, append_instance_key-ending_in}
use unobin.StateRef.Unreadable.{keyed, keyed_text}

split_early :
    (cur t : Bytes)
    → split_loop false false cur (b'[' ∷ b'\'' ∷ b']' ∷ b'/' ∷ t)
      ≡ (split_loop false false [] t >>= λ ps. ok ((cur ++ b'[' ∷ b'\'' ∷ b']' ∷ []) ∷ ps))
unfolding split_loop
split_early cur t =
    rw (append_assoc cur (b'[' ∷ []) (b'\'' ∷ b']' ∷ []))
      (rw (is_empty-append-cons cur b'[' (b'\'' ∷ b']' ∷ [])))

-- An `ok` of the second bind would need a first part that parses.
abbrev pub IsErr : {A : Type 0} → Result ParseError A → Type 0
IsErr r = (e : ParseError) × (r ≡ err e)

bad_first :
    (p : Bytes) (e : ParseError) (rest : Result ParseError (List Bytes))
    → parse_segment p ≡ err e
    → IsErr ((rest >>= λ ps. ok (p ∷ ps)) >>= parse_segments)
unfolding parse_segments
bad_first p e (err f) h = (f, refl)
bad_first p e (ok ps) h = (e, rw h)

short_key-bad :
    (c : Category) (n : Bytes)
    → valid_ident n ≡ true
    → (e : ParseError) × (parse_segment (category_text c ++ b'.' ∷ (n ++ b'[' ∷ b'\'' ∷ b']' ∷ []))
        ≡ err e)
unfolding parse_key key_loop
short_key-bad c n h = (_, parse_segment-bad_key c n (b'\'' ∷ b']' ∷ []) (malformed_key _) h refl)

-- What `ParseStateRef` does behind its check for `@`, on an address with such a key.
split_bracket :
    (c : Category) (n t : Bytes)
    → valid_ident n ≡ true
    → IsErr (
        split_segments (category_text c ++ b'.' ∷ (n ++ b'[' ∷ b'\'' ∷ b']' ∷ b'/' ∷ t))
        >>= parse_segments)
unfolding split_segments
split_bracket c n t h =
    let (e, bad) = short_key-bad c n h in
    rw (← append_assoc (category_text c) (b'.' ∷ n) (b'[' ∷ b'\'' ∷ b']' ∷ b'/' ∷ t)) (
      rw
        (split-IsPlain (head_text c n) [] (b'[' ∷ b'\'' ∷ b']' ∷ b'/' ∷ t)
          (head_text-IsPlain c n h))
        (rw (split_early (head_text c n) t) (
          bad_first _ e (split_loop false false [] t)
            (rw (append_assoc (category_text c) (b'.' ∷ n) (b'[' ∷ b'\'' ∷ b']' ∷ [])) bad))))

IsErr-if :
    {A : Type 0} (b : Bool) (e : ParseError) (r : Result ParseError A)
    → IsErr r
    → IsErr (if b then err e else r)
IsErr-if true e r h = (e, refl)
IsErr-if false e r h = h

IsErr-bind :
    {A B C : Type 0} (m : Result ParseError A) (f : A → Result ParseError B) (g : B → C)
    → IsErr (m >>= f)
    → IsErr (m >>= λ a. f a >>= λ b. ok (g b))
IsErr-bind (err e) f g h = (e, refl)
IsErr-bind (ok a) f g (e, h) = (e, rw h)

-- For a segment with a valid name and no key: a key that starts with `]/` is accepted by
-- `AppendInstanceKey`, and the address that it returns is refused by `ParseStateRef`.
pub append_instance_key-bracket :
    (c : Category) (n k : Bytes)
    → valid_ident n ≡ true
    → (a : Bytes) × (append_instance_key
          (ref_text (ending_in [] (record { category = c; name = n; key = none })))
          (b']' ∷ b'/' ∷ k)
        ≡ ok a)
      × IsErr (parse_state_ref a)
unfolding parse_state_ref
append_instance_key-bracket c n k h = (
  ref_text (ending_in [] (keyed c n (b']' ∷ b'/' ∷ k))),
  append_instance_key-ending_in [] _ _ tt (record { named = h; clean = tt }) refl,
  IsErr-if (is_empty a) _ _ (
      IsErr-if (contains_outside_key a b'@') _ _ (
        IsErr-bind (split_segments a) parse_segments (λ ss. record { segments = ss })
          (subst (λ x. IsErr (split_segments x >>= parse_segments)) (sym bracket_text)
            (split_bracket c n (escape_key k ++ b'\'' ∷ b']' ∷ []) h)))),
)
  where
    a : Bytes
    a = ref_text (ending_in [] (keyed c n (b']' ∷ b'/' ∷ k)))

    bracket_text :
        a
        ≡ category_text c
          ++ b'.' ∷ (n ++ b'[' ∷ b'\'' ∷ b']' ∷ b'/' ∷ (escape_key k ++ b'\'' ∷ b']' ∷ []))
    bracket_text =
        unfold ref_text join_slash in
        (keyed_text c n (b']' ∷ b'/' ∷ k)
          ∙ rw (escape_key-escaped b']' (b'/' ∷ k)) (rw (escape_key-escaped b'/' k)))
