-- ===== src/StateRef/Outside.antt =====
-- `containsOutsideKey` finds no `@` in a printed ref.
use unobin.Base.{
  ℕ, true, false, ◌≡◌, ◌≢◌, refl, sym, ap, ◌∙◌, Option, none, some, List, [], ◌∷◌, ◌++◌, map,
  append-nil, append_assoc, ◌==◌, arith, All, Bytes,
}
use unobin.StateRef.Syntax.{
  StateAddressSegment, replace_all, escape_key, with_key, segment_text, join_slash,
}
use unobin.StateRef.Parser.{contains_loop, contains_outside_key}
use unobin.StateRef.Valid.{IsPlain, NoBracketHead, KeyScans, SegmentScans}
use unobin.StateRef.Escape.{
  escaped, escape_key-escaped, escape_key-NoBracketHead, head_text-IsPlain,
}

at-IsPlain :
    (p rest : Bytes)
    → All IsPlain p
    → contains_loop b'@' false false (p ++ rest) ≡ contains_loop b'@' false false rest
unfolding contains_loop
at-IsPlain [] rest h = refl
at-IsPlain (c ∷ p) rest (h, t) = ground (arith, at-IsPlain p rest t)

at_in_key :
    (c : ℕ) (cs : Bytes)
    → c ≢ b'\''
    → contains_loop b'@' true false (c ∷ cs) ≡ contains_loop b'@' true (c == b'\\') cs
unfolding contains_loop
at_in_key c [] h = refl
at_in_key c (d ∷ cs) h = ground arith

at-escaped :
    (c : ℕ) (rest : Bytes)
    → contains_loop b'@' true false (escaped c ++ rest) ≡ contains_loop b'@' true false rest
at-escaped c rest = ground (
  arith,
  at_in_key c rest,
  at_in_key b'\\' (b'\\' ∷ rest),
  at_in_key b'\\' (b'\'' ∷ rest),
  at_escape b'\\',
  at_escape b'\'',
)
  where
    at_escape :
        (d : ℕ) → contains_loop b'@' true true (d ∷ rest) ≡ contains_loop b'@' true false rest
    at_escape d = unfold contains_loop in refl

at-escape_key :
    (k rest : Bytes)
    → contains_loop b'@' true false (escape_key k ++ b'\'' ∷ b']' ∷ rest)
      ≡ contains_loop b'@' false false rest
unfolding contains_loop
at-escape_key [] rest = unfold escape_key replace_all in refl
at-escape_key (c ∷ k) rest = rw escape_key-escaped (
    rw (append_assoc (escaped c))
      (at-escaped c (escape_key k ++ b'\'' ∷ b']' ∷ rest) ∙ at-escape_key k rest))

at_open :
    (t : Bytes)
    → NoBracketHead t
    → contains_loop b'@' false false (b'[' ∷ b'\'' ∷ t) ≡ contains_loop b'@' true false t
unfolding contains_loop
at_open [] h = refl
at_open (c ∷ t) h = ground arith

at-with_key :
    (key : Option Bytes) (out rest : Bytes)
    → All IsPlain out
    → KeyScans key
    → contains_loop b'@' false false (with_key key out ++ rest)
      ≡ contains_loop b'@' false false rest
unfolding with_key
at-with_key none out rest h scans = at-IsPlain out rest h
at-with_key (some k) out rest h scans =
    simp append_assoc
      (at-IsPlain out _ h ∙ at_open _ (escape_key-NoBracketHead k _ scans) ∙ at-escape_key k rest)

at-segment_text :
    (s : StateAddressSegment) (rest : Bytes)
    → SegmentScans s
    → contains_loop b'@' false false (segment_text s ++ rest) ≡ contains_loop b'@' false false rest
unfolding segment_text
at-segment_text s rest v =
    at-with_key s.key _ rest (head_text-IsPlain s.category s.name v.named) v.scans

pub at-join_slash :
    (ss : List StateAddressSegment)
    → All SegmentScans ss
    → contains_outside_key (join_slash (map segment_text ss)) b'@' ≡ false
unfolding join_slash contains_outside_key
at-join_slash [] vs = refl
at-join_slash (s ∷ []) (v, vs) =
    ap (contains_loop b'@' false false) (sym (append-nil (segment_text s))) ∙ at-segment_text s [] v
at-join_slash (s ∷ t ∷ ss) (v, vs) = at-segment_text s _ v ∙ at-join_slash (t ∷ ss) vs
