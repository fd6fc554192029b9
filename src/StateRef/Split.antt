-- ===== src/StateRef/Split.antt =====
-- `splitSegments` gives back the parts of a printed ref.
use unobin.Base.{
  ℕ, true, false, ◌≡◌, ◌≢◌, refl, sym, ap, ◌∙◌, Option, none, some, List, [], ◌∷◌, ◌++◌, map,
  append-nil, append_assoc, ◌==◌, arith, All, Bytes, ok,
}
use unobin.StateRef.Syntax.{
  StateAddressSegment, replace_all, escape_key, with_key, segment_text, join_slash,
}
use unobin.StateRef.Parser.{split_loop}
use unobin.StateRef.Valid.{IsPlain, NoBracketHead, KeyScans, SegmentScans}
use unobin.StateRef.Escape.{
  escaped, escape_key-escaped, escape_key-NoBracketHead, head_text-IsPlain, segment_text-filled,
}

pub split-IsPlain :
    (p cur rest : Bytes)
    → All IsPlain p
    → split_loop false false cur (p ++ rest) ≡ split_loop false false (cur ++ p) rest
unfolding split_loop
split-IsPlain [] cur rest h = rw append-nil
split-IsPlain (c ∷ p) cur rest (h, t) =
    ground (arith, split-IsPlain p (cur ++ c ∷ []) rest t, append_assoc cur (c ∷ []) p)

split_in_key :
    (c : ℕ) (cur cs : Bytes)
    → c ≢ b'\''
    → split_loop true false cur (c ∷ cs) ≡ split_loop true (c == b'\\') (cur ++ c ∷ []) cs
unfolding split_loop
split_in_key c cur [] h = refl
split_in_key c cur (d ∷ cs) h = ground arith

split-escaped :
    (c : ℕ) (cur rest : Bytes)
    → split_loop true false cur (escaped c ++ rest) ≡ split_loop true false (cur ++ escaped c) rest
split-escaped c cur rest = ground (
  arith,
  split_in_key c cur rest,
  split_in_key b'\\' cur (b'\\' ∷ rest),
  split_in_key b'\\' cur (b'\'' ∷ rest),
  split_escape b'\\',
  split_escape b'\'',
)
  where
    split_escape :
        (d : ℕ)
        → split_loop true true (cur ++ b'\\' ∷ []) (d ∷ rest)
          ≡ split_loop true false (cur ++ b'\\' ∷ d ∷ []) rest
    split_escape d = unfold split_loop in rw append_assoc

split-escape_key :
    (k cur rest : Bytes)
    → split_loop true false cur (escape_key k ++ b'\'' ∷ b']' ∷ rest)
      ≡ split_loop false false (cur ++ escape_key k ++ b'\'' ∷ b']' ∷ []) rest
unfolding split_loop
split-escape_key [] cur rest = unfold escape_key replace_all in rw append-nil
split-escape_key (c ∷ k) cur rest = rw escape_key-escaped (
    rw (append_assoc (escaped c)) (
      split-escaped c cur (escape_key k ++ b'\'' ∷ b']' ∷ rest)
      ∙ split-escape_key k (cur ++ escaped c) rest
      ∙ ap (λ t. split_loop false false t rest) (simp append_assoc)))

split_open :
    (cur t : Bytes)
    → NoBracketHead t
    → split_loop false false cur (b'[' ∷ b'\'' ∷ t)
      ≡ split_loop true false (cur ++ b'[' ∷ b'\'' ∷ []) t
unfolding split_loop
split_open cur [] h = ground (arith, append_assoc cur (b'[' ∷ []) (b'\'' ∷ []))
split_open cur (c ∷ t) h = ground (arith, append_assoc cur (b'[' ∷ []) (b'\'' ∷ []))

split-with_key :
    (key : Option Bytes) (out cur rest : Bytes)
    → All IsPlain out
    → KeyScans key
    → split_loop false false cur (with_key key out ++ rest)
      ≡ split_loop false false (cur ++ with_key key out) rest
unfolding with_key
split-with_key none out cur rest h scans = split-IsPlain out cur rest h
split-with_key (some k) out cur rest h scans = simp append_assoc (
    split-IsPlain out cur _ h
    ∙ split_open (cur ++ out) _ (escape_key-NoBracketHead k _ scans)
    ∙ split-escape_key k _ rest
    ∙ ap (λ t. split_loop false false t rest) (simp append_assoc))

split-segment_text :
    (s : StateAddressSegment) (cur rest : Bytes)
    → SegmentScans s
    → split_loop false false cur (segment_text s ++ rest)
      ≡ split_loop false false (cur ++ segment_text s) rest
unfolding segment_text
split-segment_text s cur rest v =
    split-with_key s.key _ cur rest (head_text-IsPlain s.category s.name v.named) v.scans

pub split-join_slash :
    (s : StateAddressSegment) (ss : List StateAddressSegment)
    → SegmentScans s
    → All SegmentScans ss
    → split_loop false false [] (join_slash (map segment_text (s ∷ ss)))
      ≡ ok (map segment_text (s ∷ ss))
unfolding join_slash split_loop
split-join_slash s [] v vs =
    ap (split_loop false false []) (sym (append-nil (segment_text s)))
    ∙ split-segment_text s [] [] v
    ∙ ground (arith, segment_text-filled s)
split-join_slash s (t ∷ ss) v (w, ws) =
    split-segment_text s [] _ v ∙ ground (arith, segment_text-filled s, split-join_slash t ss w ws)
