-- ===== src/StateRef/Unreadable.antt =====
-- Keys that `AppendInstanceKey` prints and `ParseStateRef` does not read back.
use unobin.Base.{
  ℕ, Bool, true, false, ◌≡◌, ◌⊎◌, inl, inr, refl, ◌∙◌, none, some, List, [], ◌∷◌, ◌++◌,
  append_assoc, map-append, map, All-append, ◌==◌, ◌||◌, arith, All, append-cons-ne-nil, Bytes, ok,
  err, Bool-cases,
}
use unobin.StateRef.Syntax.{
  Category, StateAddressSegment, category_text, escape_key, with_key, segment_text, ref_text,
  valid_ident,
}
use unobin.StateRef.Parser.{
  ParseError, malformed_key, parse_key, key_loop, parse_segment, parse_segments, parse_state_ref,
}
use unobin.StateRef.Operations.{append_instance_key}
use unobin.StateRef.Valid.{NoBracketHead, SegmentIsValid, SegmentScans, All-SegmentScans}
use unobin.StateRef.Escape.{escaped, escape_key-escaped}
use unobin.StateRef.Segments.{
  key-escaped, parse_segment-bad_key, segment_text-dotted, parse_segment-segment_text,
}
use unobin.StateRef.Keys.{ending_in, append_instance_key-ending_in}
use unobin.StateRef.RoundTrip.{parse_state_ref-SegmentScans}

abbrev is_break : ℕ → Bool
is_break c = c == b'\n' || c == b'\r'

abbrev pub HasBreak : Bytes → Type 0
HasBreak [] = ⊥
HasBreak (c ∷ k) = (is_break c ≡ true) ⊎ HasBreak k

key_break :
    (context out : Bytes) (c : ℕ) (rest : Bytes)
    → is_break c ≡ true
    → key_loop context out (escaped c ++ rest) ≡ err (malformed_key context)
unfolding key_loop
key_break context out c [] h = ground arith
key_break context out c (d ∷ rest) h = ground arith

key-HasBreak :
    (context k out : Bytes)
    → HasBreak k
    → key_loop context out (escape_key k ++ b'\'' ∷ b']' ∷ []) ≡ err (malformed_key context)
key-HasBreak context [] out h = absurd h
key-HasBreak context (c ∷ k) out h = rw escape_key-escaped (
    rw (append_assoc (escaped c)) (elim (Bool-cases (is_break c)) [
      | inl stop ↦ key_break context out c _ stop
      | inr go ↦
          key-escaped context out c _ (ground arith) (append-cons-ne-nil (escape_key k) _ _)
          ∙ key-HasBreak context k (out ++ c ∷ []) (later go h)
    ]))
  where
    later : is_break c ≡ false → HasBreak (c ∷ k) → HasBreak k
    later go (inl stop) = cc
    later go (inr l) = l

parse_key-HasBreak :
    (context k : Bytes)
    → HasBreak k
    → parse_key (b'[' ∷ b'\'' ∷ (escape_key k ++ b'\'' ∷ b']' ∷ [])) context
      ≡ err (malformed_key context)
unfolding parse_key
parse_key-HasBreak context k h = key-HasBreak context k [] h

abbrev pub keyed : Category → Bytes → Bytes → StateAddressSegment
keyed c n k = record { category = c; name = n; key = some k }

pub keyed_text :
    (c : Category) (n k : Bytes)
    → segment_text (keyed c n k)
      ≡ category_text c ++ b'.' ∷ (n ++ b'[' ∷ b'\'' ∷ (escape_key k ++ b'\'' ∷ b']' ∷ []))
keyed_text c n k = segment_text-dotted (keyed c n k) ∙ unfold with_key in refl

parse_segment-HasBreak :
    (c : Category) (n k : Bytes)
    → valid_ident n ≡ true
    → HasBreak k
    → parse_segment (segment_text (keyed c n k)) ≡ err (malformed_key (segment_text (keyed c n k)))
parse_segment-HasBreak c n k h brk =
    rw (keyed_text c n k) (parse_segment-bad_key c n _ _ h (parse_key-HasBreak _ k brk))

parse_segments-bad_last :
    (ss : List StateAddressSegment) (p : Bytes) (e : ParseError)
    → All SegmentIsValid ss
    → parse_segment p ≡ err e
    → parse_segments (map segment_text ss ++ p ∷ []) ≡ err e
unfolding parse_segments
parse_segments-bad_last [] p e vs h = rw h
parse_segments-bad_last (s ∷ ss) p e (v, vs) h =
    rw (parse_segment-segment_text s v) (rw (parse_segments-bad_last ss p e vs h))

-- For valid segments `ss` and a last segment with a valid name and no key: a key that holds a line
-- feed or carriage return, and does not start with `]`, is accepted by `AppendInstanceKey`, and the
-- address that it returns is refused by `ParseStateRef` as malformed.
pub append_instance_key-HasBreak :
    (ss : List StateAddressSegment) (c : Category) (n k : Bytes)
    → All SegmentIsValid ss
    → valid_ident n ≡ true
    → NoBracketHead k
    → HasBreak k
    → (a : Bytes) × (append_instance_key
          (ref_text (ending_in ss (record { category = c; name = n; key = none })))
          k
        ≡ ok a)
      × (parse_state_ref a ≡ err (malformed_key (segment_text (keyed c n k))))
append_instance_key-HasBreak ss c n k vs h head brk = (
  ref_text (ending_in ss (keyed c n k)),
  append_instance_key-ending_in ss _ k vs (record { named = h; clean = tt }) refl,
  parse_state_ref-SegmentScans (ss ++ keyed c n k ∷ []) (append-cons-ne-nil ss _ _) (
        All-append SegmentScans ss _ (All-SegmentScans ss vs)
          (record { named = h; scans = head }, tt))
      ∙ rw (map-append segment_text ss (keyed c n k ∷ []))
          (rw (parse_segments-bad_last ss _ _ vs (parse_segment-HasBreak c n k h brk))),
)
