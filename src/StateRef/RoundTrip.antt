-- ===== src/StateRef/RoundTrip.antt =====
-- What is printed is read back, and the operations on printed refs.
use unobin.Base.{
  false, ◌≡◌, ◌≢◌, refl, List, [], ◌∷◌, ◌++◌, map, All, ◌>>=◌, ◌∙◌, Bytes, ok, is_empty,
}
use unobin.StateRef.Syntax.{StateAddressSegment, StateRef, segment_text, join_slash, ref_text}
use unobin.StateRef.Parser.{parse_segments, parse_state_ref, split_segments}
use unobin.StateRef.Valid.{SegmentIsValid, All-SegmentScans, SegmentScans, RefIsValid}
use unobin.StateRef.Escape.{segment_text-filled}
use unobin.StateRef.Split.{split-join_slash}
use unobin.StateRef.Outside.{at-join_slash}
use unobin.StateRef.Segments.{parse_segment-segment_text}

pub parse_segments-map :
    (ss : List StateAddressSegment)
    → All SegmentIsValid ss
    → parse_segments (map segment_text ss) ≡ ok ss
unfolding parse_segments
parse_segments-map [] vs = refl
parse_segments-map (s ∷ ss) (v, vs) =
    rw (parse_segment-segment_text s v) (rw (parse_segments-map ss vs))

is_empty-append-left : (a b : Bytes) → is_empty a ≡ false → is_empty (a ++ b) ≡ false
is_empty-append-left [] b h = cc
is_empty-append-left (c ∷ a) b h = refl

pub join_slash-filled :
    (s : StateAddressSegment) (ss : List StateAddressSegment)
    → is_empty (join_slash (map segment_text (s ∷ ss))) ≡ false
unfolding join_slash
join_slash-filled s [] = segment_text-filled s
join_slash-filled s (t ∷ ss) = is_empty-append-left (segment_text s) _ (segment_text-filled s)

-- The two scanners take a printed ref apart into its printed segments.
pub parse_state_ref-SegmentScans :
    (ss : List StateAddressSegment)
    → ss ≢ []
    → All SegmentScans ss
    → parse_state_ref (ref_text (record { segments = ss }))
      ≡ (parse_segments (map segment_text ss) >>= λ segments. ok (record { segments = segments }))
unfolding parse_state_ref ref_text split_segments
parse_state_ref-SegmentScans [] ne vs = absurd (ne refl)
parse_state_ref-SegmentScans (s ∷ ss) ne vs =
    rw (join_slash-filled s ss, at-join_slash (s ∷ ss) vs, split-join_slash s ss vs.0 vs.1)

-- `ParseStateRef` reads back what `String` prints for a ref with at least one segment, valid names,
-- and keys with no line break that do not start with `]`.
pub parse_state_ref-ref_text : (r : StateRef) → RefIsValid r → parse_state_ref (ref_text r) ≡ ok r
parse_state_ref-ref_text r v =
    parse_state_ref-SegmentScans r.segments v.filled (All-SegmentScans r.segments v.each)
    ∙ rw (parse_segments-map r.segments v.each)
