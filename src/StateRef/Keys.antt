-- ===== src/StateRef/Keys.antt =====
-- `AppendInstanceKey`, `SplitInstanceKey`, `Template` and `Parent` on addresses that `String` prints.
use unobin.Base.{
  true, ◌≡◌, ◌≢◌, refl, sym, ap, none, some, List, [], ◌∷◌, ◌++◌, map, All, Bytes, ok, err, ◌>>=◌,
  if◌then◌else◌, All-append, append-cons-ne-nil,
}
use unobin.StateRef.Syntax.{StateAddressSegment, StateRef, ref_text, join_slash}
use unobin.StateRef.Parser.{parse_state_ref, already_keyed}
use unobin.StateRef.Operations.{
  set_key, add_last_key, append_instance_key, last_key, clear_last_key, split_instance_key,
  template, drop_last, parent, is_single, join_segments,
}
use unobin.StateRef.Valid.{KeyIsClean, SegmentIsValid, RefIsValid}
use unobin.StateRef.RoundTrip.{parse_state_ref-ref_text}

-- The segments `ss`, and then `s`.
abbrev pub ending_in : List StateAddressSegment → StateAddressSegment → StateRef
ending_in ss s = record { segments = ss ++ s ∷ [] }

All-snoc :
    (ss : List StateAddressSegment) (s : StateAddressSegment)
    → All SegmentIsValid ss
    → SegmentIsValid s
    → All SegmentIsValid (ss ++ s ∷ [])
All-snoc ss s vs v = All-append SegmentIsValid ss (s ∷ []) vs (v, tt)

ending_in-RefIsValid :
    (ss : List StateAddressSegment) (s : StateAddressSegment)
    → All SegmentIsValid ss
    → SegmentIsValid s
    → RefIsValid (ending_in ss s)
ending_in-RefIsValid ss s vs v = record {
  filled = append-cons-ne-nil ss s [];
  each = All-snoc ss s vs v;
}

-- A walk to the last segment, past those in front of it.
add_last_key-snoc :
    (key : Bytes) (ss : List StateAddressSegment) (s : StateAddressSegment)
    → s.key ≡ none
    → add_last_key key (ss ++ s ∷ []) ≡ ok (ss ++ set_key (some key) s ∷ [])
unfolding add_last_key
add_last_key-snoc key [] s h = rw h
add_last_key-snoc key (t ∷ []) s h = rw h
add_last_key-snoc key (t ∷ u ∷ ss) s h = rw (add_last_key-snoc key (u ∷ ss) s h)

add_last_key-keyed :
    (key k : Bytes) (ss : List StateAddressSegment) (s : StateAddressSegment)
    → s.key ≡ some k
    → add_last_key key (ss ++ s ∷ []) ≡ err already_keyed
unfolding add_last_key
add_last_key-keyed key k [] s h = rw h
add_last_key-keyed key k (t ∷ []) s h = rw h
add_last_key-keyed key k (t ∷ u ∷ ss) s h = rw (add_last_key-keyed key k (u ∷ ss) s h)

last_key-snoc :
    (ss : List StateAddressSegment) (s : StateAddressSegment) → last_key (ss ++ s ∷ []) ≡ ok s.key
unfolding last_key
last_key-snoc [] s = refl
last_key-snoc (t ∷ []) s = refl
last_key-snoc (t ∷ u ∷ ss) s = last_key-snoc (u ∷ ss) s

clear_last_key-snoc :
    (ss : List StateAddressSegment) (s : StateAddressSegment)
    → clear_last_key (ss ++ s ∷ []) ≡ ss ++ set_key none s ∷ []
unfolding clear_last_key
clear_last_key-snoc [] s = refl
clear_last_key-snoc (t ∷ []) s = refl
clear_last_key-snoc (t ∷ u ∷ ss) s = ap (λ r. t ∷ r) (clear_last_key-snoc (u ∷ ss) s)

drop_last-snoc :
    (ss : List StateAddressSegment) (s : StateAddressSegment) → drop_last (ss ++ s ∷ []) ≡ ok ss
unfolding drop_last
drop_last-snoc [] s = refl
drop_last-snoc (t ∷ []) s = refl
drop_last-snoc (t ∷ u ∷ ss) s = rw (drop_last-snoc (u ∷ ss) s)

set_key-none :
    (s : StateAddressSegment) (key : Bytes) → s.key ≡ none → set_key none (set_key (some key) s) ≡ s
set_key-none s key bare i = record s { key = sym bare i }

pub append_instance_key-ending_in :
    (ss : List StateAddressSegment) (s : StateAddressSegment) (key : Bytes)
    → All SegmentIsValid ss
    → SegmentIsValid s
    → s.key ≡ none
    → append_instance_key (ref_text (ending_in ss s)) key
      ≡ ok (ref_text (ending_in ss (set_key (some key) s)))
unfolding append_instance_key
append_instance_key-ending_in ss s key vs v bare =
    rw (parse_state_ref-ref_text (ending_in ss s) (ending_in-RefIsValid ss s vs v))
      (rw (add_last_key-snoc key ss s bare))

-- For valid segments `ss` and a valid last segment `s` with no key, and a key with no line break
-- that does not start with `]`: `AppendInstanceKey` on the text of the ref returns the text that
-- `String` prints for the ref with the key on its last segment, and `SplitInstanceKey` gives the
-- template and the key back. A second key is refused.
pub split-append_instance_key :
    (ss : List StateAddressSegment) (s : StateAddressSegment) (key other : Bytes)
    → All SegmentIsValid ss
    → SegmentIsValid s
    → s.key ≡ none
    → KeyIsClean (some key)
    → let a = ref_text (ending_in ss (set_key (some key) s)) in
      (append_instance_key (ref_text (ending_in ss s)) key ≡ ok a)
      × (split_instance_key a ≡ ok (ref_text (ending_in ss s), key, true))
      × (append_instance_key a other ≡ err already_keyed)
unfolding append_instance_key split_instance_key
split-append_instance_key ss s key other vs v bare clean = (
  rw (parse_state_ref-ref_text (ending_in ss s) (ending_in-RefIsValid ss s vs v))
      (rw (add_last_key-snoc key ss s bare)),
  rw reparsed (
      rw (last_key-snoc ss keyed) (
        rw (clear_last_key-snoc ss keyed)
          (ap (λ t. ok (ref_text (ending_in ss t), key, true)) (set_key-none s key bare)))),
  rw reparsed (rw (add_last_key-keyed other key ss keyed refl)),
)
  where
    keyed : StateAddressSegment
    keyed = set_key (some key) s

    reparsed : parse_state_ref (ref_text (ending_in ss keyed)) ≡ ok (ending_in ss keyed)
    reparsed =
        parse_state_ref-ref_text (ending_in ss keyed)
          (ending_in-RefIsValid ss keyed vs (record { named = v.named; clean = clean }))

map-set_key-none :
    (ss : List StateAddressSegment)
    → map (set_key none) (map (set_key none) ss) ≡ map (set_key none) ss
map-set_key-none [] = refl
map-set_key-none (s ∷ ss) = ap (λ r. set_key none s ∷ r) (map-set_key-none ss)

map-ne-nil : (ss : List StateAddressSegment) → ss ≢ [] → map (set_key none) ss ≢ []
map-ne-nil [] h e = h refl
map-ne-nil (s ∷ ss) h e = cc

keyless :
    (ss : List StateAddressSegment)
    → All SegmentIsValid ss
    → All SegmentIsValid (map (set_key none) ss)
keyless [] vs = tt
keyless (s ∷ ss) (v, vs) = (record { named = v.named; clean = tt }, keyless ss vs)

-- `Template` of a printed valid ref is printed from the ref with every key removed, and removes
-- nothing more when it is applied again.
pub template-ref_text :
    (r : StateRef)
    → RefIsValid r
    → (t : Bytes) × (template (ref_text r) ≡ ok t)
      × (template t ≡ ok t)
      × (parse_state_ref t ≡ ok (record { segments = map (set_key none) r.segments }))
unfolding template
template-ref_text r v = (ref_text bare, rw (parse_state_ref-ref_text r v), again, reparsed)
  where
    bare : StateRef
    bare = record { segments = map (set_key none) r.segments }

    reparsed : parse_state_ref (ref_text bare) ≡ ok bare
    reparsed =
        parse_state_ref-ref_text bare
          (record { filled = map-ne-nil r.segments v.filled; each = keyless r.segments v.each })

    again : template (ref_text bare) ≡ ok (ref_text bare)
    again = rw reparsed (rw (map-set_key-none r.segments))

parent-snoc :
    (ss : List StateAddressSegment) (s : StateAddressSegment)
    → (if is_single (ss ++ s ∷ []) then ok [] else drop_last (ss ++ s ∷ []) >>= join_segments)
      ≡ ok (ref_text (record { segments = ss }))
parent-snoc [] s = unfold ref_text join_slash in refl
parent-snoc (t ∷ []) s = rw (drop_last-snoc (t ∷ []) s)
parent-snoc (t ∷ u ∷ ss) s = rw (drop_last-snoc (t ∷ u ∷ ss) s)

-- `Parent` of a printed valid ref is its text without the last segment, or empty for one segment.
pub parent-ref_text :
    (ss : List StateAddressSegment) (s : StateAddressSegment)
    → All SegmentIsValid ss
    → SegmentIsValid s
    → parent (ref_text (ending_in ss s)) ≡ ok (ref_text (record { segments = ss }))
unfolding parent
parent-ref_text ss s vs v =
    rw (parse_state_ref-ref_text (ending_in ss s) (ending_in-RefIsValid ss s vs v))
      (parent-snoc ss s)
