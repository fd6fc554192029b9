-- ===== src/StateRef/Valid.antt =====
-- Which refs `String` prints in a form that `ParseStateRef` reads back.
use unobin.Base.{ℕ, ◌≡◌, ◌≢◌, true, Option, none, some, List, [], ◌∷◌, arith, All, Bytes}
use unobin.StateRef.Syntax.{
  Category, resource, data_source, action, StateAddressSegment, StateRef, category_text,
  valid_ident, ident_bytes,
}

-- No line feed and no carriage return.
abbrev pub NoBreak : ℕ → Type 0
NoBreak c = (c ≢ b'\n') × (c ≢ b'\r')

abbrev pub NoBreaks : Bytes → Type 0
NoBreaks = All NoBreak

-- The scanners take `[']` for a whole key.
abbrev pub NoBracketHead : Bytes → Type 0
NoBracketHead [] = Unit
NoBracketHead (c ∷ k) = c ≢ b']'

abbrev pub KeyIsClean : Option Bytes → Type 0
KeyIsClean none = Unit
KeyIsClean (some k) = NoBreaks k × NoBracketHead k

pub record SegmentIsValid (s : StateAddressSegment) : Type 0 where
  pub named : valid_ident s.name ≡ true
  pub clean : KeyIsClean s.key

-- All that the two scanners need.
abbrev pub KeyScans : Option Bytes → Type 0
KeyScans none = Unit
KeyScans (some k) = NoBracketHead k

pub record SegmentScans (s : StateAddressSegment) : Type 0 where
  pub named : valid_ident s.name ≡ true
  pub scans : KeyScans s.key

KeyIsClean-KeyScans : (key : Option Bytes) → KeyIsClean key → KeyScans key
KeyIsClean-KeyScans none h = tt
KeyIsClean-KeyScans (some k) h = h.1

pub SegmentIsValid-SegmentScans : {s : StateAddressSegment} → SegmentIsValid s → SegmentScans s
SegmentIsValid-SegmentScans {s} v = record {
  named = v.named;
  scans = KeyIsClean-KeyScans s.key v.clean;
}

pub All-SegmentScans : (ss : List StateAddressSegment) → All SegmentIsValid ss → All SegmentScans ss
All-SegmentScans [] vs = tt
All-SegmentScans (s ∷ ss) (v, vs) = (SegmentIsValid-SegmentScans v, All-SegmentScans ss vs)

pub record RefIsValid (r : StateRef) : Type 0 where
  pub filled : r.segments ≢ []
  pub each : All SegmentIsValid r.segments

-- The bytes that leave both scanners outside a key and in the same part.
abbrev pub IsPlain : ℕ → Type 0
IsPlain c = (c ≢ b'[') × (c ≢ b'/') × (c ≢ b'@')

abbrev pub IsNameByte : ℕ → Type 0
IsNameByte c = (c ≢ b'[') × (c ≢ b'/') × (c ≢ b'@') × (c ≢ b'.')

ident_bytes-IsNameByte : (s : Bytes) → ident_bytes s ≡ true → All IsNameByte s
unfolding ident_bytes
ident_bytes-IsNameByte [] h = tt
ident_bytes-IsNameByte (c ∷ cs) h = (ground arith, ident_bytes-IsNameByte cs (ground arith))

pub valid_ident-IsNameByte : (s : Bytes) → valid_ident s ≡ true → All IsNameByte s
unfolding valid_ident ident_bytes
valid_ident-IsNameByte [] h = tt
valid_ident-IsNameByte (c ∷ cs) h = (ground arith, ident_bytes-IsNameByte cs (ground arith))

pub IsNameByte-IsPlain : (s : Bytes) → All IsNameByte s → All IsPlain s
IsNameByte-IsPlain [] h = tt
IsNameByte-IsPlain (c ∷ cs) ((a, b, d, e), t) = ((a, b, d), IsNameByte-IsPlain cs t)

pub category_text-IsPlain : (c : Category) → All IsPlain (category_text c)
unfolding category_text
category_text-IsPlain resource = omega arith
category_text-IsPlain data_source = omega arith
category_text-IsPlain action = omega arith
