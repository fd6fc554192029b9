-- ===== src/StateRef/Segments.antt =====
-- `parseSegment` reads back a printed segment.
use unobin.Base.{
  ℕ, true, false, ◌≡◌, ◌≢◌, refl, ap, ◌∙◌, Option, none, some, [], ◌∷◌, ◌++◌, append-nil,
  append_assoc, arith, All, append-cons-ne-nil, Bytes, ok, err, is_empty, eqb,
}
use unobin.StateRef.Syntax.{
  Category, resource, data_source, action, StateAddressSegment, category_text, replace_all,
  escape_key, with_key, segment_text, valid_ident,
}
use unobin.StateRef.Parser.{
  ParseError, cut_byte, contains_byte, parse_category, key_loop, parse_key, named_segment,
  parse_rest, parse_segment,
}
use unobin.StateRef.Valid.{NoBreaks, IsNameByte, KeyIsClean, SegmentIsValid, valid_ident-IsNameByte}
use unobin.StateRef.Escape.{escaped, escape_key-escaped}

cut_dot :
    (c : Category) (rest : Bytes)
    → cut_byte b'.' (category_text c ++ b'.' ∷ rest) ≡ some (category_text c, rest)
unfolding cut_byte category_text
cut_dot resource rest = refl
cut_dot data_source rest = refl
cut_dot action rest = refl

category-parse : (c : Category) → parse_category (category_text c) ≡ some c
unfolding parse_category category_text eqb
category-parse resource = refl
category-parse data_source = refl
category-parse action = refl

category_text-filled : (c : Category) → is_empty (category_text c) ≡ false
unfolding category_text
category_text-filled c = ground arith

cut_bracket_none : (n : Bytes) → All IsNameByte n → cut_byte b'[' n ≡ none
unfolding cut_byte
cut_bracket_none [] h = refl
cut_bracket_none (c ∷ n) (h, t) = ground (arith, cut_bracket_none n t)

cut_bracket :
    (n rest : Bytes) → All IsNameByte n → cut_byte b'[' (n ++ b'[' ∷ rest) ≡ some (n, rest)
unfolding cut_byte
cut_bracket [] rest h = refl
cut_bracket (c ∷ n) rest (h, t) = ground (arith, cut_bracket n rest t)

no_dot : (n : Bytes) → All IsNameByte n → contains_byte b'.' n ≡ false
unfolding contains_byte
no_dot [] h = refl
no_dot (c ∷ n) (h, t) = ground (arith, no_dot n t)

valid_ident-filled :
    (n : Bytes) → valid_ident n ≡ true → (rest : Bytes) → is_empty (n ++ rest) ≡ false
unfolding valid_ident
valid_ident-filled [] h rest = cc
valid_ident-filled (c ∷ n) h rest = refl

named_segment-valid :
    (c : Category) (n : Bytes) (key : Option Bytes)
    → valid_ident n ≡ true
    → named_segment c n key ≡ ok (record { category = c; name = n; key = key })
unfolding named_segment
named_segment-valid c n key h = ground (arith, no_dot n (valid_ident-IsNameByte n h))

-- The bytes that stand for one byte of a key put it into the builder.
pub key-escaped :
    (context out : Bytes) (c : ℕ) (rest : Bytes)
    → NoBreaks (c ∷ [])
    → rest ≢ []
    → key_loop context out (escaped c ++ rest) ≡ key_loop context (out ++ c ∷ []) rest
unfolding key_loop
key-escaped context out c [] h ne = absurd (ne refl)
key-escaped context out c (d ∷ rest) h ne = ground arith

key-escape_key :
    (context k out : Bytes)
    → NoBreaks k
    → key_loop context out (escape_key k ++ b'\'' ∷ b']' ∷ []) ≡ ok (out ++ k)
unfolding key_loop
key-escape_key context [] out h = unfold escape_key replace_all in rw append-nil
key-escape_key context (c ∷ k) out (h, t) = rw escape_key-escaped (
    rw (append_assoc (escaped c)) (
      key-escaped context out c _ (h, tt) (append-cons-ne-nil (escape_key k) _ _)
      ∙ key-escape_key context k (out ++ c ∷ []) t
      ∙ ap ok (append_assoc out (c ∷ []) k)))

pub parse_key-escape_key :
    (context k : Bytes)
    → NoBreaks k
    → parse_key (b'[' ∷ b'\'' ∷ (escape_key k ++ b'\'' ∷ b']' ∷ [])) context ≡ ok k
unfolding parse_key
parse_key-escape_key context k h = key-escape_key context k [] h

parse_rest-with_key :
    (c : Category) (n s : Bytes) (key : Option Bytes)
    → valid_ident n ≡ true
    → KeyIsClean key
    → parse_rest c s (with_key key n) (cut_byte b'[' (with_key key n))
      ≡ ok (record { category = c; name = n; key = key })
unfolding with_key parse_rest
parse_rest-with_key c n s none h clean =
    rw (cut_bracket_none n (valid_ident-IsNameByte n h)) (named_segment-valid c n none h)
parse_rest-with_key c n s (some k) h clean =
    rw (cut_bracket n _ (valid_ident-IsNameByte n h))
      (rw (parse_key-escape_key s k clean.0) (named_segment-valid c n (some k) h))

with_key-append : (key : Option Bytes) (a b : Bytes) → with_key key (a ++ b) ≡ a ++ with_key key b
unfolding with_key
with_key-append none a b = refl
with_key-append (some k) a b = append_assoc a b _

pub segment_text-dotted :
    (s : StateAddressSegment)
    → segment_text s ≡ category_text s.category ++ b'.' ∷ with_key s.key s.name
unfolding segment_text
segment_text-dotted s =
    with_key-append s.key (category_text s.category) (b'.' ∷ s.name)
    ∙ ap (λ t. category_text s.category ++ t) (with_key-append s.key (b'.' ∷ []) s.name)

with_key-filled :
    (key : Option Bytes) (n : Bytes) → valid_ident n ≡ true → is_empty (with_key key n) ≡ false
unfolding with_key
with_key-filled none n h = rw (← append-nil n) (valid_ident-filled n h [])
with_key-filled (some k) n h = valid_ident-filled n h _

parse_segment-dotted :
    (c : Category) (rest : Bytes)
    → is_empty rest ≡ false
    → parse_segment (category_text c ++ b'.' ∷ rest)
      ≡ parse_rest c (category_text c ++ b'.' ∷ rest) rest (cut_byte b'[' rest)
unfolding parse_segment
parse_segment-dotted c rest h =
    rw (cut_dot c rest) (rw (category_text-filled c, h) (rw (category-parse c)))

pub parse_segment-segment_text :
    (s : StateAddressSegment) → SegmentIsValid s → parse_segment (segment_text s) ≡ ok s
parse_segment-segment_text s v = rw (segment_text-dotted s) (
    parse_segment-dotted s.category _ (with_key-filled s.key s.name v.named)
    ∙ parse_rest-with_key s.category s.name _ s.key v.named v.clean)

-- With a valid name, a key that `parseKey` refuses is the error of the segment.
pub parse_segment-bad_key :
    (c : Category) (n behind : Bytes) (e : ParseError)
    → valid_ident n ≡ true
    → parse_key (b'[' ∷ behind) (category_text c ++ b'.' ∷ (n ++ b'[' ∷ behind)) ≡ err e
    → parse_segment (category_text c ++ b'.' ∷ (n ++ b'[' ∷ behind)) ≡ err e
unfolding parse_rest
parse_segment-bad_key c n behind e h bad =
    parse_segment-dotted c _ (valid_ident-filled n h (b'[' ∷ behind))
    ∙ rw (cut_bracket n behind (valid_ident-IsNameByte n h)) (rw bad)
