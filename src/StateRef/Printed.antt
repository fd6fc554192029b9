-- ===== src/StateRef/Printed.antt =====
-- `String` prints back what `ParseStateRef` read, for texts with no backslash.
use unobin.Base.{
  ℕ, ◌≡◌, refl, sym, ap, subst, Option-cases, ◌∙◌, Option, none, some, List, [], ◌∷◌, ◌++◌, map,
  append_assoc, ◌==◌, arith, All, All-append-left, All-append-right, Bytes, ok, err, is_empty,
  eqb_iff, Bool-cases, if_elim, not, ◌||◌, inl, inr, Result, ◌>>=◌, ap₂, bind-eq-ok, guard-eq-ok,
  ok-injective, bytes,
}
use unobin.StateRef.Syntax.{
  Category, valid_ident, category_text, StateAddressSegment, StateRef, escape_key, with_key,
  segment_text, join_slash, ref_text,
}
use unobin.StateRef.Parser.{
  ParseError, split_segments, cut_byte, cons_before, contains_byte, parse_category, parse_key,
  named_segment, parse_rest, parse_named, parse_dotted, parse_segment, contains_outside_key,
  parse_segments, parse_state_ref,
}
use unobin.StateRef.KeyText.{NoEscape, KeyText, parse_key-KeyText}
use unobin.StateRef.Joined.{join_slash-split_segments}

abbrev Cuts : ℕ → Bytes → Option (Bytes × Bytes) → Type 0
Cuts b s none = Unit
Cuts b s (some (x, y)) = s ≡ x ++ b ∷ y

cons_before-Cuts :
    (b c : ℕ) (s : Bytes) (r : Option (Bytes × Bytes))
    → Cuts b s r
    → Cuts b (c ∷ s) (cons_before c r)
cons_before-Cuts b c s none h = tt
cons_before-Cuts b c s (some (x, y)) h = ap (λ t. c ∷ t) h

cut_byte-Cuts : (b : ℕ) (s : Bytes) → Cuts b s (cut_byte b s)
unfolding cut_byte
cut_byte-Cuts b [] = tt
cut_byte-Cuts b (c ∷ cs) = elim (Bool-cases (c == b)) [
  | inl found ↦ rw found (ground arith)
  | inr other ↦ rw other (cons_before-Cuts b c cs (cut_byte b cs) (cut_byte-Cuts b cs))
]

parse_category-text : (s : Bytes) {c : Category} → parse_category s ≡ some c → category_text c ≡ s
unfolding parse_category category_text
parse_category-text s h = ground (
  arith,
  eqb_iff s (bytes "resource"),
  eqb_iff s (bytes "data-source"),
  eqb_iff s (bytes "action"),
)

abbrev Prints : Bytes → Result ParseError StateAddressSegment → Type 0
Prints p (ok s) = segment_text s ≡ p
Prints p (err e) = Unit

named_segment-Prints :
    (c : Category) (n : Bytes) (key : Option Bytes)
    → Prints (with_key key (category_text c ++ b'.' ∷ n)) (named_segment c n key)
unfolding named_segment segment_text
named_segment-Prints c n key =
    if_elim Printed (contains_byte b'.' n) _ _ (λ _. tt)
      (λ _. if_elim Printed (not (valid_ident n)) _ _ (λ _. tt) (λ _. refl))
  where
    Printed : Result ParseError StateAddressSegment → Type 0
    Printed = Prints (with_key key (category_text c ++ b'.' ∷ n))

Prints-bind :
    (p : Bytes) (m : Result ParseError Bytes) (f : Bytes → Result ParseError StateAddressSegment)
    → ((k : Bytes) → m ≡ ok k → Prints p (f k))
    → Prints p (m >>= f)
Prints-bind p (ok k) f h = h k refl
Prints-bind p (err e) f h = tt

parse_rest-Prints :
    (c : Category) (s rest : Bytes) (r : Option (Bytes × Bytes))
    → All NoEscape rest
    → Cuts b'[' rest r
    → Prints (category_text c ++ b'.' ∷ rest) (parse_rest c s rest r)
unfolding parse_rest with_key
parse_rest-Prints c s rest none h cut = named_segment-Prints c rest none
parse_rest-Prints c s rest (some (n, behind)) h cut =
    Prints-bind (category_text c ++ b'.' ∷ rest) (parse_key (b'[' ∷ behind) s) _ (λ k e.
      subst (λ p. Prints p (named_segment c n (some k)))
        (append_assoc (category_text c) (b'.' ∷ n) _
          ∙ ap (λ t. category_text c ++ b'.' ∷ t)
              (ap (λ t. n ++ b'[' ∷ t) (sym (key_text k e)) ∙ sym cut))
        (named_segment-Prints c n (some k)))
  where
    clean : All NoEscape (n ++ b'[' ∷ behind)
    clean = subst (All NoEscape) cut h

    key_text :
        (k : Bytes)
        → parse_key (b'[' ∷ behind) s ≡ ok k
        → behind ≡ b'\'' ∷ (escape_key k ++ b'\'' ∷ b']' ∷ [])
    key_text k e =
        subst (KeyText behind) e
          (parse_key-KeyText behind s (All-append-right NoEscape n (b'[' ∷ behind) clean).1)

parse_named-Prints :
    (before s rest : Bytes)
    → All NoEscape rest
    → Prints (before ++ b'.' ∷ rest) (parse_named (parse_category before) s rest)
unfolding parse_named
parse_named-Prints before s rest h = elim (Option-cases (parse_category before)) [
  | inl bad ↦ rw bad tt
  | inr (c, e) ↦ rw e (
      rw (← parse_category-text before e)
        (parse_rest-Prints c s rest _ h (cut_byte-Cuts b'[' rest)))
]

parse_dotted-Prints :
    (s : Bytes) (r : Option (Bytes × Bytes))
    → All NoEscape s
    → Cuts b'.' s r
    → Prints s (parse_dotted r s)
unfolding parse_dotted
parse_dotted-Prints s none h cut = tt
parse_dotted-Prints s (some (before, rest)) h cut =
    if_elim (Prints s) (is_empty before || is_empty rest) _ _ (λ _. tt)
      (λ _.
        subst (λ t. Prints t (parse_named (parse_category before) s rest)) (sym cut)
          (parse_named-Prints before s rest
            (All-append-right NoEscape before (b'.' ∷ rest) (subst (All NoEscape) cut h)).1))

pub segment_text-parse_segment :
    (p : Bytes) {s : StateAddressSegment}
    → All NoEscape p
    → parse_segment p ≡ ok s
    → segment_text s ≡ p
unfolding parse_segment
segment_text-parse_segment p h e =
    subst (Prints p) e (parse_dotted-Prints p _ h (cut_byte-Cuts b'.' p))

parts-NoEscape : (ps : List Bytes) → All NoEscape (join_slash ps) → All (All NoEscape) ps
unfolding join_slash
parts-NoEscape [] h = tt
parts-NoEscape (p ∷ []) h = (h, tt)
parts-NoEscape (p ∷ q ∷ ps) h = (
  All-append-left NoEscape p _ h,
  parts-NoEscape (q ∷ ps) (All-append-right NoEscape p (b'/' ∷ join_slash (q ∷ ps)) h).1,
)

map-parse_segments :
    (ps : List Bytes) (ss : List StateAddressSegment)
    → All (All NoEscape) ps
    → parse_segments ps ≡ ok ss
    → map segment_text ss ≡ ps
unfolding parse_segments
map-parse_segments [] ss h e = ap (map segment_text) (sym (ok-injective e))
map-parse_segments (p ∷ ps) ss (h, t) e =
    let (s, first, e') = bind-eq-ok (parse_segment p) _ e in
    let (rest, later, e'') = bind-eq-ok (parse_segments ps) _ e' in
    ap (map segment_text) (sym (ok-injective e''))
    ∙ ap₂ ◌∷◌ (segment_text-parse_segment p h first) (map-parse_segments ps rest t later)

-- A text with no backslash that `ParseStateRef` accepts is printed back, byte for byte.
pub ref_text-parse_state_ref :
    (s : Bytes) {r : StateRef} → All NoEscape s → parse_state_ref s ≡ ok r → ref_text r ≡ s
unfolding parse_state_ref ref_text
ref_text-parse_state_ref s h e =
    let (_, e') = guard-eq-ok (is_empty s) _ e in
    let (_, e'') = guard-eq-ok (contains_outside_key s b'@') _ e' in
    let (ps, split, e₃) = bind-eq-ok (split_segments s) _ e'' in
    let (ss, parsed, e₄) = bind-eq-ok (parse_segments ps) _ e₃ in
    let joined = (join_slash-split_segments s split).1 in
    ap ref_text (sym (ok-injective e₄))
    ∙ ap join_slash
        (map-parse_segments ps ss (parts-NoEscape ps (subst (All NoEscape) (sym joined) h)) parsed)
    ∙ joined
