-- ===== src/StateRef/Ensures.antt =====
-- A postcondition of every function of the parser: what it returns, and that it never panics.
use unobin.Base.{
  Bool, true, false, not, ◌&&◌, ◌||◌, ◌≡◌, ◌≢◌, refl, Option, none, some, List, [], ◌∷◌, ◌++◌, ◌==◌,
  if◌then◌else◌, if_elim, arith, All, Bytes, Result, ok, err, ◌>>=◌, is_empty,
}
use unobin.StateRef.Syntax.{Category, StateAddressSegment, StateRef, valid_ident}
use unobin.StateRef.Parser.{
  ParseError, index_panic, split_loop, split_segments, cut_byte, contains_byte, parse_category,
  close_key, key_loop, parse_key, named_segment, parse_rest, parse_named, parse_dotted,
  parse_segment, parse_segments, contains_outside_key, parse_state_ref,
}

-- The result satisfies `P`, or is an error that the source returns.
abbrev pub Ensures : {A : Type 0} → (A → Type 0) → Result ParseError A → Type 0
Ensures P (ok a) = P a
Ensures P (err e) = e ≢ index_panic

pub Ensures-if :
    {A : Type 0} (P : A → Type 0) (b : Bool) (x y : Result ParseError A)
    → Ensures P x
    → Ensures P y
    → Ensures P (if b then x else y)
Ensures-if P true x y hx hy = hx
Ensures-if P false x y hx hy = hy

pub Ensures-bind :
    {A B : Type 0} (P : A → Type 0) (Q : B → Type 0) (m : Result ParseError A)
    (f : A → Result ParseError B)
    → Ensures P m
    → ((a : A) → P a → Ensures Q (f a))
    → Ensures Q (m >>= f)
Ensures-bind P Q (ok a) f h k = k a h
Ensures-bind P Q (err e) f h k = h

abbrev Filled : {A : Type 0} → List A → Type 0
Filled xs = xs ≢ []

abbrev Named : StateAddressSegment → Type 0
Named s = valid_ident s.name ≡ true

abbrev pub Anything : {A : Type 0} → A → Type 0
Anything a = Unit

split-Ensures :
    (in_key escaped : Bool) (s cur : Bytes) → Ensures Filled (split_loop in_key escaped cur s)
unfolding split_loop
split-Ensures true true [] cur = Ensures-if Filled (is_empty cur) _ _ (λ e. cc) (λ e. cc)
split-Ensures true false [] cur = Ensures-if Filled (is_empty cur) _ _ (λ e. cc) (λ e. cc)
split-Ensures false esc [] cur = Ensures-if Filled (is_empty cur) _ _ (λ e. cc) (λ e. cc)
split-Ensures true true (c ∷ cs) cur = split-Ensures true false cs (cur ++ c ∷ [])
split-Ensures true false (c ∷ []) cur =
    Ensures-if Filled (is_empty (cur ++ c ∷ [])) _ _ (λ e. cc) (λ e. cc)
split-Ensures true false (c ∷ d ∷ cs) cur =
    Ensures-if Filled (c == b'\'' && d == b']') _ _
      (split-Ensures false false cs (cur ++ c ∷ d ∷ []))
      (split-Ensures true (c == b'\\') (d ∷ cs) (cur ++ c ∷ []))
split-Ensures false esc (c ∷ cs) cur =
    Ensures-if Filled (c == b'[') _ _ (split-Ensures true esc cs (cur ++ c ∷ [])) (
      Ensures-if Filled (c == b'/') _ _
        (Ensures-if Filled (is_empty cur) _ _ (λ e. cc)
          (Ensures-bind Filled Filled (split_loop false esc [] cs) _ (split-Ensures false esc cs [])
            (λ ps h e. cc)))
        (split-Ensures false esc cs (cur ++ c ∷ [])))

close_key-Ensures : (context out cs : Bytes) → Ensures Anything (close_key context out cs)
unfolding close_key
close_key-Ensures context out [] = λ e. cc
close_key-Ensures context out (d ∷ []) = Ensures-if Anything (d == b']') _ _ tt (λ e. cc)
close_key-Ensures context out (d ∷ e ∷ cs) =
    Ensures-if Anything (not (d == b']')) _ _ (λ x. cc)
      (Ensures-if Anything (e == b'.') _ _ (λ x. cc) (λ x. cc))

key_loop-Ensures : (context cs out : Bytes) → Ensures Anything (key_loop context out cs)
unfolding key_loop
key_loop-Ensures context [] out = λ e. cc
key_loop-Ensures context (c ∷ []) out = Ensures-if Anything (c == b'\'') _ _ (λ e. cc) (λ e. cc)
key_loop-Ensures context (c ∷ d ∷ cs) out =
    Ensures-if Anything (c == b'\n' || c == b'\r') _ _ (λ e. cc)
      (Ensures-if Anything (c == b'\\') _ _ (key_loop-Ensures context cs (out ++ d ∷ [])) (
        Ensures-if Anything (c == b'\'') _ _ (close_key-Ensures context out (d ∷ cs))
          (key_loop-Ensures context (d ∷ cs) (out ++ c ∷ []))))

parse_key-Ensures : (s context : Bytes) → Ensures Anything (parse_key s context)
unfolding parse_key
parse_key-Ensures [] context = λ e. cc
parse_key-Ensures (a ∷ []) context = λ e. cc
parse_key-Ensures (a ∷ b ∷ cs) context =
    Ensures-if Anything (a == b'[' && b == b'\'') _ _ (key_loop-Ensures context cs []) (λ e. cc)

named_segment-Ensures :
    (c : Category) (n : Bytes) (key : Option Bytes) → Ensures Named (named_segment c n key)
unfolding named_segment
named_segment-Ensures c n key =
    Ensures-if Named (contains_byte b'.' n) _ _ (λ e. cc)
      (if_elim (Ensures Named) (not (valid_ident n)) _ _ (λ _ e. cc) (λ h. ground arith))

parse_rest-Ensures :
    (c : Category) (s rest : Bytes) (r : Option (Bytes × Bytes))
    → Ensures Named (parse_rest c s rest r)
unfolding parse_rest
parse_rest-Ensures c s rest none = named_segment-Ensures c rest none
parse_rest-Ensures c s rest (some (n, behind)) =
    Ensures-bind Anything Named (parse_key (b'[' ∷ behind) s) _
      (parse_key-Ensures (b'[' ∷ behind) s) (λ k _. named_segment-Ensures c n (some k))

parse_named-Ensures : (c : Option Category) (s rest : Bytes) → Ensures Named (parse_named c s rest)
unfolding parse_named
parse_named-Ensures none s rest = λ e. cc
parse_named-Ensures (some c) s rest = parse_rest-Ensures c s rest (cut_byte b'[' rest)

parse_dotted-Ensures : (s : Bytes) (r : Option (Bytes × Bytes)) → Ensures Named (parse_dotted r s)
unfolding parse_dotted
parse_dotted-Ensures s none = λ e. cc
parse_dotted-Ensures s (some (before, rest)) =
    Ensures-if Named (is_empty before || is_empty rest) _ _ (λ e. cc)
      (parse_named-Ensures (parse_category before) s rest)

parse_segment-Ensures : (s : Bytes) → Ensures Named (parse_segment s)
unfolding parse_segment
parse_segment-Ensures s = parse_dotted-Ensures s (cut_byte b'.' s)

abbrev AllNamed : List Bytes → List StateAddressSegment → Type 0
AllNamed ps ss = (ps ≢ [] → ss ≢ []) × All Named ss

parse_segments-Ensures : (ps : List Bytes) → Ensures (AllNamed ps) (parse_segments ps)
unfolding parse_segments
parse_segments-Ensures [] = (λ h. absurd (h refl), tt)
parse_segments-Ensures (p ∷ ps) =
    Ensures-bind Named (AllNamed (p ∷ ps)) (parse_segment p) _ (parse_segment-Ensures p) (λ s h.
      Ensures-bind (AllNamed ps) (AllNamed (p ∷ ps)) (parse_segments ps) _
        (parse_segments-Ensures ps) (λ ss g. (λ _ e. cc, (h, g.1))))

-- What every ref that `ParseStateRef` returns satisfies.
abbrev pub IsParsed : StateRef → Type 0
IsParsed r = (r.segments ≢ []) × All Named r.segments

pub parse_state_ref-Ensures : (s : Bytes) → Ensures IsParsed (parse_state_ref s)
unfolding parse_state_ref split_segments
parse_state_ref-Ensures s =
    Ensures-if IsParsed (is_empty s) _ _ (λ e. cc)
      (Ensures-if IsParsed (contains_outside_key s b'@') _ _ (λ e. cc)
        (Ensures-bind Filled IsParsed (split_segments s) _ (split-Ensures false false s []) (λ ps h.
          Ensures-bind (AllNamed ps) IsParsed (parse_segments ps) _ (parse_segments-Ensures ps)
            (λ ss g. (g.0 h, g.1)))))
