-- ===== src/StateRef/Parser.antt =====
-- `ParseStateRef` and the functions that it calls, in pkg/stateref/entry_ref.go.
use unobin.Base.{
  ℕ, Bool, true, false, not, ◌&&◌, ◌||◌, Option, none, some, List, [], ◌∷◌, ◌++◌, ◌==◌,
  if◌then◌else◌, is_empty, Bytes, bytes, eqb, Result, ok, err, ◌>>=◌,
}
use unobin.StateRef.Syntax.{
  Category, resource, data_source, action, StateAddressSegment, StateRef, valid_ident,
}

-- One constructor for each message; a message that prints a string carries it.
pub data ParseError : Type 0 where
  expected_state_ref : ParseError
  expected_state_ref_got : Bytes → ParseError
  empty_segment : ParseError
  bad_segment : ParseError
  bad_category : ParseError
  field_access : ParseError
  invalid_name : Bytes → ParseError
  malformed_key : Bytes → ParseError
  already_keyed : ParseError
  index_panic : ParseError  -- no message: the index `len(ref.Segments)-1` is out of range

-- The loop of `containsOutsideKey`, on the bytes from `s[i]` on; the flags are `inKey`, `escaped`.
unfoldable pub contains_loop : ℕ → Bool → Bool → Bytes → Bool
contains_loop target in_key escaped [] = false
contains_loop target true true (c ∷ cs) = contains_loop target true false cs
contains_loop target true false (c ∷ []) = contains_loop target true (c == b'\\') []
contains_loop target true false (c ∷ d ∷ cs) =
    let leave = contains_loop target false false cs in
    let stay = contains_loop target true (c == b'\\') (d ∷ cs) in
    if c == b'\'' && d == b']' then leave else stay
contains_loop target false escaped (c ∷ cs) =
    let inside = contains_loop target true escaped cs in
    let outside = contains_loop target false escaped cs in
    if c == b'[' then inside else if c == target then true else outside

unfoldable pub contains_outside_key : Bytes → ℕ → Bool
unfolding contains_loop
contains_outside_key s target = contains_loop target false false s

-- The loop of `splitSegments`, on the bytes from `s[i]` on; `cur` is `s[start:i]`.
unfoldable pub split_loop : Bool → Bool → Bytes → Bytes → Result ParseError (List Bytes)
split_loop in_key escaped cur [] = if is_empty cur then err empty_segment else ok (cur ∷ [])
split_loop true true cur (c ∷ cs) = split_loop true false (cur ++ c ∷ []) cs
split_loop true false cur (c ∷ []) = split_loop true (c == b'\\') (cur ++ c ∷ []) []
split_loop true false cur (c ∷ d ∷ cs) =
    let leave = split_loop false false (cur ++ c ∷ d ∷ []) cs in
    let stay = split_loop true (c == b'\\') (cur ++ c ∷ []) (d ∷ cs) in
    if c == b'\'' && d == b']' then leave else stay
split_loop false escaped cur (c ∷ cs) =
    let part = split_loop false escaped [] cs in
    let inside = split_loop true escaped (cur ++ c ∷ []) cs in
    let outside = split_loop false escaped (cur ++ c ∷ []) cs in
    if c == b'['
    then inside
    else if c == b'/'
    then (if is_empty cur then err empty_segment else part >>= λ ps. ok (cur ∷ ps))
    else outside

unfoldable pub split_segments : Bytes → Result ParseError (List Bytes)
unfolding split_loop
split_segments s = split_loop false false [] s

abbrev pub cons_before : ℕ → Option (Bytes × Bytes) → Option (Bytes × Bytes)
cons_before c none = none
cons_before c (some (before, behind)) = some (c ∷ before, behind)

-- `strings.IndexByte(s, b)`, with the slices before and behind the byte found.
unfoldable pub cut_byte : ℕ → Bytes → Option (Bytes × Bytes)
cut_byte b [] = none
cut_byte b (c ∷ cs) = if c == b then some ([], cs) else cons_before c (cut_byte b cs)

-- `strings.Contains(s, ".")`
unfoldable pub contains_byte : ℕ → Bytes → Bool
contains_byte b [] = false
contains_byte b (c ∷ cs) = c == b || contains_byte b cs

unfoldable pub parse_category : Bytes → Option Category
parse_category s =
    if eqb s (bytes "resource")
    then some resource
    else if eqb s (bytes "data-source")
    then some data_source
    else if eqb s (bytes "action")
    then some action
    else none

-- The `case '\''` of `parseKey`, on the bytes behind the quote.
unfoldable pub close_key : Bytes → Bytes → Bytes → Result ParseError Bytes
close_key context out [] = err (malformed_key context)
close_key context out (d ∷ []) = if d == b']' then ok out else err (malformed_key context)
close_key context out (d ∷ e ∷ rest) =
    if not (d == b']')
    then err (malformed_key context)
    else if e == b'.'
    then err field_access
    else err (malformed_key context)

-- The loop of `parseKey`, on the bytes from `s[i]` on; `out` is the builder.
unfoldable pub key_loop : Bytes → Bytes → Bytes → Result ParseError Bytes
unfolding close_key
key_loop context out [] = err (malformed_key context)
key_loop context out (c ∷ []) =
    if c == b'\'' then close_key context out [] else err (malformed_key context)
key_loop context out (c ∷ d ∷ cs) =
    let unescaped = key_loop context (out ++ d ∷ []) cs in
    let plain = key_loop context (out ++ c ∷ []) (d ∷ cs) in
    if c == b'\n' || c == b'\r'
    then err (malformed_key context)
    else if c == b'\\'
    then unescaped
    else if c == b'\''
    then close_key context out (d ∷ cs)
    else plain

unfoldable pub parse_key : Bytes → Bytes → Result ParseError Bytes
unfolding key_loop
parse_key [] context = err (malformed_key context)
parse_key (a ∷ []) context = err (malformed_key context)
parse_key (a ∷ b ∷ cs) context =
    if a == b'[' && b == b'\'' then key_loop context [] cs else err (malformed_key context)

-- The two checks on the name, and the result of `parseSegment`.
unfoldable pub named_segment :
    Category → Bytes → Option Bytes → Result ParseError StateAddressSegment
named_segment category name key =
    if contains_byte b'.' name
    then err field_access
    else if not (valid_ident name)
    then err (invalid_name name)
    else ok (record { category = category; name = name; key = key })

-- `parseSegment` behind the category: `rest` may hold a key.
unfoldable pub parse_rest :
    Category → Bytes → Bytes → Option (Bytes × Bytes) → Result ParseError StateAddressSegment
parse_rest category s rest none = named_segment category rest none
parse_rest category s rest (some (name, behind)) =
    parse_key (b'[' ∷ behind) s >>= λ key. named_segment category name (some key)

-- `parseSegment` behind the dot.
unfoldable pub parse_named : Option Category → Bytes → Bytes → Result ParseError StateAddressSegment
unfolding parse_rest
parse_named none s rest = err bad_category
parse_named (some category) s rest = parse_rest category s rest (cut_byte b'[' rest)

unfoldable pub parse_dotted : Option (Bytes × Bytes) → Bytes → Result ParseError StateAddressSegment
unfolding parse_named
parse_dotted none s = err bad_segment
parse_dotted (some (before, rest)) s =
    if is_empty before || is_empty rest
    then err bad_segment
    else parse_named (parse_category before) s rest

unfoldable pub parse_segment : Bytes → Result ParseError StateAddressSegment
unfolding parse_dotted
parse_segment s = parse_dotted (cut_byte b'.' s) s

-- The loop of `ParseStateRef` over the parts.
unfoldable pub parse_segments : List Bytes → Result ParseError (List StateAddressSegment)
parse_segments [] = ok []
parse_segments (p ∷ ps) = do
  segment ← parse_segment p
  segments ← parse_segments ps
  ok (segment ∷ segments)

unfoldable pub parse_state_ref : Bytes → Result ParseError StateRef
unfolding parse_segments
parse_state_ref s =
    if is_empty s
    then err expected_state_ref
    else if contains_outside_key s b'@'
    then err (expected_state_ref_got s)
    else (do
      parts ← split_segments s
      segments ← parse_segments parts
      ok (record { segments = segments }))
