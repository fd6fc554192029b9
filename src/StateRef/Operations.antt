-- ===== src/StateRef/Operations.antt =====
-- The exported functions of pkg/stateref/entry_ref.go over addresses.
use unobin.Base.{
  Bool, true, false, Option, none, some, List, [], ◌∷◌, map, if◌then◌else◌, Bytes, eqb, Result, ok,
  err, ◌>>=◌,
}
use unobin.StateRef.Syntax.{StateAddressSegment, StateRef, EntryRef, ref_text}
use unobin.StateRef.Parser.{ParseError, already_keyed, index_panic, parse_state_ref}

unfoldable pub parse : Bytes → Result ParseError EntryRef
parse s = parse_state_ref s >>= λ ref. ok (record { address = ref_text ref })

-- The error of `ValidateAddress`, or `tt` for nil.
unfoldable pub validate_address : Bytes → Result ParseError (Unit {0})
validate_address address = parse_state_ref address >>= λ _. ok tt

-- A segment with `Key` set.
abbrev pub set_key : Option Bytes → StateAddressSegment → StateAddressSegment
set_key key s = record s { key = key }

abbrev pub is_some : Option Bytes → Bool
is_some none = false
is_some (some k) = true

-- `last.Key = &StringKey{Value: key}`, behind the check for a key.
unfoldable pub add_last_key :
    Bytes → List StateAddressSegment → Result ParseError (List StateAddressSegment)
add_last_key key [] = err index_panic
add_last_key key (s ∷ []) =
    if is_some s.key then err already_keyed else ok (set_key (some key) s ∷ [])
add_last_key key (s ∷ t ∷ ss) = add_last_key key (t ∷ ss) >>= λ ts. ok (s ∷ ts)

unfoldable pub append_instance_key : Bytes → Bytes → Result ParseError Bytes
unfolding add_last_key
append_instance_key template key = do
  ref ← parse_state_ref template
  segments ← add_last_key key ref.segments
  ok (ref_text (record { segments = segments }))

-- `last.Key`
unfoldable pub last_key : List StateAddressSegment → Result ParseError (Option Bytes)
last_key [] = err index_panic
last_key (s ∷ []) = ok s.key
last_key (s ∷ t ∷ ss) = last_key (t ∷ ss)

-- `last.Key = nil`
unfoldable pub clear_last_key : List StateAddressSegment → List StateAddressSegment
clear_last_key [] = []
clear_last_key (s ∷ []) = set_key none s ∷ []
clear_last_key (s ∷ t ∷ ss) = s ∷ clear_last_key (t ∷ ss)

abbrev split_at_key : StateRef → Option Bytes → Bytes × Bytes × Bool
split_at_key ref none = (ref_text ref, [], false)
split_at_key ref (some key) =
    (ref_text (record { segments = clear_last_key ref.segments }), key, true)

-- The template, the key and `ok`.
unfoldable pub split_instance_key : Bytes → Result ParseError (Bytes × Bytes × Bool)
unfolding last_key clear_last_key
split_instance_key address = do
  ref ← parse_state_ref address
  key ← last_key ref.segments
  ok (split_at_key ref key)

unfoldable pub template : Bytes → Result ParseError Bytes
template address = do
  ref ← parse_state_ref address
  ok (ref_text (record { segments = map (set_key none) ref.segments }))

-- `ref.Segments[:len(ref.Segments)-1]`
unfoldable pub drop_last : List StateAddressSegment → Result ParseError (List StateAddressSegment)
drop_last [] = err index_panic
drop_last (s ∷ []) = ok []
drop_last (s ∷ t ∷ ss) = drop_last (t ∷ ss) >>= λ ts. ok (s ∷ ts)

-- `len(ref.Segments) == 1`
abbrev pub is_single : List StateAddressSegment → Bool
is_single (s ∷ []) = true
is_single _ = false

abbrev pub join_segments : List StateAddressSegment → Result ParseError Bytes
join_segments segments = ok (ref_text (record { segments = segments }))

unfoldable pub parent : Bytes → Result ParseError Bytes
unfolding drop_last
parent address = parse_state_ref address >>= λ ref.
    (if is_single ref.segments then ok [] else drop_last ref.segments >>= join_segments)

unfoldable pub same : EntryRef → EntryRef → Bool
same a b = eqb a.address b.address
