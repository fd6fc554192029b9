-- ===== src/StateRef/Examples.antt =====
-- Refs on which the parser and the operations run.
use unobin.Base.{
  true, ◌≡◌, ◌≢◌, refl, inl, inr, none, some, [], ◌∷◌, map, Bytes, bytes, ok, err, eqb, arith,
}
use unobin.StateRef.Syntax.{
  resource, action, data_source, StateAddressSegment, StateRef, ref_text, escape_key, segment_text,
  join_slash, valid_ident, category_text, replace_all,
}
use unobin.StateRef.Parser.{
  malformed_key, empty_segment, field_access, bad_category, already_keyed, index_panic,
  parse_state_ref, contains_outside_key, split_segments, parse_segments, parse_segment,
  parse_category, parse_key, cut_byte, named_segment, contains_byte,
}
use unobin.StateRef.Operations.{set_key, append_instance_key, split_instance_key, template, parent}
use unobin.StateRef.Valid.{SegmentIsValid, RefIsValid}
use unobin.StateRef.RoundTrip.{parse_state_ref-ref_text}
use unobin.StateRef.Printed.{ref_text-parse_state_ref}
use unobin.StateRef.Keys.{ending_in, split-append_instance_key, template-ref_text, parent-ref_text}
use unobin.StateRef.Unreadable.{append_instance_key-HasBreak, keyed}
use unobin.StateRef.Bracket.{append_instance_key-bracket, IsErr}
use unobin.StateRef.Ensures.{IsParsed}
use unobin.StateRef.Panics.{parse_state_ref-IsParsed, operations-ne-panic}

-- `resource.app['a/b\'']`
abbrev app : StateAddressSegment
app = record { category = resource; name = bytes "app"; key = some (bytes "a/b'") }

-- `data-source.read-2`
abbrev read_2 : StateAddressSegment
read_2 = record { category = data_source; name = bytes "read-2"; key = none }

app-SegmentIsValid : SegmentIsValid app
unfolding valid_ident
app-SegmentIsValid = record { named = refl; clean = omega arith }

read_2-SegmentIsValid : SegmentIsValid read_2
unfolding valid_ident
read_2-SegmentIsValid = record { named = refl; clean = tt }

abbrev nested : StateRef
nested = ending_in (app ∷ []) read_2

nested-RefIsValid : RefIsValid nested
nested-RefIsValid = record {
  filled = λ e. cc;
  each = (app-SegmentIsValid, (read_2-SegmentIsValid, tt));
}

nested_text : ref_text nested ≡ bytes "resource.app['a/b\\'']/data-source.read-2"
unfolding ref_text join_slash segment_text category_text escape_key replace_all
nested_text = refl

parse_errors :
    (parse_state_ref (bytes "resource.a//action.b") ≡ err empty_segment)
    × (parse_state_ref (bytes "resource.a.id") ≡ err field_access)
    × (parse_state_ref (bytes "input.a") ≡ err bad_category)
    × (parse_state_ref (bytes "resource.a['k") ≡ err (malformed_key (bytes "resource.a['k")))
unfolding parse_state_ref contains_outside_key split_segments parse_segments parse_segment
    parse_category parse_key valid_ident eqb cut_byte named_segment contains_byte
parse_errors = (refl, refl, refl, refl)

parse_state_ref-ref_text_example : parse_state_ref (ref_text nested) ≡ ok nested
parse_state_ref-ref_text_example = parse_state_ref-ref_text nested nested-RefIsValid

abbrev plain_text : Bytes
plain_text = bytes "resource.app['a/b']/action.run"

abbrev plain_ref : StateRef
plain_ref = record {
  segments =
      record { category = resource; name = bytes "app"; key = some (bytes "a/b") }
      ∷ record { category = action; name = bytes "run"; key = none }
      ∷ [];
}

plain_parse : parse_state_ref plain_text ≡ ok plain_ref
unfolding parse_state_ref contains_outside_key split_segments parse_segments parse_segment
    parse_category parse_key valid_ident eqb cut_byte named_segment contains_byte
plain_parse = refl

ref_text-parse_state_ref_example : ref_text plain_ref ≡ plain_text
ref_text-parse_state_ref_example = ref_text-parse_state_ref plain_text (omega arith) plain_parse

split-append_instance_key_example :
    let a = ref_text (ending_in (app ∷ []) (set_key (some (bytes "blue/green")) read_2)) in
    (append_instance_key (ref_text nested) (bytes "blue/green") ≡ ok a)
    × (split_instance_key a ≡ ok (ref_text nested, bytes "blue/green", true))
    × (append_instance_key a (bytes "red") ≡ err already_keyed)
split-append_instance_key_example =
    split-append_instance_key (app ∷ []) read_2 (bytes "blue/green") (bytes "red")
      (app-SegmentIsValid, tt) read_2-SegmentIsValid refl (omega arith)

template-ref_text_example :
    (t : Bytes) × (template (ref_text nested) ≡ ok t)
    × (template t ≡ ok t)
    × (parse_state_ref t ≡ ok (record { segments = map (set_key none) nested.segments }))
template-ref_text_example = template-ref_text nested nested-RefIsValid

parent-ref_text_example : parent (ref_text nested) ≡ ok (ref_text (record { segments = app ∷ [] }))
parent-ref_text_example =
    parent-ref_text (app ∷ []) read_2 (app-SegmentIsValid, tt) read_2-SegmentIsValid

append_instance_key-HasBreak_example :
    (a : Bytes) × (append_instance_key (ref_text nested) (bytes "a\nb") ≡ ok a)
    × (parse_state_ref a
        ≡ err (malformed_key (segment_text (keyed data_source (bytes "read-2") (bytes "a\nb")))))
append_instance_key-HasBreak_example =
    append_instance_key-HasBreak (app ∷ []) data_source (bytes "read-2") (bytes "a\nb")
      (app-SegmentIsValid, tt) read_2-SegmentIsValid.named (omega arith) (inr (inl refl))

append_instance_key-bracket_example :
    (a : Bytes) × (append_instance_key (ref_text (ending_in [] read_2)) (bytes "]/x") ≡ ok a)
    × IsErr (parse_state_ref a)
append_instance_key-bracket_example =
    append_instance_key-bracket data_source (bytes "read-2") (bytes "x") read_2-SegmentIsValid.named

parse_state_ref-IsParsed_example : IsParsed plain_ref
parse_state_ref-IsParsed_example = parse_state_ref-IsParsed plain_text plain_parse

operations-ne-panic_example :
    (append_instance_key plain_text (bytes "k") ≢ err index_panic)
    × (split_instance_key plain_text ≢ err index_panic)
    × (parent plain_text ≢ err index_panic)
operations-ne-panic_example = operations-ne-panic plain_text (bytes "k")
