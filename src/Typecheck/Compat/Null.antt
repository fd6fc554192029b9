-- ===== src/Typecheck/Compat/Null.antt =====
-- Null and optional types in `Assignable` of pkg/typecheck/compat.go.
use unobin.Base.{Bool, true, false, ◌||◌, ◌≡◌, refl, sym, ◌∙◌, Bytes, arith, eqb_self}
use unobin.Typecheck.Types.{
  Ty, t_opaque, t_optional, t_object, no_fields, field, is_kind, is_known, null, opaque, optional,
}
use unobin.Typecheck.Compat.{
  object_assignable, object_loop, field_map, assignable_switch, assignable_known, assignable_body,
  assignable,
}
use unobin.Typecheck.Compat.Fixed.{assignable-fixed}

assignable_known-null :
    (f : Ty → Ty → Bool) (d s : Ty)
    → (is_kind null s || is_kind optional s) ≡ true
    → assignable_known f d s ≡ true
    → (is_kind opaque d || is_kind optional d || is_kind null d) ≡ true
unfolding assignable_known
assignable_known-null f t_opaque s n h = refl
assignable_known-null f (t_optional e) s n h = refl
assignable_known-null f d s n h = ground (arith)

-- For two types that are known: if the source is null or optional and may flow into the slot, then
-- the slot is opaque, optional or null.
pub assignable-null :
    (d s : Ty)
    → is_known d ≡ true
    → is_known s ≡ true
    → (is_kind null s || is_kind optional s) ≡ true
    → assignable d s ≡ true
    → (is_kind opaque d || is_kind optional d || is_kind null d) ≡ true
unfolding assignable_body
assignable-null d s kd ks n h =
    assignable_known-null assignable d s n (known kd ks ∙ sym (assignable-fixed d s) ∙ h)
  where
    known :
        is_known d ≡ true
        → is_known s ≡ true
        → assignable_known assignable d s ≡ assignable_body assignable d s
    known kd ks = rw (kd, ks) refl

-- A slot for an object with a required field accepts an object in which that field may be absent,
-- when the types of the two fields fit.
pub assignable-optional_field :
    (name : Bytes) (d s : Ty) (defaulted defaulted' : Bool)
    → assignable d s ≡ true
    → assignable
        (t_object false (field name d false defaulted no_fields))
        (t_object false (field name s true defaulted' no_fields))
      ≡ true
unfolding assignable_body assignable_known assignable_switch object_assignable object_loop field_map
    is_known
assignable-optional_field name d s defaulted defaulted' h =
    assignable-fixed _ _ ∙ rw (eqb_self name, h) refl
