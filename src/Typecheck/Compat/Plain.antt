-- ===== src/Typecheck/Compat/Plain.antt =====
-- `Assignable` of pkg/typecheck/compat.go from a type to itself.
use unobin.Base.{
  ℕ, zero, suc, ◌<◌, Bool, true, false, ◌&&◌, ◌||◌, not, ◌≡◌, refl, ◌∙◌, Option, some,
  if◌then◌else◌, Bytes, arith, ◌==◌, eqb, eqb_self, update, and-eq-true_iff, Bool-cases, inl, inr,
}
use unobin.Typecheck.Types.{
  Ty, t_unknown, t_opaque, t_string, t_asset_path, t_bytes, t_integer, t_number, t_boolean, t_null,
  t_list, t_map, t_optional, t_tuple, t_union, t_object, t_library_config, Elem, nil_elem, elem,
  Types, no_types, and_type, Fields, no_fields, field, is_kind, is_known, unwrap, count_types, size,
  size_types, size_fields, null,
}
use unobin.Typecheck.Equal.Itself.{equal_refl}
use unobin.Typecheck.Compat.{
  wanted, object_assignable, object_loop, field_map, each_type, tuple_assignable, bytes_assignable,
  list_assignable, map_assignable, library_config_assignable, assignable_switch, assignable_known,
  assignable_body, assignable,
}
use unobin.Typecheck.Compat.Fixed.{assignable-fixed}

unfoldable pub has_field : Bytes → Fields → Bool
has_field name no_fields = false
has_field name (field n t o d fs) = eqb n name || has_field name fs

-- No union, and no object that declares a field twice.
unfoldable mutual
  pub plain : Ty → Bool
  plain (t_list e) = plain_elem e
  plain (t_map e) = plain_elem e
  plain (t_optional e) = plain_elem e
  plain (t_tuple ts) = plain_types ts
  plain (t_union ts) = false
  plain (t_object o fs) = plain_fields fs
  plain _ = true

  pub plain_elem : Elem → Bool
  plain_elem nil_elem = true
  plain_elem (elem t) = plain t

  pub plain_types : Types → Bool
  plain_types no_types = true
  plain_types (and_type t ts) = plain t && plain_types ts

  pub plain_fields : Fields → Bool
  plain_fields no_fields = true
  plain_fields (field n t o d fs) = plain t && not (has_field n fs) && plain_fields fs

-- The map holds each of the fields.
unfoldable Holds : (Bytes → Option Ty) → Fields → Type 0
Holds m no_fields = Unit
Holds m (field n t o d fs) = (m n ≡ some t) × Holds m fs

field_map-other :
    (m : Bytes → Option Ty) (fs : Fields) (name : Bytes)
    → has_field name fs ≡ false
    → field_map m fs name ≡ m name
unfolding field_map has_field
field_map-other m no_fields name h = refl
field_map-other m (field n t o d fs) name h =
    field_map-other (update m n (some t)) fs name (ground arith) ∙ rw (eqb_off h) refl
  where
    eqb_off : (eqb n name || has_field name fs) ≡ false → eqb n name ≡ false
    eqb_off h = ground arith

field_map-Holds :
    (m : Bytes → Option Ty) (fs : Fields) → plain_fields fs ≡ true → Holds (field_map m fs) fs
unfolding field_map plain Holds
field_map-Holds m no_fields h = tt
field_map-Holds m (field n t o d fs) h =
    let (front, later) = (and-eq-true_iff _ _).0 h in
    let (_, new) = (and-eq-true_iff _ _).0 front in
    (
      field_map-other (update m n (some t)) fs n (not_true new) ∙ rw (eqb_self n) refl,
      field_map-Holds (update m n (some t)) fs later,
    )
  where
    not_true : {b : Bool} → not b ≡ true → b ≡ false
    not_true {b} e = ground arith

module _ (f : Ty → Ty → Bool) (n : ℕ)
    (h : (a : Ty) (o : Bool) → plain a ≡ true → size a < n → f (wanted o a) a ≡ true) where
  object_loop_refl :
      (fs : Fields) (m : Bytes → Option Ty)
      → plain_fields fs ≡ true
      → size_fields fs < n
      → Holds m fs
      → object_loop f fs m ≡ true
  unfolding object_loop size plain Holds
  object_loop_refl no_fields m p l held = refl
  object_loop_refl (field k a o d fs) m p l (here, held) =
      let (front, later) = (and-eq-true_iff _ _).0 p in
      let (first, _) = (and-eq-true_iff _ _).0 front in
      rw (here, h a o first (omega (arith, l)), object_loop_refl fs m later (omega (arith, l)) held)
        refl

  each_type_refl :
      (ts : Types) → plain_types ts ≡ true → size_types ts < n → each_type f ts ts ≡ true
  unfolding each_type size plain
  each_type_refl no_types p l = refl
  each_type_refl (and_type a ts) p l =
      let (first, later) = (and-eq-true_iff _ _).0 p in
      rw (h a false first (omega (arith, l)), each_type_refl ts later (omega (arith, l))) refl

same_count : (n : ℕ) → (if not (n == n) then false else true) ≡ true
same_count n = ground arith

assignable_known_refl :
    (f : Ty → Ty → Bool) (a : Ty)
    → plain a ≡ true
    → is_known a ≡ true
    → ((x : Ty) (o : Bool) → plain x ≡ true → size x < size a → f (wanted o x) x ≡ true)
    → assignable_known f a a ≡ true
unfolding assignable_known assignable_switch object_assignable tuple_assignable bytes_assignable
    list_assignable map_assignable library_config_assignable size plain is_known
assignable_known_refl f t_unknown p k h = cc
assignable_known_refl f t_opaque p k h = refl
assignable_known_refl f t_string p k h = refl
assignable_known_refl f t_asset_path p k h = refl
assignable_known_refl f t_bytes p k h = refl
assignable_known_refl f t_integer p k h = refl
assignable_known_refl f t_number p k h = refl
assignable_known_refl f t_boolean p k h = refl
assignable_known_refl f t_null p k h = refl
assignable_known_refl f (t_list nil_elem) p k h = refl
assignable_known_refl f (t_list (elem a)) p k h = h a false p (omega arith)
assignable_known_refl f (t_map nil_elem) p k h = refl
assignable_known_refl f (t_map (elem a)) p k h = h a false p (omega arith)
assignable_known_refl f (t_optional nil_elem) p k h = refl
assignable_known_refl f (t_optional (elem a)) p k h = h a false p (omega arith)
assignable_known_refl f (t_tuple ts) p k h =
    rw (each_type_refl f _ h ts p (omega arith)) (same_count (count_types ts))
assignable_known_refl f (t_union ts) p k h = cc
assignable_known_refl f (t_object o fs) p k h =
    object_loop_refl f _ h fs _ p (omega arith) (field_map-Holds _ fs p)
assignable_known_refl f (t_library_config i fs) p k h = equal_refl (t_library_config i fs)

assignable_body_unknown :
    (f : Ty → Ty → Bool) (d a : Ty)
    → (is_known a ≡ true → assignable_known f d a ≡ true)
    → assignable_body f d a ≡ true
unfolding assignable_body
assignable_body_unknown f d a h = elim (Bool-cases (is_known a)) [
  | inl k ↦ rw (h k, k) (either (is_known d) false true refl)
  | inr k ↦ rw k (either (is_known d) true (assignable_known f d a) refl)
]
  where
    either : (b c x : Bool) → (c || x) ≡ true → (if not b || c then true else x) ≡ true
    either b c x e = ground arith

-- A type that is known has the value of its optional.
optional_of :
    (a : Ty)
    → (if is_kind null a then true else assignable a (unwrap a)) ≡ true
    → assignable (t_optional (elem a)) a ≡ true
unfolding assignable_known
optional_of a h =
    assignable-fixed (t_optional (elem a)) a
    ∙ assignable_body_unknown assignable (t_optional (elem a)) a (λ _. h)

-- A value of a type may flow into the optional of it.
assignable-wanted_refl :
    (o : Bool) (a : Ty) → assignable a a ≡ true → assignable (wanted o a) a ≡ true
assignable-wanted_refl false a h = h
assignable-wanted_refl true (t_optional e) h = h
assignable-wanted_refl true t_unknown h = optional_of t_unknown h
assignable-wanted_refl true t_opaque h = optional_of t_opaque h
assignable-wanted_refl true t_string h = optional_of t_string h
assignable-wanted_refl true t_asset_path h = optional_of t_asset_path h
assignable-wanted_refl true t_bytes h = optional_of t_bytes h
assignable-wanted_refl true t_integer h = optional_of t_integer h
assignable-wanted_refl true t_number h = optional_of t_number h
assignable-wanted_refl true t_boolean h = optional_of t_boolean h
assignable-wanted_refl true t_null h = optional_of t_null (refl)
assignable-wanted_refl true (t_list e) h = optional_of (t_list e) h
assignable-wanted_refl true (t_map e) h = optional_of (t_map e) h
assignable-wanted_refl true (t_tuple ts) h = optional_of (t_tuple ts) h
assignable-wanted_refl true (t_union ts) h = optional_of (t_union ts) h
assignable-wanted_refl true (t_object o fs) h = optional_of (t_object o fs) h
assignable-wanted_refl true (t_library_config i fs) h = optional_of (t_library_config i fs) h

assignable_refl_below : (n : ℕ) (a : Ty) → plain a ≡ true → size a < n → assignable a a ≡ true
assignable_refl_below zero a p l = absurd (omega (arith, l))
assignable_refl_below (suc n) a p l =
    assignable-fixed a a
    ∙ assignable_body_unknown assignable a a (λ k.
      assignable_known_refl assignable a p k
        (λ x o q j. assignable-wanted_refl o x (assignable_refl_below n x q (omega (arith, j, l)))))

-- A type with no union, in which no object declares a field twice, accepts its own values.
pub assignable_refl : (a : Ty) → plain a ≡ true → assignable a a ≡ true
assignable_refl a p = assignable_refl_below (suc (size a)) a p (omega arith)
