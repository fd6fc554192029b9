-- ===== src/Typecheck/Compat/Fixed.antt =====
-- The depth of the recursion of `Assignable` in pkg/typecheck/compat.go.
use unobin.Base.{
  ℕ, zero, suc, ◌≤◌, ◌<◌, Bool, true, false, ◌≡◌, refl, Option, none, some, Bytes, arith,
}
use unobin.Typecheck.Types.{
  Ty, t_opaque, t_bytes, t_integer, t_list, t_map, t_optional, t_tuple, t_union, t_object,
  t_library_config, Elem, nil_elem, elem, Types, no_types, and_type, Fields, no_fields, field,
  unwrap, size, size_elem, size_types, size_fields,
}
use unobin.Typecheck.Compat.{
  wanted, all_types, all_fields, list_assignable, map_assignable, each_type, tuple_assignable,
  fields_from, field_round, object_loop, object_assignable, bytes_assignable,
  library_config_assignable, any_member, assignable_switch, assignable_known, assignable_body,
  assignable_within, assignable,
}

pub size_positive : (t : Ty) → 0 < size t
unfolding size
size_positive t_bytes = omega arith
size_positive (t_list e) = omega arith
size_positive (t_map e) = omega arith
size_positive (t_optional e) = omega arith
size_positive (t_tuple ts) = omega arith
size_positive (t_union ts) = omega arith
size_positive (t_object o fs) = omega arith
size_positive (t_library_config i fs) = omega arith
size_positive _ = omega arith

size-wanted : (o : Bool) (t : Ty) → size (wanted o t) ≤ suc (size t)
unfolding size
size-wanted false t = omega arith
size-wanted true (t_optional e) = omega arith
size-wanted true t_bytes = omega arith
size-wanted true (t_list e) = omega arith
size-wanted true (t_map e) = omega arith
size-wanted true (t_tuple ts) = omega arith
size-wanted true (t_union ts) = omega arith
size-wanted true (t_object o fs) = omega arith
size-wanted true (t_library_config i fs) = omega arith
size-wanted true _ = omega arith

-- Two functions that agree on the slots of size less than `n`.
abbrev Agree : (Ty → Ty → Bool) → (Ty → Ty → Bool) → ℕ → Type 0
Agree f g n = (d s : Ty) → size d < n → f d s ≡ g d s

module _ (f g : Ty → Ty → Bool) (n : ℕ) (h : Agree f g n) where
  all_types-agree : (d : Ty) (ss : Types) → size d < n → all_types f d ss ≡ all_types g d ss
  unfolding all_types
  all_types-agree d no_types l = refl
  all_types-agree d (and_type s ss) l = rw (h d s l, all_types-agree d ss l) refl

  all_fields-agree : (d : Ty) (fs : Fields) → size d < n → all_fields f d fs ≡ all_fields g d fs
  unfolding all_fields
  all_fields-agree d no_fields l = refl
  all_fields-agree d (field m s o d' fs) l = rw (h d s l, all_fields-agree d fs l) refl

  list_assignable-agree :
      (e : Elem) (s : Ty) → size_elem e < n → list_assignable f e s ≡ list_assignable g e s
  unfolding list_assignable size
  list_assignable-agree nil_elem s l = refl
  list_assignable-agree (elem d) (t_list nil_elem) l = refl
  list_assignable-agree (elem d) (t_list (elem s)) l = h d s l
  list_assignable-agree (elem d) (t_tuple ss) l = all_types-agree d ss l
  list_assignable-agree (elem d) _ l = refl

  map_assignable-agree :
      (e : Elem) (s : Ty) → size_elem e < n → map_assignable f e s ≡ map_assignable g e s
  unfolding map_assignable size
  map_assignable-agree nil_elem s l = refl
  map_assignable-agree (elem d) (t_map nil_elem) l = refl
  map_assignable-agree (elem d) (t_map (elem s)) l = h d s l
  map_assignable-agree (elem d) (t_object o fs) l = all_fields-agree d fs l
  map_assignable-agree (elem d) _ l = refl

  each_type-agree : (ds ss : Types) → size_types ds < n → each_type f ds ss ≡ each_type g ds ss
  unfolding each_type size
  each_type-agree (and_type d ds) (and_type s ss) l =
      rw (h d s (omega (arith, l)), each_type-agree ds ss (omega (arith, l, size_positive d))) refl
  each_type-agree no_types ss l = refl
  each_type-agree (and_type d ds) no_types l = refl

  tuple_assignable-agree :
      (ds : Types) (s : Ty) → size_types ds < n → tuple_assignable f ds s ≡ tuple_assignable g ds s
  unfolding tuple_assignable
  tuple_assignable-agree ds (t_tuple ss) l = rw (each_type-agree ds ss l) refl
  tuple_assignable-agree ds _ l = refl

  fields_from-agree :
      (ds : Fields) (s : Ty) → size_fields ds < n → fields_from f ds s ≡ fields_from g ds s
  unfolding fields_from size
  fields_from-agree no_fields s l = refl
  fields_from-agree (field m d o d' ds) s l =
      rw (h d s (omega (arith, l)), fields_from-agree ds s (omega (arith, l))) refl

  field_round-agree :
      (d : Ty) (o : Bool) (got : Option Ty) (r : Bool)
      → suc (size d) < n
      → field_round f d o got r ≡ field_round g d o got r
  field_round-agree d o none r l = refl
  field_round-agree d o (some s) r l =
      rw (h (wanted o d) s (omega (arith, l, size-wanted o d))) refl

  object_loop-agree :
      (ds : Fields) (m : Bytes → Option Ty)
      → size_fields ds < n
      → object_loop f ds m ≡ object_loop g ds m
  unfolding object_loop size
  object_loop-agree no_fields m l = refl
  object_loop-agree (field k d o d' ds) m l =
      rw (object_loop-agree ds m (omega (arith, l)))
        (field_round-agree d o (m k) (object_loop g ds m) (omega (arith, l)))

  object_assignable-agree :
      (ds : Fields) (s : Ty)
      → size_fields ds < n
      → object_assignable f ds s ≡ object_assignable g ds s
  unfolding object_assignable
  object_assignable-agree ds (t_library_config i fs) l = object_loop-agree ds _ l
  object_assignable-agree ds (t_object o fs) l = object_loop-agree ds _ l
  object_assignable-agree ds (t_map nil_elem) l = refl
  object_assignable-agree ds (t_map (elem s)) l = fields_from-agree ds s l
  object_assignable-agree ds _ l = refl

  any_member-agree :
      (ms : Types) (s : Ty) → size_types ms < n → any_member f ms s ≡ any_member g ms s
  unfolding any_member size
  any_member-agree no_types s l = refl
  any_member-agree (and_type d ms) s l =
      rw (h d s (omega (arith, l)), any_member-agree ms s (omega (arith, l))) refl

-- The body asks only for slots that are smaller.
assignable_switch-Agree :
    (f g : Ty → Ty → Bool) (d s : Ty)
    → Agree f g (size d)
    → assignable_switch f d s ≡ assignable_switch g d s
unfolding assignable_switch library_config_assignable bytes_assignable size
assignable_switch-Agree f g (t_library_config i fs) s h =
    rw (object_assignable-agree f g _ h fs s (omega arith)) refl
assignable_switch-Agree f g (t_union ms) s h = any_member-agree f g _ h ms s (omega arith)
assignable_switch-Agree f g t_bytes s h =
    rw (list_assignable-agree f g _ h (elem t_integer) s (omega arith)) refl
assignable_switch-Agree f g (t_list e) s h = list_assignable-agree f g _ h e s (omega arith)
assignable_switch-Agree f g (t_map e) s h = map_assignable-agree f g _ h e s (omega arith)
assignable_switch-Agree f g (t_tuple ds) s h = tuple_assignable-agree f g _ h ds s (omega arith)
assignable_switch-Agree f g (t_object o fs) s h = object_assignable-agree f g _ h fs s (omega arith)
assignable_switch-Agree f g _ s h = refl

assignable_known-Agree :
    (f g : Ty → Ty → Bool) (d s : Ty)
    → Agree f g (size d)
    → assignable_known f d s ≡ assignable_known g d s
unfolding assignable_known size
assignable_known-Agree f g t_opaque s h = refl
assignable_known-Agree f g (t_optional nil_elem) s h = refl
assignable_known-Agree f g (t_optional (elem d)) s h = rw (h d (unwrap s) (omega arith)) refl
assignable_known-Agree f g d s h = rw (assignable_switch-Agree f g d s h) refl

assignable_body-Agree :
    (f g : Ty → Ty → Bool) (d s : Ty)
    → Agree f g (size d)
    → assignable_body f d s ≡ assignable_body g d s
unfolding assignable_body
assignable_body-Agree f g d s h = rw (assignable_known-Agree f g d s h) refl

-- With fuel above the size of the slot, neither the fuel nor what answers beyond it matters.
assignable_within-enough :
    (f g : Ty → Ty → Bool) (n m : ℕ) (d s : Ty)
    → size d < n
    → size d < m
    → assignable_within f n d s ≡ assignable_within g m d s
unfolding assignable_within
assignable_within-enough f g zero m d s l k = absurd (omega (arith, l))
assignable_within-enough f g (suc n) zero d s l k = absurd (omega (arith, k))
assignable_within-enough f g (suc n) (suc m) d s l k =
    assignable_body-Agree (assignable_within f n) (assignable_within g m) d s (λ d' s' j.
      assignable_within-enough f g n m d' s' (omega (arith, j, l)) (omega (arith, j, k)))

pub assignable-fixed : (d s : Ty) → assignable d s ≡ assignable_body assignable d s
unfolding assignable assignable_within
assignable-fixed d s =
    assignable_body-Agree (assignable_within (λ _ _. true) (size d)) assignable d s (λ d' s' j.
      assignable_within-enough (λ _ _. true) (λ _ _. true) (size d) (suc (size d')) d' s' j
        (omega arith))

-- The recursion of `Assignable` ends, no deeper than the size of the slot: with any fuel above that
-- size, and whatever function answers the calls for which no fuel is left, the body and its calls
-- return one Boolean. It is the one that the body computes when its calls are calls of `Assignable`.
pub assignable_within-ends :
    (beyond : Ty → Ty → Bool) (fuel : ℕ) (d s : Ty)
    → size d < fuel
    → (assignable_within beyond fuel d s ≡ assignable d s)
      × (assignable d s ≡ assignable_body assignable d s)
unfolding assignable
assignable_within-ends beyond fuel d s l = (
  assignable_within-enough beyond (λ _ _. true) fuel (suc (size d)) d s l (omega arith),
  assignable-fixed d s,
)
