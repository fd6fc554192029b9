-- ===== src/Typecheck/Examples.antt =====
-- Types of a small declaration.
use unobin.Base.{suc, Bool, arith, true, false, ◌≡◌, refl, [], ◌∷◌, Bytes, bytes, eqb, ◌||◌}
use unobin.Typecheck.Types.{
  size, Ty, t_string, t_integer, t_number, t_null, t_list, t_optional, t_object, elem, Fields,
  no_fields, field, is_known, is_kind, null, opaque, optional, find_field,
}
use unobin.Typecheck.Equal.{equal}
use unobin.Typecheck.Equal.Laws.{equal_sym}
use unobin.Typecheck.Compat.{assignable, assignable_body, assignable_within}
use unobin.Typecheck.Compat.Fixed.{assignable_within-ends}
use unobin.Typecheck.Compat.Null.{assignable-null, assignable-optional_field}
use unobin.Typecheck.Compat.Plain.{plain, has_field, assignable_refl}
use unobin.Typecheck.Merge.{merge_shallow}
use unobin.Typecheck.Merge.Laws.{Required, override, merge_shallow-override}

abbrev name_field : Fields
name_field = field (bytes "name") t_string false false no_fields

abbrev app : Ty
app = t_object false (field (bytes "ports") (t_list (elem t_integer)) true false name_field)

-- The same fields in another order.
abbrev app_sorted : Ty
app_sorted = t_object false (
    field (bytes "name") t_string false false
      (field (bytes "ports") (t_list (elem t_integer)) true false no_fields))

equal_sym_example : equal app app_sorted ≡ equal app_sorted app
equal_sym_example = equal_sym app app_sorted

-- A function to stand for the calls beyond the fuel.
abbrev denies : Ty → Ty → Bool
denies d s = false

assignable_within-ends_example :
    (assignable_within denies (suc (size app)) app app_sorted ≡ assignable app app_sorted)
    × (assignable app app_sorted ≡ assignable_body assignable app app_sorted)
assignable_within-ends_example =
    assignable_within-ends denies (suc (size app)) app app_sorted (omega arith)

maybe_string-known : is_known (t_optional (elem t_string)) ≡ true
unfolding is_known
maybe_string-known = refl

null-known : is_known t_null ≡ true
unfolding is_known
null-known = refl

null-assignable : assignable (t_optional (elem t_string)) t_null ≡ true
unfolding assignable is_known
null-assignable = refl

assignable-null_example :
    (is_kind opaque (t_optional (elem t_string))
      || is_kind optional (t_optional (elem t_string))
      || is_kind null (t_optional (elem t_string)))
    ≡ true
assignable-null_example =
    assignable-null (t_optional (elem t_string)) t_null maybe_string-known null-known refl
      null-assignable

integer-assignable : assignable t_number t_integer ≡ true
unfolding assignable is_known
integer-assignable = refl

assignable-optional_field_example :
    assignable
      (t_object false (field (bytes "n") t_number false false no_fields))
      (t_object false (field (bytes "n") t_integer true false no_fields))
    ≡ true
assignable-optional_field_example =
    assignable-optional_field (bytes "n") t_number t_integer false false integer-assignable

app-plain : plain app ≡ true
unfolding plain has_field eqb
app-plain = refl

assignable_refl_example : assignable app app ≡ true
assignable_refl_example = assignable_refl app app-plain

abbrev renamed : Fields
renamed = field (bytes "name") t_integer false false no_fields

merged_app : merge_shallow (app ∷ []) ≡ app
unfolding merge_shallow eqb
merged_app = refl

merge_shallow-override_example :
    (hs : Fields) × (merge_shallow (app ∷ t_object false renamed ∷ []) ≡ t_object false hs)
    × ((n : Bytes)
        → find_field n hs
          ≡ override (find_field n renamed) (
              find_field n (field (bytes "ports") (t_list (elem t_integer)) true false name_field)))
unfolding Required has_field
merge_shallow-override_example =
    merge_shallow-override (app ∷ []) false renamed (refl, refl, tt) merged_app
