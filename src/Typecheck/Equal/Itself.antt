-- ===== src/Typecheck/Equal/Itself.antt =====
-- A type and itself in `Equal` of pkg/typecheck/type.go.
use unobin.Base.{ℕ, zero, suc, ◌<◌, Bool, true, ◌≡◌, refl, ◌∙◌, eqb_self, arith, Option, none, some}
use unobin.Typecheck.Types.{
  LibraryConfigInfo, Ty, t_unknown, t_opaque, t_string, t_asset_path, t_bytes, t_integer, t_number,
  t_boolean, t_null, t_list, t_map, t_optional, t_tuple, t_union, t_object, t_library_config,
  nil_elem, elem, Types, no_types, and_type, Fields, no_fields, field, size, size_types,
  size_fields,
}
use unobin.Typecheck.Equal.{
  same_library_config, sort_fields, equal_types, equal_fields, equal_config_fields, equal_body,
  equal,
}
use unobin.Typecheck.Equal.Fixed.{equal-fixed, size_fields-sort_fields}

same_library_config_refl : (i : Option LibraryConfigInfo) → same_library_config i i ≡ true
unfolding same_library_config
same_library_config_refl none = refl
same_library_config_refl (some i) = ground (arith, eqb_self i.schema_digest, eqb_self i.path)

module _ (f : Ty → Ty → Bool) (n : ℕ) (h : (a : Ty) → size a < n → f a a ≡ true) where
  equal_types_refl : (as' : Types) → size_types as' < n → equal_types f as' as' ≡ true
  unfolding equal_types size
  equal_types_refl no_types l = refl
  equal_types_refl (and_type a as') l =
      rw (h a (omega (arith, l)), equal_types_refl as' (omega (arith, l))) refl

  equal_fields_refl : (as' : Fields) → size_fields as' < n → equal_fields f as' as' ≡ true
  unfolding equal_fields size
  equal_fields_refl no_fields l = refl
  equal_fields_refl (field k a o d as') l =
      ground (arith, eqb_self k, h a (omega (arith, l)), equal_fields_refl as' (omega (arith, l)))

  equal_config_fields_refl :
      (as' : Fields) → size_fields as' < n → equal_config_fields f as' as' ≡ true
  unfolding equal_config_fields size
  equal_config_fields_refl no_fields l = refl
  equal_config_fields_refl (field k a o d as') l =
      ground
        (arith, eqb_self k, h a (omega (arith, l)), equal_config_fields_refl as' (omega (arith, l)))

equal_body_refl :
    (f : Ty → Ty → Bool) (a : Ty)
    → ((x : Ty) → size x < size a → f x x ≡ true)
    → equal_body f a a ≡ true
unfolding equal_body size
equal_body_refl f (t_list nil_elem) h = refl
equal_body_refl f (t_list (elem a)) h = h a (omega arith)
equal_body_refl f (t_map nil_elem) h = refl
equal_body_refl f (t_map (elem a)) h = h a (omega arith)
equal_body_refl f (t_optional nil_elem) h = refl
equal_body_refl f (t_optional (elem a)) h = h a (omega arith)
equal_body_refl f (t_tuple as') h = ground (arith, equal_types_refl f _ h as' (omega arith))
equal_body_refl f (t_union as') h = ground (arith, equal_types_refl f _ h as' (omega arith))
equal_body_refl f (t_library_config i as') h = ground (
  arith,
  same_library_config_refl i,
  equal_config_fields_refl f _ h (sort_fields as') (omega (arith, size_fields-sort_fields as')),
)
equal_body_refl f (t_object o as') h =
    ground (
      arith,
      equal_fields_refl f _ h (sort_fields as') (omega (arith, size_fields-sort_fields as')),
    )
equal_body_refl f t_unknown h = refl
equal_body_refl f t_opaque h = refl
equal_body_refl f t_string h = refl
equal_body_refl f t_asset_path h = refl
equal_body_refl f t_bytes h = refl
equal_body_refl f t_integer h = refl
equal_body_refl f t_number h = refl
equal_body_refl f t_boolean h = refl
equal_body_refl f t_null h = refl

equal_refl_below : (n : ℕ) (a : Ty) → size a < n → equal a a ≡ true
equal_refl_below zero a l = absurd (omega (arith, l))
equal_refl_below (suc n) a l =
    equal-fixed a a ∙ equal_body_refl equal a (λ x j. equal_refl_below n x (omega (arith, j, l)))

-- Every type is equal to itself.
pub equal_refl : (a : Ty) → equal a a ≡ true
equal_refl a = equal_refl_below (suc (size a)) a (omega arith)
