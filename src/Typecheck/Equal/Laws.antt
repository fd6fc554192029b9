-- ===== src/Typecheck/Equal/Laws.antt =====
-- The order of the sides in `Equal` of pkg/typecheck/type.go.
use unobin.Base.{
  ℕ, zero, suc, ◌<◌, Bool, true, false, ◌≡◌, refl, sym, ◌∙◌, ◌==◌, Bytes, eqb, eqb_iff, arith,
  Option, none, some,
}
use unobin.Typecheck.Types.{
  LibraryConfigInfo, Ty, t_unknown, t_opaque, t_string, t_asset_path, t_bytes, t_integer, t_number,
  t_boolean, t_null, t_list, t_map, t_optional, t_tuple, t_union, t_object, t_library_config, Elem,
  nil_elem, elem, Types, no_types, and_type, Fields, no_fields, field, size, size_elem, size_types,
  size_fields, kind, kind_code, count_types, count_fields,
}
use unobin.Typecheck.Equal.{
  same_library_config, identity_of, same_flag, sort_fields, equal_elem, equal_types, equal_fields,
  equal_config_fields, equal_body, equal,
}
use unobin.Typecheck.Equal.Fixed.{equal-fixed, size_fields-sort_fields}

eqb_sym : (a b : Bytes) → eqb a b ≡ eqb b a
eqb_sym a b = ground (arith, eqb_iff a b, eqb_iff b a)

same_library_config_sym :
    (i j : Option LibraryConfigInfo) → same_library_config i j ≡ same_library_config j i
unfolding same_library_config
same_library_config_sym none none = refl
same_library_config_sym none (some j) = refl
same_library_config_sym (some i) none = refl
same_library_config_sym (some i) (some j) =
    rw
      (
        eqb_sym i.schema_digest j.schema_digest,
        eqb_sym i.path j.path,
        eqb_sym (identity_of i) (identity_of j),
      )
      refl

same_flag_sym : (a b : Bool) → same_flag a b ≡ same_flag b a
same_flag_sym true true = refl
same_flag_sym true false = refl
same_flag_sym false true = refl
same_flag_sym false false = refl

==_sym : (m n : ℕ) → (m == n) ≡ (n == m)
==_sym m n = ground arith

module _ (f : Ty → Ty → Bool) (n : ℕ) (h : (a b : Ty) → size a < n → f a b ≡ f b a) where
  equal_elem_sym : (a b : Elem) → size_elem a < n → equal_elem f a b ≡ equal_elem f b a
  unfolding size
  equal_elem_sym nil_elem nil_elem l = refl
  equal_elem_sym nil_elem (elem b) l = refl
  equal_elem_sym (elem a) nil_elem l = refl
  equal_elem_sym (elem a) (elem b) l = h a b l

  equal_types_sym :
      (as' bs : Types) → size_types as' < n → equal_types f as' bs ≡ equal_types f bs as'
  unfolding equal_types size
  equal_types_sym no_types no_types l = refl
  equal_types_sym no_types (and_type b bs) l = refl
  equal_types_sym (and_type a as') no_types l = refl
  equal_types_sym (and_type a as') (and_type b bs) l =
      rw (h a b (omega (arith, l)), equal_types_sym as' bs (omega (arith, l))) refl

  equal_fields_sym :
      (as' bs : Fields) → size_fields as' < n → equal_fields f as' bs ≡ equal_fields f bs as'
  unfolding equal_fields size
  equal_fields_sym no_fields no_fields l = refl
  equal_fields_sym no_fields (field m b p e bs) l = refl
  equal_fields_sym (field k a o d as') no_fields l = refl
  equal_fields_sym (field k a o d as') (field m b p e bs) l =
      rw
        (
          h a b (omega (arith, l)),
          equal_fields_sym as' bs (omega (arith, l)),
          eqb_sym k m,
          same_flag_sym o p,
        )
        refl

  equal_config_fields_sym :
      (as' bs : Fields)
      → size_fields as' < n
      → equal_config_fields f as' bs ≡ equal_config_fields f bs as'
  unfolding equal_config_fields size
  equal_config_fields_sym no_fields no_fields l = refl
  equal_config_fields_sym no_fields (field m b p e bs) l = refl
  equal_config_fields_sym (field k a o d as') no_fields l = refl
  equal_config_fields_sym (field k a o d as') (field m b p e bs) l =
      rw
        (
          h a b (omega (arith, l)),
          equal_config_fields_sym as' bs (omega (arith, l)),
          eqb_sym k m,
          same_flag_sym o p,
          same_flag_sym d e,
        )
        refl

-- A type of a kind that has no parts.
abbrev is_atom : Ty → Bool
is_atom (t_list e) = false
is_atom (t_map e) = false
is_atom (t_optional e) = false
is_atom (t_tuple ts) = false
is_atom (t_union ts) = false
is_atom (t_object o fs) = false
is_atom (t_library_config i fs) = false
is_atom _ = true

equal_body-atom :
    (f : Ty → Ty → Bool) (b a : Ty)
    → is_atom a ≡ true
    → equal_body f b a ≡ (kind_code (kind b) == kind_code (kind a))
unfolding equal_body
equal_body-atom f (t_list b) (t_list a) h = cc
equal_body-atom f (t_map b) (t_map a) h = cc
equal_body-atom f (t_optional b) (t_optional a) h = cc
equal_body-atom f (t_tuple bs) (t_tuple as') h = cc
equal_body-atom f (t_union bs) (t_union as') h = cc
equal_body-atom f (t_object o bs) (t_object p as') h = cc
equal_body-atom f (t_library_config i bs) (t_library_config j as') h = cc
equal_body-atom f _ _ h = refl

equal_body_sym_atom :
    (f : Ty → Ty → Bool) (a b : Ty)
    → is_atom a ≡ true
    → equal_body f a b ≡ (kind_code (kind a) == kind_code (kind b))
    → equal_body f a b ≡ equal_body f b a
equal_body_sym_atom f a b h e =
    e ∙ ==_sym (kind_code (kind a)) (kind_code (kind b)) ∙ sym (equal_body-atom f b a h)

equal_body_sym :
    (f : Ty → Ty → Bool) (a b : Ty)
    → ((x y : Ty) → size x < size a → f x y ≡ f y x)
    → equal_body f a b ≡ equal_body f b a
unfolding equal_body size
equal_body_sym f (t_list a) (t_list b) h = equal_elem_sym f _ h a b (omega arith)
equal_body_sym f (t_map a) (t_map b) h = equal_elem_sym f _ h a b (omega arith)
equal_body_sym f (t_optional a) (t_optional b) h = equal_elem_sym f _ h a b (omega arith)
equal_body_sym f (t_tuple as') (t_tuple bs) h =
    rw (equal_types_sym f _ h as' bs (omega arith), ==_sym (count_types as') (count_types bs)) refl
equal_body_sym f (t_union as') (t_union bs) h =
    rw (equal_types_sym f _ h as' bs (omega arith), ==_sym (count_types as') (count_types bs)) refl
equal_body_sym f (t_library_config i as') (t_library_config j bs) h =
    rw
      (
        equal_config_fields_sym f _ h (sort_fields as') (sort_fields bs)
            (omega (arith, size_fields-sort_fields as')),
        ==_sym (count_fields as') (count_fields bs),
        same_library_config_sym i j,
      )
      refl
equal_body_sym f (t_object o as') (t_object p bs) h =
    rw
      (
        equal_fields_sym f _ h (sort_fields as') (sort_fields bs)
            (omega (arith, size_fields-sort_fields as')),
        ==_sym (count_fields as') (count_fields bs),
        same_flag_sym o p,
      )
      refl
equal_body_sym f t_unknown b h = equal_body_sym_atom f t_unknown b refl refl
equal_body_sym f t_opaque b h = equal_body_sym_atom f t_opaque b refl refl
equal_body_sym f t_string b h = equal_body_sym_atom f t_string b refl refl
equal_body_sym f t_asset_path b h = equal_body_sym_atom f t_asset_path b refl refl
equal_body_sym f t_bytes b h = equal_body_sym_atom f t_bytes b refl refl
equal_body_sym f t_integer b h = equal_body_sym_atom f t_integer b refl refl
equal_body_sym f t_number b h = equal_body_sym_atom f t_number b refl refl
equal_body_sym f t_boolean b h = equal_body_sym_atom f t_boolean b refl refl
equal_body_sym f t_null b h = equal_body_sym_atom f t_null b refl refl
equal_body_sym f _ _ h = refl

equal_sym_below : (n : ℕ) (a b : Ty) → size a < n → equal a b ≡ equal b a
equal_sym_below zero a b l = absurd (omega (arith, l))
equal_sym_below (suc n) a b l =
    equal-fixed a b
    ∙ equal_body_sym equal a b (λ x y j. equal_sym_below n x y (omega (arith, j, l)))
    ∙ sym (equal-fixed b a)

-- `Equal` gives the same answer for two types in either order.
pub equal_sym : (a b : Ty) → equal a b ≡ equal b a
equal_sym a b = equal_sym_below (suc (size a)) a b (omega arith)
