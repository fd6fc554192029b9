-- ===== src/Typecheck/Equal/Fixed.antt =====
-- The depth of the recursion of `Equal` in pkg/typecheck/type.go.
use unobin.Base.{ℕ, zero, suc, ◌+◌, ◌<◌, Bool, false, ◌≡◌, refl, ap, ◌∙◌, if_elim, Bytes, arith}
use unobin.Typecheck.Types.{
  Ty, t_list, t_map, t_optional, t_tuple, t_union, t_object, t_library_config, Elem, nil_elem, elem,
  Types, no_types, and_type, Fields, no_fields, field, size, size_elem, size_types, size_fields,
}
use unobin.Typecheck.Equal.{
  bytes_ltb, insert_field, sort_fields, equal_elem, equal_types, equal_fields, equal_config_fields,
  equal_body, equal_within, equal,
}

size_fields-insert_field :
    (n : Bytes) (t : Ty) (o d : Bool) (fs : Fields)
    → size_fields (insert_field n t o d fs) ≡ suc (size t) + size_fields fs
unfolding insert_field size
size_fields-insert_field n t o d no_fields = refl
size_fields-insert_field n t o d (field n' t' o' d' fs) =
    if_elim {A = Fields} (λ x. size_fields x ≡ suc (size t) + (suc (size t') + size_fields fs))
      (bytes_ltb n' n) _ _ (λ _. omega (arith, size_fields-insert_field n t o d fs)) (λ _. refl)

pub size_fields-sort_fields : (fs : Fields) → size_fields (sort_fields fs) ≡ size_fields fs
unfolding sort_fields size
size_fields-sort_fields no_fields = refl
size_fields-sort_fields (field n t o d fs) =
    size_fields-insert_field n t o d (sort_fields fs)
    ∙ ap (λ k. suc (size t) + k) (size_fields-sort_fields fs)

abbrev Agree : (Ty → Ty → Bool) → (Ty → Ty → Bool) → ℕ → Type 0
Agree f g n = (a b : Ty) → size a < n → f a b ≡ g a b

module _ (f g : Ty → Ty → Bool) (n : ℕ) (h : Agree f g n) where
  equal_elem-agree : (a b : Elem) → size_elem a < n → equal_elem f a b ≡ equal_elem g a b
  unfolding size
  equal_elem-agree nil_elem b l = refl
  equal_elem-agree (elem a) nil_elem l = refl
  equal_elem-agree (elem a) (elem b) l = h a b l

  equal_types-agree :
      (as' bs : Types) → size_types as' < n → equal_types f as' bs ≡ equal_types g as' bs
  unfolding equal_types size
  equal_types-agree no_types bs l = refl
  equal_types-agree (and_type a as') no_types l = refl
  equal_types-agree (and_type a as') (and_type b bs) l =
      rw (h a b (omega (arith, l)), equal_types-agree as' bs (omega (arith, l))) refl

  equal_fields-agree :
      (as' bs : Fields) → size_fields as' < n → equal_fields f as' bs ≡ equal_fields g as' bs
  unfolding equal_fields size
  equal_fields-agree no_fields bs l = refl
  equal_fields-agree (field k a o d as') no_fields l = refl
  equal_fields-agree (field k a o d as') (field m b p e bs) l =
      rw (h a b (omega (arith, l)), equal_fields-agree as' bs (omega (arith, l))) refl

  equal_config_fields-agree :
      (as' bs : Fields)
      → size_fields as' < n
      → equal_config_fields f as' bs ≡ equal_config_fields g as' bs
  unfolding equal_config_fields size
  equal_config_fields-agree no_fields bs l = refl
  equal_config_fields-agree (field k a o d as') no_fields l = refl
  equal_config_fields-agree (field k a o d as') (field m b p e bs) l =
      rw (h a b (omega (arith, l)), equal_config_fields-agree as' bs (omega (arith, l))) refl

-- The body compares only smaller types.
pub equal_body-Agree :
    (f g : Ty → Ty → Bool) (a b : Ty) → Agree f g (size a) → equal_body f a b ≡ equal_body g a b
unfolding equal_body size
equal_body-Agree f g (t_list a) (t_list b) h = equal_elem-agree f g _ h a b (omega arith)
equal_body-Agree f g (t_map a) (t_map b) h = equal_elem-agree f g _ h a b (omega arith)
equal_body-Agree f g (t_optional a) (t_optional b) h = equal_elem-agree f g _ h a b (omega arith)
equal_body-Agree f g (t_tuple as') (t_tuple bs) h =
    rw (equal_types-agree f g _ h as' bs (omega arith)) refl
equal_body-Agree f g (t_union as') (t_union bs) h =
    rw (equal_types-agree f g _ h as' bs (omega arith)) refl
equal_body-Agree f g (t_library_config i as') (t_library_config j bs) h =
    rw
      (equal_config_fields-agree f g _ h (sort_fields as') (sort_fields bs)
        (omega (arith, size_fields-sort_fields as')))
      refl
equal_body-Agree f g (t_object o as') (t_object p bs) h =
    rw
      (equal_fields-agree f g _ h (sort_fields as') (sort_fields bs)
        (omega (arith, size_fields-sort_fields as')))
      refl
equal_body-Agree f g _ _ h = refl

-- With fuel above the size of the type, neither the fuel nor what answers beyond it matters.
equal_within-enough :
    (f g : Ty → Ty → Bool) (n m : ℕ) (a b : Ty)
    → size a < n
    → size a < m
    → equal_within f n a b ≡ equal_within g m a b
unfolding equal_within
equal_within-enough f g zero m a b l k = absurd (omega (arith, l))
equal_within-enough f g (suc n) zero a b l k = absurd (omega (arith, k))
equal_within-enough f g (suc n) (suc m) a b l k =
    equal_body-Agree (equal_within f n) (equal_within g m) a b
      (λ x y j. equal_within-enough f g n m x y (omega (arith, j, l)) (omega (arith, j, k)))

-- What `Equal` returns is what its body computes when its recursive calls are calls of `Equal`.
pub equal-fixed : (a b : Ty) → equal a b ≡ equal_body equal a b
unfolding equal equal_within
equal-fixed a b = equal_body-Agree (equal_within (λ _ _. false) (size a)) equal a b (λ x y j.
    equal_within-enough (λ _ _. false) (λ _ _. false) (size a) (suc (size x)) x y j (omega arith))
