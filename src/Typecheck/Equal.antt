-- ===== src/Typecheck/Equal.antt =====
-- `Equal` of pkg/typecheck/type.go.
pub mod Fixed
pub mod Itself
pub mod Laws
use unobin.Base.{
  ℕ, zero, suc, ◌+◌, Bool, true, false, ◌&&◌, ◌||◌, not, Option, none, some, ◌==◌, ltb,
  if◌then◌else◌, List, [], ◌∷◌, Bytes, eqb, is_empty,
}
use unobin.Typecheck.Types.{
  LibraryConfigInfo, Ty, t_list, t_map, t_optional, t_tuple, t_union, t_object, t_library_config,
  Elem, nil_elem, elem, Types, no_types, and_type, Fields, no_fields, field, kind, kind_code,
  count_types, count_fields, size,
}

-- `a < b` on strings.
unfoldable pub bytes_ltb : Bytes → Bytes → Bool
bytes_ltb [] [] = false
bytes_ltb [] (y ∷ ys) = true
bytes_ltb (x ∷ xs) [] = false
bytes_ltb (x ∷ xs) (y ∷ ys) = ltb x y || x == y && bytes_ltb xs ys

unfoldable pub insert_field : Bytes → Ty → Bool → Bool → Fields → Fields
unfolding bytes_ltb
insert_field n t o d no_fields = field n t o d no_fields
insert_field n t o d (field n' t' o' d' fs) =
    let rest = insert_field n t o d fs in
    if bytes_ltb n' n then field n' t' o' d' rest else field n t o d (field n' t' o' d' fs)

-- `sortFields`: by name. Fields of one name, which `slices.SortFunc` may leave in any order, stay in
-- theirs.
unfoldable pub sort_fields : Fields → Fields
unfolding insert_field
sort_fields no_fields = no_fields
sort_fields (field n t o d fs) = insert_field n t o d (sort_fields fs)

-- `if id == "" { id = path }`
abbrev pub identity_of : LibraryConfigInfo → Bytes
identity_of i = if is_empty i.identity then i.path else i.identity

unfoldable pub same_library_config : Option LibraryConfigInfo → Option LibraryConfigInfo → Bool
same_library_config none none = true
same_library_config (some a) (some b) =
    if not (eqb a.schema_digest b.schema_digest)
    then false
    else if eqb a.path b.path
    then true
    else eqb (identity_of a) (identity_of b)
same_library_config _ _ = false

-- `==` on the Booleans.
abbrev pub same_flag : Bool → Bool → Bool
same_flag true b = b
same_flag false b = not b

-- The body of `Equal`, over the function that it calls.
module _ (equal : Ty → Ty → Bool) where
  abbrev pub equal_elem : Elem → Elem → Bool
  equal_elem nil_elem nil_elem = true
  equal_elem (elem a) (elem b) = equal a b
  equal_elem _ _ = false

  -- The loop over `Elems`; the lengths are the same.
  unfoldable pub equal_types : Types → Types → Bool
  equal_types (and_type a as') (and_type b bs) =
      let rest = equal_types as' bs in if not (equal a b) then false else rest
  equal_types _ _ = true

  -- The loop over the sorted fields of an object.
  unfoldable pub equal_fields : Fields → Fields → Bool
  equal_fields (field n a o d as') (field m b p e bs) =
      let rest = equal_fields as' bs in
      if not (eqb n m) || not (same_flag o p) || not (equal a b) then false else rest
  equal_fields _ _ = true

  -- The loop over the sorted fields of a library config, with `objectFieldEqual`.
  unfoldable pub equal_config_fields : Fields → Fields → Bool
  equal_config_fields (field n a o d as') (field m b p e bs) =
      let rest = equal_config_fields as' bs in
      if not (eqb n m && same_flag o p && same_flag d e && equal a b) then false else rest
  equal_config_fields _ _ = true

  unfoldable pub equal_body : Ty → Ty → Bool
  unfolding equal_types equal_fields equal_config_fields
  equal_body (t_list a) (t_list b) = equal_elem a b
  equal_body (t_map a) (t_map b) = equal_elem a b
  equal_body (t_optional a) (t_optional b) = equal_elem a b
  equal_body (t_tuple as') (t_tuple bs) =
      if not (count_types as' == count_types bs) then false else equal_types as' bs
  equal_body (t_union as') (t_union bs) =
      if not (count_types as' == count_types bs) then false else equal_types as' bs
  equal_body (t_library_config i as') (t_library_config j bs) =
      if not (same_library_config i j)
      then false
      else if not (count_fields as' == count_fields bs)
      then false
      else equal_config_fields (sort_fields as') (sort_fields bs)
  equal_body (t_object o as') (t_object p bs) =
      if not (same_flag o p)
      then false
      else if not (count_fields as' == count_fields bs)
      then false
      else equal_fields (sort_fields as') (sort_fields bs)
  equal_body t u = kind_code (kind t) == kind_code (kind u)

-- With no fuel left, a call is answered by `beyond`.
unfoldable pub equal_within : (beyond : Ty → Ty → Bool) → ℕ → Ty → Ty → Bool
unfolding equal_body
equal_within beyond zero t u = beyond t u
equal_within beyond (suc n) t u = equal_body (equal_within beyond n) t u

-- `Equal`: the recursion is no deeper than the size of the type.
unfoldable pub equal : Ty → Ty → Bool
unfolding equal_within
equal t u = equal_within (λ _ _. false) (suc (size t)) t u
