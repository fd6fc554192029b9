-- ===== src/Typecheck/Compat.antt =====
-- `Assignable` of pkg/typecheck/compat.go.
pub mod Fixed
pub mod Null
pub mod Plain
use unobin.Base.{
  ℕ, zero, suc, Bool, true, false, ◌&&◌, ◌||◌, not, Option, none, some, ◌==◌, if◌then◌else◌, Bytes,
  update,
}
use unobin.Typecheck.Types.{
  Ty, t_opaque, t_string, t_asset_path, t_bytes, t_integer, t_number, t_boolean, t_null, t_list,
  t_map, t_optional, t_tuple, t_union, t_object, t_library_config, Elem, nil_elem, elem, Types,
  no_types, and_type, Fields, no_fields, field, kind, kind_code, is_kind, make_optional, is_known,
  unwrap, count_types, size, string, asset_path, integer, number, boolean, null, opaque, optional,
  bytes, library_config, object, map,
}
use unobin.Typecheck.Equal.{equal}

-- The map `srcFields`: of fields with one name the last.
unfoldable pub field_map : (Bytes → Option Ty) → Fields → Bytes → Option Ty
field_map m no_fields = m
field_map m (field n t o d fs) = field_map (update m n (some t)) fs

-- `want`
abbrev pub wanted : Bool → Ty → Ty
wanted true t = make_optional t
wanted false t = t

-- The body of `Assignable`, over the function that it calls.
module _ (assignable : Ty → Ty → Bool) where
  -- `for _, e := range src.Elems`
  unfoldable pub all_types : Ty → Types → Bool
  all_types d no_types = true
  all_types d (and_type s ss) =
      let rest = all_types d ss in if not (assignable d s) then false else rest

  -- `for _, f := range src.Fields`
  unfoldable pub all_fields : Ty → Fields → Bool
  all_fields d no_fields = true
  all_fields d (field n s o d' fs) =
      let rest = all_fields d fs in if not (assignable d s) then false else rest

  unfoldable pub list_assignable : Elem → Ty → Bool
  unfolding all_types
  list_assignable nil_elem src = true
  list_assignable (elem d) (t_list nil_elem) = true
  list_assignable (elem d) (t_list (elem s)) = assignable d s
  list_assignable (elem d) (t_tuple ss) = all_types d ss
  list_assignable (elem d) src = false

  unfoldable pub map_assignable : Elem → Ty → Bool
  unfolding all_fields
  map_assignable nil_elem src = true
  map_assignable (elem d) (t_map nil_elem) = true
  map_assignable (elem d) (t_map (elem s)) = assignable d s
  map_assignable (elem d) (t_object o fs) = all_fields d fs
  map_assignable (elem d) src = false

  -- The loop of `tupleAssignable`; the lengths are the same.
  unfoldable pub each_type : Types → Types → Bool
  each_type (and_type d ds) (and_type s ss) =
      let rest = each_type ds ss in if not (assignable d s) then false else rest
  each_type _ _ = true

  unfoldable pub tuple_assignable : Types → Ty → Bool
  unfolding each_type
  tuple_assignable ds (t_tuple ss) =
      if not (count_types ds == count_types ss) then false else each_type ds ss
  tuple_assignable ds src = false

  -- `for _, f := range dst.Fields`, where the source is a map.
  unfoldable pub fields_from : Fields → Ty → Bool
  fields_from no_fields s = true
  fields_from (field n d o d' fs) s =
      let rest = fields_from fs s in if not (assignable d s) then false else rest

  -- The round of the last loop of `objectAssignable`; `rest` is what the later rounds return.
  abbrev pub field_round : Ty → Bool → Option Ty → Bool → Bool
  field_round d o none rest = if o then rest else false
  field_round d o (some got) rest = if not (assignable (wanted o d) got) then false else rest

  unfoldable pub object_loop : Fields → (Bytes → Option Ty) → Bool
  object_loop no_fields m = true
  object_loop (field n d o d' fs) m = field_round d o (m n) (object_loop fs m)

  -- A `LibraryConfig` on either side counts as the object of its fields.
  unfoldable pub object_assignable : Fields → Ty → Bool
  unfolding fields_from object_loop field_map
  object_assignable ds (t_library_config i fs) = object_loop ds (field_map (λ _. none) fs)
  object_assignable ds (t_object o fs) = object_loop ds (field_map (λ _. none) fs)
  object_assignable ds (t_map nil_elem) = true
  object_assignable ds (t_map (elem s)) = fields_from ds s
  object_assignable ds src = false

  unfoldable pub bytes_assignable : Ty → Bool
  unfolding list_assignable
  bytes_assignable src = if is_kind bytes src then true else list_assignable (elem t_integer) src

  unfoldable pub library_config_assignable : Ty → Fields → Ty → Bool
  unfolding object_assignable
  library_config_assignable dst fs src =
      if is_kind library_config src
      then equal dst src
      else if is_kind object src || is_kind map src
      then object_assignable fs src
      else false

  -- `for _, m := range dst.Elems`
  unfoldable pub any_member : Types → Ty → Bool
  any_member no_types src = false
  any_member (and_type m ms) src =
      let rest = any_member ms src in if assignable m src then true else rest

  -- `switch dst.Kind`
  unfoldable pub assignable_switch : Ty → Ty → Bool
  unfolding library_config_assignable any_member bytes_assignable list_assignable map_assignable
      tuple_assignable object_assignable
  assignable_switch (t_library_config i fs) src =
      library_config_assignable (t_library_config i fs) fs src
  assignable_switch (t_union ms) src = any_member ms src
  assignable_switch t_string src = is_kind string src || is_kind asset_path src
  assignable_switch t_asset_path src = is_kind asset_path src
  assignable_switch t_boolean src = is_kind boolean src
  assignable_switch t_null src = is_kind null src
  assignable_switch t_bytes src = bytes_assignable src
  assignable_switch t_integer src = is_kind integer src
  assignable_switch t_number src = is_kind integer src || is_kind number src
  assignable_switch (t_list e) src = list_assignable e src
  assignable_switch (t_map e) src = map_assignable e src
  assignable_switch (t_tuple ds) src = tuple_assignable ds src
  assignable_switch (t_object o fs) src = object_assignable fs src
  assignable_switch dst src = false

  -- The branch for an optional slot.
  abbrev pub optional_slot : Elem → Ty → Bool
  optional_slot nil_elem src = true
  optional_slot (elem d) src = assignable d (unwrap src)

  -- What comes before the switch, for two known types.
  unfoldable pub assignable_known : Ty → Ty → Bool
  unfolding assignable_switch
  assignable_known t_opaque src = true
  assignable_known (t_optional e) src = if is_kind null src then true else optional_slot e src
  assignable_known dst src =
      if is_kind opaque src
      then false
      else if is_kind optional src
      then false
      else if is_kind null src
      then is_kind null dst
      else assignable_switch dst src

  unfoldable pub assignable_body : Ty → Ty → Bool
  unfolding assignable_known is_known
  assignable_body dst src =
      if not (is_known dst) || not (is_known src) then true else assignable_known dst src

-- With no fuel left, a call is answered by `beyond`.
unfoldable pub assignable_within : (beyond : Ty → Ty → Bool) → ℕ → Ty → Ty → Bool
unfolding assignable_body
assignable_within beyond zero dst src = beyond dst src
assignable_within beyond (suc n) dst src = assignable_body (assignable_within beyond n) dst src

-- `Assignable`: the recursion is no deeper than the size of the slot.
unfoldable pub assignable : Ty → Ty → Bool
unfolding assignable_within
assignable dst src = assignable_within (λ _ _. true) (suc (size dst)) dst src
