-- ===== src/Typecheck/Types.antt =====
-- `Type` of pkg/typecheck/type.go. Each kind is a constructor, named as the function that builds it,
-- that holds the fields which the kind uses. A pointer `Elem` may be nil.
use unobin.Base.{
  ℕ, suc, ◌+◌, Bool, true, false, Option, none, some, ◌==◌, if◌then◌else◌, Bytes, eqb,
}

pub record LibraryConfigInfo : Type 0 where
  pub path : Bytes
  pub identity : Bytes
  pub schema_digest : Bytes

mutual
  pub data Ty : Type 0 where
    t_unknown t_opaque t_string t_asset_path t_bytes t_integer t_number t_boolean t_null : Ty
    t_list : Elem → Ty
    t_map : Elem → Ty
    t_optional : Elem → Ty
    t_tuple : Types → Ty
    t_union : Types → Ty
    t_object : (open_fields : Bool) → Fields → Ty
    t_library_config : Option LibraryConfigInfo → Fields → Ty

  pub data Elem : Type 0 where
    nil_elem : Elem
    elem : Ty → Elem

  pub data Types : Type 0 where
    no_types : Types
    and_type : Ty → Types → Types

  -- The fields of `ObjectField`: the name, the type, `Optional` and `Defaulted`.
  pub data Fields : Type 0 where
    no_fields : Fields
    field : Bytes → Ty → (optional defaulted : Bool) → Fields → Fields

pub data Kind : Type 0 where
  unknown opaque string integer number boolean null list map object library_config tuple optional :
      Kind
  union asset_path bytes : Kind

-- The number of a kind: `iota`.
abbrev pub kind_code : Kind → ℕ
kind_code unknown = 0
kind_code opaque = 1
kind_code string = 2
kind_code integer = 3
kind_code number = 4
kind_code boolean = 5
kind_code null = 6
kind_code list = 7
kind_code map = 8
kind_code object = 9
kind_code library_config = 10
kind_code tuple = 11
kind_code optional = 12
kind_code union = 13
kind_code asset_path = 14
kind_code bytes = 15

abbrev pub kind : Ty → Kind
kind t_unknown = unknown
kind t_opaque = opaque
kind t_string = string
kind t_asset_path = asset_path
kind t_bytes = bytes
kind t_integer = integer
kind t_number = number
kind t_boolean = boolean
kind t_null = null
kind (t_list e) = list
kind (t_map e) = map
kind (t_optional e) = optional
kind (t_tuple ts) = tuple
kind (t_union ts) = union
kind (t_object o fs) = object
kind (t_library_config i fs) = library_config

-- `t.Kind == k`
abbrev pub is_kind : Kind → Ty → Bool
is_kind k t = kind_code (kind t) == kind_code k

-- `TOptional`
abbrev pub make_optional : Ty → Ty
make_optional (t_optional e) = t_optional e
make_optional t = t_optional (elem t)

-- `IsKnown`
unfoldable pub is_known : Ty → Bool
is_known t_unknown = false
is_known (t_optional (elem t)) = is_known t
is_known _ = true

-- `ContainsUnknown`
unfoldable mutual
  pub contains_unknown : Ty → Bool
  contains_unknown t_unknown = true
  contains_unknown (t_list e) = contains_unknown_elem e
  contains_unknown (t_map e) = contains_unknown_elem e
  contains_unknown (t_optional e) = contains_unknown_elem e
  contains_unknown (t_tuple ts) = contains_unknown_types ts
  contains_unknown (t_union ts) = contains_unknown_types ts
  contains_unknown (t_object o fs) = contains_unknown_fields fs
  contains_unknown (t_library_config i fs) = contains_unknown_fields fs
  contains_unknown _ = false

  pub contains_unknown_elem : Elem → Bool
  contains_unknown_elem nil_elem = false
  contains_unknown_elem (elem t) = contains_unknown t

  pub contains_unknown_types : Types → Bool
  contains_unknown_types no_types = false
  contains_unknown_types (and_type t ts) =
      let rest = contains_unknown_types ts in if contains_unknown t then true else rest

  pub contains_unknown_fields : Fields → Bool
  contains_unknown_fields no_fields = false
  contains_unknown_fields (field n t o d fs) =
      let rest = contains_unknown_fields fs in if contains_unknown t then true else rest

-- `Unwrap`
abbrev pub unwrap : Ty → Ty
unwrap (t_optional (elem t)) = t
unwrap t = t

abbrev pub fields_of : Ty → Fields
fields_of (t_object o fs) = fs
fields_of (t_library_config i fs) = fs
fields_of _ = no_fields

pub record ObjectField : Type 0 where
  pub name : Bytes
  pub type_of : Ty
  pub optional : Bool
  pub defaulted : Bool

-- The loop of `Field`.
unfoldable pub find_field : Bytes → Fields → Option ObjectField
find_field name no_fields = none
find_field name (field n t o d fs) =
    let rest = find_field name fs in
    if eqb n name
    then some (record { name = n; type_of = t; optional = o; defaulted = d })
    else rest

-- `Field`; a type of another kind has no fields.
abbrev pub field_of : Ty → Bytes → Option ObjectField
field_of t name = find_field name (fields_of t)

abbrev pub count_types : Types → ℕ
count_types no_types = 0
count_types (and_type t ts) = suc (count_types ts)

abbrev pub count_fields : Fields → ℕ
count_fields no_fields = 0
count_fields (field n t o d fs) = suc (count_fields fs)

-- A bound on the depth of the recursion; a field is counted with the `optional` that may wrap it.
unfoldable mutual
  pub size : Ty → ℕ
  size t_bytes = 2
  size (t_list e) = suc (size_elem e)
  size (t_map e) = suc (size_elem e)
  size (t_optional e) = suc (size_elem e)
  size (t_tuple ts) = suc (size_types ts)
  size (t_union ts) = suc (size_types ts)
  size (t_object o fs) = suc (size_fields fs)
  size (t_library_config i fs) = suc (size_fields fs)
  size _ = 1

  pub size_elem : Elem → ℕ
  size_elem nil_elem = 0
  size_elem (elem t) = size t

  pub size_types : Types → ℕ
  size_types no_types = 0
  size_types (and_type t ts) = size t + size_types ts

  pub size_fields : Fields → ℕ
  size_fields no_fields = 0
  size_fields (field n t o d fs) = suc (size t) + size_fields fs
