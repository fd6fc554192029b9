-- ===== src/Typecheck/Merge.antt =====
-- `MergeShallow` and `joinTypes` of pkg/typecheck/merge.go.
pub mod Order
pub mod Laws
use unobin.Base.{
  Bool, true, false, ◌||◌, not, Option, none, some, if◌then◌else◌, List, [], ◌∷◌, ◌++◌, Bytes,
  update,
}
use unobin.Typecheck.Types.{
  Ty, t_unknown, t_null, t_optional, t_union, t_object, t_library_config, Elem, Types, no_types,
  and_type, Fields, no_fields, field, Kind, is_kind, unwrap, null, optional,
}
use unobin.Typecheck.Equal.{equal}

unfoldable pub has_equal : Types → Ty → Bool
has_equal no_types b = false
has_equal (and_type m ms) b = let rest = has_equal ms b in if equal m b then true else rest

abbrev pub append_type : Types → Ty → Types
append_type no_types b = and_type b no_types
append_type (and_type m ms) b = and_type m (append_type ms b)

abbrev union_with : Ty → Ty → Ty
unfolding has_equal
union_with (t_union ms) b = if has_equal ms b then t_union ms else t_union (append_type ms b)
union_with a b = t_union (and_type a (and_type b no_types))

unfoldable pub join_types : Ty → Ty → Ty
unfolding union_with
join_types a b = if equal a b then a else union_with a b

-- The local type `state`.
pub record MergeField : Type 0 where
  pub type_of : Ty
  pub required : Bool

-- `order` and `fields`.
pub record MergeState : Type 0 where
  pub order : List Bytes
  pub fields : Bytes → Option MergeField

-- The round of the inner loop for a field that is in the map or not.
unfoldable pub merge_round : Option MergeField → Bytes → Ty → Bool → MergeState → MergeState
unfolding join_types
merge_round none n t may_miss st = record {
  order = st.order ++ n ∷ [];
  fields = update st.fields n (some (record { type_of = t; required = not may_miss }));
}
merge_round (some s) n t may_miss st = record st {
  fields = update st.fields n (
      some (
        if may_miss
        then record s { type_of = join_types s.type_of t }
        else record { type_of = t; required = true }));
}

-- `for _, f := range arg.Fields`
unfoldable pub merge_fields : Bool → Fields → MergeState → MergeState
unfolding merge_round
merge_fields arg_may_miss no_fields st = st
merge_fields arg_may_miss (field n t o d fs) st =
    merge_fields arg_may_miss fs (merge_round (st.fields n) n t (arg_may_miss || o) st)

-- The fields of an argument of kind `Object` or `LibraryConfig`.
abbrev pub object_fields : Ty → Option Fields
object_fields (t_object o fs) = some fs
object_fields (t_library_config i fs) = some fs
object_fields t = none

-- The outer loop; `none` stands for `return TUnknown()`.
unfoldable pub merge_known : Option Fields → Bool → MergeState → Option MergeState
unfolding merge_fields
merge_known none may_miss st = none
merge_known (some fs) may_miss st = some (merge_fields may_miss fs st)

unfoldable pub merge_arg : Ty → MergeState → Option MergeState
unfolding merge_known
merge_arg arg st =
    if is_kind null arg
    then some st
    else if is_kind optional arg
    then merge_known (object_fields (unwrap arg)) true st
    else merge_known (object_fields arg) false st

abbrev pub and_then : Option MergeState → (MergeState → Option MergeState) → Option MergeState
and_then none f = none
and_then (some st) f = f st

unfoldable pub merge_args : List Ty → MergeState → Option MergeState
unfolding merge_arg
merge_args [] st = some st
merge_args (arg ∷ args) st = and_then (merge_arg arg st) (merge_args args)

abbrev pub out_field : Option MergeField → Bytes → Fields → Fields
out_field none n rest = rest
out_field (some s) n rest = field n s.type_of (not s.required) false rest

-- The last loop; every name of `order` is in the map.
unfoldable pub out_fields : List Bytes → (Bytes → Option MergeField) → Fields
out_fields [] m = no_fields
out_fields (n ∷ ns) m = out_field (m n) n (out_fields ns m)

unfoldable pub merged : Option MergeState → Ty
unfolding out_fields
merged none = t_unknown
merged (some st) = t_object false (out_fields st.order st.fields)

abbrev pub nothing_merged : MergeState
nothing_merged = record { order = []; fields = λ _. none }

unfoldable pub merge_shallow : List Ty → Ty
unfolding merge_args merged
merge_shallow args = merged (merge_args args nothing_merged)
