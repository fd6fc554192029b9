-- ===== src/Typecheck/Merge/Order.antt =====
-- The order of the names in `MergeShallow` of pkg/typecheck/merge.go.
use unobin.Base.{
  Bool, true, false, ◌||◌, not, ◌≡◌, refl, sym, ap, ◌∙◌, inl, inr, Bool-cases, Option, none, some,
  if◌then◌else◌, if_elim, List, [], ◌∷◌, Bytes, eqb, eqb_iff, mem, mem-append, arith,
}
use unobin.Typecheck.Types.{Ty, Fields, no_fields, field, is_kind, null, optional, unwrap}
use unobin.Typecheck.Merge.{
  MergeField, MergeState, merge_round, merge_fields, object_fields, merge_known, merge_arg,
  and_then, merge_args,
}

abbrev pub is_there : Option MergeField → Bool
is_there none = false
is_there (some s) = true

-- The names in `order` are the keys of `fields`.
pub record IsMerge (st : MergeState) : Type 0 where
  pub keys : (n : Bytes) → mem n st.order ≡ is_there (st.fields n)

merge_round-IsMerge :
    (o : Option MergeField) (n : Bytes) (t : Ty) (may_miss : Bool) (st : MergeState)
    → st.fields n ≡ o
    → IsMerge st
    → IsMerge (merge_round o n t may_miss st)
unfolding merge_round mem
merge_round-IsMerge none n t may_miss st e inv = record {
  keys = λ k. mem-append k st.order (n ∷ []) ∙ rw (inv.keys k) (there k);
}
  where
    there :
        (k : Bytes)
        → (is_there (st.fields k) || (eqb n k || false))
          ≡ is_there (
              if eqb n k
              then some (record { type_of = t; required = not may_miss })
              else st.fields k)
    there k = ground arith
merge_round-IsMerge (some s) n t may_miss st e inv = record {
  keys = λ k. elim (Bool-cases (eqb n k)) [
    | inl same ↦
        rw same (
          inv.keys k
          ∙ ap (λ j. is_there (st.fields j)) (sym ((eqb_iff n k).0 same))
          ∙ ap is_there e)
    | inr other ↦ rw other (inv.keys k)
  ];
}

pub merge_fields-IsMerge :
    (b : Bool) (fs : Fields) (st : MergeState) → IsMerge st → IsMerge (merge_fields b fs st)
unfolding merge_fields
merge_fields-IsMerge b no_fields st inv = inv
merge_fields-IsMerge b (field n t o d fs) st inv =
    merge_fields-IsMerge b fs (merge_round (st.fields n) n t (b || o) st)
      (merge_round-IsMerge (st.fields n) n t (b || o) st refl inv)

-- Every state that the loop comes to.
abbrev pub Holds : (MergeState → Type 0) → Option MergeState → Type 0
Holds P none = Unit
Holds P (some st) = P st

pub merge_known-IsMerge :
    (fs : Option Fields) (b : Bool) (st : MergeState)
    → IsMerge st
    → Holds IsMerge (merge_known fs b st)
unfolding merge_known
merge_known-IsMerge none b st inv = tt
merge_known-IsMerge (some fs) b st inv = merge_fields-IsMerge b fs st inv

pub merge_arg-IsMerge : (arg : Ty) (st : MergeState) → IsMerge st → Holds IsMerge (merge_arg arg st)
unfolding merge_arg
merge_arg-IsMerge arg st inv =
    if_elim (Holds IsMerge) (is_kind null arg) _ _ (λ _. inv)
      (λ _.
        if_elim (Holds IsMerge) (is_kind optional arg) _ _
          (λ _. merge_known-IsMerge (object_fields (unwrap arg)) true st inv)
          (λ _. merge_known-IsMerge (object_fields arg) false st inv))

pub Holds-and_then :
    (P Q : MergeState → Type 0) (o : Option MergeState) (f : MergeState → Option MergeState)
    → Holds P o
    → ((st : MergeState) → P st → Holds Q (f st))
    → Holds Q (and_then o f)
Holds-and_then P Q none f h g = tt
Holds-and_then P Q (some st) f h g = g st h

pub merge_args-IsMerge :
    (args : List Ty) (st : MergeState) → IsMerge st → Holds IsMerge (merge_args args st)
unfolding merge_args
merge_args-IsMerge [] st inv = inv
merge_args-IsMerge (arg ∷ args) st inv =
    Holds-and_then IsMerge IsMerge (merge_arg arg st) (merge_args args)
      (merge_arg-IsMerge arg st inv) (merge_args-IsMerge args)
