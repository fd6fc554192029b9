-- ===== src/Typecheck/Merge/Laws.antt =====
-- The fields of what `MergeShallow` of pkg/typecheck/merge.go returns.
use unobin.Base.{
  Bool, true, false, ◌||◌, not, ◌≡◌, ◌≢◌, refl, sym, ap, subst, ◌∙◌, inl, inr, Bool-cases,
  Option-cases, Option, none, some, if◌then◌else◌, List, [], ◌∷◌, ◌++◌, Bytes, eqb, eqb_iff,
  eqb_self, mem, arith,
}
use unobin.Typecheck.Types.{
  Ty, t_unknown, t_object, Fields, no_fields, field, ObjectField, find_field,
}
use unobin.Typecheck.Compat.Plain.{has_field}
use unobin.Typecheck.Merge.{
  MergeField, MergeState, merge_round, merge_fields, merge_known, merge_arg, and_then, merge_args,
  out_field, out_fields, merged, nothing_merged, merge_shallow,
}
use unobin.Typecheck.Merge.Order.{
  is_there, IsMerge, Holds, merge_fields-IsMerge, merge_args-IsMerge,
}

-- What `Field` finds among the fields of the result.
abbrev found : Option MergeField → Bytes → Option ObjectField
found none n = none
found (some s) n =
    some (record { name = n; type_of = s.type_of; optional = not s.required; defaulted = false })

find_field-out_field :
    (k : Bytes) (ns : List Bytes) (m : Bytes → Option MergeField) (n : Bytes)
    → find_field n (out_fields ns m) ≡ (if mem n ns then found (m n) n else none)
    → find_field n (out_field (m k) k (out_fields ns m))
      ≡ (if eqb k n || mem n ns then found (m n) n else none)
unfolding find_field
find_field-out_field k ns m n rest = elim (Bool-cases (eqb k n)) [
  | inl same ↦ rw (same, (eqb_iff k n).0 same) (here (m n) refl)
  | inr other ↦ rw other (there other (m k))
]
  where
    none_either : (b : Bool) → ◌≡◌ {A = Option ObjectField} (if b then none else none) none
    none_either b = ground arith

    here :
        (o : Option MergeField)
        → m n ≡ o
        → find_field n (out_field o n (out_fields ns m)) ≡ found o n
    here none e = rest ∙ rw e (none_either (mem n ns))
    here (some s) e = rw (eqb_self n) refl

    there :
        eqb k n ≡ false
        → (o : Option MergeField)
        → find_field n (out_field o k (out_fields ns m))
          ≡ (if mem n ns then found (m n) n else none)
    there e none = rest
    there e (some s) = rw e rest

find_field-out_fields :
    (ns : List Bytes) (m : Bytes → Option MergeField) (n : Bytes)
    → find_field n (out_fields ns m) ≡ (if mem n ns then found (m n) n else none)
unfolding find_field out_fields mem
find_field-out_fields [] m n = refl
find_field-out_fields (k ∷ ns) m n = find_field-out_field k ns m n (find_field-out_fields ns m n)

merge_round-other :
    (s : Option MergeField) (k : Bytes) (t : Ty) (may_miss : Bool) (st : MergeState) (n : Bytes)
    → eqb k n ≡ false
    → (merge_round s k t may_miss st).fields n ≡ st.fields n
unfolding merge_round
merge_round-other none k t may_miss st n h = rw h refl
merge_round-other (some s) k t may_miss st n h = rw h refl

merge_round-required :
    (s : Option MergeField) (k : Bytes) (t : Ty) (st : MergeState)
    → (merge_round s k t false st).fields k ≡ some (record { type_of = t; required = true })
unfolding merge_round
merge_round-required none k t st = rw (eqb_self k) refl
merge_round-required (some s) k t st = rw (eqb_self k) refl

merge_fields-other :
    (b : Bool) (fs : Fields) (st : MergeState) (n : Bytes)
    → has_field n fs ≡ false
    → (merge_fields b fs st).fields n ≡ st.fields n
unfolding merge_fields has_field
merge_fields-other b no_fields st n h = refl
merge_fields-other b (field k t o d fs) st n h =
    merge_fields-other b fs (merge_round (st.fields k) k t (b || o) st) n (ground arith)
    ∙ merge_round-other (st.fields k) k t (b || o) st n (ground arith)

-- Every field is required, and no name comes twice.
unfoldable pub Required : Fields → Type 0
Required no_fields = Unit
Required (field n t o d fs) = (o ≡ false) × (has_field n fs ≡ false) × Required fs

-- The field of a later argument replaces that of the earlier ones.
abbrev pub override : Option ObjectField → Option ObjectField → Option ObjectField
override none earlier = earlier
override (some f) earlier =
    some (record { name = f.name; type_of = f.type_of; optional = false; defaulted = false })

merge_fields-override :
    (fs : Fields) (st : MergeState) (n : Bytes)
    → Required fs
    → found ((merge_fields false fs st).fields n) n
      ≡ override (find_field n fs) (found (st.fields n) n)
unfolding merge_fields find_field Required
merge_fields-override no_fields st n h = refl
merge_fields-override (field k t o d fs) st n (required, new, h) = elim (Bool-cases (eqb k n)) [
  | inl same ↦
      rw (same, required, ← (eqb_iff k n).0 same)
        (ap (λ x. found x k)
          (merge_fields-other false fs (merge_round (st.fields k) k t false st) k new
            ∙ merge_round-required (st.fields k) k t st))
  | inr other ↦ rw other (
      merge_fields-override fs (merge_round (st.fields k) k t o st) n h
      ∙ ap (λ x. override (find_field n fs) (found x n))
          (merge_round-other (st.fields k) k t o st n other))
]

and_then_assoc :
    (o : Option MergeState) (f g k : MergeState → Option MergeState)
    → ((s : MergeState) → f s ≡ and_then (g s) k)
    → and_then o f ≡ and_then (and_then o g) k
and_then_assoc none f g k h = refl
and_then_assoc (some s) f g k h = h s

merge_args-append :
    (args : List Ty) (last : Ty) (st : MergeState)
    → merge_args (args ++ last ∷ []) st ≡ and_then (merge_args args st) (merge_arg last)
unfolding merge_args
merge_args-append [] last st = only (merge_arg last st)
  where
    only : (o : Option MergeState) → and_then o some ≡ o
    only none = refl
    only (some s) = refl
merge_args-append (arg ∷ args) last st =
    and_then_assoc (merge_arg arg st) _ _ _ (λ s. merge_args-append args last s)

find_field-IsMerge :
    (st : MergeState) (n : Bytes)
    → IsMerge st
    → find_field n (out_fields st.order st.fields) ≡ found (st.fields n) n
find_field-IsMerge st n inv =
    find_field-out_fields st.order st.fields n ∙ rw (inv.keys n) (there (st.fields n))
  where
    there : (o : Option MergeField) → (if is_there o then found o n else none) ≡ found o n
    there none = refl
    there (some s) = refl

-- What is merged so far.
record IsMerged (args : List Ty) (gs : Fields) : Type 0 where
  st : MergeState
  made : merge_args args nothing_merged ≡ some st
  out : out_fields st.order st.fields ≡ gs
  inv : IsMerge st

object_fields_injective : (a b : Fields) → t_object false a ≡ t_object false b → a ≡ b
object_fields_injective a b h = cc

merge_shallow-IsMerged :
    (args : List Ty) {gs : Fields} → merge_shallow args ≡ t_object false gs → IsMerged args gs
unfolding merge_shallow merged
merge_shallow-IsMerged args {gs} e = elim (Option-cases (merge_args args nothing_merged)) [
  | inl stopped ↦ absurd (unknown (ap merged (sym stopped) ∙ e))
  | inr (st, made) ↦ record {
    st = st;
    made = made;
    out = object_fields_injective _ gs (ap merged (sym made) ∙ e);
    inv =
        subst (Holds IsMerge) made
          (merge_args-IsMerge args nothing_merged (record { keys = λ n. unfold mem in refl }));
  }
]
  where
    unknown : t_unknown ≢ t_object false gs
    unknown h = cc

-- When the merge of some arguments is an object type and a further argument is an object type with
-- required fields of distinct names, the merge of all is an object type, where a field is that of
-- the further argument if it declares the name, and that of the merge of the others if not.
pub merge_shallow-override :
    (args : List Ty) (open_fields : Bool) (fs : Fields) {gs : Fields}
    → Required fs
    → merge_shallow args ≡ t_object false gs
    → (hs : Fields) × (merge_shallow (args ++ t_object open_fields fs ∷ []) ≡ t_object false hs)
      × ((n : Bytes) → find_field n hs ≡ override (find_field n fs) (find_field n gs))
unfolding merge_shallow merged merge_arg merge_known
merge_shallow-override args open_fields fs h e =
    let so_far = merge_shallow-IsMerged args e in
    let after = merge_fields false fs so_far.st in
    (
      out_fields after.order after.fields,
      ap merged (
          merge_args-append args (t_object open_fields fs) nothing_merged
          ∙ ap (λ o. and_then o (merge_arg (t_object open_fields fs))) so_far.made),
      λ n.
          find_field-IsMerge after n (merge_fields-IsMerge false fs so_far.st so_far.inv)
          ∙ merge_fields-override fs so_far.st n h
          ∙ ap (override (find_field n fs))
              (sym (find_field-IsMerge so_far.st n so_far.inv) ∙ ap (find_field n) so_far.out),
    )
