-- ===== src/Moves/Stays.antt =====
-- What `ApplyEntryMoves` of pkg/runtime/state_moves.go does to the entries.
use unobin.Base.{
  Bool, true, false, not, ◌≡◌, ◌≢◌, inl, inr, refl, sym, ap, subst, ◌∙◌, Option, none, some, List,
  [], ◌∷◌, map, if◌then◌else◌, if_cases, is_empty, Result, ok, err, bind-eq-ok, guard-eq-ok,
  ok-injective, ◌==◌, false≢true,
}
use unobin.StateRef.Syntax.{EntryRef}
use unobin.Snapshot.Types.{Entry, Snapshot, clone_snapshot, current_format_version}
use unobin.Snapshot.Validate.{validate}
use unobin.Moves.Address.{AddressMove}
use unobin.Moves.Depends.{rewrite_moved_depends_on-map, map-no_moves}
use unobin.Moves.Specs.{EntryMoveSpec, normalize_entry_move_specs}
use unobin.Moves.Target.{spec_error, snapshot_error, target_node}
use unobin.Moves.Changes.{
  lift_error, or_err, is_leaf, state_refs, target_nodes, no_change, move_changes, check_sources,
  check_conflicts, validate_targets,
}
use unobin.Moves.Apply.{
  EntryMoveMode, is_strict, MoveContext, migrate_entry, libraries_for, migrate_moved_entry,
  move_entries, rewrite_entry, apply_changes, apply_moves, apply_entry_moves,
}
use unobin.Moves.InStep.{
  moved_deps, Follows, InStep, both_end, both_nil, both_entry, Follows-refl, Follows-weaken,
  InStep-weaken, InStep-refl, Follows-moved,
}

lift_error-eq-ok {ℓ κ μ} :
    {E : Type ℓ} {F : Type κ} {A : Type μ} (f : E → F) (m : Result E A) {a : A}
    → lift_error f m ≡ ok a
    → m ≡ ok a
lift_error-eq-ok f (ok a) h = ap ok (ok-injective h)
lift_error-eq-ok f (err e) h = cc

some-injective {ℓ} : {A : Type ℓ} {a b : A} → ◌≡◌ {A = Option A} (some a) (some b) → a ≡ b
some-injective h = cc

module _ {ℓ} {V : Type ℓ} where
  clone_snapshot-validate :
      (s : Snapshot V) → validate s ≡ ok tt → validate (clone_snapshot s) ≡ ok tt
  unfolding validate
  clone_snapshot-validate s h =
      (guard-eq-ok (not (s.format_version == current_format_version)) _ h).1

  migrate_moved_entry-Follows :
      (ctx : MoveContext V) (e : Entry V) (to : EntryRef) {e' : Entry V}
      → migrate_moved_entry ctx e to ≡ ok e'
      → Follows [] (λ ds. ds) e e' × (e'.address ≡ e.address)
  unfolding migrate_moved_entry
  migrate_moved_entry-Follows ctx e to {e'} h = elim (if_cases (not (is_leaf e.entry_type)) h) [
    | inl (other, same) ↦ (
      subst (Follows [] (λ ds. ds) e) (ok-injective same) (Follows-refl e),
      ap (λ x. x.address) (sym (ok-injective same)),
    )
    | inr (leaf, h₀) ↦
        let (n, _, h₁) = bind-eq-ok (target_node ctx.dag to) _ h₀ in
        let (lib, _, h₂) = bind-eq-ok (or_err _ (libraries_for ctx n n.alias)) _ h₁ in
        let (resource, _, h₃) = bind-eq-ok (or_err _ (lib n.kind_name)) _ h₂ in
        let (migrated, _, h₄) =
          bind-eq-ok (or_err _ (migrate_entry resource e.schema_version (e.inputs, e.outputs))) _
            h₃ in
        (
          subst (Follows [] (λ ds. ds) e) (ok-injective h₄) (record {
            same_type = refl;
            same_category = refl;
            same_binding = refl;
            same_trigger = refl;
            same_values = λ other. absurd (clash (is_leaf e.entry_type) leaf other);
            at_address = inl refl;
            depends = refl;
          }),
          ap (λ x. x.address) (sym (ok-injective h₄)),
        )
  ]
    where
      clash : (b : Bool) → not b ≡ false → b ≢ false
      clash true l o = cc
      clash false l o = cc

  -- `InStep` of what `move_entries` returns.
  abbrev MovedInStep : List (Option (Entry V)) → List (Option (Entry V)) × List AddressMove → Type ℓ
  MovedInStep es out = InStep out.1 (λ ds. ds) es out.0

  move_entries-InStep :
      (ctx : MoveContext V) (es : List (Option (Entry V))) (cs : List (Option EntryRef))
      {out : List (Option (Entry V)) × List AddressMove}
      → move_entries ctx es cs ≡ ok out
      → InStep out.1 (λ ds. ds) es out.0
  unfolding move_entries
  move_entries-InStep ctx [] cs h = subst (MovedInStep []) (ok-injective h) both_end
  move_entries-InStep ctx (none ∷ es) [] h =
      subst (MovedInStep (none ∷ es)) (ok-injective h) (InStep-refl (none ∷ es))
  move_entries-InStep ctx (some e ∷ es) [] h =
      subst (MovedInStep (some e ∷ es)) (ok-injective h) (InStep-refl (some e ∷ es))
  move_entries-InStep ctx (none ∷ es) (c ∷ cs) h =
      let (rest, later, h₁) = bind-eq-ok (move_entries ctx es cs) _ h in
      subst (MovedInStep (none ∷ es)) (ok-injective h₁)
        (both_nil (move_entries-InStep ctx es cs later))
  move_entries-InStep ctx (some e ∷ es) (none ∷ cs) h =
      let (rest, later, h₁) = bind-eq-ok (move_entries ctx es cs) _ h in
      subst (MovedInStep (some e ∷ es)) (ok-injective h₁) (
        both_entry (Follows-weaken (λ a b m. absurd (false≢true m)) (λ ds. refl) (Follows-refl e))
          (move_entries-InStep ctx es cs later))
  move_entries-InStep ctx (some e ∷ es) (some to ∷ cs) h =
      let (migrated, first, h₁) = bind-eq-ok (migrate_moved_entry ctx e to) _ h in
      let (rest, later, h₂) = bind-eq-ok (move_entries ctx es cs) _ h₁ in
      subst (MovedInStep (some e ∷ es)) (ok-injective h₂) (
        both_entry (Follows-moved rest.1 (migrate_moved_entry-Follows ctx e to first).0)
          (InStep-weaken (λ a b m. inr m) (λ ds. refl) (move_entries-InStep ctx es cs later)))

  rewrite_entry-InStep :
      (moved : List AddressMove) {es es' : List (Option (Entry V))}
      → InStep moved (λ ds. ds) es es'
      → InStep moved (moved_deps moved) es (map (rewrite_entry moved) es')
  rewrite_entry-InStep moved both_end = both_end
  rewrite_entry-InStep moved (both_nil h) = both_nil (rewrite_entry-InStep moved h)
  rewrite_entry-InStep moved (both_entry {e} {e'} h hs) =
      both_entry
        (record {
          same_type = h.same_type;
          same_category = h.same_category;
          same_binding = h.same_binding;
          same_trigger = h.same_trigger;
          same_values = h.same_values;
          at_address = h.at_address;
          depends =
              rewrite_moved_depends_on-map e'.depends_on moved ∙ ap (moved_deps moved) h.depends;
        })
        (rewrite_entry-InStep moved hs)

  -- What a run that returns a snapshot and results has done to a snapshot.
  pub record IsApplied (s : Snapshot V) (result : Snapshot V × List AddressMove) : Type ℓ where
    pub valid : validate s ≡ ok tt → validate result.0 ≡ ok tt
    pub in_step : InStep result.1 (moved_deps result.1) s.entries result.0.entries

  clone_snapshot-IsApplied : (s : Snapshot V) → IsApplied s (clone_snapshot s, [])
  clone_snapshot-IsApplied s = record {
    valid = clone_snapshot-validate s;
    in_step = InStep-weaken (λ a b m. m) (λ ds. sym (map-no_moves ds)) (InStep-refl s.entries);
  }

  apply_changes-IsApplied :
      (ctx : MoveContext V) (s : Snapshot V) (cs : List (Option EntryRef))
      {result : Snapshot V × List AddressMove}
      → apply_changes ctx s cs ≡ ok result
      → IsApplied s result
  unfolding apply_changes
  apply_changes-IsApplied ctx s cs h = elim (if_cases (no_change cs) h) [
    | inl (_, same) ↦ subst (IsApplied s) (ok-injective same) (clone_snapshot-IsApplied s)
    | inr (_, h₀) ↦
        let (_, _, h₁) = bind-eq-ok (check_conflicts s.entries cs) _ h₀ in
        let (_, _, h₂) = bind-eq-ok (validate_targets ctx.dag s.entries cs) _ h₁ in
        let (moved, made, h₃) = bind-eq-ok (move_entries ctx s.entries cs) _ h₂ in
        let (_, checked, h₄) = bind-eq-ok (lift_error snapshot_error _) _ h₃ in
        subst (IsApplied s) (ok-injective h₄) (record {
          valid = λ _. lift_error-eq-ok snapshot_error _ checked;
          in_step = rewrite_entry-InStep moved.1 (move_entries-InStep ctx s.entries cs made);
        })
  ]

  apply_moves-IsApplied :
      (ctx : MoveContext V) (s : Snapshot V) (mode : EntryMoveMode) (moves : List EntryMoveSpec)
      {result : Snapshot V × List AddressMove}
      → apply_moves ctx s mode moves ≡ ok result
      → IsApplied s result
  unfolding apply_moves
  apply_moves-IsApplied ctx s mode moves h = elim (if_cases (is_empty moves) h) [
    | inl (_, same) ↦ subst (IsApplied s) (ok-injective same) (clone_snapshot-IsApplied s)
    | inr (_, h₀) ↦
        let (refs, _, h₁) = bind-eq-ok (state_refs 0 (λ _. none) s.entries) _ h₀ in
        let (nodes, _, h₂) = bind-eq-ok (target_nodes ctx.dag (λ _. none) moves) _ h₁ in
        let (_, _, h₃) =
          bind-eq-ok (if is_strict mode then check_sources refs moves else ok tt) _ h₂ in
        let (changes, _, h₄) = bind-eq-ok (move_changes 0 _ _ s.entries) _ h₃ in
        apply_changes-IsApplied ctx s changes h₄
  ]

  -- When `ApplyEntryMoves` returns a snapshot for a snapshot that `Validate` accepts, `Validate`
  -- accepts the result too. Its entries are those of the given snapshot in their order, with their
  -- types, categories, bindings and trigger hashes; an entry that is no leaf keeps its inputs and
  -- outputs; an entry whose address is another is one of the results; and the recorded dependencies
  -- are the given ones, rewritten by the results.
  pub apply_entry_moves-IsApplied :
      (ctx : MoveContext V) (s : Snapshot V) (specs : List EntryMoveSpec) (mode : EntryMoveMode)
      {out : Snapshot V} {moved : List AddressMove}
      → apply_entry_moves ctx (some s) specs mode ≡ ok (some out, moved)
      → (validate s ≡ ok tt → validate out ≡ ok tt)
        × InStep moved (moved_deps moved) s.entries out.entries
  unfolding apply_entry_moves
  apply_entry_moves-IsApplied ctx s specs mode {out} {moved} h =
      let (moves, _, h₁) =
        bind-eq-ok (lift_error spec_error (normalize_entry_move_specs specs)) _ h in
      let (result, made, h₂) = bind-eq-ok (apply_moves ctx s mode moves) _ h₁ in
      let applied = apply_moves-IsApplied ctx s mode moves made in
      let same = ok-injective h₂ in
      let same_out = some-injective (ap (λ r. r.0) same) in
      (
        (λ v. subst (λ o. validate o ≡ ok tt) same_out (applied.valid v)),
        subst (λ o. InStep moved (moved_deps moved) s.entries o.entries) same_out
            (subst (λ m. InStep m (moved_deps m) s.entries result.0.entries) (ap (λ r. r.1) same)
              applied.in_step),
      )
