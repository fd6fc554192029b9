-- ===== src/Moves/Apply.antt =====
-- `ApplyEntryMoves` of pkg/runtime/state_moves.go.
use unobin.Base.{
  ℕ, Bool, true, false, not, ◌&&◌, Option, none, some, List, [], ◌∷◌, map, if◌then◌else◌, is_empty,
  leb, Bytes, Result, ok, err, ◌>>=◌,
}
use unobin.StateRef.Syntax.{EntryRef}
use unobin.Snapshot.Types.{Entry, Snapshot, clone_snapshot}
use unobin.Snapshot.Validate.{validate}
use unobin.Moves.Address.{AddressMove, rewrite_moved_depends_on}
use unobin.Moves.Specs.{EntryMoveSpec, normalize_entry_move_specs}
use unobin.Moves.Target.{
  MoveNode, ApplyMovesError, spec_error, no_current_state, not_imported, no_resource,
  migration_failed, snapshot_error, target_node,
}
use unobin.Moves.Changes.{
  lift_error, or_err, is_leaf, state_refs, target_nodes, set_prefix, exact_moves, prefix_moves,
  no_change, move_changes, check_sources, check_conflicts, validate_targets,
}

-- `EntryMoveMode`
pub data EntryMoveMode : Type 0 where
  strict idempotent : EntryMoveMode

abbrev pub is_strict : EntryMoveMode → Bool
is_strict strict = true
is_strict idempotent = false

-- A `ResourceRegistration` of a library: its version, and its migration of inputs and outputs.
pub record Resource {ℓ} (V : Type ℓ) : Type ℓ where
  pub schema_version : ℕ
  pub migrate : ℕ → V × V → Option (V × V)

-- The resources of the libraries that an alias names; `none` for a library that is not imported.
abbrev pub Libraries {ℓ} : Type ℓ → Type ℓ
Libraries V = Bytes → Option (Bytes → Option (Resource V))

-- What `ApplyEntryMoves` is given besides the snapshot: the nodes of the DAG, the `Libraries` of a
-- node, where they are not nil, and the libraries of the factory.
pub record MoveContext {ℓ} (V : Type ℓ) : Type ℓ where
  pub dag : Option (Bytes → Option MoveNode)
  pub node_libraries : Bytes → Option (Libraries V)
  pub libs : Libraries V

module _ {ℓ} {V : Type ℓ} where
  -- `migrateEntry` of pkg/runtime/library.go.
  unfoldable pub migrate_entry : Resource V → ℕ → V × V → Option (V × V)
  migrate_entry r prior_version prior =
      if leb r.schema_version prior_version then some prior else r.migrate prior_version prior

  abbrev pub or_libs : Option (Libraries V) → Libraries V → Libraries V
  or_libs none libs = libs
  or_libs (some own) libs = own

  -- `entryMoveLibrariesForNode`
  unfoldable pub libraries_for : MoveContext V → MoveNode → Libraries V
  libraries_for ctx n =
      if is_empty n.composite then ctx.libs else or_libs (ctx.node_libraries n.composite) ctx.libs

  -- `migrateMovedEntry`
  unfoldable pub migrate_moved_entry :
      MoveContext V → Entry V → EntryRef → Result ApplyMovesError (Entry V)
  unfolding migrate_entry libraries_for
  migrate_moved_entry ctx e to = if not (is_leaf e.entry_type) then ok e else (do
    n ← target_node ctx.dag to
    lib ← or_err (not_imported n.alias) (libraries_for ctx n n.alias)
    resource ← or_err (no_resource n.kind_name) (lib n.kind_name)
    migrated ←
        or_err migration_failed (migrate_entry resource e.schema_version (e.inputs, e.outputs))
    ok (record e {
      inputs = migrated.0;
      outputs = migrated.1;
      schema_version = resource.schema_version;
    }))

  -- The loop over the entries; the second list is `addressMoves`, which has the results in it.
  unfoldable pub move_entries :
      MoveContext V
      → List (Option (Entry V))
      → List (Option EntryRef)
      → Result ApplyMovesError (List (Option (Entry V)) × List AddressMove)
  unfolding migrate_moved_entry
  move_entries ctx (some e ∷ es) (some to ∷ cs) = do
    migrated ← migrate_moved_entry ctx e to
    rest ← move_entries ctx es cs
    ok (
      some (record migrated { address = to.address }) ∷ rest.0,
      record { from = e.address; to = to.address } ∷ rest.1,
    )
  move_entries ctx (e ∷ es) (c ∷ cs) = do rest ← move_entries ctx es cs; ok (e ∷ rest.0, rest.1)
  move_entries ctx es _ = ok (es, [])

  abbrev pub rewrite_entry : List AddressMove → Option (Entry V) → Option (Entry V)
  rewrite_entry moves none = none
  rewrite_entry moves (some e) =
      some (record e { depends_on = rewrite_moved_depends_on e.depends_on moves })

  -- `ApplyEntryMoves` from the changes on.
  unfoldable pub apply_changes :
      MoveContext V
      → Snapshot V
      → List (Option EntryRef)
      → Result ApplyMovesError (Snapshot V × List AddressMove)
  unfolding check_conflicts validate_targets move_entries
  apply_changes ctx snap changes = if no_change changes then ok (clone_snapshot snap, []) else (do
    free ← check_conflicts snap.entries changes
    checked ← validate_targets ctx.dag snap.entries changes
    moved ← move_entries ctx snap.entries changes
    let out = record (clone_snapshot snap) { entries = map (rewrite_entry moved.1) moved.0 }
    valid ← lift_error snapshot_error (validate out)
    ok (out, moved.1))

  -- `ApplyEntryMoves` on a snapshot, with the collapsed moves.
  unfoldable pub apply_moves :
      MoveContext V
      → Snapshot V
      → EntryMoveMode
      → List EntryMoveSpec
      → Result ApplyMovesError (Snapshot V × List AddressMove)
  unfolding apply_changes state_refs target_nodes check_sources move_changes exact_moves
      prefix_moves
  apply_moves ctx snap mode moves = if is_empty moves then ok (clone_snapshot snap, []) else (do
    refs ← state_refs 0 (λ _. none) snap.entries
    nodes ← target_nodes ctx.dag (λ _. none) moves
    let normalized = map (set_prefix refs nodes) moves
    found ← (if is_strict mode then check_sources refs moves else ok tt)
    changes ←
        move_changes 0 (exact_moves (λ _. none) normalized) (prefix_moves normalized) snap.entries
    apply_changes ctx snap changes)

  -- `if snap == nil`
  abbrev pub apply_to :
      MoveContext V
      → Option (Snapshot V)
      → EntryMoveMode
      → List EntryMoveSpec
      → Result ApplyMovesError (Option (Snapshot V) × List AddressMove)
  apply_to ctx none mode moves =
      if is_strict mode && not (is_empty moves) then err no_current_state else ok (none, [])
  apply_to ctx (some snap) mode moves = do
    result ← apply_moves ctx snap mode moves
    ok (some result.0, result.1)

  unfoldable pub apply_entry_moves :
      MoveContext V
      → Option (Snapshot V)
      → List EntryMoveSpec
      → EntryMoveMode
      → Result ApplyMovesError (Option (Snapshot V) × List AddressMove)
  unfolding apply_moves
  apply_entry_moves ctx snap specs mode = do
    moves ← lift_error spec_error (normalize_entry_move_specs specs)
    apply_to ctx snap mode moves
