-- ===== src/Moves/Target.antt =====
-- Where a move takes an entry: `entryMoveTargetForRef`, `entryMoveTargetNode` and
-- `validateEntryMoveTarget` of pkg/runtime/state_moves.go.
use unobin.Base.{
  ℕ, Bool, true, false, not, ◌||◌, Option, none, some, List, [], ◌∷◌, ◌++◌, ltb, if◌then◌else◌,
  length, Bytes, eqb, Result, ok, err,
}
use unobin.StateRef.Syntax.{EntryRef}
use unobin.Apply.Build.Keys.{template_address}
use unobin.Snapshot.Types.{
  EntryType, entry_leaf, entry_library_call, entry_action, entry_data, other_entry, Binding, Entry,
}
use unobin.Snapshot.Validate.{SnapshotError}
use unobin.Moves.Address.{has_address_prefix, drop_bytes}
use unobin.Moves.Specs.{MoveError}

pub data NodeKind : Type 0 where
  node_resource node_data_source node_action node_output node_library_config : NodeKind

abbrev pub is_resource : NodeKind → Bool
is_resource node_resource = true
is_resource _ = false

abbrev pub is_data_source : NodeKind → Bool
is_data_source node_data_source = true
is_data_source _ = false

abbrev pub is_action : NodeKind → Bool
is_action node_action = true
is_action _ = false

-- The fields of a `Node` that a move reads; `composite_body` is `IsComposite`, and `composite` the
-- call site that the node stands in.
pub record MoveNode : Type 0 where
  pub address : Bytes
  pub kind : NodeKind
  pub composite_body : Bool
  pub alias : Bytes
  pub library_path : Bytes
  pub kind_name : Bytes
  pub composite : Bytes

-- `normalizedEntryMove`
pub record NormalizedMove : Type 0 where
  pub from : EntryRef
  pub to : EntryRef
  pub prefix : Bool

-- One constructor for each message of `ApplyEntryMoves`; `spec_error` and `snapshot_error` hold the
-- errors of the functions that it calls.
pub data ApplyMovesError : Type 0 where
  spec_error : MoveError → ApplyMovesError
  no_current_state : ApplyMovesError
  invalid_entry : ℕ → ApplyMovesError
  not_in_factory no_entry_at : EntryRef → ApplyMovesError
  destination_exists : Bytes → ApplyMovesError
  kind_mismatch : EntryType → ApplyMovesError
  binding_mismatch : Bytes → ApplyMovesError
  not_imported no_resource : Bytes → ApplyMovesError
  migration_failed : ApplyMovesError
  snapshot_error : SnapshotError → ApplyMovesError

-- `if len(move.From.Address) > bestLen`; no best move has the length -1.
abbrev pub longer : Option NormalizedMove → NormalizedMove → Option NormalizedMove
longer none move = some move
longer (some best) move =
    if ltb (length best.from.address) (length move.from.address) then some move else some best

unfoldable pub best_prefix :
    Bytes → Option NormalizedMove → List NormalizedMove → Option NormalizedMove
best_prefix address best [] = best
best_prefix address best (move ∷ moves) =
    best_prefix address
      (if not (has_address_prefix address move.from.address)
        then best
        else if eqb address move.from.address
        then best
        else longer best move)
      moves

abbrev pub with_suffix : Bytes → Option NormalizedMove → Option EntryRef
with_suffix address none = none
with_suffix address (some best) =
    some (record { address = best.to.address ++ drop_bytes (length best.from.address) address })

-- `if move, ok := exact[from.String()]; ok`
abbrev pub exact_or : Option NormalizedMove → Option EntryRef → Option EntryRef
exact_or (some move) other = some move.to
exact_or none other = other

unfoldable pub entry_move_target :
    EntryRef → (Bytes → Option NormalizedMove) → List NormalizedMove → Option EntryRef
unfolding best_prefix
entry_move_target from exact prefixes =
    exact_or (exact from.address)
      (with_suffix from.address (best_prefix from.address none prefixes))

-- The node of a template, if it is there and has that address: `entryMoveNodeMatchesRef`.
abbrev pub matching_node : EntryRef → Option MoveNode → Result ApplyMovesError MoveNode
matching_node ref none = err (not_in_factory ref)
matching_node ref (some n) =
    if not (eqb (template_address ref.address) n.address) then err (not_in_factory ref) else ok n

-- `entryMoveTargetNode`; the DAG is a pointer.
unfoldable pub target_node :
    Option (Bytes → Option MoveNode) → EntryRef → Result ApplyMovesError MoveNode
target_node none ref = err (not_in_factory ref)
target_node (some nodes) ref = matching_node ref (nodes (template_address ref.address))

-- `switch ent.Type`
abbrev pub kind_fits : EntryType → MoveNode → Bool
kind_fits entry_leaf n = not (not (is_resource n.kind) || n.composite_body)
kind_fits entry_data n = not (not (is_data_source n.kind) || n.composite_body)
kind_fits entry_action n = not (not (is_action n.kind) || n.composite_body)
kind_fits entry_library_call n = n.composite_body
kind_fits (other_entry kind) n = false

abbrev pub binding_fits : Option Binding → MoveNode → Bool
binding_fits none n = true
binding_fits (some b) n =
    not (not (eqb b.library_path n.library_path) || not (eqb b.export n.kind_name))

unfoldable pub validate_entry_move_target {ℓ} :
    {V : Type ℓ} → Entry V → MoveNode → Result ApplyMovesError (Unit {0})
validate_entry_move_target e n =
    if not (kind_fits e.entry_type n)
    then err (kind_mismatch e.entry_type)
    else if not (binding_fits e.binding n)
    then err (binding_mismatch e.address)
    else ok tt
