-- ===== src/Moves/Changes.antt =====
-- Which entries move: `entryMoveStateRefs`, `entryMoveChanges`, `checkEntryMoveConflicts` and
-- `validateEntryMoveTargets` of pkg/runtime/state_moves.go.
use unobin.Base.{
  ℕ, ◌+◌, Bool, true, false, not, ◌&&◌, ◌||◌, Option, none, some, List, [], ◌∷◌, if◌then◌else◌,
  Bytes, update, Result, ok, err, ◌>>=◌,
}
use unobin.StateRef.Syntax.{EntryRef}
use unobin.StateRef.Operations.{same, validate_address}
use unobin.StateRef.Parser.{ParseError}
use unobin.Snapshot.Types.{EntryType, entry_leaf, entry_library_call, Entry}
use unobin.Moves.Specs.{EntryMoveSpec}
use unobin.Moves.Target.{
  MoveNode, NormalizedMove, ApplyMovesError, invalid_entry, no_entry_at, destination_exists,
  entry_move_target, target_node, validate_entry_move_target,
}

abbrev pub lift_error {ℓ κ μ} :
    {E : Type ℓ} {F : Type κ} {A : Type μ} → (E → F) → Result E A → Result F A
lift_error f (ok a) = ok a
lift_error f (err e) = err (f e)

-- A pointer that is not nil, or an error.
abbrev pub or_err {ℓ κ} : {E : Type ℓ} {A : Type κ} → E → Option A → Result E A
or_err e none = err e
or_err e (some a) = ok a

-- `from == nil || from.Type != EntryLibraryCall`
abbrev pub is_library_call : EntryType → Bool
is_library_call entry_library_call = true
is_library_call _ = false

abbrev pub is_leaf : EntryType → Bool
is_leaf entry_leaf = true
is_leaf _ = false

abbrev pub has_value {ℓ} : {A : Type ℓ} → Option A → Bool
has_value none = false
has_value (some a) = true

-- `EntryRefFromEntry`
abbrev pub valid_ref : Bytes → Result ParseError (Unit {0}) → Option EntryRef
valid_ref address (ok u) = some (record { address = address })
valid_ref address (err e) = none

-- The loop that fills `targetNodes`.
unfoldable pub target_nodes :
    Option (Bytes → Option MoveNode)
    → (Bytes → Option MoveNode)
    → List EntryMoveSpec
    → Result ApplyMovesError (Bytes → Option MoveNode)
target_nodes dag m [] = ok m
target_nodes dag m (move ∷ moves) = do
  n ← target_node dag move.to
  target_nodes dag (update m move.to.address (some n)) moves

-- `toNode.IsComposite()`
abbrev pub is_composite : Option MoveNode → Bool
is_composite none = false
is_composite (some n) = n.composite_body

-- The map `exact`.
unfoldable pub exact_moves :
    (Bytes → Option NormalizedMove) → List NormalizedMove → Bytes → Option NormalizedMove
exact_moves m [] = m
exact_moves m (move ∷ moves) = exact_moves (update m move.from.address (some move)) moves

-- The list `prefixes`.
unfoldable pub prefix_moves : List NormalizedMove → List NormalizedMove
prefix_moves [] = []
prefix_moves (move ∷ moves) =
    let rest = prefix_moves moves in if move.prefix then move ∷ rest else rest

-- `if !changed || SameEntryRef(from, to) { continue }`
abbrev pub drop_same : EntryRef → Option EntryRef → Option EntryRef
drop_same from none = none
drop_same from (some to) = if same from to then none else some to

-- `len(changes) == 0`; the map of the changed indices is a list in step with the entries.
unfoldable pub no_change : List (Option EntryRef) → Bool
no_change [] = true
no_change (c ∷ cs) = not (has_value c) && no_change cs

-- The second loop of `checkEntryMoveConflicts`, in the order of the entries.
unfoldable pub free_targets :
    (occupied targets : Bytes → Bool) → List (Option EntryRef) → Result ApplyMovesError (Unit {0})
free_targets occupied targets [] = ok tt
free_targets occupied targets (none ∷ cs) = free_targets occupied targets cs
free_targets occupied targets (some to ∷ cs) =
    let rest = free_targets occupied (update targets to.address true) cs in
    if occupied to.address
    then err (destination_exists to.address)
    else if targets to.address
    then err (destination_exists to.address)
    else rest

module _ {ℓ} {V : Type ℓ} where
  unfoldable pub entry_ref : Option (Entry V) → Option EntryRef
  entry_ref none = none
  entry_ref (some e) = valid_ref e.address (validate_address e.address)

  -- The loop of `entryMoveStateRefs`; `i` is the index.
  unfoldable pub state_refs :
      ℕ
      → (Bytes → Option (Entry V))
      → List (Option (Entry V))
      → Result ApplyMovesError (Bytes → Option (Entry V))
  unfolding entry_ref
  state_refs i m [] = ok m
  state_refs i m (e ∷ es) = do
    ref ← or_err (invalid_entry i) (entry_ref e)
    state_refs (i + 1) (update m ref.address e) es

  abbrev pub is_call : Option (Entry V) → Bool
  is_call none = false
  is_call (some e) = is_library_call e.entry_type

  -- The loop that sets `Prefix`.
  abbrev pub set_prefix :
      (Bytes → Option (Entry V)) → (Bytes → Option MoveNode) → EntryMoveSpec → NormalizedMove
  set_prefix refs nodes move = record {
    from = move.from;
    to = move.to;
    prefix = is_call (refs move.from.address) || is_composite (nodes move.to.address);
  }

  -- The first loop of `entryMoveChanges` and the loop over the entries.
  unfoldable pub move_changes :
      ℕ
      → (Bytes → Option NormalizedMove)
      → List NormalizedMove
      → List (Option (Entry V))
      → Result ApplyMovesError (List (Option EntryRef))
  unfolding entry_ref
  move_changes i exact prefixes [] = ok []
  move_changes i exact prefixes (e ∷ es) = do
    from ← or_err (invalid_entry i) (entry_ref e)
    rest ← move_changes (i + 1) exact prefixes es
    ok (drop_same from (entry_move_target from exact prefixes) ∷ rest)

  -- The loop of the strict mode.
  unfoldable pub check_sources :
      (Bytes → Option (Entry V)) → List EntryMoveSpec → Result ApplyMovesError (Unit {0})
  check_sources refs [] = ok tt
  check_sources refs (move ∷ moves) =
      let rest = check_sources refs moves in
      if not (has_value (refs move.from.address)) then err (no_entry_at move.from) else rest

  -- The map `occupied`: the addresses of the entries that stay.
  unfoldable pub occupied_by :
      (Bytes → Bool) → List (Option (Entry V)) → List (Option EntryRef) → Bytes → Bool
  occupied_by m (some e ∷ es) (none ∷ cs) = occupied_by (update m e.address true) es cs
  occupied_by m (e ∷ es) (c ∷ cs) = occupied_by m es cs
  occupied_by m _ _ = m

  unfoldable pub check_conflicts :
      List (Option (Entry V)) → List (Option EntryRef) → Result ApplyMovesError (Unit {0})
  unfolding free_targets occupied_by
  check_conflicts es cs = free_targets (occupied_by (λ _. false) es cs) (λ _. false) cs

  -- `validateEntryMoveTargets`
  unfoldable pub validate_targets :
      Option (Bytes → Option MoveNode)
      → List (Option (Entry V))
      → List (Option EntryRef)
      → Result ApplyMovesError (Unit {0})
  validate_targets dag (some e ∷ es) (some to ∷ cs) = do
    n ← target_node dag to
    checked ← validate_entry_move_target e n
    validate_targets dag es cs
  validate_targets dag (e ∷ es) (c ∷ cs) = validate_targets dag es cs
  validate_targets dag _ _ = ok tt
