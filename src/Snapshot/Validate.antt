-- ===== src/Snapshot/Validate.antt =====
-- `Validate` of pkg/sdk/state/snapshot.go.
use unobin.Base.{
  ℕ, ◌+◌, Bool, true, false, not, Option, none, some, List, [], ◌∷◌, ◌==◌, if◌then◌else◌, is_empty,
  Bytes, bytes, mem, update, Result, ok, err, ◌>>=◌,
}
use unobin.Snapshot.Types.{
  EntryType, entry_leaf, entry_library_call, entry_action, entry_data, other_entry, Binding, Entry,
  Snapshot, current_format_version,
}

-- One constructor for each message.
pub data SnapshotError : Type 0 where
  wrong_version : ℕ → SnapshotError
  nil_entry missing_address : ℕ → SnapshotError
  duplicate_address missing_kind missing_category no_binding no_alias no_export :
      Bytes → SnapshotError
  unknown_kind wrong_category : Bytes → Bytes → SnapshotError

abbrev pub check_binding : Bytes → Option Binding → Result SnapshotError (Unit {0})
check_binding address none = err (no_binding address)
check_binding address (some b) =
    if is_empty b.alias
    then err (no_alias address)
    else if is_empty b.export
    then err (no_export address)
    else ok tt

module _ {ℓ} {V : Type ℓ} where
  unfoldable pub validate_category : Entry V → List Bytes → Result SnapshotError (Unit {0})
  validate_category e allowed =
      if is_empty e.category
      then err (missing_category e.address)
      else if mem e.category allowed
      then ok tt
      else err (wrong_category e.address e.category)

  unfoldable pub validate_graph_binding : Entry V → Result SnapshotError (Unit {0})
  validate_graph_binding e = check_binding e.address e.binding

  unfoldable pub validate_kind : EntryType → Entry V → Result SnapshotError (Unit {0})
  unfolding validate_category validate_graph_binding
  validate_kind entry_leaf e =
      validate_category e (bytes "resource" ∷ []) >>= λ _. validate_graph_binding e
  validate_kind entry_library_call e =
      validate_category e (bytes "resource" ∷ bytes "data-source" ∷ bytes "action" ∷ []) >>= λ _.
      validate_graph_binding e
  validate_kind entry_action e =
      validate_category e (bytes "action" ∷ []) >>= λ _. validate_graph_binding e
  validate_kind entry_data e =
      validate_category e (bytes "data-source" ∷ []) >>= λ _. validate_graph_binding e
  validate_kind (other_entry kind) e =
      if is_empty kind then err (missing_kind e.address) else err (unknown_kind e.address kind)

  -- `(*Entry).validate`
  unfoldable pub validate_entry : Entry V → Result SnapshotError (Unit {0})
  unfolding validate_kind
  validate_entry e = validate_kind e.entry_type e

  -- The loop; `i` is the index and `seen` the map.
  unfoldable pub validate_loop :
      ℕ → (Bytes → Bool) → List (Option (Entry V)) → Result SnapshotError (Unit {0})
  unfolding validate_entry
  validate_loop i seen [] = ok tt
  validate_loop i seen (none ∷ es) = err (nil_entry i)
  validate_loop i seen (some e ∷ es) =
      let rest = validate_loop (i + 1) (update seen e.address true) es in
      if is_empty e.address
      then err (missing_address i)
      else if seen e.address
      then err (duplicate_address e.address)
      else validate_entry e >>= λ _. rest

  unfoldable pub validate : Snapshot V → Result SnapshotError (Unit {0})
  unfolding validate_loop
  validate s =
      if not (s.format_version == current_format_version)
      then err (wrong_version s.format_version)
      else validate_loop 0 (λ _. false) s.entries
