-- ===== src/Snapshot/Types.antt =====
-- `Snapshot` and `Entry` of pkg/sdk/state/snapshot.go. The time of a snapshot is left out.
use unobin.Base.{ℕ, Option, none, some, List, [], ◌∷◌, if◌then◌else◌, Bytes, eqb}

-- `EntryType` is a string: `other_entry` holds one that is none of the four constants.
pub data EntryType : Type 0 where
  entry_leaf entry_library_call entry_action entry_data : EntryType
  other_entry : Bytes → EntryType

pub record Binding : Type 0 where
  pub alias : Bytes
  pub library_path : Bytes
  pub export : Bytes

pub record Entry {ℓ} (V : Type ℓ) : Type ℓ where
  pub address : Bytes
  pub entry_type : EntryType
  pub category : Bytes
  pub binding : Option Binding
  pub schema_version : ℕ
  pub sensitive_inputs : List Bytes
  pub sensitive_outputs : List Bytes
  pub trigger_hash : Bytes
  pub inputs : V
  pub outputs : V
  pub depends_on : List Bytes

pub record FactoryInfo : Type 0 where
  pub name : Bytes
  pub version : Bytes
  pub content_revision : Bytes

-- An entry is a pointer, which may be nil.
pub record Snapshot {ℓ} (V : Type ℓ) : Type ℓ where
  pub format_version : ℕ
  pub factory : FactoryInfo
  pub stack : Bytes
  pub entries : List (Option (Entry V))
  pub outputs : V

abbrev pub current_format_version : ℕ
current_format_version = 1

module _ {ℓ} {V : Type ℓ} where
  -- `Find`; the source panics at a nil entry, which counts as no match here.
  unfoldable pub find : Bytes → List (Option (Entry V)) → Option (Entry V)
  find address [] = none
  find address (none ∷ es) = find address es
  find address (some e ∷ es) =
      let rest = find address es in if eqb e.address address then some e else rest

  -- `cloneSnapshot` of pkg/runtime/executor.go, which makes a new snapshot of the current version.
  abbrev pub clone_snapshot : Snapshot V → Snapshot V
  clone_snapshot s = record s { format_version = current_format_version }
