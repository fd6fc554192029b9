-- ===== src/Snapshot/Examples.antt =====
-- A snapshot with two entries.
use unobin.Base.{ℕ, ◌≡◌, refl, some, [], ◌∷◌, bytes, eqb, mem, ok}
use unobin.Snapshot.Types.{entry_action, entry_data, Entry, Snapshot, current_format_version}
use unobin.Snapshot.Validate.{validate}
use unobin.Snapshot.Valid.{AreEntries, validate-AreEntries}

abbrev boot : Entry ℕ
boot = record {
  address = bytes "action.boot";
  entry_type = entry_action;
  category = bytes "action";
  binding = some (record { alias = bytes "c"; library_path = bytes "cloud"; export = bytes "run" });
  schema_version = 0;
  sensitive_inputs = [];
  sensitive_outputs = [];
  trigger_hash = bytes "t";
  inputs = 1;
  outputs = 2;
  depends_on = [];
}

abbrev image : Entry ℕ
image = record boot {
  address = bytes "data.image";
  entry_type = entry_data;
  category = bytes "data-source";
}

abbrev two_entries : Snapshot ℕ
two_entries = record {
  format_version = 1;
  factory = record { name = bytes "f"; version = bytes "v1"; content_revision = bytes "" };
  stack = bytes "s";
  entries = some boot ∷ some image ∷ [];
  outputs = 0;
}

two_entries-ok : validate two_entries ≡ ok tt
unfolding validate eqb mem
two_entries-ok = refl

validate-AreEntries_example :
    (two_entries.format_version ≡ current_format_version) × AreEntries two_entries.entries
validate-AreEntries_example = validate-AreEntries two_entries two_entries-ok
