-- ===== src/Moves/ApplyExamples.antt =====
-- A call moves with the resource below it.
use unobin.Base.{
  ℕ, ◌+◌, List, true, false, ◌≡◌, refl, Option, none, some, [], ◌∷◌, Bytes, bytes, eqb, mem,
  if◌then◌else◌, ok,
}
use unobin.StateRef.Syntax.{valid_ident, ref_text, join_slash, segment_text, category_text}
use unobin.StateRef.Parser.{
  parse_state_ref, contains_outside_key, split_segments, parse_segment, cut_byte, parse_category,
  named_segment, contains_byte,
}
use unobin.StateRef.Operations.{same, template, validate_address}
use unobin.Apply.Build.Keys.{template_address}
use unobin.Snapshot.Types.{
  entry_leaf, entry_library_call, Binding, Entry, Snapshot, current_format_version,
}
use unobin.Snapshot.Validate.{validate}
use unobin.Moves.Address.{
  AddressMove, has_address_prefix, drop_bytes, rewrite_moved_address, rewrite_moved_depends_on,
}
use unobin.Moves.Specs.{EntryMoveSpec, normalize_entry_move_specs}
use unobin.Moves.Target.{
  node_resource, MoveNode, entry_move_target, target_node, validate_entry_move_target,
}
use unobin.Moves.Changes.{no_change}
use unobin.Moves.Apply.{idempotent, Resource, Libraries, MoveContext, apply_entry_moves}
use unobin.Moves.InStep.{moved_deps, InStep}
use unobin.Moves.Stays.{apply_entry_moves-IsApplied}

abbrev app_binding : Binding
app_binding = record { alias = bytes "k"; library_path = bytes "lib"; export = bytes "app" }

abbrev vm_binding : Binding
vm_binding = record { alias = bytes "c"; library_path = bytes "cloud"; export = bytes "vm" }

abbrev app_entry : Entry ℕ
app_entry = record {
  address = bytes "resource.app";
  entry_type = entry_library_call;
  category = bytes "resource";
  binding = some app_binding;
  schema_version = 0;
  sensitive_inputs = [];
  sensitive_outputs = [];
  trigger_hash = bytes "";
  inputs = 5;
  outputs = 6;
  depends_on = bytes "resource.app/resource.vm" ∷ [];
}

abbrev vm_entry : Entry ℕ
vm_entry = record app_entry {
  address = bytes "resource.app/resource.vm";
  entry_type = entry_leaf;
  binding = some vm_binding;
  schema_version = 1;
  depends_on = [];
}

abbrev two_entries : Snapshot ℕ
two_entries = record {
  format_version = current_format_version;
  factory = record { name = bytes "f"; version = bytes "v1"; content_revision = bytes "" };
  stack = bytes "s";
  entries = some app_entry ∷ some vm_entry ∷ [];
  outputs = 0;
}

abbrev web_node : MoveNode
web_node = record {
  address = bytes "resource.web";
  kind = node_resource;
  composite_body = true;
  alias = bytes "k";
  library_path = bytes "lib";
  kind_name = bytes "app";
  composite = bytes "";
}

abbrev web_vm_node : MoveNode
web_vm_node = record {
  address = bytes "resource.web/resource.vm";
  kind = node_resource;
  composite_body = false;
  alias = bytes "c";
  library_path = bytes "cloud";
  kind_name = bytes "vm";
  composite = bytes "resource.web";
}

abbrev two_nodes : Bytes → Option MoveNode
two_nodes a =
    if eqb a web_node.address
    then some web_node
    else if eqb a web_vm_node.address
    then some web_vm_node
    else none

-- The second version of the resource adds 10 to its inputs.
abbrev vm_resource : Resource ℕ
vm_resource = record { schema_version = 2; migrate = λ v prior. some (prior.0 + 10, prior.1) }

abbrev cloud : Libraries ℕ
cloud alias = if eqb alias (bytes "c") then some (λ k. some vm_resource) else none

abbrev context : MoveContext ℕ
context = record { dag = some two_nodes; node_libraries = λ a. none; libs = cloud }

abbrev app_to_web : EntryMoveSpec
app_to_web = record {
  from = record { address = bytes "resource.app" };
  to = record { address = bytes "resource.web" };
}

abbrev two_moves : List AddressMove
two_moves =
    record { from = app_entry.address; to = web_node.address }
    ∷ record { from = vm_entry.address; to = web_vm_node.address }
    ∷ []

abbrev two_moved : Snapshot ℕ
two_moved = record two_entries {
  entries =
      some (record app_entry { address = web_node.address; depends_on = web_vm_node.address ∷ [] })
      ∷ some (record vm_entry { address = web_vm_node.address; schema_version = 2; inputs = 15 })
      ∷ [];
}

moved :
    apply_entry_moves context (some two_entries) (app_to_web ∷ []) idempotent
    ≡ ok (some two_moved, two_moves)
unfolding apply_entry_moves normalize_entry_move_specs eqb mem same has_address_prefix
    rewrite_moved_address rewrite_moved_depends_on entry_move_target target_node
    validate_entry_move_target validate template_address validate_address parse_state_ref
    contains_outside_key split_segments parse_segment cut_byte parse_category named_segment
    contains_byte valid_ident template ref_text join_slash segment_text category_text no_change
    drop_bytes
moved = refl

apply_entry_moves-IsApplied_example :
    (validate two_entries ≡ ok tt → validate two_moved ≡ ok tt)
    × InStep two_moves (moved_deps two_moves) two_entries.entries two_moved.entries
apply_entry_moves-IsApplied_example =
    apply_entry_moves-IsApplied context two_entries (app_to_web ∷ []) idempotent moved
