-- ===== src/Snapshot.antt =====
-- State snapshots: pkg/sdk/state/snapshot.go. Values of inputs and outputs are not looked at: their
-- type is a parameter.
pub mod Types
pub mod Validate
pub mod Valid
mod Examples
