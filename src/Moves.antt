-- ===== src/Moves.antt =====
-- Moves of state entries, pkg/runtime/state_moves.go.
pub mod Address
pub mod Longest
pub mod Depends
pub mod Specs
pub mod Chains
pub mod Target
pub mod Changes
pub mod Apply
pub mod InStep
pub mod Stays
mod Examples
mod ApplyExamples
