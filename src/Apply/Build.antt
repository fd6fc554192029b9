-- ===== src/Apply/Build.antt =====
-- `buildStepGraph` of pkg/runtime/apply_graph.go.
pub mod Keys
pub mod Plan
pub mod Edges
pub mod Counted
pub mod Order
pub mod Locks
mod Examples
