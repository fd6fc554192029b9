-- ===== src/Apply.antt =====
-- The apply scheduler: pkg/runtime/apply_graph.go and pkg/runtime/apply_schedule.go.
pub mod Graph
pub mod Schedule
pub mod Build
