-- ===== src/Apply/Schedule.antt =====
-- The scheduler loop of `runApplySchedule` in pkg/runtime/apply_schedule.go.
pub mod Queue
pub mod State
pub mod Loop
pub mod Invariant
pub mod Result
pub mod Safety
pub mod Completion
pub mod Measure
pub mod Bounded
pub mod Progress
mod Examples
