-- ===== src/Apply/Schedule/Invariant.antt =====
-- What holds at the head of every round of the scheduler.
pub mod Defs
pub mod Queues
pub mod Owed
pub mod Promote
pub mod NextReady
pub mod Remove
pub mod Workers
pub mod Results
pub mod Fates
pub mod Rounds
pub mod Reachable
