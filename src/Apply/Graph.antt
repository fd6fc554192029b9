-- ===== src/Apply/Graph.antt =====
-- The step graph of pkg/runtime/apply_graph.go. A Go map that is only read by key is a function.
use unobin.Base.{ℕ, List, Bytes}

-- `locks` is the empty string for a step under no lock.
pub record StepGraph : Type 0 where
  pub indegree : Bytes → ℕ
  pub dependents : Bytes → List Bytes
  pub locks : Bytes → Bytes
