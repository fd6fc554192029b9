-- ===== src/Typecheck.antt =====
-- The semantic types of pkg/typecheck.
pub mod Types
pub mod Equal
pub mod Compat
pub mod Merge
mod Examples
