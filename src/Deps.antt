-- ===== src/Deps.antt =====
-- Dependencies of a factory and their versions: pkg/deps.
pub mod Semver
pub mod Dependency
pub mod Selection
pub mod Resolve
pub mod Versions
pub mod Packages
pub mod Imports
mod Examples
