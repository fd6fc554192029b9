-- ===== src/StateRef.antt =====
-- State refs, pkg/stateref/entry_ref.go.
pub mod Syntax
pub mod Parser
pub mod Valid
pub mod Escape
pub mod Split
pub mod Outside
pub mod Segments
pub mod Operations
pub mod RoundTrip
pub mod Keys
pub mod Joined
pub mod KeyText
pub mod Printed
pub mod Unreadable
pub mod Bracket
pub mod Ensures
pub mod Panics
mod Examples
