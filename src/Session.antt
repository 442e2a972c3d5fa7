-- ===== src/Session.antt =====
-- src/libsessionutility: the sessions of a node with its peers.
pub mod State
pub mod Manager
pub mod Process
pub mod Invariant
pub mod Found
pub mod Errors
pub mod ProcessErrors
pub mod Kept
pub mod Calls
pub mod Throws
mod Tests
