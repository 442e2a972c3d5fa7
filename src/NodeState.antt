-- ===== src/NodeState.antt =====
-- src/libp2psocket/p2pstate.cpp: the class `p2pstate_ex`, what a node knows of its peers.
pub mod State
pub mod Connections
pub mod Connected
pub mod Distinct
pub mod Contacts
pub mod Dropped
pub mod Backoff
pub mod Skipped
pub mod ContactLaws
pub mod AddContact
pub mod RemovePending
pub mod Tests
