-- ===== src/Communication.antt =====
-- src/libp2psocket/p2pstate.cpp: `peer_state` and the class template `communication_state`, at
-- the one type of values that it is used with.
pub mod State
pub mod Insert
pub mod Removal
pub mod Query
pub mod Entries
pub mod Invariant
pub mod Valid
pub mod Reach
pub mod Tests
