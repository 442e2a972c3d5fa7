-- ===== src/Communication/Valid.antt =====
-- The operations of src/libp2psocket/p2pstate.cpp, `communication_state`, keep its invariant.
pub mod Value
pub mod Active
pub mod Passive
pub mod Insert
pub mod Connect
pub mod Renumber
pub mod Pending
pub mod Collect
pub mod RemovePending
pub mod Marks
pub mod Values
pub mod Getters
