-- ===== src/MapLoader.antt =====
-- src/libsystemutility/fileutility.hpp and fileutility.cpp: `map_loader`.
pub mod Filename
pub mod State
pub mod Save
pub mod Refines
pub mod Keys
pub mod Entries
pub mod Stores
pub mod Whole
pub mod Runs
mod Tests
