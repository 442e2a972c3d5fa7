-- ===== src/VectorLoader.antt =====
-- src/libsystemutility/fileutility.hpp and fileutility.cpp: `vector_loader`.
pub mod State
pub mod Refines
pub mod Indices
pub mod Turns
pub mod Whole
pub mod Saves
pub mod Runs
pub mod Tests
