-- ===== src/Keys.antt =====
-- src/libcryptoutility/cryptoutility.cpp: the texts of keys, and the distance of two digests.
pub mod Bytes
pub mod Wif
pub mod WifRoundTrip
pub mod PublicKey
pub mod PublicKeyRoundTrip
pub mod Distance
pub mod DistanceValue
mod Tests
