-- ===== src/Base58.antt =====
-- src/libcryptoutility/cryptoutility.cpp: base 58.
pub mod Convert
pub mod Numeral
pub mod Carry
pub mod Size
pub mod Alphabet
pub mod Encode
pub mod Decode
pub mod RoundTrip
pub mod Reads
mod Tests
