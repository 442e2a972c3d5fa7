-- ===== src/KBucket/Kontakt.antt =====
-- src/kbucket/konnection.hpp: `string_distance` and `Konnection`. An integer of the library
-- Crypto++ is a natural number, whose bytes are its digits to the base 256; the digest of a text
-- is a parameter.
use Prim.Native.Nat.{bit_xor}
use mesh_pp.Prelude.{
  ℕ, zero, suc, ◌+◌, ◌-◌, ◌*◌, ◌/◌, ◌%◌, ◌^◌, true, false, ltb, leb, ◌==◌, if◌then◌else◌, String,
  string_discrete, ite,
}

abbrev pub get_byte : ℕ → ℕ → ℕ
get_byte value i = value / 256 ^ i % 256

abbrev pub set_byte : ℕ → ℕ → ℕ → ℕ
set_byte value i b = value - get_byte value i * 256 ^ i + b * 256 ^ i

unfoldable pub count_bytes : ℕ → ℕ → ℕ
count_bytes zero value = 0
count_bytes (suc fuel) value = elim (ltb 0 value) [
  | true ↦ suc (count_bytes fuel (value / 256))
  | false ↦ 0
]

-- `ByteCount()`.
unfoldable pub byte_count : ℕ → ℕ
byte_count value = count_bytes value value

-- The byte that a round of the loop reads.
unfoldable pub read_byte : ℕ → ℕ → ℕ → ℕ
read_byte size value index = if leb index size then get_byte value index else 0

-- The loop of `operator-`, for a number of rounds from an index on.
unfoldable pub xor_bytes : ℕ → ℕ → ℕ → ℕ → ℕ → ℕ
xor_bytes zero index a b result = result
xor_bytes (suc rounds) index a b result = xor_bytes rounds (suc index) a b (
    set_byte result index
      (bit_xor (read_byte (byte_count a) a index) (read_byte (byte_count b) b index)))

unfoldable pub subtract : ℕ → ℕ → ℕ
subtract a b =
    if a == b
    then 0
    else xor_bytes (if leb (byte_count b) (byte_count a) then byte_count a else byte_count b) 0 a b
        (if ltb a b then b else a)

pub record Konnection : Type 0 where
  pub node_id : String
  pub peer : String

module _ (digest : String → ℕ) where
  -- `string_distance(str)`.
  unfoldable pub string_distance : String → ℕ
  string_distance str = ite (string_discrete str "") 0 (digest str)

  unfoldable pub distance_from : Konnection → Konnection → ℕ
  distance_from a b = subtract (string_distance a.node_id) (string_distance b.node_id)
