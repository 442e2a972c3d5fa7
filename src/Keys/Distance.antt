-- ===== src/Keys/Distance.antt =====
-- src/libcryptoutility/cryptoutility.cpp: `distance`.
use Prim.Native.Nat.{bit_xor, bit_and}
use mesh_pp.Prelude.{
  ℕ, zero, suc, ◌+◌, ◌-◌, ◌*◌, ◌/◌, ◌%◌, ◌^◌, not, ◌||◌, Option, some, List, [], ◌∷◌, ◌==◌, leb,
  if◌then◌else◌, length, ◌>>=◌, Result, ok, throw, runtime_error,
}
use mesh_pp.Base58.Convert.{from_base58}

-- The loop of `setbitcount`, for a number of bits from `test` on; `test` is an unsigned char.
unfoldable pub count_bits : ℕ → ℕ → ℕ → ℕ → ℕ
count_bits zero ch test res = res
count_bits (suc bits) ch test res =
    count_bits bits ch (test * 2 % 256) (if bit_and test ch == 0 then res else suc res)

unfoldable pub setbitcount : ℕ → ℕ
unfolding count_bits
setbitcount ch = count_bits 8 ch 1 0

-- One turn of the loop; the lowest bit is clear when `temp` is set.
unfoldable pub add_bit : ℕ → ℕ → ℕ → ℕ → ℕ
unfolding setbitcount
add_bit index compress_int first second =
    compress_int * 2 % 2 ^ 32
    + (if leb (6 - index / 8) (setbitcount (bit_xor first second)) then 1 else 0)

-- The loop, over two vectors of one length.
unfoldable pub compress : ℕ → ℕ → List ℕ → List ℕ → ℕ
unfolding add_bit
compress index compress_int [] second = compress_int
compress index compress_int (x ∷ first) [] = compress_int
compress index compress_int (x ∷ first) (y ∷ second) =
    compress (suc index) (add_bit index compress_int x y) first second

unfoldable pub compare_bytes : List ℕ → List ℕ → Result ℕ
unfolding compress
compare_bytes first second =
    if length first == 0 || length second == 0
    then throw runtime_error
    else if not (length first == 32) || not (length second == 32)
    then throw runtime_error
    else ok (compress 0 0 first second)

unfoldable pub distance : List ℕ → List ℕ → Option (Result ℕ)
unfolding from_base58 compare_bytes
distance hash58_first hash58_second = do
  vec_first ← from_base58 hash58_first
  vec_second ← from_base58 hash58_second
  some (compare_bytes vec_first vec_second)
