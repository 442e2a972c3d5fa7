-- ===== src/Keys/DistanceValue.antt =====
-- src/libcryptoutility/cryptoutility.cpp: what `distance` counts.
use Prim.Native.Nat.{bit_xor}
use native.Mathlib.Nat.{pow-zero, pow-suc, pow-le-pow_right}
use mesh_pp.Prelude.{
  ℕ, zero, suc, ◌+◌, ◌-◌, ◌*◌, ◌/◌, ◌%◌, ◌^◌, ◌<◌, ◌≡◌, refl, sym, ap, ◌∙◌, Bool, true, false, ◌&&◌,
  some, List, [], ◌∷◌, ◌==◌, leb, ltb, if◌then◌else◌, length, ok, throw, runtime_error, arith,
  Option-cases, inl, inr, ◌⊎◌, dec_lt,
}
use mesh_pp.Base58.Convert.{from_base58}
use mesh_pp.KBucket.Metric.{bit_xor_comm, bit_xor-byte}
use mesh_pp.Base58.Numeral.{IsDigits}
use mesh_pp.Base58.RoundTrip.{from_base58-IsDigits, from_base58_total}
use mesh_pp.Keys.Distance.{setbitcount, add_bit, compress, compare_bytes, distance}

-- How many of the lowest binary digits of a number are ones.
unfoldable pub ones : ℕ → ℕ → ℕ
ones zero z = 0
ones (suc digits) z = z % 2 + ones digits (z / 2)

-- How many bits of two bytes have to differ: one bit less for each further eight bytes.
abbrev pub limit : ℕ → ℕ
limit i = if ltb i 8 then 6 else if ltb i 16 then 5 else if ltb i 24 then 4 else 3

-- Which of the bytes are far from each other, from the byte `i` on.
unfoldable pub far_bytes : ℕ → List ℕ → List ℕ → List Bool
unfolding ones
far_bytes i [] ys = []
far_bytes i (x ∷ xs) [] = []
far_bytes i (x ∷ xs) (y ∷ ys) = leb (limit i) (ones 8 (bit_xor x y)) ∷ far_bytes (suc i) xs ys

-- The number with these binary digits, the highest one first.
unfoldable pub binary_value : List Bool → ℕ
binary_value [] = 0
binary_value (b ∷ bs) = (if b then 2 ^ length bs else 0) + binary_value bs

all_below : ℕ → (ℕ → Bool) → Bool
all_below zero f = true
all_below (suc n) f = f n && all_below n f

all_below_at : (n : ℕ) (f : ℕ → Bool) (i : ℕ) → all_below n f ≡ true → i < n → f i ≡ true
unfolding all_below
all_below_at zero f i e l = absurd (omega (arith, l))
all_below_at (suc n) f i e l = elim (dec_lt i n) [
  | yes q ↦ all_below_at n f i (ground (arith, e)) q
  | no q ↦ let same : n ≡ i = omega (arith, l, q) in ap f (sym same) ∙ ground (arith, e)
]

setbitcount-ones : (z : ℕ) → z < 256 → setbitcount z ≡ ones 8 z
unfolding all_below setbitcount ones
setbitcount-ones z l = ground (arith, all_below_at 256 (λ z. setbitcount z == ones 8 z) z all l)
  where
    all : all_below 256 (λ z. setbitcount z == ones 8 z) ≡ true
    all = refl

binary_value-lt : (bs : List Bool) → binary_value bs < 2 ^ length bs
unfolding binary_value
binary_value-lt [] = omega (arith, pow-zero 2)
binary_value-lt (true ∷ bs) = omega (arith, binary_value-lt bs, pow-suc 2 (length bs))
binary_value-lt (false ∷ bs) = omega (arith, binary_value-lt bs, pow-suc 2 (length bs))

length-far_bytes :
    (i : ℕ) (xs ys : List ℕ) → length xs ≡ length ys → length (far_bytes i xs ys) ≡ length xs
unfolding far_bytes
length-far_bytes i [] ys e = refl
length-far_bytes i (x ∷ xs) [] e = absurd (omega (arith, e))
length-far_bytes i (x ∷ xs) (y ∷ ys) e = ap suc (length-far_bytes (suc i) xs ys (omega (arith, e)))

-- A turn of the loop puts one more binary digit behind the number, which does not overflow.
add_bit_lem :
    (i c x y : ℕ)
    → i < 32
    → c < 2 ^ i
    → x < 256
    → y < 256
    → add_bit i c x y ≡ c * 2 + (if leb (limit i) (ones 8 (bit_xor x y)) then 1 else 0)
unfolding add_bit
add_bit_lem i c x y l h p q =
    let same = setbitcount-ones (bit_xor x y) (bit_xor-byte x y p q).0 in
    let weight : 6 - i / 8 ≡ limit i = ground (arith, l) in
    let small : c * 2 < 2 ^ 32 =
      omega
        (arith, h, pow-suc 2 i, pow-le-pow_right {n = 2} (omega arith) {i = suc i} {j = 32} l) in
    rw (same, weight)
      (ap (λ t. t + (if leb (limit i) (ones 8 (bit_xor x y)) then 1 else 0)) (omega (arith, small)))

compress_value :
    (i c : ℕ) (xs ys : List ℕ)
    → length xs ≡ length ys
    → i + length xs ≡ 32
    → c < 2 ^ i
    → IsDigits 256 xs
    → IsDigits 256 ys
    → compress i c xs ys ≡ c * 2 ^ length xs + binary_value (far_bytes i xs ys)
unfolding compress far_bytes binary_value
compress_value i c [] ys e n h p q = omega (arith, pow-zero 2)
compress_value i c (x ∷ xs) [] e n h p q = absurd (omega (arith, e))
compress_value i c (x ∷ xs) (y ∷ ys) e n h p q =
    let far = leb (limit i) (ones 8 (bit_xor x y)) in
    let step = add_bit_lem i c x y (omega (arith, n)) h p.0 q.0 in
    let next = add_bit i c x y in
    let below : next < 2 ^ suc i = ground (arith, step, h, pow-suc 2 i) in
    let rest =
      compress_value (suc i) next xs ys (omega (arith, e)) (omega (arith, n)) below p.1 q.1 in
    let size = length-far_bytes (suc i) xs ys (omega (arith, e)) in
    rest
    ∙ rw (size, step)
        (digit far (2 ^ length xs) (2 ^ suc (length xs)) (binary_value (far_bytes (suc i) xs ys))
          (pow-suc 2 (length xs)))
  where
    digit :
        (b : Bool) (m m' v : ℕ)
        → m' ≡ m * 2
        → (c * 2 + (if b then 1 else 0)) * m + v ≡ c * m' + ((if b then m else 0) + v)
    digit true m m' v e = rw e (omega arith)
    digit false m m' v e = rw e (omega arith)

compress_comm :
    (index c : ℕ) (xs ys : List ℕ)
    → IsDigits 256 xs
    → IsDigits 256 ys
    → compress index c xs ys ≡ compress index c ys xs
unfolding compress add_bit
compress_comm index c [] [] p q = refl
compress_comm index c [] (y ∷ ys) p q = refl
compress_comm index c (x ∷ xs) [] p q = refl
compress_comm index c (x ∷ xs) (y ∷ ys) p q =
    let same : add_bit index c x y ≡ add_bit index c y x =
      ap (λ t. c * 2 % 2 ^ 32 + (if leb (6 - index / 8) (setbitcount t) then 1 else 0))
        (bit_xor_comm x y p.0 q.0) in
    ap (λ t. compress (suc index) t xs ys) same
    ∙ compress_comm (suc index) (add_bit index c y x) xs ys p.1 q.1

compare_bytes_comm :
    (xs ys : List ℕ) → IsDigits 256 xs → IsDigits 256 ys → compare_bytes xs ys ≡ compare_bytes ys xs
unfolding compare_bytes
compare_bytes_comm xs ys p q = ground (arith, compress_comm 0 0 xs ys p q)

-- Two vectors of 32 bytes.
abbrev pub AreDigests : List ℕ → List ℕ → Type 0
AreDigests xs ys = (length xs ≡ 32) × (length ys ≡ 32)

compare_bytes_cases :
    (xs ys : List ℕ)
    → IsDigits 256 xs
    → IsDigits 256 ys
    → (AreDigests xs ys
        × (compare_bytes xs ys ≡ ok (binary_value (far_bytes 0 xs ys)))
        × (binary_value (far_bytes 0 xs ys) < 2 ^ 32))
      ⊎ (¬ AreDigests xs ys × (compare_bytes xs ys ≡ throw runtime_error))
unfolding compare_bytes
compare_bytes_cases xs ys p q = elim (dec_and (length xs == 32) (length ys == 32)) [
  | inl (a, b) ↦
      let l : length xs ≡ 32 = ground (arith, a) in
      let m : length ys ≡ 32 = ground (arith, b) in
      let counted =
        compress_value 0 0 xs ys (l ∙ sym m) (omega (arith, l)) (omega (arith, pow-zero 2)) p q in
      let size = length-far_bytes 0 xs ys (l ∙ sym m) ∙ l in
      inl ((l, m), ground (arith, a, b, counted), rw size at (binary_value-lt (far_bytes 0 xs ys)))
  | inr n ↦ inr (λ d. ground (arith, n, d.0, d.1), ground (arith, n))
]
  where
    dec_and : (a b : Bool) → ((a ≡ true) × (b ≡ true)) ⊎ ((a ≡ false) ⊎ (b ≡ false))
    dec_and true true = inl (refl, refl)
    dec_and false b = inr (inl refl)
    dec_and true false = inr (inr refl)

decodes : (str : List ℕ) → (bytes : List ℕ) × (from_base58 str ≡ some bytes) × IsDigits 256 bytes
decodes str = elim (Option-cases (from_base58 str)) [
  | inl e ↦ absurd (from_base58_total str e)
  | inr (bytes, e) ↦ (bytes, e, from_base58-IsDigits str bytes e)
]

-- Both texts decode. `distance` throws a `runtime_error` unless both decode to 32 bytes. It then
-- gives the number of 32 binary digits of which the first stands for the first bytes: a digit is
-- one where enough bits of the two bytes differ, 6 in the first eight bytes, then 5, 4 and 3 in
-- each eight that follow. The number is below 2^32, and the same for the texts exchanged.
pub distance_cases :
    (hash58_first hash58_second : List ℕ)
    → (distance hash58_first hash58_second ≡ distance hash58_second hash58_first)
      × (vec_first : List ℕ) × (vec_second : List ℕ) × (from_base58 hash58_first ≡ some vec_first)
      × (from_base58 hash58_second ≡ some vec_second)
      × ((AreDigests vec_first vec_second
            × (distance hash58_first hash58_second
                ≡ some (ok (binary_value (far_bytes 0 vec_first vec_second))))
            × (binary_value (far_bytes 0 vec_first vec_second) < 2 ^ 32))
          ⊎ (¬ AreDigests vec_first vec_second
              × (distance hash58_first hash58_second ≡ some (throw runtime_error))))
unfolding distance
distance_cases hash58_first hash58_second =
    let (xs, e, p) = decodes hash58_first in
    let (ys, f, q) = decodes hash58_second in
    (
      rw (e, f) (ap some (compare_bytes_comm xs ys p q)),
      xs,
      ys,
      e,
      f,
      elim (compare_bytes_cases xs ys p q) [
        | inl (d, a, l) ↦ inl (d, rw (e, f) (ap some a), l)
        | inr (n, a) ↦ inr (n, rw (e, f) (ap some a))
      ],
    )
