-- ===== src/KBucket/Metric.antt =====
-- src/kbucket/konnection.hpp: where `string_distance::operator-` is zero.
use Prim.Native.Nat.{bit_xor}
use native.Mathlib.Nat.{
  pow-zero, pow-suc, pow-le-pow_right, div-add-mod', div-div-eq-div-mul, add-mul-div_right,
  add-mul-mod_self_right, mod-lt, div-eq_of_lt, mod-eq_of_lt, zero-mod,
}
use mathlib.Core.Path.{ap₂}
use mesh_pp.Prelude.{
  ℕ, zero, suc, ◌+◌, ◌-◌, ◌*◌, ◌/◌, ◌%◌, ◌^◌, ◌≤◌, ◌<◌, ◌≡◌, ◌↔◌, refl, sym, ap, ◌∙◌, subst, Bool,
  true, not, ◌&&◌, ◌||◌, ltb, leb, ◌==◌, if◌then◌else◌, Bool-cases, inl, inr, dec_lt, arith,
}
use mesh_pp.KBucket.Kontakt.{
  get_byte, set_byte, count_bytes, byte_count, read_byte, xor_bytes, subtract,
}

power_pos : (i : ℕ) → 0 < 256 ^ i
power_pos zero = omega (arith, pow-zero 256)
power_pos (suc i) = omega (arith, pow-suc 256 i, power_pos i)

-- The digits below a place and the digit there.
mod-mul_digit : (a p : ℕ) → a % (p * 256) ≡ a % p + a / p % 256 * p
mod-mul_digit a p = omega (
  arith,
  div-add-mod' a (p * 256),
  div-add-mod' a p,
  ap (λ (t : ℕ). t * p) (div-add-mod' (a / p) 256),
  ap (λ (t : ℕ). t * (p * 256)) (div-div-eq-div-mul a p 256),
)

-- What a byte that is written leaves at its place and below.
set_byte_parts :
    (r i b : ℕ)
    → (set_byte r i b / 256 ^ i ≡ r / 256 ^ i / 256 * 256 + b)
      × (set_byte r i b % 256 ^ i ≡ r % 256 ^ i)
set_byte_parts r i b = go (256 ^ i) (power_pos i)
  where
    go :
        (p : ℕ)
        → 0 < p
        → ((r - r / p % 256 * p + b * p) / p ≡ r / p / 256 * 256 + b)
          × ((r - r / p % 256 * p + b * p) % p ≡ r % p)
    go p h =
        let e : r - r / p % 256 * p + b * p ≡ r % p + (r / p / 256 * 256 + b) * p =
          omega (arith, div-add-mod' r p, ap (λ (t : ℕ). t * p) (div-add-mod' (r / p) 256)) in
        (
          rw (e, add-mul-div_right (r % p) (r / p / 256 * 256 + b) h)
              (omega (arith, div-eq_of_lt (mod-lt r h))),
          rw (e, add-mul-mod_self_right (r % p) (r / p / 256 * 256 + b) p)
              (mod-eq_of_lt (mod-lt r h)),
        )

count_bytes-lt : (fuel v : ℕ) → v ≤ fuel → v < 256 ^ count_bytes fuel v
unfolding count_bytes
count_bytes-lt zero v h = omega (arith, pow-zero 256)
count_bytes-lt (suc fuel) v h = elim (Bool-cases (ltb 0 v)) [
  | inl more ↦
      rw (more, count_bytes)
        (omega (
          arith,
          count_bytes-lt fuel (v / 256) (omega arith),
          pow-suc 256 (count_bytes fuel (v / 256)),
        ))
  | inr done ↦ rw (done, count_bytes) (ground (arith, pow-zero 256))
]

read_byte-get_byte : (v i : ℕ) → read_byte (byte_count v) v i ≡ get_byte v i
unfolding read_byte byte_count
read_byte-get_byte v i = elim (Bool-cases (leb i (count_bytes v v))) [
  | inl e ↦ rw e
  | inr e ↦
      let low : v < 256 ^ i = omega (
        arith,
        count_bytes-lt v v (omega arith),
        pow-le-pow_right {n = 256} (omega arith) {i = count_bytes v v} {j = i} (ground arith),
      ) in
      rw (e, div-eq_of_lt low)
]

-- The operation on two bytes gives a byte, which is zero only where they are equal.
abbrev byte_test : ℕ → ℕ → Bool
byte_test x y =
    ltb (bit_xor x y) 256 && (x == y || not (bit_xor x y == 0)) && bit_xor x y == bit_xor y x

test_row : ℕ → ℕ → Bool
test_row x zero = true
test_row x (suc width) = test_row x width && byte_test x width

test_table : ℕ → Bool
test_table zero = true
test_table (suc height) = test_table height && test_row height 256

byte_test_row : (x width y : ℕ) → y < width → test_row x width ≡ true → byte_test x y ≡ true
unfolding test_row
byte_test_row x zero y l e = absurd (omega (arith, l))
byte_test_row x (suc width) y l e = elim (dec_lt y width) [
  | yes q ↦ byte_test_row x width y q (ground (arith, e))
  | no q ↦
      let last : width ≡ y = omega (arith, l, q) in
      subst (λ (t : ℕ). byte_test x t ≡ true) last (ground (arith, e))
]

test_row_table : (height x : ℕ) → x < height → test_table height ≡ true → test_row x 256 ≡ true
unfolding test_table
test_row_table zero x l e = absurd (omega (arith, l))
test_row_table (suc height) x l e = elim (dec_lt x height) [
  | yes q ↦ test_row_table height x q (ground (arith, e))
  | no q ↦
      let last : height ≡ x = omega (arith, l, q) in
      subst (λ (t : ℕ). test_row t 256 ≡ true) last (ground (arith, e))
]

whole_table : test_table 256 ≡ true
unfolding test_table test_row
whole_table = refl

pub bit_xor-byte : (x y : ℕ) → x < 256 → y < 256 → (bit_xor x y < 256) × (bit_xor x y ≡ 0 → x ≡ y)
bit_xor-byte x y p q =
    let cell = byte_test_row x 256 y q (test_row_table 256 x p whole_table) in
    (ground (arith, cell), λ e. ground (arith, cell, e))

pub bit_xor_comm : (x y : ℕ) → x < 256 → y < 256 → bit_xor x y ≡ bit_xor y x
bit_xor_comm x y p q =
    let cell = byte_test_row x 256 y q (test_row_table 256 x p whole_table) in ground (arith, cell)

module _ (a b : ℕ) where
  -- The byte that the loop writes at an index.
  abbrev xor_byte : ℕ → ℕ
  xor_byte i = bit_xor (read_byte (byte_count a) a i) (read_byte (byte_count b) b i)

  xor_byte-lt : (i : ℕ) → xor_byte i < 256
  xor_byte-lt i =
      rw (read_byte-get_byte a i, read_byte-get_byte b i)
        (bit_xor-byte (get_byte a i) (get_byte b i) (omega arith) (omega arith)).0

  -- Below an index the bytes are those of the loop; from the index on they are the first ones.
  record Written (start k r : ℕ) : Type 0 where
    above : r / 256 ^ k ≡ start / 256 ^ k
    below : r % 256 ^ k ≡ 0 → (i : ℕ) → i < k → xor_byte i ≡ 0

  Written-set_byte :
      (start k r : ℕ) → Written start k r → Written start (suc k) (set_byte r k (xor_byte k))
  Written-set_byte start k r w = record {
    above = rw (pow-suc 256 k) (
        sym (div-div-eq-div-mul r' (256 ^ k) 256)
        ∙ omega (arith, parts.0, x_lt, w.above)
        ∙ div-div-eq-div-mul start (256 ^ k) 256);
    below = rw (pow-suc 256 k) λ e i l.
        let zeros =
          split (xor_byte k) (256 ^ k) (r % 256 ^ k) (power_pos k)
            (omega (arith, e, mod-mul_digit r' (256 ^ k), parts.1, digit)) in
        elim (dec_lt i k) [
          | yes q ↦ w.below zeros.1 i q
          | no q ↦ subst (λ (t : ℕ). xor_byte t ≡ 0) (omega (arith, l, q)) zeros.0
        ];
  }
    where
      r' : ℕ
      r' = set_byte r k (xor_byte k)

      parts : (r' / 256 ^ k ≡ r / 256 ^ k / 256 * 256 + xor_byte k) × (r' % 256 ^ k ≡ r % 256 ^ k)
      parts = set_byte_parts r k (xor_byte k)

      x_lt : xor_byte k < 256
      x_lt = xor_byte-lt k

      digit : r' / 256 ^ k % 256 * 256 ^ k ≡ xor_byte k * 256 ^ k
      digit = ap (λ (t : ℕ). t * 256 ^ k) (omega (arith, parts.0, x_lt))

      split : (x p low : ℕ) → 0 < p → low + x * p ≡ 0 → (x ≡ 0) × (low ≡ 0)
      split zero p low h e = (refl, omega (arith, e))
      split (suc x) p low h e = absurd (omega (arith, e, h))

  Written-xor_bytes :
      (start rounds k r : ℕ)
      → Written start k r
      → Written start (k + rounds) (xor_bytes rounds k a b r)
  unfolding xor_bytes
  Written-xor_bytes start zero k r w = subst (λ (t : ℕ). Written start t r) (omega arith) w
  Written-xor_bytes start (suc rounds) k r w =
      subst (λ (t : ℕ). Written start t (xor_bytes (suc rounds) k a b r)) (omega arith)
        (Written-xor_bytes start rounds (suc k) (set_byte r k (xor_byte k))
          (Written-set_byte start k r w))

  equal_bytes :
      (k : ℕ) → ((i : ℕ) → i < k → get_byte a i ≡ get_byte b i) → a % 256 ^ k ≡ b % 256 ^ k
  equal_bytes zero f = omega (arith, pow-zero 256)
  equal_bytes (suc k) f = rw (pow-suc 256 k) (
      mod-mul_digit a (256 ^ k)
      ∙ omega (
        arith,
        equal_bytes k (λ i l. f i (omega (arith, l))),
        ap (λ (t : ℕ). t * 256 ^ k) (f k (omega arith)),
      )
      ∙ sym (mod-mul_digit b (256 ^ k)))

  -- The loop ends in zero only for equal numbers that fit its rounds.
  xor_bytes-zero :
      (size start : ℕ)
      → a < 256 ^ size
      → b < 256 ^ size
      → start < 256 ^ size
      → xor_bytes size 0 a b start ≡ 0
      → a ≡ b
  xor_bytes-zero size start la lb ls e =
      let w =
        Written-xor_bytes start size 0 start
          (record { above = refl; below = λ q i l. absurd (omega (arith, l)) }) in
      sym (mod-eq_of_lt la) ∙ equal_bytes size (λ i l. same w i l) ∙ mod-eq_of_lt lb
    where
      same :
          Written start (0 + size) (xor_bytes size 0 a b start)
          → (i : ℕ) → i < size
          → get_byte a i ≡ get_byte b i
      same w i l = (bit_xor-byte (get_byte a i) (get_byte b i) (omega arith) (omega arith)).1 (
          ap₂ bit_xor (sym (read_byte-get_byte a i)) (sym (read_byte-get_byte b i))
          ∙ w.below (rw e (zero-mod (256 ^ (0 + size)))) i (omega (arith, l)))

byte_count-lt : (v size : ℕ) → byte_count v ≤ size → v < 256 ^ size
unfolding byte_count
byte_count-lt v size h = omega (
  arith,
  count_bytes-lt v v (omega arith),
  pow-le-pow_right {n = 256} (omega arith) {i = count_bytes v v} {j = size} h,
)

-- The difference of two distances is zero exactly where they are equal.
pub subtract-eq-zero_iff : (a b : ℕ) → (subtract a b ≡ 0) ↔ (a ≡ b)
unfolding subtract
subtract-eq-zero_iff a b = elim (Bool-cases (a == b)) [
  | inl e ↦ rw e (λ _. ground (arith, e), λ _. refl)
  | inr n ↦ rw n (
    λ z. xor_bytes-zero a b size (if ltb a b then b else a) la lb (ground (arith, la, lb)) z,
    λ q. absurd (ground (arith, n, q)),
  )
]
  where
    size : ℕ
    size = if leb (byte_count b) (byte_count a) then byte_count a else byte_count b

    la : a < 256 ^ size
    la = byte_count-lt a size (ground arith)

    lb : b < 256 ^ size
    lb = byte_count-lt b size (ground arith)
