-- ===== src/Base58/Size.antt =====
-- src/libcryptoutility/cryptoutility.cpp: the sizes of the buffers of both conversions.
use native.Mathlib.Nat.{
  mul-pos, mul-le-mul_right, pow-zero, pow-suc, pow-le-pow_left, pow-le-pow_right,
}
use mesh_pp.Prelude.{
  ℕ, zero, suc, ◌+◌, ◌*◌, ◌^◌, ◌≤◌, ◌<◌, ◌≡◌, ◌≢◌, refl, sym, ap, ◌∙◌, List, [], ◌∷◌, length, arith,
  dec_lt,
}
use mesh_pp.Base58.Convert.{b58_size, b256_size}
use mesh_pp.Base58.Numeral.{value, IsDigits}

pow-add : (b m n : ℕ) → b ^ (m + n) ≡ b ^ m * b ^ n
pow-add b m zero = rw (pow-zero b) (let e : m + 0 ≡ m = omega arith in rw e (omega arith))
pow-add b m (suc n) =
    let e : m + suc n ≡ suc (m + n) = omega arith in
    rw (e, pow-suc b (m + n), pow-suc b n, pow-add b m n) (omega arith)

pow-pow : (b m n : ℕ) → (b ^ m) ^ n ≡ b ^ (m * n)
pow-pow b m zero = let e : m * 0 ≡ 0 = omega arith in rw (e, pow-zero (b ^ m), pow-zero b) refl
pow-pow b m (suc n) =
    let e : m * suc n ≡ m * n + m = omega arith in
    rw (e, pow-suc (b ^ m) n, pow-pow b m n, pow-add b (m * n) m) refl

pub pow_pos : (b n : ℕ) → 0 < b → 0 < b ^ n
pow_pos b zero p = omega (arith, pow-zero b)
pow_pos b (suc n) p = rw (pow-suc b n) (mul-pos (pow_pos b n p) p)

pow-lt-pow_right : (b m n : ℕ) → 1 < b → m < n → b ^ m < b ^ n
pow-lt-pow_right b m n p l =
    let more : b ^ suc m ≤ b ^ n =
      pow-le-pow_right {n = b} (omega arith) {i = suc m} {j = n} (omega arith) in
    let double : 2 * b ^ m ≤ b * b ^ m = mul-le-mul_right (b ^ m) p in
    omega (arith, more, double, pow-suc b m, pow_pos b m (omega arith))

-- A power fits the greater number of places of the other base, when their ratio is at least that of
-- the logarithms, which `from ^ q ≤ to ^ p` says.
pow-lt_of_ratio :
    (from to p q n s : ℕ) → 1 < to → q ≢ 0 → from ^ q ≤ to ^ p → p * n < q * s → from ^ n < to ^ s
pow-lt_of_ratio from to p q n s t z h l = elim (dec_lt (from ^ n) (to ^ s)) [
  | yes r ↦ r
  | no r ↦
      let turned : (to ^ s) ^ q ≤ (from ^ n) ^ q = pow-le-pow_left (omega (arith, r)) q in
      let below : (from ^ q) ^ n ≤ (to ^ p) ^ n = pow-le-pow_left h n in
      let swap : n * q ≡ q * n = omega arith in
      let same : (from ^ n) ^ q ≡ (from ^ q) ^ n =
        pow-pow from n q ∙ ap (λ t. from ^ t) swap ∙ sym (pow-pow from q n) in
      let swap' : s * q ≡ q * s = omega arith in
      let left : (to ^ s) ^ q ≡ to ^ (q * s) = pow-pow to s q ∙ ap (λ t. to ^ t) swap' in
      let strict : to ^ (p * n) < to ^ (q * s) = pow-lt-pow_right to (p * n) (q * s) t l in
      absurd (omega (arith, turned, below, same, left, pow-pow to p n, strict))
]

fits_58 : 256 ^ 100 ≤ 58 ^ 138
fits_58 = omega arith

fits_256 : 58 ^ 1000 ≤ 256 ^ 733
fits_256 = omega arith

pub pow-lt_b58_size : (n : ℕ) → 256 ^ n < 58 ^ b58_size n
pow-lt_b58_size n =
    pow-lt_of_ratio 256 58 138 100 n (b58_size n) (omega arith) (λ e. absurd (omega (arith, e)))
      fits_58 (omega arith)

pub pow-lt_b256_size : (n : ℕ) → 58 ^ n < 256 ^ b256_size n
pow-lt_b256_size n =
    pow-lt_of_ratio 58 256 733 1000 n (b256_size n) (omega arith) (λ e. absurd (omega (arith, e)))
      fits_256 (omega arith)

pub value-lt :
    (base acc : ℕ) (xs : List ℕ)
    → IsDigits base xs
    → value base acc xs < (acc + 1) * base ^ length xs
value-lt base acc [] p = let one : base ^ 0 ≡ 1 = pow-zero base in rw one (omega arith)
value-lt base acc (x ∷ xs) p =
    let power : base ^ length (x ∷ xs) ≡ base ^ length xs * base = pow-suc base (length xs) in
    let wider : (acc * base + x + 1) * base ^ length xs ≤ (acc + 1) * base * base ^ length xs =
      mul-le-mul_right (base ^ length xs) (omega (arith, p.0)) in
    rw power (omega (arith, wider, value-lt base (acc * base + x) xs p.1))
