-- ===== src/KBucket/Distance.antt =====
-- src/kbucket/kbucket.hpp: `contact_actions`. A distance is a natural number of any size, and the
-- index of a distance is a `size_t`.
use native.Mathlib.Nat.{pow-zero, pow-suc, pow-le-pow_right}
use native.Mathlib.Numerals.{add-one}
use mesh_pp.Prelude.{
  ℕ, zero, suc, ◌+◌, ◌-◌, ◌/◌, ◌%◌, ◌^◌, ◌≤◌, ◌<◌, ◌≡◌, refl, ap, true, false, ltb, Bool-cases,
  dec_lt, inl, inr, arith,
}

-- The loop `for (; distance > zero(); distance /= two(), ++cnt);` with fuel for its rounds.
unfoldable pub count_halvings : ℕ → ℕ → ℕ
count_halvings zero distance = 0
count_halvings (suc fuel) distance = elim (ltb 0 distance) [
  | true ↦ suc (count_halvings fuel (distance / 2))
  | false ↦ 0
]

-- `return --cnt;` on a `size_t`. The distance itself is fuel enough.
unfoldable pub index_from_distance : ℕ → ℕ
index_from_distance distance = (count_halvings distance distance + (2 ^ 64 - 1)) % 2 ^ 64

count_halvings_zero : (fuel : ℕ) → count_halvings fuel 0 ≡ 0
unfolding count_halvings
count_halvings_zero zero = refl
count_halvings_zero (suc fuel) = refl

-- With enough fuel the loop counts the binary digits.
count_halvings_digits :
    (fuel d : ℕ)
    → d ≤ fuel
    → 0 < d
    → (h : ℕ) × (count_halvings fuel d ≡ suc h) × (2 ^ h ≤ d) × (d < 2 ^ suc h)
unfolding count_halvings
count_halvings_digits zero d l p = absurd (omega arith)
count_halvings_digits (suc fuel) d l p = elim (Bool-cases (ltb 1 d)) [
  | inr small ↦
      let one : d ≡ 1 = ground arith in
      let half : d / 2 ≡ 0 = omega arith in
      (
        0,
        ground (arith, ap (count_halvings fuel) half, count_halvings_zero fuel),
        omega (arith, pow-zero 2, one),
        omega (arith, pow-zero 2, pow-suc 2 0, one),
      )
  | inl large ↦
      let (h, e, lo, hi) = count_halvings_digits fuel (d / 2) (omega arith) (ground arith) in
      (
        suc h,
        ground (arith, e),
        omega (arith, pow-suc 2 h, lo),
        omega (arith, pow-suc 2 (suc h), hi),
      )
]

-- Of a distance that is not zero and fits a digest of 32 bytes, the index is the place of the
-- greatest binary digit, at most 255; the index of distance zero is the greatest `size_t`.
pub index_from_distance_digits :
    (index_from_distance 0 ≡ 2 ^ 64 - 1)
    × ((d : ℕ)
        → 0 < d
        → d < 2 ^ 256
        → (2 ^ index_from_distance d ≤ d)
          × (d < 2 ^ (index_from_distance d + 1))
          × (index_from_distance d < 256))
unfolding index_from_distance count_halvings
index_from_distance_digits = (refl, λ d p l. digits d p l)
  where
    digits :
        (d : ℕ)
        → 0 < d
        → d < 2 ^ 256
        → (2 ^ index_from_distance d ≤ d)
          × (d < 2 ^ (index_from_distance d + 1))
          × (index_from_distance d < 256)
    digits d p l =
        let (h, e, lo, hi) = count_halvings_digits d d (omega arith) p in
        let small : h < 256 = elim (dec_lt h 256) [
          | yes q ↦ q
          | no q ↦ absurd (
              omega (
                arith,
                l,
                lo,
                pow-le-pow_right {n = 2} (omega arith) {i = 256} {j = h} (omega (arith, q)),
              ))
        ] in
        let index : index_from_distance d ≡ h = omega (arith, e, small) in
        rw index (lo, omega (arith, hi, ap (λ (t : ℕ). 2 ^ t) (add-one h)), small)
