-- ===== src/Base58/Encode.antt =====
-- src/libcryptoutility/cryptoutility.cpp: `to_base58` and the number that its digits stand for.
use native.Mathlib.Nat.{pow-le-pow_right}
use mesh_pp.Prelude.{
  ℕ, zero, suc, ◌+◌, ◌*◌, ◌^◌, ◌<◌, ◌≤◌, ◌≡◌, ◌≢◌, refl, sym, ap, ◌∙◌, subst, some, List, [], ◌∷◌,
  ◌++◌, ◌==◌, Bool-cases, inl, inr, arith, length, All, length-append,
}
use mesh_pp.Base58.Convert.{
  to_base58, count_leading, significant, to_letters, replicate, b58_size, take, reverse,
}
use mesh_pp.Base58.Numeral.{
  value, IsDigits, IsLeading, value-skip_zeros, value-reverse, skip_zeros-IsLeading, All-skip_zeros,
  All-reverse_onto, All-take,
}
use mesh_pp.Base58.Carry.{IsBuffer, absorb_all-IsBuffer, replicate-IsBuffer, low_value-take}
use mesh_pp.Base58.Size.{pow-lt_b58_size, value-lt}

-- No leading byte is the one that was counted.
abbrev pub IsOther : ℕ → List ℕ → Type 0
IsOther c [] = Unit
IsOther c (x ∷ xs) = x ≢ c

pub count_leading_lem :
    (c : ℕ) (xs : List ℕ)
    → let after = count_leading c xs in (xs ≡ replicate after.0 c ++ after.1) × IsOther c after.1
unfolding count_leading replicate
count_leading_lem c [] = (refl, tt)
count_leading_lem c (x ∷ xs) =
    let rest = count_leading_lem c xs in
    elim (Bool-cases (x == c)) [
      | inl e ↦
          let same : x ≡ c = ground (arith, e) in rw e (rw same (ap (λ t. c ∷ t) rest.0), rest.1)
      | inr e ↦ rw e (refl, ground (arith, e))
    ]

pub value-zeroes : (base n : ℕ) (xs : List ℕ) → value base 0 (replicate n 0 ++ xs) ≡ value base 0 xs
unfolding replicate
value-zeroes base zero xs = refl
value-zeroes base (suc n) xs =
    let z : 0 * base + 0 ≡ 0 = omega arith in
    ap (λ t. value base t (replicate n 0 ++ xs)) z ∙ value-zeroes base n xs

pub All-append_right : (P : ℕ → Type 0) (xs ys : List ℕ) → All P (xs ++ ys) → All P ys
All-append_right P [] ys a = a
All-append_right P (x ∷ xs) ys a = All-append_right P xs ys a.1

-- The digits that are read off a buffer.
pub record IsNumeral (base number : ℕ) (ds : List ℕ) : Type 0 where
  pub number_is : value base 0 ds ≡ number
  pub digits : IsDigits base ds
  pub leading : IsLeading ds

pub significant-IsNumeral :
    (to v n : ℕ) (state : List ℕ × ℕ) → IsBuffer to v n state → IsNumeral to v (significant state)
unfolding significant
significant-IsNumeral to v n (buffer, len) b = record {
  number_is =
      value-skip_zeros to (reverse (take len buffer))
      ∙ value-reverse to (take len buffer)
      ∙ low_value-take to len buffer b.zeroes
      ∙ b.holds;
  digits =
      All-skip_zeros (λ d. d < to) (reverse (take len buffer))
        (All-reverse_onto (λ d. d < to) (take len buffer) []
          (All-take (λ d. d < to) len buffer b.digits) tt);
  leading = skip_zeros-IsLeading (reverse (take len buffer));
}

-- The text that `to_base58` gives for bytes is one letter '1' for each leading zero, and then the
-- letters of the digits, to the base 58 and without leading zeroes, of the number that the bytes
-- stand for. The size of the buffer is enough, and the assertion holds.
pub to_base58-IsNumeral :
    (raw_str : List ℕ)
    → IsDigits 256 raw_str
    → (ds : List ℕ) × (to_base58 raw_str
        ≡ some (replicate (count_leading 0 raw_str).0 49 ++ to_letters ds))
      × IsNumeral 58 (value 256 0 raw_str) ds
unfolding to_base58
to_base58-IsNumeral raw_str p =
    let (zeroes, bytes) = count_leading 0 raw_str in
    let split : raw_str ≡ replicate zeroes 0 ++ bytes = (count_leading_lem 0 raw_str).0 in
    let p' : IsDigits 256 bytes =
      All-append_right (λ d. d < 256) (replicate zeroes 0) bytes (subst (IsDigits 256) split p) in
    let same : value 256 0 bytes ≡ value 256 0 raw_str =
      sym (value-zeroes 256 zeroes bytes) ∙ ap (value 256 0) (sym split) in
    let shorter : length bytes ≤ length raw_str =
      omega (arith, ap length split, length-append (replicate zeroes 0) bytes) in
    let more : 256 ^ length bytes ≤ 256 ^ length raw_str =
      pow-le-pow_right {n = 256} (omega arith) {i = length bytes} {j = length raw_str} shorter in
    let (state, e, b) =
      absorb_all-IsBuffer 256 58 (omega arith) bytes 0 (b58_size (length raw_str))
        (replicate (b58_size (length raw_str)) 0, 0) (omega arith)
        (replicate-IsBuffer 256 58 (omega arith) (b58_size (length raw_str)))
        (omega (arith, value-lt 256 0 bytes p', more, pow-lt_b58_size (length raw_str))) in
    (
      significant state,
      rw e refl,
      subst (λ t. IsNumeral 58 t (significant state)) same
          (significant-IsNumeral 58 (value 256 0 bytes) (b58_size (length raw_str)) state b),
    )
