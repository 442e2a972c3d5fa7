-- ===== src/Base58/Decode.antt =====
-- src/libcryptoutility/cryptoutility.cpp: `detail::from_base58` and the text that it reads.
use mesh_pp.Prelude.{
  ℕ, zero, suc, ◌+◌, ◌*◌, ◌^◌, ◌<◌, ◌≡◌, ◌≢◌, refl, ap, ◌∙◌, subst, false, some, List, [], ◌∷◌,
  ◌++◌, arith, length, All,
}
use mesh_pp.Base58.Convert.{
  from_base58, decode, finish, if_ended, count_leading, significant, to_letters, replicate,
  b256_size, letter, isspace, skip_spaces, c_str, read_digits, stopped,
}
use mesh_pp.Base58.Numeral.{value, IsDigits, IsLeading}
use mesh_pp.Base58.Carry.{IsBuffer, value-le, absorb_digit-IsBuffer, replicate-IsBuffer}
use mesh_pp.Base58.Size.{pow-lt_b256_size, value-lt}
use mesh_pp.Base58.Alphabet.{letter-IsLetter}
use mesh_pp.Base58.Encode.{IsNumeral, significant-IsNumeral}

abbrev pub Buffer : ℕ → ℕ → List ℕ × ℕ → Type 0
Buffer v n state = IsBuffer 256 v n state

read_digits-to_letters :
    (ds : List ℕ) (v n : ℕ) (state : List ℕ × ℕ)
    → IsDigits 58 ds
    → Buffer v n state
    → value 58 v ds < 256 ^ n
    → (state' : List ℕ × ℕ) × (read_digits (to_letters ds) state ≡ stopped state' [])
      × Buffer (value 58 v ds) n state'
unfolding read_digits to_letters
read_digits-to_letters [] v n state p b l = (state, refl, b)
read_digits-to_letters (d ∷ ds) v n state p b l =
    let good = letter-IsLetter d p.0 in
    let swap : d + 58 * v ≡ v * 58 + d = omega arith in
    let (next, r, b') =
      absorb_digit-IsBuffer 58 256 (omega arith) v n d state b
        (omega (arith, l, value-le 58 (v * 58 + d) ds (omega arith))) in
    let (state', u, b'') =
      read_digits-to_letters ds (v * 58 + d) n next p.1 (subst (λ t. Buffer t n next) swap b') l in
    (state', rw (good.no_space, good.decoded, r) u, b'')

-- The text of a number has neither the terminating zero nor spaces.
abbrev IsPlain : ℕ → Type 0
IsPlain c = (c ≢ 0) × (isspace c ≡ false)

c_str-plain : (cs : List ℕ) → All IsPlain cs → c_str cs ≡ cs
unfolding c_str
c_str-plain [] a = refl
c_str-plain (c ∷ cs) a = ground (arith, a.0.0, c_str-plain cs a.1)

skip_spaces-plain : (cs : List ℕ) → All IsPlain cs → skip_spaces cs ≡ cs
unfolding skip_spaces
skip_spaces-plain [] a = refl
skip_spaces-plain (c ∷ cs) a = rw a.0.1 refl

to_letters-IsPlain :
    (zeroes : ℕ) (ds : List ℕ) → IsDigits 58 ds → All IsPlain (replicate zeroes 49 ++ to_letters ds)
unfolding replicate to_letters isspace
to_letters-IsPlain (suc zeroes) ds p = ((ground arith, refl), to_letters-IsPlain zeroes ds p)
to_letters-IsPlain zero [] p = tt
to_letters-IsPlain zero (d ∷ ds) p =
    let good = letter-IsLetter d p.0 in
    ((good.no_end, good.no_space), to_letters-IsPlain zero ds p.1)

count_leading-ones :
    (zeroes : ℕ) (ds : List ℕ)
    → IsDigits 58 ds
    → IsLeading ds
    → count_leading 49 (replicate zeroes 49 ++ to_letters ds) ≡ (zeroes, to_letters ds)
unfolding count_leading replicate to_letters
count_leading-ones (suc zeroes) ds p l = rw (count_leading-ones zeroes ds p l) refl
count_leading-ones zero [] p l = refl
count_leading-ones zero (d ∷ ds) p l =
    let good = letter-IsLetter d p.0 in
    let n : letter d ≢ 49 = λ z. omega (arith, good.one_is_zero z, l) in ground (arith, n)

length-to_letters : (ds : List ℕ) → length (to_letters ds) ≡ length ds
unfolding to_letters
length-to_letters [] = refl
length-to_letters (d ∷ ds) = ap suc (length-to_letters ds)

pub from_base58-to_letters :
    (zeroes : ℕ) (ds : List ℕ)
    → IsDigits 58 ds
    → IsLeading ds
    → (bytes : List ℕ) × (from_base58 (replicate zeroes 49 ++ to_letters ds)
        ≡ some (replicate zeroes 0 ++ bytes))
      × IsNumeral 256 (value 58 0 ds) bytes
unfolding from_base58 decode finish skip_spaces if_ended
from_base58-to_letters zeroes ds p l =
    let plain = to_letters-IsPlain zeroes ds p in
    let text = replicate zeroes 49 ++ to_letters ds in
    let size = b256_size (length (to_letters ds)) in
    let e : count_leading 49 (skip_spaces (c_str text)) ≡ (zeroes, to_letters ds) =
      rw (c_str-plain text plain, skip_spaces-plain text plain)
        (count_leading-ones zeroes ds p l) in
    let bound : value 58 0 ds < 256 ^ size =
      rw (length-to_letters ds) (omega (arith, value-lt 58 0 ds p, pow-lt_b256_size (length ds))) in
    let (state, u, b) =
      read_digits-to_letters ds 0 size (replicate size 0, 0) p
        (replicate-IsBuffer 58 256 (omega arith) size) bound in
    let finished : decode (zeroes, to_letters ds) ≡ some (replicate zeroes 0 ++ significant state) =
      ap (finish zeroes) u in
    (
      significant state,
      ap decode e ∙ finished,
      significant-IsNumeral 256 (value 58 0 ds) size state b,
    )
