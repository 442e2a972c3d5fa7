-- ===== src/Base58/RoundTrip.antt =====
-- src/libcryptoutility/cryptoutility.cpp: `to_base58` and `detail::from_base58`, one after the other.
use mesh_pp.Prelude.{
  ℕ, zero, suc, ◌<◌, ◌≡◌, ◌≢◌, refl, sym, ap, ◌∙◌, subst, none, some, List, [], ◌∷◌, ◌++◌, inl, inr,
  arith, ◌>>=◌,
}
use mesh_pp.Base58.Convert.{from_base58, to_base58, count_leading, replicate, to_letters}
use mesh_pp.Base58.Numeral.{value, value_injective, IsDigits, IsLeading}
use mesh_pp.Base58.Encode.{
  to_base58-IsNumeral, count_leading_lem, IsOther, value-zeroes, All-append_right,
}
use mesh_pp.Base58.Reads.{from_base58-Decoded, ReadsAs}
use mathlib.Core.Option.{some-injective}
use mesh_pp.Base58.Decode.{from_base58-to_letters}

IsOther-IsLeading : (xs : List ℕ) → IsOther 0 xs → IsLeading xs
IsOther-IsLeading [] o = tt
IsOther-IsLeading (x ∷ xs) o = ground (arith, o)

-- Bytes that `to_base58` writes are read back by `from_base58`; both return, so neither assertion
-- fails.
pub from_base58-to_base58 :
    (raw_str : List ℕ) → IsDigits 256 raw_str → (to_base58 raw_str >>= from_base58) ≡ some raw_str
from_base58-to_base58 raw_str p =
    let (zeroes, bytes) = count_leading 0 raw_str in
    let (split, other) = count_leading_lem 0 raw_str in
    let (ds, e, n) = to_base58-IsNumeral raw_str p in
    let (bytes', q, m) = from_base58-to_letters zeroes ds n.digits n.leading in
    let same : value 256 0 bytes' ≡ value 256 0 bytes =
      m.number_is ∙ n.number_is ∙ ap (value 256 0) split ∙ value-zeroes 256 zeroes bytes in
    let back : bytes' ≡ bytes =
      value_injective 256 bytes' bytes (omega arith) m.digits
        (All-append_right (λ d. d < 256) (replicate zeroes 0) bytes (subst (IsDigits 256) split p))
        m.leading (IsOther-IsLeading bytes other) same in
    rw e (q ∙ ap (λ t. some (replicate zeroes 0 ++ t)) back ∙ ap some (sym split))

count_leading-zeroes :
    (zeroes : ℕ) (bytes : List ℕ)
    → IsLeading bytes
    → count_leading 0 (replicate zeroes 0 ++ bytes) ≡ (zeroes, bytes)
unfolding count_leading replicate
count_leading-zeroes (suc zeroes) bytes l = rw (count_leading-zeroes zeroes bytes l) refl
count_leading-zeroes zero [] l = refl
count_leading-zeroes zero (b ∷ bytes) l = ground (arith, l)

zeroes-IsDigits :
    (zeroes : ℕ) (bytes : List ℕ) → IsDigits 256 bytes → IsDigits 256 (replicate zeroes 0 ++ bytes)
unfolding replicate
zeroes-IsDigits zero bytes p = p
zeroes-IsDigits (suc zeroes) bytes p = (omega arith, zeroes-IsDigits zeroes bytes p)

pub from_base58_total : (str : List ℕ) → from_base58 str ≢ none
from_base58_total str e = elim (from_base58-Decoded str) [
  | inl q ↦ absurd (ground (arith, e, q))
  | inr d ↦ absurd (ground (arith, e, d.decoded))
]

pub from_base58-IsDigits : (str bytes : List ℕ) → from_base58 str ≡ some bytes → IsDigits 256 bytes
from_base58-IsDigits str bytes e = elim (from_base58-Decoded str) [
  | inl q ↦ subst (IsDigits 256) (some-injective [] bytes (sym q ∙ e)) tt
  | inr d ↦
      subst (IsDigits 256)
        (some-injective (replicate d.zeroes 0 ++ d.bytes) bytes (sym d.decoded ∙ e))
        (zeroes-IsDigits d.zeroes d.bytes d.numeral.digits)
]

-- The bytes of a text are written as the text, without the spaces around it.
pub to_base58-from_base58 :
    (str bytes : List ℕ)
    → from_base58 str ≡ some bytes
    → bytes ≢ []
    → (word : List ℕ) × (to_base58 bytes ≡ some word) × ReadsAs str word
to_base58-from_base58 str bytes e n = elim (from_base58-Decoded str) [
  | inl q ↦ absurd (n (some-injective bytes [] (sym e ∙ q)))
  | inr d ↦
      let found : bytes ≡ replicate d.zeroes 0 ++ d.bytes =
        some-injective bytes (replicate d.zeroes 0 ++ d.bytes) (sym e ∙ d.decoded) in
      let (ds, q, m) =
        to_base58-IsNumeral (replicate d.zeroes 0 ++ d.bytes)
          (zeroes-IsDigits d.zeroes d.bytes d.numeral.digits) in
      let same : value 58 0 ds ≡ value 58 0 d.ds =
        m.number_is ∙ value-zeroes 256 d.zeroes d.bytes ∙ d.numeral.number_is in
      let back : ds ≡ d.ds =
        value_injective 58 ds d.ds (omega arith) m.digits d.digits m.leading d.leading same in
      let counted : (count_leading 0 (replicate d.zeroes 0 ++ d.bytes)).0 ≡ d.zeroes =
        ap (λ t. t.0) (count_leading-zeroes d.zeroes d.bytes d.numeral.leading) in
      (
        replicate d.zeroes 49 ++ to_letters d.ds,
        ap to_base58 found
            ∙ q
            ∙ ap (λ t. some (replicate t 49 ++ to_letters ds)) counted
            ∙ ap (λ t. some (replicate d.zeroes 49 ++ to_letters t)) back,
        d.is_text,
      )
]
