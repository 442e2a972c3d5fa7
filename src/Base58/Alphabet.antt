-- ===== src/Base58/Alphabet.antt =====
-- src/libcryptoutility/cryptoutility.cpp: `pszBase58` and `mapBase58`.
use mesh_pp.Prelude.{
  ℕ, zero, suc, ◌<◌, ◌≡◌, ◌≢◌, refl, subst, Bool, true, false, not, ◌&&◌, ◌||◌, Option, none, some,
  List, ltb, ◌==◌, Option-cases, inl, inr, dec_lt, arith, get_elem?, length, lt-length,
}
use mesh_pp.Base58.Convert.{letter, digit, isspace, get, map_base58, bad, run, replicate}

abbrev is_some : Option ℕ → ℕ → Bool
is_some none d = false
is_some (some e) d = e == d

-- A digit's letter is looked up as the digit; it is no space, ends no text, and is '1' for zero only.
abbrev letter_test : ℕ → Bool
letter_test d =
    is_some (digit (letter d)) d
    && not (isspace (letter d))
    && not (letter d == 0)
    && (d == 0 || not (letter d == 49))

abbrev digit_test : ℕ → Bool
digit_test c = elim (digit c) [ none ↦ true | some d ↦ ltb d 58 && letter d == c ]

-- A test of every number that is counted down from a bound.
tested : (ℕ → Bool) → ℕ → Bool
tested f zero = true
tested f (suc n) = f n && tested f n

tested-lt : (f : ℕ → Bool) (bound i : ℕ) → tested f bound ≡ true → i < bound → f i ≡ true
unfolding tested
tested-lt f zero i e l = absurd (omega (arith, l))
tested-lt f (suc bound) i e l = elim (dec_lt i bound) [
  | yes q ↦ tested-lt f bound i (ground (arith, e)) q
  | no q ↦
      let top : bound ≡ i = omega (arith, l, q) in subst (λ t. f t ≡ true) top (ground (arith, e))
]

letters_tested : tested letter_test 58 ≡ true
unfolding tested letter digit isspace
letters_tested = refl

digits_tested : tested digit_test 256 ≡ true
unfolding tested letter digit isspace
digits_tested = refl

pub record IsLetter (d c : ℕ) : Type 0 where
  pub decoded : digit c ≡ some d
  pub no_space : isspace c ≡ false
  pub no_end : c ≢ 0
  pub one_is_zero : c ≡ 49 → d ≡ 0

pub letter-IsLetter : (d : ℕ) → d < 58 → IsLetter d (letter d)
letter-IsLetter d l =
    let t = tested-lt letter_test 58 d letters_tested l in
    elim (Option-cases (digit (letter d))) [
      | inl e ↦ absurd (ground (arith, t, e))
      | inr (x, e) ↦ record {
        decoded = ground (arith, t, e);
        no_space = ground (arith, t);
        no_end = λ z. ground (arith, t, z);
        one_is_zero = λ z. ground (arith, t, z);
      }
    ]

get-lt : (xs : List (Option ℕ)) (i : ℕ) {d : ℕ} → get xs i none ≡ some d → i < length xs
unfolding get
get-lt xs i e = elim (Option-cases (get_elem? xs i)) [
  | inl q ↦ absurd (ground (arith, e, q))
  | inr (x, q) ↦ lt-length xs i q
]

length-map_base58 : length map_base58 ≡ 256
unfolding map_base58 bad run replicate
length-map_base58 = refl

digit-lt : (c d : ℕ) → digit c ≡ some d → c < 256
unfolding digit
digit-lt c d e = omega (arith, get-lt map_base58 c e, length-map_base58)

pub digit_lem : (c d : ℕ) → digit c ≡ some d → (d < 58) × (letter d ≡ c)
digit_lem c d e = elim (dec_lt c 256) [
  | yes l ↦
      let t = tested-lt digit_test 256 c digits_tested l in
      (ground (arith, t, e), ground (arith, t, e))
  | no l ↦ absurd (l (digit-lt c d e))
]
