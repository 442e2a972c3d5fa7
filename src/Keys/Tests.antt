-- ===== src/Keys/Tests.antt =====
-- src/libcryptoutility/cryptoutility.cpp: texts of keys, and the theorems about them.
use mesh_pp.Prelude.{
  ℕ, ◌≡◌, ◌<◌, refl, some, List, [], ◌∷◌, ◌++◌, ◌>>=◌, ◌⊎◌, arith, length, ok, throw, runtime_error,
  ◌^◌,
}
use mesh_pp.Base58.Convert.{replicate, from_base58}
use mesh_pp.Base58.Carry.{length-replicate, replicate-All}
use mesh_pp.Base58.Numeral.{value}
use mesh_pp.Base58.Reads.{ReadsAs}
use mesh_pp.Keys.Wif.{sk_to_wif, wif_to_sk}
use mesh_pp.Keys.WifRoundTrip
use mesh_pp.Keys.WifRoundTrip.{IsDigest}
use mesh_pp.Keys.PublicKey.{Curve, PublicKey, public_key, pk_to_base58, to_string}
use mesh_pp.Keys.PublicKeyRoundTrip
use mesh_pp.Keys.Distance.{distance}
use mesh_pp.Keys.DistanceValue.{AreDigests, far_bytes, binary_value, distance_cases}

abbrev demo_digest : ℕ → ℕ → List ℕ → List ℕ
demo_digest size byte xs = replicate size byte

demo_digest-IsDigest : (size byte : ℕ) → byte < 256 → IsDigest size (demo_digest size byte)
demo_digest-IsDigest size byte l = record {
  size_is = λ xs. length-replicate size byte;
  bytes = λ xs. replicate-All (λ d. d < 256) size byte l;
}

abbrev secret : List ℕ
secret = replicate 32 5

abbrev wif_text : List ℕ
wif_text =
    53 ∷ 72 ∷ 114 ∷ 86 ∷ 111 ∷ 80 ∷ 101 ∷ 121 ∷ 72 ∷ 111 ∷ 80 ∷ 80 ∷ 71 ∷ 65 ∷ 72 ∷ 55 ∷ 99 ∷ 53
    ∷ 57 ∷ 81 ∷ 101 ∷ 121 ∷ 90 ∷ 83 ∷ 65 ∷ 54 ∷ 80 ∷ 84 ∷ 106 ∷ 83 ∷ 105 ∷ 119 ∷ 99 ∷ 116 ∷ 67 ∷ 112
    ∷ 100 ∷ 67 ∷ 77 ∷ 98 ∷ 50 ∷ 77 ∷ 116 ∷ 118 ∷ 88 ∷ 100 ∷ 102 ∷ 89 ∷ 66 ∷ 88 ∷ 85 ∷ []

wif_to_sk_test : wif_to_sk (demo_digest 32 7) wif_text ≡ some (some (value 256 0 secret))
unfolding wif_to_sk replicate
wif_to_sk_test = refl

wif_to_sk-sk_to_wif_example :
    (sk_to_wif (demo_digest 32 7) secret >>= wif_to_sk (demo_digest 32 7))
    ≡ some (some (value 256 0 secret))
wif_to_sk-sk_to_wif_example =
    WifRoundTrip.wif_to_sk-sk_to_wif (demo_digest 32 7) (demo_digest-IsDigest 32 7 (omega arith))
      secret (length-replicate 32 5) (replicate-All (λ d. d < 256) 32 5 (omega arith))

sk_to_wif-wif_to_sk_example :
    (bytes : List ℕ) × (word : List ℕ) × (length bytes ≡ 32)
    × (value 256 0 bytes ≡ value 256 0 secret)
    × (sk_to_wif (demo_digest 32 7) bytes ≡ some word)
    × ReadsAs wif_text word
sk_to_wif-wif_to_sk_example =
    WifRoundTrip.sk_to_wif-wif_to_sk (demo_digest 32 7) (demo_digest-IsDigest 32 7 (omega arith))
      wif_text (value 256 0 secret) wif_to_sk_test

abbrev demo_curve : Curve
demo_curve = record { Point = List ℕ; encode = λ p. p; decode = λ p. p }

abbrev key_prefix : List ℕ
key_prefix = 77 ∷ 80 ∷ []

abbrev key_text : List ℕ
key_text = 77 ∷ 80 ∷ 50 ∷ 85 ∷ 121 ∷ 88 ∷ 65 ∷ 55 ∷ 101 ∷ 87 ∷ 110 ∷ 119 ∷ 105 ∷ 112 ∷ []

abbrev demo_key : PublicKey
demo_key = record {
  str_base58 = 50 ∷ 85 ∷ 121 ∷ 88 ∷ 65 ∷ 55 ∷ 101 ∷ 87 ∷ 110 ∷ 119 ∷ 105 ∷ 112 ∷ [];
}

public_key_test : public_key (demo_digest 20 9) demo_curve key_prefix key_text ≡ some (ok demo_key)
unfolding public_key replicate
public_key_test = refl

public_key-to_string_example :
    (to_string key_prefix demo_key ≡ key_text)
    × (point : List ℕ) × (pk_to_base58 (demo_digest 20 9) point ≡ some demo_key.str_base58)
public_key-to_string_example =
    PublicKeyRoundTrip.public_key-to_string (demo_digest 20 9) demo_curve key_prefix key_text
      demo_key public_key_test

public_key_accepts_example :
    (word : List ℕ) × (pk_to_base58 (demo_digest 20 9) (2 ∷ 3 ∷ []) ≡ some word)
    × (public_key (demo_digest 20 9) demo_curve key_prefix (key_prefix ++ word)
        ≡ some (ok (record { str_base58 = word })))
public_key_accepts_example =
    PublicKeyRoundTrip.public_key_accepts (demo_digest 20 9) demo_curve
      (demo_digest-IsDigest 20 9 (omega arith)) key_prefix (2 ∷ 3 ∷ []) refl (omega arith)
      (omega arith, (omega arith, tt))

abbrev ones_text : List ℕ
ones_text = replicate 32 49

abbrev other_text : List ℕ
other_text = replicate 31 49 ++ 50 ∷ []

distance_cases_example :
    (distance ones_text other_text ≡ distance other_text ones_text)
    × (vec_first : List ℕ) × (vec_second : List ℕ) × (from_base58 ones_text ≡ some vec_first)
    × (from_base58 other_text ≡ some vec_second)
    × ((AreDigests vec_first vec_second
          × (distance ones_text other_text
              ≡ some (ok (binary_value (far_bytes 0 vec_first vec_second))))
          × (binary_value (far_bytes 0 vec_first vec_second) < 2 ^ 32))
        ⊎ (¬ AreDigests vec_first vec_second
            × (distance ones_text other_text ≡ some (throw runtime_error))))
distance_cases_example = distance_cases ones_text other_text
