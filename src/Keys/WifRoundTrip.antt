-- ===== src/Keys/WifRoundTrip.antt =====
-- src/libcryptoutility/cryptoutility.cpp: `sk_to_wif` and `wif_to_sk`, one after the other.
use mesh_pp.Prelude.{
  ℕ, suc, ◌<◌, ◌≡◌, ◌≢◌, refl, sym, ap, ◌∙◌, true, false, some, List, [], ◌∷◌, ◌++◌, length, ◌>>=◌,
  arith, inl, inr, length-append, Bool-cases, Option-cases,
}
use mesh_pp.Base58.Convert.{to_base58, from_base58, take}
use mesh_pp.Base58.Numeral.{value, IsDigits, All-take}
use mesh_pp.Base58.Reads.{ReadsAs}
use mesh_pp.Base58.RoundTrip.{from_base58-to_base58, to_base58-from_base58}
use mesh_pp.Keys.Bytes.{
  drop, same_bytes, resize4-take, take-append_length, drop-append_length, length-take,
  same_bytes_self, same_bytes_eq, All-append, bind-some, take-drop,
}
use mesh_pp.Keys.Wif.{
  wif_check, sk_to_wif, wif_to_sk, check_wif, wif_result, chk_str, wrong_version,
}

-- A digest has 32 bytes.
pub record IsDigest (size : ℕ) (digest : List ℕ → List ℕ) : Type 0 where
  pub size_is : (xs : List ℕ) → length (digest xs) ≡ size
  pub bytes : (xs : List ℕ) → IsDigits 256 (digest xs)

-- The parts of 37 bytes of the right version.
parts :
    (vch : List ℕ)
    → wrong_version vch ≡ false
    → length vch ≡ 37
    → (length (wif_result vch) ≡ 32) × (vch ≡ (128 ∷ wif_result vch) ++ chk_str vch)
unfolding wrong_version wif_result chk_str drop
parts [] a b = absurd (omega (arith, b))
parts (x ∷ xs) a b =
    let version : x ≡ 128 = ground (arith, a) in
    rw (b, version)
      (length-take 32 xs (omega (arith, b)), ap (λ t. 128 ∷ t) (sym (take-drop 32 xs)))

module _ (sha256 : List ℕ → List ℕ) (is_digest : IsDigest 32 sha256) where
  -- The bytes that stand in the text of a secret.
  abbrev wif_bytes : List ℕ → List ℕ
  wif_bytes secret = (128 ∷ secret) ++ take 4 (sha256 (sha256 (128 ∷ secret)))

  wif_check-take :
      (secret : List ℕ) → wif_check sha256 secret ≡ take 4 (sha256 (sha256 (128 ∷ secret)))
  unfolding wif_check
  wif_check-take secret =
      resize4-take (sha256 (sha256 (128 ∷ secret)))
        (omega (arith, is_digest.size_is (sha256 (128 ∷ secret))))

  wif_bytes-length : (secret : List ℕ) → length secret ≡ 32 → length (wif_bytes secret) ≡ 37
  wif_bytes-length secret l =
      length-append (128 ∷ secret) (take 4 (sha256 (sha256 (128 ∷ secret))))
      ∙ omega (
        arith,
        l,
        length-take 4 (sha256 (sha256 (128 ∷ secret)))
            (omega (arith, is_digest.size_is (sha256 (128 ∷ secret)))),
      )

  check_wif_accepts :
      (vch result : List ℕ)
      → wrong_version vch ≡ false
      → length vch ≡ 37
      → wif_result vch ≡ result
      → wif_check sha256 result ≡ chk_str vch
      → check_wif sha256 vch ≡ some (value 256 0 result)
  unfolding check_wif
  check_wif_accepts vch result a b c d =
      let same : same_bytes (wif_check sha256 (wif_result vch)) (chk_str vch) ≡ true =
        ap (λ t. same_bytes t (chk_str vch)) (ap (wif_check sha256) c ∙ d)
        ∙ same_bytes_self (chk_str vch) in
      ground (arith, a, b, same, ap (value 256 0) c)

  check_wif-wif_bytes :
      (secret : List ℕ)
      → length secret ≡ 32
      → check_wif sha256 (wif_bytes secret) ≡ some (value 256 0 secret)
  unfolding wrong_version wif_result chk_str drop
  check_wif-wif_bytes secret l =
      let h = take 4 (sha256 (sha256 (128 ∷ secret))) in
      let size : suc (length (secret ++ h)) ≡ 37 = wif_bytes-length secret l in
      check_wif_accepts (wif_bytes secret) secret refl size
        (rw size (take-append_length 32 secret h (sym l)))
        (wif_check-take secret
          ∙ sym (rw size (drop-append_length 33 (128 ∷ secret) h (omega (arith, l)))))

  -- Where SHA-256 gives 32 bytes, the text that `sk_to_wif` gives for a secret of 32 bytes is
  -- accepted by `wif_to_sk`, which gives the integer of the secret.
  pub wif_to_sk-sk_to_wif :
      (secret : List ℕ)
      → length secret ≡ 32
      → IsDigits 256 secret
      → (sk_to_wif sha256 secret >>= wif_to_sk sha256) ≡ some (some (value 256 0 secret))
  unfolding sk_to_wif wif_to_sk
  wif_to_sk-sk_to_wif secret l p =
      let h = sha256 (sha256 (128 ∷ secret)) in
      let bytes =
        All-append (λ d. d < 256) (128 ∷ secret) (take 4 h) (omega arith, p)
          (All-take (λ d. d < 256) 4 h (is_digest.bytes (sha256 (128 ∷ secret)))) in
      bind-some (to_base58 (wif_bytes secret)) from_base58 (check_wif sha256)
        (from_base58-to_base58 (wif_bytes secret) bytes)
      ∙ ap some (check_wif-wif_bytes secret l)

  -- What stands in a text that is accepted.
  check_wif_inv :
      (vch : List ℕ) {sk : ℕ}
      → check_wif sha256 vch ≡ some sk
      → (secret : List ℕ) × (length secret ≡ 32)
        × (vch ≡ wif_bytes secret)
        × (value 256 0 secret ≡ sk)
  unfolding check_wif
  check_wif_inv vch {sk} e = elim (Bool-cases (wrong_version vch)) [
    | inl a ↦ absurd (ground (arith, e, a))
    | inr a ↦
        let b : length vch ≡ 37 = ground (arith, e, a) in
        elim (Bool-cases (same_bytes (wif_check sha256 (wif_result vch)) (chk_str vch))) [
          | inr c ↦ absurd (ground (arith, e, a, b, c))
          | inl c ↦
              let v : value 256 0 (wif_result vch) ≡ sk = ground (arith, e, a, b, c) in
              let d = same_bytes_eq (wif_check sha256 (wif_result vch)) (chk_str vch) c in
              let (len, split) = parts vch a b in
              let check : chk_str vch ≡ take 4 (sha256 (sha256 (128 ∷ wif_result vch))) =
                sym d ∙ wif_check-take (wif_result vch) in
              (wif_result vch, len, split ∙ ap (λ t. (128 ∷ wif_result vch) ++ t) check, v)
        ]
  ]

  -- Where SHA-256 gives 32 bytes and `wif_to_sk` accepts a text, then up to its first zero byte the
  -- text is, but for spaces around it, the one that `sk_to_wif` gives for the 32 bytes of the
  -- integer. What follows a zero byte is not read.
  pub sk_to_wif-wif_to_sk :
      (wif_str : List ℕ) (sk : ℕ)
      → wif_to_sk sha256 wif_str ≡ some (some sk)
      → (secret : List ℕ) × (word : List ℕ) × (length secret ≡ 32)
        × (value 256 0 secret ≡ sk)
        × (sk_to_wif sha256 secret ≡ some word)
        × ReadsAs wif_str word
  unfolding wif_to_sk sk_to_wif
  sk_to_wif-wif_to_sk wif_str sk e = elim (Option-cases (from_base58 wif_str)) [
    | inl q ↦ absurd (ground (arith, e, q))
    | inr (vch, q) ↦
        let checked : check_wif sha256 vch ≡ some sk = ground (arith, e, q) in
        let (secret, l, split, v) = check_wif_inv vch checked in
        let n : vch ≢ [] = λ z. absurd (ground (arith, z, split)) in
        let (word, r, t) = to_base58-from_base58 wif_str vch q n in
        (secret, word, l, v, sym (ap to_base58 split) ∙ r, t)
  ]
