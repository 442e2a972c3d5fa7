-- ===== src/Keys/Wif.antt =====
-- src/libcryptoutility/cryptoutility.cpp: `sk_to_wif`, `wif_to_sk` and the texts that they check.
-- The digest SHA-256 is a parameter.
use mesh_pp.Prelude.{
  ℕ, ◌-◌, Bool, false, not, Option, none, some, List, [], ◌∷◌, ◌++◌, ◌==◌, if◌then◌else◌, length,
  ◌>>=◌,
}
use mesh_pp.Base58.Convert.{to_base58, from_base58, take}
use mesh_pp.Keys.Bytes.{drop, resize4, same_bytes}
use mesh_pp.Base58.Numeral.{value}

-- `*vch.begin() != 0x80`, of a vector that is not empty.
unfoldable pub wrong_version : List ℕ → Bool
wrong_version [] = false
wrong_version (x ∷ xs) = not (x == 128)

unfoldable pub wif_result : List ℕ → List ℕ
unfolding take drop
wif_result vch = take (length vch - 1 - 4) (drop 1 vch)

unfoldable pub chk_str : List ℕ → List ℕ
unfolding drop
chk_str vch = drop (length vch - 4) vch

module _ (sha256 : List ℕ → List ℕ) where
  -- The bytes behind the version and the secret.
  unfoldable pub wif_check : List ℕ → List ℕ
  unfolding resize4
  wif_check result = resize4 (sha256 (sha256 (128 ∷ result)))

  unfoldable pub sk_to_wif : List ℕ → Option (List ℕ)
  unfolding to_base58 take
  sk_to_wif secret = to_base58 ((128 ∷ secret) ++ take 4 (sha256 (sha256 (128 ∷ secret))))

  -- The integer, or `none` where the code answers false.
  unfoldable pub check_wif : List ℕ → Option ℕ
  unfolding wrong_version wif_result chk_str same_bytes wif_check
  check_wif vch =
      if wrong_version vch
      then none
      else if not (length vch == 37)
      then none
      else if same_bytes (wif_check (wif_result vch)) (chk_str vch)
      then some (value 256 0 (wif_result vch))
      else none

  -- `none` where the assertion of `from_base58` fails.
  unfoldable pub wif_to_sk : List ℕ → Option (Option ℕ)
  unfolding from_base58 check_wif
  wif_to_sk wif_str = do vch ← from_base58 wif_str; some (check_wif vch)
