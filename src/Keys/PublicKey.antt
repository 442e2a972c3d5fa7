-- ===== src/Keys/PublicKey.antt =====
-- src/libcryptoutility/cryptoutility.cpp: `pk_to_base58`, `base58_to_pk` and the class `public_key`.
-- The digest RIPEMD-160 and the points of the curve are parameters.
use mesh_pp.Prelude.{
  ℕ, ◌-◌, Bool, true, false, ◌&&◌, Option, none, some, List, [], ◌∷◌, ◌++◌, ◌==◌, ltb,
  if◌then◌else◌, length, ◌>>=◌, Result, ok, throw, runtime_error,
}
use mesh_pp.Base58.Convert.{to_base58, from_base58, take}
use mesh_pp.Keys.Bytes.{drop, resize4, same_bytes}

-- The curve's points, with `EncodePoint` of the compressed form and `DecodePoint`.
pub record Curve : Type 1 where
  pub Point : Type 0
  pub encode : Point → List ℕ
  pub decode : List ℕ → Point

pub record PublicKey : Type 0 where
  pub str_base58 : List ℕ

-- `find(prefix) == 0`.
unfoldable pub starts_with : List ℕ → List ℕ → Bool
starts_with [] text = true
starts_with (p ∷ prefix) [] = false
starts_with (p ∷ prefix) (c ∷ text) = p == c && starts_with prefix text

module _ (ripemd160 : List ℕ → List ℕ) where
  unfoldable pub pk_to_base58 : List ℕ → Option (List ℕ)
  unfolding to_base58 take
  pk_to_base58 key = to_base58 (key ++ take 4 (ripemd160 key))

  -- The answer, and `pk` as it is left.
  unfoldable pub check_pk : List ℕ → List ℕ → Bool × List ℕ
  unfolding take drop resize4 same_bytes
  check_pk vch pk =
      let result = take (length vch - 4) vch in
      if ltb 4 (length vch)
      then if same_bytes (resize4 (ripemd160 result)) (drop (length vch - 4) vch)
        then (true, result)
        else (false, pk)
      else (true, pk)

  unfoldable pub base58_to_pk_hex : List ℕ → List ℕ → Option (Bool × List ℕ)
  unfolding from_base58 check_pk
  base58_to_pk_hex b58_str pk = do vch ← from_base58 b58_str; some (check_pk vch pk)

  module _ (curve : Curve) where
    -- The point, or `none` where the code answers false.
    unfoldable pub base58_to_pk : List ℕ → Option (Option curve.Point)
    unfolding base58_to_pk_hex
    base58_to_pk b58_str = do
      (code, result) ← base58_to_pk_hex b58_str []
      some (if code then some (curve.decode result) else none)

    -- The second check of the constructor: the point is written as the text.
    unfoldable pub check_written : List ℕ → curve.Point → Option (Result PublicKey)
    unfolding pk_to_base58 same_bytes
    check_written str_base58 pk = do
      written ← pk_to_base58 (curve.encode pk)
      some (
          if same_bytes written str_base58
          then ok (record { str_base58 = str_base58 })
          else throw runtime_error)

    unfoldable pub check_point : List ℕ → Option curve.Point → Option (Result PublicKey)
    unfolding check_written
    check_point str_base58 none = some (throw runtime_error)
    check_point str_base58 (some pk) = check_written str_base58 pk

    -- The constructor, under a prefix that `config::set_public_key_prefix` has set.
    unfoldable pub public_key : List ℕ → List ℕ → Option (Result PublicKey)
    unfolding starts_with drop base58_to_pk check_point
    public_key prefix str_base58_ =
        let str_base58 = drop (length prefix) str_base58_ in
        let checked = base58_to_pk str_base58 >>= check_point str_base58 in
        if starts_with prefix str_base58_ then checked else some (throw runtime_error)

unfoldable pub to_string : List ℕ → PublicKey → List ℕ
to_string prefix key = prefix ++ key.str_base58
