-- ===== src/Keys/PublicKeyRoundTrip.antt =====
-- src/libcryptoutility/cryptoutility.cpp: the texts that the class `public_key` accepts.
use mesh_pp.Prelude.{
  ℕ, ◌+◌, ◌-◌, ◌<◌, ◌≤◌, ◌≡◌, refl, sym, ap, ◌∙◌, true, Option, none, some, List, [], ◌∷◌, ◌++◌,
  length, ◌>>=◌, arith, inl, inr, length-append, Bool-cases, Option-cases, ok,
}
use mesh_pp.Base58.Convert.{to_base58, from_base58, take}
use mesh_pp.Base58.Numeral.{IsDigits, All-take}
use mesh_pp.Base58.RoundTrip.{from_base58-to_base58}
use mesh_pp.Keys.Bytes.{
  drop, same_bytes, resize4, resize4-take, take-append_length, drop-append_length, length-take,
  same_bytes_self, same_bytes_eq, All-append,
}
use mesh_pp.Keys.WifRoundTrip.{IsDigest}
use mesh_pp.Keys.PublicKey.{
  Curve, PublicKey, starts_with, pk_to_base58, check_pk, base58_to_pk_hex, base58_to_pk,
  check_written, check_point, public_key, to_string,
}

starts_with-drop :
    (prefix text : List ℕ)
    → starts_with prefix text ≡ true
    → prefix ++ drop (length prefix) text ≡ text
unfolding starts_with drop
starts_with-drop [] text e = refl
starts_with-drop (p ∷ prefix) [] e = absurd (ground (arith, e))
starts_with-drop (p ∷ prefix) (c ∷ text) e =
    let same : p ≡ c = ground (arith, e) in
    ap (λ t. t ∷ (prefix ++ drop (length prefix) text)) same
    ∙ ap (λ t. c ∷ t) (starts_with-drop prefix text (ground (arith, e)))

starts_with-append : (prefix text : List ℕ) → starts_with prefix (prefix ++ text) ≡ true
unfolding starts_with
starts_with-append [] text = refl
starts_with-append (p ∷ prefix) text = ground (arith, starts_with-append prefix text)

-- What is written for bytes is read back.
written :
    (bytes : List ℕ)
    → IsDigits 256 bytes
    → (word : List ℕ) × (to_base58 bytes ≡ some word) × (from_base58 word ≡ some bytes)
written bytes p = elim (Option-cases (to_base58 bytes)) [
  | inl q ↦ absurd (ground (arith, q, from_base58-to_base58 bytes p))
  | inr (word, q) ↦ (word, q, ground (arith, q, from_base58-to_base58 bytes p))
]

module _ (ripemd160 : List ℕ → List ℕ) (curve : Curve) where
  check_written_inv :
      (text : List ℕ) (point : curve.Point) (key : PublicKey)
      → check_written ripemd160 curve text point ≡ some (ok key)
      → (pk_to_base58 ripemd160 (curve.encode point) ≡ some text) × (key.str_base58 ≡ text)
  unfolding check_written
  check_written_inv text point key e =
      elim (Option-cases (pk_to_base58 ripemd160 (curve.encode point))) [
        | inl q ↦ absurd (ground (arith, e, q))
        | inr (written, q) ↦ elim (Bool-cases (same_bytes written text)) [
          | inr c ↦ absurd (ground (arith, e, q, c))
          | inl c ↦
              let same = same_bytes_eq written text c in (q ∙ ap some same, ground (arith, e, q, c))
        ]
      ]

  check_point_inv :
      (text : List ℕ) (found : Option curve.Point) (key : PublicKey)
      → check_point ripemd160 curve text found ≡ some (ok key)
      → (point : curve.Point) × (pk_to_base58 ripemd160 (curve.encode point) ≡ some text)
        × (key.str_base58 ≡ text)
  unfolding check_point
  check_point_inv text none key e = absurd (ground (arith, e))
  check_point_inv text (some point) key e =
      let (w, same) = check_written_inv text point key e in (point, w, same)

  -- Of a text that the constructor of `public_key` accepts, `to_string` gives the text again, and
  -- behind the prefix stands the text that `pk_to_base58` gives for a point of the curve.
  pub public_key-to_string :
      (prefix text : List ℕ) (key : PublicKey)
      → public_key ripemd160 curve prefix text ≡ some (ok key)
      → (to_string prefix key ≡ text)
        × (point : curve.Point) × (pk_to_base58 ripemd160 (curve.encode point)
            ≡ some key.str_base58)
  unfolding public_key to_string
  public_key-to_string prefix text key e = elim (Bool-cases (starts_with prefix text)) [
    | inr a ↦ absurd (ground (arith, e, a))
    | inl a ↦ elim (Option-cases (base58_to_pk ripemd160 curve (drop (length prefix) text))) [
      | inl b ↦ absurd (ground (arith, e, a, b))
      | inr (found, b) ↦
          let (point, written, same) =
            check_point_inv (drop (length prefix) text) found key (ground (arith, e, a, b)) in
          (
            ap (λ t. prefix ++ t) same ∙ starts_with-drop prefix text a,
            point,
            written ∙ ap some (sym same),
          )
    ]
  ]

  check_written_accepts :
      (text : List ℕ) (point : curve.Point)
      → pk_to_base58 ripemd160 (curve.encode point) ≡ some text
      → check_written ripemd160 curve text point ≡ some (ok (record { str_base58 = text }))
  unfolding check_written
  check_written_accepts text point e = ground (arith, e, same_bytes_self text)

  check_pk_accepts :
      (vch result pk : List ℕ)
      → 4 < length vch
      → take (length vch - 4) vch ≡ result
      → drop (length vch - 4) vch ≡ resize4 (ripemd160 result)
      → check_pk ripemd160 vch pk ≡ (true, result)
  unfolding check_pk
  check_pk_accepts vch result pk l a b =
      let same : same_bytes (resize4 (ripemd160 (take (length vch - 4) vch)))
            (drop (length vch - 4) vch)
          ≡ true =
        ap (same_bytes (resize4 (ripemd160 (take (length vch - 4) vch))))
          (b ∙ ap (λ t. resize4 (ripemd160 t)) (sym a))
        ∙ same_bytes_self (resize4 (ripemd160 (take (length vch - 4) vch))) in
      ground (arith, l, a, same)

  base58_to_pk_accepts :
      (text vch key : List ℕ)
      → from_base58 text ≡ some vch
      → check_pk ripemd160 vch [] ≡ (true, key)
      → base58_to_pk ripemd160 curve text ≡ some (some (curve.decode key))
  unfolding base58_to_pk base58_to_pk_hex
  base58_to_pk_accepts text vch key a b = ground (arith, a, b)

  public_key_lem :
      (prefix text : List ℕ) (point : curve.Point)
      → base58_to_pk ripemd160 curve text ≡ some (some point)
      → public_key ripemd160 curve prefix (prefix ++ text)
        ≡ check_written ripemd160 curve text point
  unfolding public_key check_point
  public_key_lem prefix text point e =
      let rest = drop-append_length (length prefix) prefix text refl in
      rw (starts_with-append prefix text) (
        ap (λ t. base58_to_pk ripemd160 curve t >>= check_point ripemd160 curve t) rest ∙ rw e refl)

  module _ (is_digest : IsDigest 20 ripemd160) where
    check_pk-append :
        (key : List ℕ)
        → 0 < length key
        → check_pk ripemd160 (key ++ take 4 (ripemd160 key)) [] ≡ (true, key)
    check_pk-append key l =
        let h = take 4 (ripemd160 key) in
        let long : 4 ≤ length (ripemd160 key) = omega (arith, is_digest.size_is key) in
        let four : length h ≡ 4 = length-take 4 (ripemd160 key) long in
        let size : length (key ++ h) ≡ length key + 4 = length-append key h ∙ omega (arith, four) in
        let place : length (key ++ h) - 4 ≡ length key = omega (arith, size) in
        check_pk_accepts (key ++ h) key [] (omega (arith, size, l))
          (take-append_length (length (key ++ h) - 4) key h place)
          (drop-append_length (length (key ++ h) - 4) key h place
            ∙ sym (resize4-take (ripemd160 key) long))

    -- Where RIPEMD-160 gives 20 bytes, and the encoding of a point has bytes and is decoded to the
    -- point, the constructor of `public_key` accepts the prefix with the text that `pk_to_base58`
    -- gives for the point.
    pub public_key_accepts :
        (prefix : List ℕ) (point : curve.Point)
        → curve.decode (curve.encode point) ≡ point
        → 0 < length (curve.encode point)
        → IsDigits 256 (curve.encode point)
        → (word : List ℕ) × (pk_to_base58 ripemd160 (curve.encode point) ≡ some word)
          × (public_key ripemd160 curve prefix (prefix ++ word)
              ≡ some (ok (record { str_base58 = word })))
    unfolding pk_to_base58
    public_key_accepts prefix point law l p =
        let key = curve.encode point in
        let bytes = key ++ take 4 (ripemd160 key) in
        let p' : IsDigits 256 bytes =
          All-append (λ d. d < 256) key (take 4 (ripemd160 key)) p
            (All-take (λ d. d < 256) 4 (ripemd160 key) (is_digest.bytes key)) in
        let (word, w, back) = written bytes p' in
        let read = base58_to_pk_accepts word bytes key back (check_pk-append key l) in
        (
          word,
          w,
          public_key_lem prefix word point (read ∙ ap (λ t. some (some t)) law)
              ∙ check_written_accepts word point w,
        )
