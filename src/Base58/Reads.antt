-- ===== src/Base58/Reads.antt =====
-- src/libcryptoutility/cryptoutility.cpp: what `detail::from_base58` makes of any text.
use mathlib.Core.List.{append_assoc, append-nil}
use native.Mathlib.Nat.{pow-suc, mul-le-mul_right, mul-le-mul_left}
use mesh_pp.Prelude.{
  ℕ, ◌+◌, ◌*◌, ◌^◌, ◌<◌, ◌≤◌, ◌≡◌, refl, sym, ap, ◌∙◌, subst, true, some, List, [], ◌∷◌, ◌++◌, ◌==◌,
  Bool-cases, Option-cases, inl, inr, ◌⊎◌, arith, length, All,
}
use mesh_pp.Base58.Convert.{
  from_base58, decode, finish, if_ended, count_leading, significant, to_letters, replicate,
  b256_size, letter, digit, isspace, skip_spaces, c_str, read_digits, invalid, stopped,
}
use mesh_pp.Base58.Numeral.{value, IsDigits, IsLeading}
use mesh_pp.Base58.Carry.{absorb_digit-IsBuffer, replicate-IsBuffer}
use mesh_pp.Base58.Size.{pow-lt_b256_size, pow_pos}
use mesh_pp.Base58.Alphabet.{digit_lem}
use mesh_pp.Base58.Decode.{Buffer}
use mesh_pp.Base58.Encode.{IsNumeral, significant-IsNumeral, count_leading_lem, IsOther}

-- The text is at its end or at a space.
abbrev IsAtSpace : List ℕ → Type 0
IsAtSpace [] = Unit
IsAtSpace (c ∷ cs) = isspace c ≡ true

-- What the loop over the characters makes of them.
record Reads (v n : ℕ) (cs : List ℕ) (ds : List ℕ) (state : List ℕ × ℕ) (rest : List ℕ)
    : Type 0 where
  text : cs ≡ to_letters ds ++ rest
  digits : IsDigits 58 ds
  at_space : IsAtSpace rest
  buffer : Buffer (value 58 v ds) n state

room :
    (v d p q n : ℕ)
    → d < 58
    → q ≡ p * 58
    → 0 < p
    → (v + 1) * q ≤ n
    → ((v * 58 + d + 1) * p ≤ n) × (d + 58 * v < n)
room v d p q n s e o l =
    let bound : (v * 58 + d + 1) * p ≤ (v + 1) * 58 * p = mul-le-mul_right p (omega (arith, s)) in
    let single : (v * 58 + d + 1) * 1 ≤ (v * 58 + d + 1) * p = mul-le-mul_left (v * 58 + d + 1) o in
    let total : (v + 1) * 58 * p ≡ (v + 1) * q = rw e (omega arith) in
    let enough : (v * 58 + d + 1) * p ≤ n = omega (arith, bound, total, l) in
    (enough, omega (arith, single, enough))

read_digits-Reads :
    (cs : List ℕ) (v n : ℕ) (state : List ℕ × ℕ)
    → Buffer v n state
    → (v + 1) * 58 ^ length cs ≤ 256 ^ n
    → (read_digits cs state ≡ invalid)
      ⊎ ((ds : List ℕ) × (state' : List ℕ × ℕ) × (rest : List ℕ) × (read_digits cs state
            ≡ stopped state' rest)
          × Reads v n cs ds state' rest)
unfolding read_digits to_letters
read_digits-Reads [] v n state b l =
    inr ([], state, [], refl, record { text = refl; digits = tt; at_space = tt; buffer = b })
read_digits-Reads (c ∷ cs) v n state b l = elim (Bool-cases (isspace c)) [
  | inl e ↦
      inr (
        [],
        state,
        c ∷ cs,
        rw e refl,
        record { text = refl; digits = tt; at_space = e; buffer = b },
      )
  | inr e ↦ elim (Option-cases (digit c)) [
    | inl q ↦ inl (rw (e, q) refl)
    | inr (d, q) ↦
        let (small, same) = digit_lem c d q in
        let swap : d + 58 * v ≡ v * 58 + d = omega arith in
        let (enough, fits) =
          room v d (58 ^ length cs) (58 ^ length (c ∷ cs)) (256 ^ n) small (pow-suc 58 (length cs))
            (pow_pos 58 (length cs) (omega arith)) l in
        let (next, r, b') = absorb_digit-IsBuffer 58 256 (omega arith) v n d state b fits in
        let b'' : Buffer (v * 58 + d) n next = subst (λ t. Buffer t n next) swap b' in
        elim (read_digits-Reads cs (v * 58 + d) n next b'' enough) [
          | inl u ↦ inl (rw (e, q, r) u)
          | inr (ds, state', rest, u, m) ↦ inr (
            d ∷ ds,
            state',
            rest,
            rw (e, q, r) u,
            record {
              text = rw same (ap (λ t. c ∷ t) m.text);
              digits = (small, m.digits);
              at_space = m.at_space;
              buffer = m.buffer;
            },
          )
        ]
  ]
]

abbrev IsSpace : ℕ → Type 0
IsSpace c = isspace c ≡ true

skip_spaces_lem :
    (cs : List ℕ) → (before : List ℕ) × (cs ≡ before ++ skip_spaces cs) × All IsSpace before
unfolding skip_spaces
skip_spaces_lem [] = ([], refl, tt)
skip_spaces_lem (c ∷ cs) = elim (Bool-cases (isspace c)) [
  | inl e ↦
      let (before, q, a) = skip_spaces_lem cs in (c ∷ before, rw e (ap (λ t. c ∷ t) q), (e, a))
  | inr e ↦ ([], rw e refl, tt)
]

letter_zero : letter 0 ≡ 49
unfolding letter
letter_zero = refl

ones-IsLeading :
    (ds rest : List ℕ) → IsDigits 58 ds → IsOther 49 (to_letters ds ++ rest) → IsLeading ds
unfolding to_letters
ones-IsLeading [] rest p o = tt
ones-IsLeading (d ∷ ds) rest p o = elim (Bool-cases (d == 0)) [
  | inl e ↦
      let z : d ≡ 0 = ground (arith, e) in
      let one : letter d ≡ 49 = ap letter z ∙ letter_zero in absurd (o one)
  | inr e ↦ ground (arith, e)
]

-- Up to its first zero byte the text is this word between spaces. What follows that byte is not read.
pub record ReadsAs (str word : List ℕ) : Type 0 where
  pub before : List ℕ
  pub after : List ℕ
  pub between : c_str str ≡ before ++ (word ++ after)
  pub spaces_before : All IsSpace before
  pub spaces_after : All IsSpace after

pub record Decoded (str : List ℕ) : Type 0 where
  pub zeroes : ℕ
  pub ds : List ℕ
  pub bytes : List ℕ
  pub is_text : ReadsAs str (replicate zeroes 49 ++ to_letters ds)
  pub digits : IsDigits 58 ds
  pub leading : IsLeading ds
  pub decoded : from_base58 str ≡ some (replicate zeroes 0 ++ bytes)
  pub numeral : IsNumeral 256 (value 58 0 ds) bytes

list-cases : (xs : List ℕ) → (xs ≡ []) ⊎ ((x : ℕ) × (rest : List ℕ) × (xs ≡ x ∷ rest))
list-cases [] = inl refl
list-cases (x ∷ xs) = inr (x, xs, refl)

joined :
    (before ones word rest : List ℕ) {cs inner psz : List ℕ}
    → cs ≡ before ++ inner
    → inner ≡ ones ++ psz
    → psz ≡ word ++ rest
    → cs ≡ before ++ (ones ++ word ++ rest)
joined before ones word rest e f g =
    e ∙ ap (λ t. before ++ t) (f ∙ ap (λ t. ones ++ t) g ∙ sym (append_assoc ones word rest))

-- `from_base58` returns for every text, so its assertion holds. Either it gives nothing, or the
-- text is, between spaces, letters '1' and the letters of a number without leading zeroes, and it
-- gives a zero for each of those and then the bytes of the number without leading zeroes.
pub from_base58-Decoded : (str : List ℕ) → (from_base58 str ≡ some []) ⊎ Decoded str
unfolding from_base58 decode finish if_ended
from_base58-Decoded str =
    let (before, first, spaces) = skip_spaces_lem (c_str str) in
    let (zeroes, psz) = count_leading 49 (skip_spaces (c_str str)) in
    let (ones, other) = count_leading_lem 49 (skip_spaces (c_str str)) in
    let size = b256_size (length psz) in
    let bound : (0 + 1) * 58 ^ length psz ≤ 256 ^ size =
      omega (arith, pow-lt_b256_size (length psz)) in
    elim (read_digits-Reads psz 0 size (replicate size 0, 0)
      (replicate-IsBuffer 58 256 (omega arith) size) bound) [
        | inl e ↦ inl (ap (finish zeroes) e)
        | inr (ds, state, rest, e, r) ↦
            let (after, last, spaces') = skip_spaces_lem rest in
            elim (list-cases (skip_spaces rest)) [
              | inr (c, cs, q) ↦ inl (
                  ap (finish zeroes) e
                  ∙ ap (λ t. some (if_ended t (replicate zeroes 0 ++ significant state))) q)
              | inl q ↦
                  let ended : rest ≡ after = last ∙ ap (λ t. after ++ t) q ∙ append-nil after in
                  inr (record {
                    zeroes = zeroes;
                    ds = ds;
                    bytes = significant state;
                    is_text = record {
                      before = before;
                      after = rest;
                      between =
                          joined before (replicate zeroes 49) (to_letters ds) rest first ones
                            r.text;
                      spaces_before = spaces;
                      spaces_after = subst (All IsSpace) (sym ended) spaces';
                    };
                    digits = r.digits;
                    leading = ones-IsLeading ds rest r.digits (subst (IsOther 49) r.text other);
                    decoded =
                        ap (finish zeroes) e
                        ∙ ap (λ t. some (if_ended t (replicate zeroes 0 ++ significant state))) q;
                    numeral = significant-IsNumeral 256 (value 58 0 ds) size state r.buffer;
                  })
            ]
      ]
