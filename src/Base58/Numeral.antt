-- ===== src/Base58/Numeral.antt =====
-- Digits as the number they stand for: what src/libcryptoutility/cryptoutility.cpp converts.
use mathlib.Core.List.{append-nil}
use native.Mathlib.Nat.{
  mul-pos, mod-eq_of_lt, div-eq_of_lt, add-mul-mod_self_left, add-mul-div_left,
}
use mesh_pp.Prelude.{
  ℕ, zero, suc, ◌+◌, ◌*◌, ◌/◌, ◌%◌, ◌<◌, ◌≡◌, refl, sym, ap, ◌∙◌, List, [], ◌∷◌, ◌++◌, All, arith,
  Bool-cases, ◌==◌, inl, inr,
}
use mesh_pp.Base58.Convert.{reverse_onto, reverse, take, skip_zeros}

-- The number of a list with the least digit first.
abbrev pub low_value : ℕ → List ℕ → ℕ
low_value base [] = 0
low_value base (d ∷ ds) = d + base * low_value base ds

-- The number of a list with the greatest digit first, read behind a number.
abbrev pub value : ℕ → ℕ → List ℕ → ℕ
value base acc [] = acc
value base acc (d ∷ ds) = value base (acc * base + d) ds

abbrev pub IsDigits : ℕ → List ℕ → Type 0
IsDigits base ds = All (λ d. d < base) ds

-- The first digit is not zero.
abbrev pub IsLeading : List ℕ → Type 0
IsLeading [] = Unit
IsLeading (d ∷ ds) = 0 < d

pub low_value-reverse_onto :
    (base : ℕ) (xs ys : List ℕ)
    → low_value base (reverse_onto xs ys) ≡ value base (low_value base ys) xs
unfolding reverse_onto
low_value-reverse_onto base [] ys = refl
low_value-reverse_onto base (x ∷ xs) ys =
    let e : x + base * low_value base ys ≡ low_value base ys * base + x = omega arith in
    low_value-reverse_onto base xs (x ∷ ys) ∙ ap (λ t. value base t xs) e

reverse_onto-reverse_onto :
    (xs ys zs : List ℕ) → reverse_onto (reverse_onto xs ys) zs ≡ reverse_onto ys (xs ++ zs)
unfolding reverse_onto
reverse_onto-reverse_onto [] ys zs = refl
reverse_onto-reverse_onto (x ∷ xs) ys zs = reverse_onto-reverse_onto xs (x ∷ ys) zs

pub reverse-reverse : (xs : List ℕ) → reverse (reverse xs) ≡ xs
unfolding reverse_onto
reverse-reverse xs = reverse_onto-reverse_onto xs [] [] ∙ append-nil xs

pub value-reverse : (base : ℕ) (xs : List ℕ) → value base 0 (reverse xs) ≡ low_value base xs
value-reverse base xs =
    sym (low_value-reverse_onto base (reverse xs) []) ∙ ap (low_value base) (reverse-reverse xs)

pub All-reverse_onto :
    (P : ℕ → Type 0) (xs ys : List ℕ) → All P xs → All P ys → All P (reverse_onto xs ys)
unfolding reverse_onto
All-reverse_onto P [] ys a b = b
All-reverse_onto P (x ∷ xs) ys a b = All-reverse_onto P xs (x ∷ ys) a.1 (a.0, b)

pub All-take : (P : ℕ → Type 0) (n : ℕ) (xs : List ℕ) → All P xs → All P (take n xs)
unfolding take
All-take P zero xs a = tt
All-take P (suc n) [] a = tt
All-take P (suc n) (x ∷ xs) a = (a.0, All-take P n xs a.1)

pub All-skip_zeros : (P : ℕ → Type 0) (xs : List ℕ) → All P xs → All P (skip_zeros xs)
unfolding skip_zeros
All-skip_zeros P [] a = tt
All-skip_zeros P (x ∷ xs) a = elim (Bool-cases (x == 0)) [
  | inl e ↦ rw e (All-skip_zeros P xs a.1)
  | inr e ↦ rw e a
]

pub value-skip_zeros : (base : ℕ) (xs : List ℕ) → value base 0 (skip_zeros xs) ≡ value base 0 xs
unfolding skip_zeros
value-skip_zeros base [] = refl
value-skip_zeros base (x ∷ xs) = elim (Bool-cases (x == 0)) [
  | inl e ↦
      let z : 0 ≡ 0 * base + x = ground arith in
      rw e (value-skip_zeros base xs ∙ ap (λ t. value base t xs) z)
  | inr e ↦ rw e refl
]

pub skip_zeros-IsLeading : (xs : List ℕ) → IsLeading (skip_zeros xs)
unfolding skip_zeros
skip_zeros-IsLeading [] = tt
skip_zeros-IsLeading (x ∷ xs) = elim (Bool-cases (x == 0)) [
  | inl e ↦ rw e (skip_zeros-IsLeading xs)
  | inr e ↦ rw e (ground arith)
]

-- Every digit has a greater one in front of it or is not zero.
abbrev IsFull : ℕ → List ℕ → Type 0
IsFull base [] = Unit
IsFull base (d ∷ ds) = (0 < low_value base (d ∷ ds)) × IsFull base ds

reverse_onto-IsFull :
    (base : ℕ) (xs ys : List ℕ)
    → 0 < base
    → 0 < low_value base ys
    → IsFull base ys
    → IsFull base (reverse_onto xs ys)
unfolding reverse_onto
reverse_onto-IsFull base [] ys b p f = f
reverse_onto-IsFull base (x ∷ xs) ys b p f =
    let q : 0 < x + base * low_value base ys = omega (arith, mul-pos b p) in
    reverse_onto-IsFull base xs (x ∷ ys) b q (q, f)

reverse-IsFull : (base : ℕ) (xs : List ℕ) → 0 < base → IsLeading xs → IsFull base (reverse xs)
unfolding reverse_onto
reverse-IsFull base [] b l = tt
reverse-IsFull base (x ∷ xs) b l =
    let q : 0 < x + base * 0 = omega arith in reverse_onto-IsFull base xs (x ∷ []) b q (q, tt)

-- Two lists without needless digits that stand for the same number are the same.
low_value_injective :
    (base : ℕ) (xs ys : List ℕ)
    → 0 < base
    → IsDigits base xs
    → IsDigits base ys
    → IsFull base xs
    → IsFull base ys
    → low_value base xs ≡ low_value base ys
    → xs ≡ ys
low_value_injective base [] [] b p q f g e = refl
low_value_injective base [] (y ∷ ys) b p q f g e = absurd (omega (arith, g.0, e))
low_value_injective base (x ∷ xs) [] b p q f g e = absurd (omega (arith, f.0, e))
low_value_injective base (x ∷ xs) (y ∷ ys) b p q f g e =
    let same = parts x (low_value base xs) y (low_value base ys) p.0 q.0 e in
    ap (λ t. t ∷ xs) same.0
    ∙ ap (λ t. y ∷ t) (low_value_injective base xs ys b p.1 q.1 f.1 g.1 same.1)
  where
    parts : (x v y w : ℕ) → x < base → y < base → x + base * v ≡ y + base * w → (x ≡ y) × (v ≡ w)
    parts x v y w l m e = (
      sym (mod-eq_of_lt l)
          ∙ sym (add-mul-mod_self_left x base v)
          ∙ ap (λ t. t % base) e
          ∙ add-mul-mod_self_left y base w
          ∙ mod-eq_of_lt m,
      omega (
        arith,
        div-eq_of_lt l,
        div-eq_of_lt m,
        add-mul-div_left x v b,
        add-mul-div_left y w b,
        ap (λ t. t / base) e,
      ),
    )

pub value_injective :
    (base : ℕ) (xs ys : List ℕ)
    → 0 < base
    → IsDigits base xs
    → IsDigits base ys
    → IsLeading xs
    → IsLeading ys
    → value base 0 xs ≡ value base 0 ys
    → xs ≡ ys
unfolding reverse_onto
value_injective base xs ys b p q l m e =
    sym (reverse-reverse xs)
    ∙ ap reverse (
        low_value_injective base (reverse xs) (reverse ys) b
          (All-reverse_onto (λ d. d < base) xs [] p tt)
          (All-reverse_onto (λ d. d < base) ys [] q tt) (reverse-IsFull base xs b l)
          (reverse-IsFull base ys b m)
          (low_value-reverse_onto base xs [] ∙ e ∙ sym (low_value-reverse_onto base ys [])))
    ∙ reverse-reverse ys
