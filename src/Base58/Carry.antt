-- ===== src/Base58/Carry.antt =====
-- src/libcryptoutility/cryptoutility.cpp: the loops of `to_base58` and `from_base58` over the buffer.
use native.Mathlib.Nat.{pow-zero, pow-suc, mod-lt, div-add-mod'}
use mesh_pp.Prelude.{
  ℕ, zero, suc, ◌+◌, ◌-◌, ◌*◌, ◌/◌, ◌%◌, ◌^◌, ◌≤◌, ◌<◌, ◌≡◌, refl, sym, ap, ◌∙◌, subst, List, [],
  ◌∷◌, length, All, arith, Bool-cases, ◌==◌, ltb, not, ◌||◌, inl, inr, some,
}
use mesh_pp.Base58.Convert.{absorb, absorb_digit, absorb_all, replicate, take}
use mesh_pp.Base58.Numeral.{low_value, value, IsDigits}

-- The digits from a place on are zeroes.
abbrev pub ZeroFrom : ℕ → List ℕ → Type 0
ZeroFrom n [] = Unit
ZeroFrom zero (d ∷ ds) = (d ≡ 0) × ZeroFrom zero ds
ZeroFrom (suc n) (d ∷ ds) = ZeroFrom n ds

ZeroFrom-tail : (n d : ℕ) (ds : List ℕ) → ZeroFrom n (d ∷ ds) → ZeroFrom (n - 1) ds
ZeroFrom-tail zero d ds z = z.1
ZeroFrom-tail (suc n) d ds z = subst (λ t. ZeroFrom t ds) (omega arith) z

low_value-ZeroFrom : (base : ℕ) (ds : List ℕ) → ZeroFrom 0 ds → low_value base ds ≡ 0
low_value-ZeroFrom base [] z = refl
low_value-ZeroFrom base (d ∷ ds) z = rw (low_value-ZeroFrom base ds z.1, z.0) (omega arith)

pub low_value-take :
    (base n : ℕ) (ds : List ℕ) → ZeroFrom n ds → low_value base (take n ds) ≡ low_value base ds
unfolding take
low_value-take base zero ds z = sym (low_value-ZeroFrom base ds z)
low_value-take base (suc n) [] z = refl
low_value-take base (suc n) (d ∷ ds) z = ap (λ t. d + base * t) (low_value-take base n ds z)

pub value-le : (base acc : ℕ) (xs : List ℕ) → 0 < base → acc ≤ value base acc xs
value-le base acc [] b = omega arith
value-le base acc (x ∷ xs) b = grows acc base x b (value-le base (acc * base + x) xs b)
  where
    grows : (acc base x : ℕ) {v : ℕ} → 0 < base → acc * base + x ≤ v → acc ≤ v
    grows acc zero x b l = absurd (omega (arith, b))
    grows acc (suc base) x b l = omega (arith, l)

small : (c p : ℕ) → c * p < p → c ≡ 0
small zero p l = refl
small (suc c) p l = absurd (omega (arith, l))

pub length-replicate : {A : Type 0} (n : ℕ) (x : A) → length (replicate n x) ≡ n
unfolding replicate
length-replicate zero x = refl
length-replicate (suc n) x = ap suc (length-replicate n x)

zeros-low_value : (base n : ℕ) → low_value base (replicate n 0) ≡ 0
unfolding replicate
zeros-low_value base zero = refl
zeros-low_value base (suc n) = rw (zeros-low_value base n) (omega arith)

pub replicate-All : {A : Type 0} (P : A → Type 0) (n : ℕ) (x : A) → P x → All P (replicate n x)
unfolding replicate
replicate-All P zero x p = tt
replicate-All P (suc n) x p = (p, replicate-All P n x p)

zeros-ZeroFrom : (n : ℕ) → ZeroFrom 0 (replicate n 0)
unfolding replicate
zeros-ZeroFrom zero = tt
zeros-ZeroFrom (suc n) = (refl, zeros-ZeroFrom n)

-- The buffer holds a number; the digits from `length` on are zeroes.
pub record IsBuffer (base number size : ℕ) (state : List ℕ × ℕ) : Type 0 where
  pub holds : low_value base state.0 ≡ number
  pub sized : length state.0 ≡ size
  pub digits : IsDigits base state.0
  pub zeroes : ZeroFrom state.1 state.0

module _ (from to : ℕ) (positive : 0 < to) where
  -- What the inner loop leaves of a buffer and a carry.
  record Absorbed (carry i : ℕ) (ds : List ℕ) (after : List ℕ × ℕ × ℕ) : Type 0 where
    number : low_value to after.0 + after.1 * to ^ length ds ≡ carry + from * low_value to ds
    same_size : length after.0 ≡ length ds
    digits : IsDigits to after.0
    zeroes : ZeroFrom (after.2 - i) after.0
    further : i ≤ after.2

  Absorbed-ends : (carry i : ℕ) → Absorbed carry i [] ([], carry, i)
  Absorbed-ends carry i = record {
    number = ground (arith, pow-zero to);
    same_size = refl;
    digits = tt;
    zeroes = tt;
    further = omega arith;
  }

  Absorbed-stops :
      (carry i : ℕ) (ds : List ℕ)
      → carry ≡ 0
      → IsDigits to ds
      → ZeroFrom 0 ds
      → Absorbed carry i ds (ds, carry, i)
  Absorbed-stops carry i ds e p z = record {
    number = rw (low_value-ZeroFrom to ds z, e) (omega arith);
    same_size = refl;
    digits = p;
    zeroes = subst (λ t. ZeroFrom t ds) (omega arith) z;
    further = omega arith;
  }

  Absorbed-continues :
      (carry i d c j : ℕ) (ds r : List ℕ)
      → Absorbed ((carry + from * d) / to) (suc i) ds (r, c, j)
      → Absorbed carry i (d ∷ ds) ((carry + from * d) % to ∷ r, c, j)
  Absorbed-continues carry i d c j ds r a = record {
    number =
        let power : to ^ length (d ∷ ds) ≡ to ^ length ds * to = pow-suc to (length ds) in
        rw power (omega (arith, div-add-mod' (carry + from * d) to, ap (λ t. to * t) a.number));
    same_size = ap suc a.same_size;
    digits = (mod-lt (carry + from * d) positive, a.digits);
    zeroes =
        let places : suc (j - suc i) ≡ j - i = omega (arith, a.further) in
        subst (λ t. ZeroFrom t ((carry + from * d) % to ∷ r)) places a.zeroes;
    further = omega (arith, a.further);
  }

  absorb-Absorbed :
      (carry i len : ℕ) (ds : List ℕ)
      → IsDigits to ds
      → ZeroFrom (len - i) ds
      → Absorbed carry i ds (absorb from to carry i len ds)
  unfolding absorb
  absorb-Absorbed carry i len [] p z = Absorbed-ends carry i
  absorb-Absorbed carry i len (d ∷ ds) p z = elim (Bool-cases (not (carry == 0) || ltb i len)) [
    | inl e ↦
        let after = absorb from to ((carry + from * d) / to) (suc i) len ds in
        rw e (
          Absorbed-continues carry i d after.1 after.2 ds after.0 (
            absorb-Absorbed ((carry + from * d) / to) (suc i) len ds p.1
              (subst (λ t. ZeroFrom t ds) (omega arith) (ZeroFrom-tail (len - i) d ds z))))
    | inr e ↦
        let stops : len - i ≡ 0 = ground arith in
        rw e (
          Absorbed-stops carry i (d ∷ ds) (ground arith) p
            (subst (λ t. ZeroFrom t (d ∷ ds)) stops z))
  ]

  pub absorb_digit-IsBuffer :
      (v n c : ℕ) (state : List ℕ × ℕ)
      → IsBuffer to v n state
      → c + from * v < to ^ n
      → (state' : List ℕ × ℕ) × (absorb_digit from to c state ≡ some state')
        × IsBuffer to (c + from * v) n state'
  unfolding absorb_digit
  absorb_digit-IsBuffer v n c (ds, len) b l =
      let after = absorb from to c 0 len ds in
      let start : len ≡ len - 0 = omega arith in
      let a : Absorbed c 0 ds after =
        absorb-Absorbed c 0 len ds b.digits (subst (λ t. ZeroFrom t ds) start b.zeroes) in
      let size : to ^ length ds ≡ to ^ n = ap (λ t. to ^ t) b.sized in
      let input : from * low_value to ds ≡ from * v = ap (λ t. from * t) b.holds in
      let none_left : after.1 ≡ 0 =
        small after.1 (to ^ length ds) (omega (arith, a.number, l, size, input)) in
      let place : after.2 - 0 ≡ after.2 = omega arith in
      let carried : after.1 * to ^ length ds ≡ 0 = rw none_left (omega arith) in
      (
        (after.0, after.2),
        rw none_left refl,
        record {
          holds = omega (arith, a.number, carried, input);
          sized = a.same_size ∙ b.sized;
          digits = a.digits;
          zeroes = subst (λ t. ZeroFrom t after.0) place a.zeroes;
        },
      )

  pub absorb_all-IsBuffer :
      (xs : List ℕ) (v n : ℕ) (state : List ℕ × ℕ)
      → 0 < from
      → IsBuffer to v n state
      → value from v xs < to ^ n
      → (state' : List ℕ × ℕ) × (absorb_all from to xs state ≡ some state')
        × IsBuffer to (value from v xs) n state'
  unfolding absorb_all
  absorb_all-IsBuffer [] v n state f b l = (state, refl, b)
  absorb_all-IsBuffer (x ∷ xs) v n state f b l =
      let e : x + from * v ≡ v * from + x = omega arith in
      let (next, q, b') =
        absorb_digit-IsBuffer v n x state b
          (omega (arith, e, l, value-le from (v * from + x) xs f)) in
      let (state', q', b'') =
        absorb_all-IsBuffer xs (v * from + x) n next f (subst (λ t. IsBuffer to t n next) e b') l in
      (state', rw q q', b'')

  pub replicate-IsBuffer : (n : ℕ) → IsBuffer to 0 n (replicate n 0, 0)
  replicate-IsBuffer n = record {
    holds = zeros-low_value to n;
    sized = length-replicate n 0;
    digits = replicate-All (λ d. d < to) n 0 positive;
    zeroes = zeros-ZeroFrom n;
  }
