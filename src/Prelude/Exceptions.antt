-- ===== src/Prelude/Exceptions.antt =====
-- Exceptions as values: what the code throws.
use mathlib.Core.Path.{◌≡◌, refl}
use mathlib.Core.Logic.{◌⊎◌, inl, inr}

pub data Exception : Type 0 where
  logic_error runtime_error : Exception

pub data Result {ℓ} (A : Type ℓ) : Type ℓ where
  ok : A → Result A
  throw : Exception → Result A

pub Result-cases {ℓ} :
    {A : Type ℓ} (r : Result A) → ((e : Exception) × (r ≡ throw e)) ⊎ ((a : A) × (r ≡ ok a))
Result-cases (throw e) = inl (e, refl)
Result-cases (ok a) = inr (a, refl)
