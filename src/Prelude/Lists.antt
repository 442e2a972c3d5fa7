-- ===== src/Prelude/Lists.antt =====
-- Lists measured and indexed by native numbers, and sets of numbers as lists.
use Prim.Native.Nat.{ℕ, zero, suc, ◌+◌, ◌-◌, ◌<◌}
use mathlib.Core.Path.{◌≡◌, refl, ap, subst}
use mathlib.Core.Logic.{◌≢◌, ite, ◌⊎◌, inl, inr}
use mathlib.Core.List.{List, [], ◌∷◌, ◌++◌}
use mathlib.Core.Option.{Option, none, some}
use native.Mathlib.Omega.{arith}
use native.Mathlib.Decide.{ℕ_discrete}
use mesh_pp.Prelude.Tests.{ltb, if◌then◌else◌}

module _ {ℓ} {A : Type ℓ} where
  abbrev pub length : List A → ℕ
  length [] = 0
  length (x ∷ xs) = suc (length xs)

  unfoldable pub get_elem? : List A → ℕ → Option A
  get_elem? [] i = none
  get_elem? (x ∷ xs) zero = some x
  get_elem? (x ∷ xs) (suc i) = get_elem? xs i

  -- A write out of bounds changes nothing.
  unfoldable pub set : List A → ℕ → A → List A
  set [] i v = []
  set (x ∷ xs) zero v = v ∷ xs
  set (x ∷ xs) (suc i) v = x ∷ set xs i v

  -- `v.erase(v.begin() + i)`.
  unfoldable pub remove_at : ℕ → List A → List A
  remove_at i [] = []
  remove_at zero (x ∷ xs) = xs
  remove_at (suc i) (x ∷ xs) = x ∷ remove_at i xs

module _ {ℓ} {A : Type ℓ} where
  pub length-append : (xs ys : List A) → length (xs ++ ys) ≡ length xs + length ys
  length-append [] ys = omega arith
  length-append (x ∷ xs) ys = omega (arith, length-append xs ys)

  pub length-set : (xs : List A) (i : ℕ) (v : A) → length (set xs i v) ≡ length xs
  unfolding set
  length-set [] i v = refl
  length-set (x ∷ xs) zero v = refl
  length-set (x ∷ xs) (suc i) v = ap suc (length-set xs i v)

  pub lt-length : (xs : List A) (i : ℕ) {x : A} → get_elem? xs i ≡ some x → i < length xs
  unfolding get_elem?
  lt-length [] i h = ground arith
  lt-length (y ∷ xs) zero h = omega arith
  lt-length (y ∷ xs) (suc i) h = omega (arith, lt-length xs i h)

  pub get_elem?_of_lt : (xs : List A) (i : ℕ) → i < length xs → (x : A) × (get_elem? xs i ≡ some x)
  unfolding get_elem?
  get_elem?_of_lt [] i h = absurd (omega arith)
  get_elem?_of_lt (x ∷ xs) zero h = (x, refl)
  get_elem?_of_lt (x ∷ xs) (suc i) h = get_elem?_of_lt xs i (omega arith)

  pub get_elem?-set :
      (xs : List A) (i j : ℕ) (v : A)
      → i < length xs
      → get_elem? (set xs i v) j ≡ ite (ℕ_discrete i j) (some v) (get_elem? xs j)
  unfolding get_elem? set
  get_elem?-set [] i j v h = absurd (omega arith)
  get_elem?-set (x ∷ xs) zero zero v h = ground arith
  get_elem?-set (x ∷ xs) zero (suc j) v h = ground arith
  get_elem?-set (x ∷ xs) (suc i) zero v h = ground arith
  get_elem?-set (x ∷ xs) (suc i) (suc j) v h = ground (arith, get_elem?-set xs i j v)

  pub get_elem?-append :
      (xs ys : List A) (i : ℕ) {x : A} → get_elem? xs i ≡ some x → get_elem? (xs ++ ys) i ≡ some x
  unfolding get_elem?
  get_elem?-append [] ys i h = ground arith
  get_elem?-append (y ∷ xs) ys zero h = h
  get_elem?-append (y ∷ xs) ys (suc i) h = get_elem?-append xs ys i h

  pub get_elem?-append_last : (xs : List A) (x : A) → get_elem? (xs ++ x ∷ []) (length xs) ≡ some x
  unfolding get_elem?
  get_elem?-append_last [] x = refl
  get_elem?-append_last (y ∷ xs) x = get_elem?-append_last xs x

  -- An entry of the longer list is an old one, or the last.
  pub get_elem?-append_cases :
      (xs : List A) (x : A) (i : ℕ) {y : A}
      → get_elem? (xs ++ x ∷ []) i ≡ some y
      → (get_elem? xs i ≡ some y) ⊎ ((i ≡ length xs) × (x ≡ y))
  unfolding get_elem?
  get_elem?-append_cases [] x zero h = inr (refl, ground arith)
  get_elem?-append_cases [] x (suc i) h = absurd (ground arith)
  get_elem?-append_cases (z ∷ xs) x zero h = inl h
  get_elem?-append_cases (z ∷ xs) x (suc i) h = elim (get_elem?-append_cases xs x i h) [
    | inl old ↦ inl old
    | inr (e, p) ↦ inr (ap suc e, p)
  ]

-- Where an index stands after the entry at `index` is erased.
abbrev pub shift : ℕ → ℕ → ℕ
shift index i = if ltb index i then i - 1 else i

module _ {ℓ} {A : Type ℓ} where
  pub get_elem?-remove_at :
      (index : ℕ) (xs : List A) (i : ℕ) {x : A}
      → get_elem? xs i ≡ some x
      → i ≢ index
      → get_elem? (remove_at index xs) (shift index i) ≡ some x
  unfolding get_elem? remove_at
  get_elem?-remove_at index [] i h n = ground arith
  get_elem?-remove_at zero (y ∷ xs) zero h n = absurd (n refl)
  get_elem?-remove_at zero (y ∷ xs) (suc i) h n = ground arith
  get_elem?-remove_at (suc index) (y ∷ xs) zero h n = ground arith
  get_elem?-remove_at (suc index) (y ∷ xs) (suc zero) h n =
      ground (arith, get_elem?-remove_at index xs zero h)
  get_elem?-remove_at (suc index) (y ∷ xs) (suc (suc i)) h n =
      ground (arith, get_elem?-remove_at index xs (suc i) h)

  -- Where an entry of the shorter list stood.
  pub get_elem?-remove_at_inv :
      (index : ℕ) (xs : List A) (i : ℕ) {x : A}
      → get_elem? (remove_at index xs) i ≡ some x
      → index < length xs
      → get_elem? xs (if ltb i index then i else suc i) ≡ some x
  unfolding get_elem? remove_at
  get_elem?-remove_at_inv index [] i h l = absurd (omega arith)
  get_elem?-remove_at_inv zero (y ∷ xs) i h l = ground arith
  get_elem?-remove_at_inv (suc index) (y ∷ xs) zero h l = ground arith
  get_elem?-remove_at_inv (suc index) (y ∷ xs) (suc i) h l =
      ground (arith, get_elem?-remove_at_inv index xs i h)

  pub length-remove_at :
      (index : ℕ) (xs : List A) → index < length xs → length (remove_at index xs) + 1 ≡ length xs
  unfolding remove_at
  length-remove_at index [] h = absurd (omega arith)
  length-remove_at zero (x ∷ xs) h = omega arith
  length-remove_at (suc index) (x ∷ xs) h = omega (arith, length-remove_at index xs (omega arith))

-- A predicate on each entry.
abbrev pub All {ℓ κ} : {A : Type ℓ} → (A → Type κ) → List A → Type κ
All P [] = Unit
All P (x ∷ xs) = P x × All P xs

module _ {ℓ} {A : Type ℓ} where
  pub All-mono {κ ι} :
      {P : A → Type κ} {Q : A → Type ι} (xs : List A) → ((x : A) → P x → Q x) → All P xs → All Q xs
  All-mono [] f h = tt
  All-mono (x ∷ xs) f h = (f x h.0, All-mono xs f h.1)

-- An entry stands at the index, and has the property.
abbrev pub At {ℓ κ} : {A : Type ℓ} → List A → ℕ → (A → Type κ) → Type (ℓ ⊔ κ)
At {A = A} xs i Q = (x : A) × (get_elem? xs i ≡ some x) × Q x

module _ {ℓ κ} {A : Type ℓ} where
  pub At-append : (Q : A → Type κ) (xs ys : List A) (i : ℕ) → At xs i Q → At (xs ++ ys) i Q
  At-append Q xs ys i (x, e, q) = (x, get_elem?-append xs ys i e, q)

  pub At-set_self :
      (Q : A → Type κ) (xs : List A) (i : ℕ) (v : A) → i < length xs → Q v → At (set xs i v) i Q
  At-set_self Q xs i v h q = (v, rw (get_elem?-set xs i i v h) (ground arith), q)

  pub At-set_ne :
      (Q : A → Type κ) (xs : List A) (i j : ℕ) (v : A)
      → i < length xs
      → j ≢ i
      → At xs j Q
      → At (set xs i v) j Q
  At-set_ne Q xs i j v h n (x, e, q) = (x, rw (get_elem?-set xs i j v h) (ground arith), q)

  pub At-remove_at :
      (Q : A → Type κ) (index : ℕ) (xs : List A) (i : ℕ)
      → i ≢ index
      → At xs i Q
      → At (remove_at index xs) (shift index i) Q
  At-remove_at Q index xs i n (x, e, q) = (x, get_elem?-remove_at index xs i e n, q)

  pub At-lt : (Q : A → Type κ) (xs : List A) (i : ℕ) → At xs i Q → i < length xs
  At-lt Q xs i (x, e, q) = lt-length xs i e

module _ {ℓ κ} {A : Type ℓ} where
  -- A write keeps what the old entry had and the new one has.
  pub At-set :
      (Q : A → Type κ) (xs : List A) (i j : ℕ) (x v : A)
      → get_elem? xs i ≡ some x
      → (Q x → Q v)
      → At xs j Q
      → At (set xs i v) j Q
  At-set Q xs i j x v at f (y, e, q) = elim (ℕ_discrete j i) [
    | yes p ↦
        let same : y ≡ x = ground arith in
        (v, rw (get_elem?-set xs i j v (lt-length xs i at)) (ground arith), f (subst Q same q))
    | no n ↦ At-set_ne Q xs i j v (lt-length xs i at) n (y, e, q)
  ]
