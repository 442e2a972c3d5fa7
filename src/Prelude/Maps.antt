-- ===== src/Prelude/Maps.antt =====
-- `unordered_map` as an association list and `unordered_set<size_t>` as a list of numbers.
use Prim.Native.Nat.{ℕ}
use mathlib.Core.Path.{◌≡◌, refl, subst}
use mathlib.Core.Logic.{◌≢◌, ite, if_pos, if_neg, inl, inr}
use mathlib.Core.Bool.{Bool, false, ◌||◌}
use mathlib.Core.List.{List, [], ◌∷◌}
use mathlib.Core.Option.{Option, none, some}
use native.Mathlib.Omega.{arith}
use native.Mathlib.Decide.{ℕ_discrete}
use mesh_pp.Prelude.Tests.{◌==◌, if◌then◌else◌, Bool-cases}
use mesh_pp.Prelude.Lists.{All}

abbrev pub Map {ℓ} : Type ℓ → Type ℓ → Type ℓ
Map K V = List (K × V)

module _ {ℓ} {K V : Type ℓ} (dec : Discrete K) where
  unfoldable pub find : K → Map K V → Option V
  find k [] = none
  find k ((j, v) ∷ m) = ite (dec j k) (some v) (find k m)

  unfoldable pub erase : K → Map K V → Map K V
  erase k [] = []
  erase k ((j, v) ∷ m) = ite (dec j k) (erase k m) ((j, v) ∷ erase k m)

  -- `m[k] = v`.
  unfoldable pub assign : K → V → Map K V → Map K V
  unfolding erase
  assign k v m = (k, v) ∷ erase k m

  pub find-cons :
      (k j : K) (v : V) (m : Map K V) → find j ((k, v) ∷ m) ≡ ite (dec k j) (some v) (find j m)
  unfolding find
  find-cons k j v m = refl

  pub find-erase : (k j : K) (m : Map K V) → find j (erase k m) ≡ ite (dec k j) none (find j m)
  unfolding find erase
  find-erase k j [] = ground arith
  find-erase k j ((i, v) ∷ m) = ground (arith, find-erase k j m)

  pub find-assign :
      (k j : K) (v : V) (m : Map K V) → find j (assign k v m) ≡ ite (dec k j) (some v) (find j m)
  unfolding find assign
  find-assign k j v m = ground (arith, find-erase k j m)

  -- What holds of each entry holds of the one that is found.
  pub find-All {ι} :
      (P : K × V → Type ι) (k : K) (m : Map K V) {v : V} → All P m → find k m ≡ some v → P (k, v)
  unfolding find
  find-All P k [] a h = absurd (ground arith)
  find-All P k ((j, w) ∷ m) {v} a h = elim (dec j k) [
    | yes e ↦ let p : w ≡ v = ground arith in subst (λ x. P (x, v)) e (subst (λ x. P (j, x)) p a.0)
    | no n ↦ find-All P k m a.1 (rw (if_neg _ n) at h)
  ]

  -- An entry under another key stays, with what is asked of it.
  pub All-erase {ι κ} :
      (P : K × V → Type ι) (Q : K × V → Type κ) (k : K) (m : Map K V)
      → ((j : K) (v : V) → P (j, v) → j ≢ k → Q (j, v))
      → All P m
      → All Q (erase k m)
  unfolding erase
  All-erase P Q k [] f a = tt
  All-erase P Q k ((j, v) ∷ m) f a = elim (dec j k) [
    | yes e ↦ rw (if_pos _ e) (All-erase P Q k m f a.1)
    | no n ↦ rw (if_neg _ n) (f j v a.0 n, All-erase P Q k m f a.1)
  ]

  -- Every entry is under another key than one that is not found.
  pub All-absent {ι κ} :
      (P : K × V → Type ι) (Q : K × V → Type κ) (k : K) (m : Map K V)
      → find k m ≡ none
      → ((j : K) (v : V) → P (j, v) → j ≢ k → Q (j, v))
      → All P m
      → All Q m
  unfolding find
  All-absent P Q k [] h f a = tt
  All-absent P Q k ((j, v) ∷ m) h f a = elim (dec j k) [
    | yes e ↦ absurd (ground arith)
    | no n ↦ (f j v a.0 n, All-absent P Q k m (rw (if_neg _ n) at h) f a.1)
  ]

  -- No key occurs twice.
  abbrev pub Unique : Map K V → Type ℓ
  Unique [] = Unit
  Unique ((k, v) ∷ m) = (find k m ≡ none) × Unique m

  pub erase-Unique : (k : K) (m : Map K V) → Unique m → Unique (erase k m)
  unfolding erase
  erase-Unique k [] u = tt
  erase-Unique k ((j, v) ∷ m) u = elim (dec j k) [
    | yes e ↦ rw (if_pos _ e) (erase-Unique k m u.1)
    | no n ↦ rw (if_neg _ n) (rw (find-erase k j m) (ground (arith, u.0)), erase-Unique k m u.1)
  ]

  pub assign-Unique : (k : K) (v : V) (m : Map K V) → Unique m → Unique (assign k v m)
  unfolding assign
  assign-Unique k v m u = (rw (find-erase k k m) (ground arith), erase-Unique k m u)

-- Sets of numbers.
unfoldable pub contains : ℕ → List ℕ → Bool
contains i [] = false
contains i (j ∷ s) = i == j || contains i s

unfoldable pub insert : ℕ → List ℕ → List ℕ
unfolding contains
insert i s = if contains i s then s else i ∷ s

unfoldable pub discard : ℕ → List ℕ → List ℕ
discard i [] = []
discard i (j ∷ s) = if j == i then discard i s else j ∷ discard i s

pub contains-insert : (i j : ℕ) (s : List ℕ) → contains j (insert i s) ≡ (j == i || contains j s)
unfolding insert
contains-insert i j s = elim (ℕ_discrete j i) [ yes e ↦ rw e (ground arith) | no n ↦ ground arith ]

pub contains-discard :
    (i j : ℕ) (s : List ℕ) → contains j (discard i s) ≡ (if j == i then false else contains j s)
unfolding contains discard
contains-discard i j [] = ground arith
contains-discard i j (k ∷ s) = ground (arith, contains-discard i j s)

pub All-insert {ι} : (P : ℕ → Type ι) (i : ℕ) (s : List ℕ) → P i → All P s → All P (insert i s)
unfolding insert
All-insert P i s p a = elim (Bool-cases (contains i s)) [ inl e ↦ rw e a | inr e ↦ rw e (p, a) ]

pub All-discard {ι κ} :
    (P : ℕ → Type ι) (Q : ℕ → Type κ) (i : ℕ) (s : List ℕ)
    → ((j : ℕ) → P j → j ≢ i → Q j)
    → All P s
    → All Q (discard i s)
unfolding discard
All-discard P Q i [] f a = tt
All-discard P Q i (j ∷ s) f a = elim (Bool-cases (j == i)) [
  | inl e ↦ rw e (All-discard P Q i s f a.1)
  | inr e ↦ rw e (f j a.0 (ground arith), All-discard P Q i s f a.1)
]
