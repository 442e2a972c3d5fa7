-- ===== src/Communication/Valid/Pending.antt =====
-- src/libp2psocket/p2pstate.cpp: what the first loop of `remove_pending` collects, and that the
-- whole keeps the invariant.
use mesh_pp.Prelude.{
  ℕ, ◌+◌, ◌≡◌, ◌≢◌, ◌<◌, ◌≤◌, ◌∙◌, ℕ_discrete, none, List, [], ◌∷◌, Map, find, All, All-mono,
  length, length-remove_at, leb, Bool-cases, arith, inl, inr,
}
use mesh_pp.Net.{Net}
use mesh_pp.Communication.State.{ToRemoveInfo, CommunicationState}
use mesh_pp.Communication.Removal.{remove_index, remove_indices, insert_sorted, sort_down}
use mesh_pp.Communication.Invariant.{IsValid}
use mesh_pp.Communication.Valid.Renumber.{remove_index-IsValid, find-renumber_below}

-- Indices that fall, below a bound.
abbrev pub Descending : ℕ → List ℕ → Type 0
Descending n [] = Unit {0}
Descending n (i ∷ l) = (i < n) × Descending i l

pub Descending-mono : (m n : ℕ) (l : List ℕ) → m ≤ n → Descending m l → Descending n l
Descending-mono m n [] h d = tt
Descending-mono m n (i ∷ l) h d = (omega arith, d.1)

pub Descending-All : (n : ℕ) (l : List ℕ) → Descending n l → All (λ i. i < n) l
Descending-All n [] d = tt
Descending-All n (i ∷ l) d =
    (d.0, All-mono l (λ j h. omega (arith, h, d.0)) (Descending-All i l d.1))

insert_sorted-Descending :
    (n i : ℕ) (l : List ℕ)
    → i < n
    → All (λ j. j ≢ i) l
    → Descending n l
    → Descending n (insert_sorted i l)
unfolding insert_sorted
insert_sorted-Descending n i [] h a d = (h, tt)
insert_sorted-Descending n i (j ∷ l) h a d = elim (Bool-cases (leb j i)) [
  | inl first ↦ rw first (h, (ground arith, d.1))
  | inr later ↦ rw later (d.0, insert_sorted-Descending j i l (ground arith) a.1 d.1)
]

pub insert_sorted-All :
    (P : ℕ → Type 0) (i : ℕ) (l : List ℕ) → P i → All P l → All P (insert_sorted i l)
unfolding insert_sorted
insert_sorted-All P i [] p a = (p, tt)
insert_sorted-All P i (j ∷ l) p a = elim (Bool-cases (leb j i)) [
  | inl first ↦ rw first (p, a)
  | inr later ↦ rw later (a.0, insert_sorted-All P i l p a.1)
]

pub sort_down-All : (P : ℕ → Type 0) (l : List ℕ) → All P l → All P (sort_down l)
unfolding sort_down
sort_down-All P [] a = tt
sort_down-All P (i ∷ l) a = insert_sorted-All P i (sort_down l) a.0 (sort_down-All P l a.1)

-- No index is in the list twice.
abbrev pub Distinct : List ℕ → Type 0
Distinct [] = Unit {0}
Distinct (i ∷ l) = All (λ j. j ≢ i) l × Distinct l

pub sort_down-Descending :
    (n : ℕ) (l : List ℕ) → All (λ i. i < n) l → Distinct l → Descending n (sort_down l)
unfolding sort_down
sort_down-Descending n [] a d = tt
sort_down-Descending n (i ∷ l) a d =
    insert_sorted-Descending n i (sort_down l) a.0 (sort_down-All _ l d.0)
      (sort_down-Descending n l a.1 d.1)

absent_below :
    (n : ℕ) (m m' : Map ℕ ToRemoveInfo) (l : List ℕ)
    → ((j : ℕ) → j < n → find ℕ_discrete j m' ≡ find ℕ_discrete j m)
    → Descending n l
    → All (λ i. find ℕ_discrete i m ≡ none) l
    → All (λ i. find ℕ_discrete i m' ≡ none) l
absent_below n m m' [] f d a = tt
absent_below n m m' (i ∷ l) f d a =
    (f i d.0 ∙ a.0, absent_below i m m' l (λ j h. f j (omega (arith, h, d.0))) d.1 a.1)

module _ (net : Net) where
  pub length-remove_index :
      (index : ℕ) (s : CommunicationState net)
      → index < length s.peers
      → length (remove_index net index s).peers + 1 ≡ length s.peers
  unfolding remove_index
  length-remove_index index s h = length-remove_at index s.peers h

  find-remove_index :
      (index : ℕ) (s : CommunicationState net) (j : ℕ)
      → j < index
      → find ℕ_discrete j (remove_index net index s).map_to_remove
        ≡ find ℕ_discrete j s.map_to_remove
  unfolding remove_index
  find-remove_index index s j h = find-renumber_below _ (index + 1) j s.map_to_remove (omega arith)

  -- The rounds of the second loop keep the invariant, from the greatest index down.
  pub remove_indices-IsValid :
      (l : List ℕ) (s : CommunicationState net)
      → IsValid net s
      → Descending (length s.peers) l
      → All (λ i. find ℕ_discrete i s.map_to_remove ≡ none) l
      → IsValid net (remove_indices net l s)
  unfolding remove_indices
  remove_indices-IsValid [] s v d a = v
  remove_indices-IsValid (index ∷ l) s v d a =
      remove_indices-IsValid l (remove_index net index s)
        (remove_index-IsValid net index s v d.0 a.0)
        (Descending-mono index _ l (omega (arith, length-remove_index index s d.0, d.0)) d.1)
        (absent_below index s.map_to_remove _ l (λ j h. find-remove_index index s j h) d.1 a.1)
