-- ===== src/Communication/Entries.antt =====
-- Maps from keys to indices of a list: what src/libp2psocket/p2pstate.cpp keeps in step with
-- `peers`.
use mesh_pp.Prelude.{
  ℕ, suc, ◌≡◌, ◌≢◌, ◌<◌, sym, subst, Option, none, some, List, [], ◌∷◌, ◌++◌, length, get_elem?,
  set, remove_at, shift, lt-length, get_elem?-set, get_elem?-remove_at_inv, Map, find, erase,
  assign, All, All-mono, All-erase, At, At-append, At-set_ne, At-remove_at, ℕ_discrete, arith,
  if_neg,
}
use mesh_pp.Communication.Removal.{remove_from_map}

module _ {A K : Type 0} (dec : Discrete K) (key : A → Option K) where
  -- Each entry of the map leads to an item that has its key.
  abbrev pub Entries : List A → Map K ℕ → Type 0
  Entries xs m = All (λ e. At xs e.1 (λ x. key x ≡ some e.0)) m

  -- Each item that has a key is found under it.
  abbrev pub Covers : List A → Map K ℕ → Type 0
  Covers xs m =
      (i : ℕ) (x : A) (k : K) → get_elem? xs i ≡ some x → key x ≡ some k → find dec k m ≡ some i

  pub Entries-append : (xs ys : List A) (m : Map K ℕ) → Entries xs m → Entries (xs ++ ys) m
  Entries-append xs ys m h = All-mono m (λ e a. At-append _ xs ys e.1 a) h

  pub Entries-erase :
      (xs : List A) (k : K) (m : Map K ℕ) → Entries xs m → Entries xs (erase dec k m)
  Entries-erase xs k m h = All-erase dec _ _ k m (λ j v a n. a) h

  pub Entries-assign :
      (xs : List A) (k : K) (i : ℕ) (m : Map K ℕ)
      → At xs i (λ x. key x ≡ some k)
      → Entries xs m
      → Entries xs (assign dec k i m)
  unfolding assign
  Entries-assign xs k i m a h = (a, Entries-erase xs k m h)

  module _ (xs : List A) (index : ℕ) (x v : A) (at : get_elem? xs index ≡ some x)
      (m : Map K ℕ) where
    -- The item is replaced, and the entry under its key goes.
    pub Entries-set-erase :
        (k : K) → key x ≡ some k → Entries xs m → Entries (set xs index v) (erase dec k m)
    Entries-set-erase k e h =
        All-erase dec _ _ k m
          (λ j i a n.
            At-set_ne _ xs index i v (lt-length xs index at)
              (λ p. n (ground (arith, a.1, a.2, e, at, p))) a)
          h

    -- The item is replaced by one with the same key.
    pub Entries-set_same : key v ≡ key x → Entries xs m → Entries (set xs index v) m
    Entries-set_same e h = All-mono m step h
      where
        step :
            (p : K × ℕ)
            → At xs p.1 (λ y. key y ≡ some p.0)
            → At (set xs index v) p.1 (λ y. key y ≡ some p.0)
        step (k, i) a = elim (ℕ_discrete i index) [
          | yes q ↦ (
            v,
            rw (get_elem?-set xs index i v (lt-length xs index at)) (ground arith),
            ground (arith, a.1, a.2, at, e, q),
          )
          | no n ↦ At-set_ne _ xs index i v (lt-length xs index at) n a
        ]

    -- An item without a key is replaced.
    pub Entries-set-none : key x ≡ none → Entries xs m → Entries (set xs index v) m
    Entries-set-none e h =
        All-mono m
          (λ p a.
            At-set_ne _ xs index p.1 v (lt-length xs index at)
              (λ q. absurd (ground (arith, a.1, a.2, e, at, q))) a)
          h

    -- The other items keep their entries, and the new one has one.
    pub Covers-set :
        (m' : Map K ℕ)
        → ((k : K) (i : ℕ) → i ≢ index → find dec k m ≡ some i → find dec k m' ≡ some i)
        → ((k : K) → key v ≡ some k → find dec k m' ≡ some index)
        → Covers xs m
        → Covers (set xs index v) m'
    Covers-set m' keep new c i y k g e =
        let g' = rw (get_elem?-set xs index i v (lt-length xs index at)) at g in
        elim (ℕ_discrete index i) [
          | yes q ↦ subst (λ (t : ℕ). find dec k m' ≡ some t) q (new k (ground arith))
          | no n ↦ keep k i (λ q. n (sym q)) (c i y k (rw (if_neg _ n) at g') e)
        ]

  -- An erased entry of the list leaves the map with its indices moved.
  pub Entries-remove :
      (index : ℕ) (xs : List A) (m : Map K ℕ)
      → Entries xs m
      → Entries (remove_at index xs) (remove_from_map index m)
  unfolding remove_from_map
  Entries-remove index xs [] h = tt
  Entries-remove index xs ((k, i) ∷ m) h = elim (ℕ_discrete i index) [
    | yes q ↦ ground (arith, q, Entries-remove index xs m h.1)
    | no n ↦ ground (arith, n, At-remove_at _ index xs i n h.0, Entries-remove index xs m h.1)
  ]

  find-remove_from_map :
      (index : ℕ) (k : K) (i : ℕ) (m : Map K ℕ)
      → find dec k m ≡ some i
      → i ≢ index
      → find dec k (remove_from_map index m) ≡ some (shift index i)
  unfolding remove_from_map find
  find-remove_from_map index k i [] h n = absurd (ground arith)
  find-remove_from_map index k i ((j, v) ∷ m) h n = ground (arith, find-remove_from_map index k i m)

  pub Covers-remove :
      (index : ℕ) (xs : List A) (m : Map K ℕ)
      → index < length xs
      → Covers xs m
      → Covers (remove_at index xs) (remove_from_map index m)
  Covers-remove index xs m l c i x k g e = ground (
    arith,
    get_elem?-remove_at_inv index xs i g l,
    c i x k,
    c (suc i) x k,
    find-remove_from_map index k i m,
    find-remove_from_map index k (suc i) m,
  )
