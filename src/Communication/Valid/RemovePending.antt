-- ===== src/Communication/Valid/RemovePending.antt =====
-- src/libp2psocket/p2pstate.cpp: `remove_pending` returns, keeps the invariant and leaves exactly
-- the items that are not due, in their order.
use mesh_pp.Prelude.{
  ℕ, zero, suc, ◌+◌, ◌≡◌, ◌<◌, refl, sym, ◌∙◌, subst, String, ℕ_discrete, Bool, true, false, some,
  List, [], ◌∷◌, remove_at, Map, find, All, All-mono, length, contains, ◌==◌, ◌||◌, if◌then◌else◌,
  Bool-cases, Option-cases, arith, inl, inr,
}
use mesh_pp.Net.{Net}
use mesh_pp.Communication.State.{ToRemoveInfo, StateItem, CommunicationState}
use mesh_pp.Communication.Query.{is_pending}
use mesh_pp.Communication.Removal.{
  remove_index, remove_indices, insert_sorted, sort_down, Collected, remove_pending,
}
use mesh_pp.Communication.Invariant.{IsValid}
use mesh_pp.Communication.Valid.Pending.{
  Descending, Descending-All, sort_down-Descending, sort_down-All, remove_indices-IsValid,
}
use mesh_pp.Communication.Valid.Collect.{Collects, IsDue, collect-returns}

module _ {ℓ} {A : Type ℓ} where
  -- The entries, from index `k` on, of which the test does not hold.
  pub keep_from : (ℕ → Bool) → ℕ → List A → List A
  keep_from due k [] = []
  keep_from due k (x ∷ xs) = let rest = keep_from due (suc k) xs in if due k then rest else x ∷ rest

  keep_from-cong :
      (f g : ℕ → Bool) (k : ℕ) (xs : List A)
      → ((i : ℕ) → f i ≡ g i)
      → keep_from f k xs ≡ keep_from g k xs
  unfolding keep_from
  keep_from-cong f g k [] h = refl
  keep_from-cong f g k (x ∷ xs) h = ground (arith, h k, keep_from-cong f g (suc k) xs h)

  remove_all : List ℕ → List A → List A
  remove_all [] xs = xs
  remove_all (i ∷ l) xs = remove_all l (remove_at i xs)

contains-below : (i : ℕ) (l : List ℕ) → All (λ j. j < i) l → contains i l ≡ false
unfolding contains
contains-below i [] a = refl
contains-below i (j ∷ l) a = ground (arith, a.0, contains-below i l a.1)

contains-insert_sorted :
    (i j : ℕ) (l : List ℕ) → contains j (insert_sorted i l) ≡ (j == i || contains j l)
unfolding contains insert_sorted
contains-insert_sorted i j [] = refl
contains-insert_sorted i j (k ∷ l) = ground (arith, contains-insert_sorted i j l)

contains-sort_down : (j : ℕ) (l : List ℕ) → contains j (sort_down l) ≡ contains j l
unfolding contains sort_down
contains-sort_down j [] = refl
contains-sort_down j (i ∷ l) =
    ground (arith, contains-insert_sorted i j (sort_down l), contains-sort_down j l)

module _ {ℓ} {A : Type ℓ} where
  keep_from-below :
      (k : ℕ) (l : List ℕ) (xs : List A)
      → All (λ j. j < k) l
      → keep_from (λ i. contains i l) k xs ≡ xs
  unfolding keep_from
  keep_from-below k l [] a = refl
  keep_from-below k l (x ∷ xs) a = ground (
    arith,
    contains-below k l a,
    keep_from-below (suc k) l xs (All-mono l (λ j h. omega (arith, h)) a),
  )

  -- To drop the greatest index and the others is to erase there and drop the others.
  keep_from-remove_at :
      (k d n : ℕ) (l : List ℕ) (xs : List A)
      → n ≡ k + d
      → All (λ j. j < n) l
      → keep_from (λ i. contains i (n ∷ l)) k xs ≡ keep_from (λ i. contains i l) k (remove_at d xs)
  unfolding keep_from remove_at contains
  keep_from-remove_at k zero n l [] e a = refl
  keep_from-remove_at k (suc d) n l [] e a = refl
  keep_from-remove_at k zero n l (x ∷ xs) e a =
      let below : All (λ j. j < k) l = All-mono l (λ j h. omega (arith, h, e)) a in
      let above : All (λ j. j < suc k) l = All-mono l (λ j h. omega (arith, h, e)) a in
      ground (
        arith,
        keep_from-below k l xs below,
        keep_from-below (suc k) (n ∷ l) xs (omega (arith, e), above),
      )
  keep_from-remove_at k (suc d) n l (x ∷ xs) e a =
      ground (arith, keep_from-remove_at (suc k) d n l xs (omega (arith, e)) a)

  remove_all-keep_from :
      (n : ℕ) (l : List ℕ) (xs : List A)
      → Descending n l
      → remove_all l xs ≡ keep_from (λ i. contains i l) 0 xs
  unfolding remove_all
  remove_all-keep_from n [] xs d = sym (keep_from-below 0 [] xs tt)
  remove_all-keep_from n (i ∷ l) xs d =
      remove_all-keep_from i l (remove_at i xs) d.1
      ∙ sym (keep_from-remove_at 0 i i l xs (omega arith) (Descending-All i l d.1))

contains-All : (P : ℕ → Type 0) (i : ℕ) (l : List ℕ) → contains i l ≡ true → All P l → P i
unfolding contains
contains-All P i [] h a = absurd (ground arith)
contains-All P i (j ∷ l) h a = elim (ℕ_discrete i j) [
  | yes q ↦ subst P (sym q) a.0
  | no n ↦ contains-All P i l (ground arith) a.1
]

module _ (net : Net) where
  peers-remove_indices :
      (l : List ℕ) (s : CommunicationState net)
      → (remove_indices net l s).peers ≡ remove_all l s.peers
  unfolding remove_indices remove_index remove_all
  peers-remove_indices [] s = refl
  peers-remove_indices (i ∷ l) s = peers-remove_indices l (remove_index net i s)

  -- The indices collected are those that are pending.
  contains-pending :
      (m : Map ℕ ToRemoveInfo) (peers : List (StateItem net)) (c : Collected net)
      → Collects net peers m c
      → (i : ℕ) → contains i c.indices ≡ is_pending m i
  unfolding is_pending
  contains-pending m peers c h i = elim (Bool-cases (contains i c.indices)) [
    | inl e ↦
        let (info, f, z) = contains-All (IsDue m) i c.indices e h.due in ground (arith, e, f, z)
    | inr e ↦ elim (Option-cases (find ℕ_discrete i m)) [
      | inl f ↦ ground (arith, e, f)
      | inr (info, f) ↦ elim (Bool-cases (info.steps == 0)) [
        | inr n ↦ ground (arith, e, f, n)
        | inl z ↦ absurd (ground (arith, e, h.complete i (info, f, ground (arith, z))))
      ]
    ]
  ]

  cleared :
      (s : CommunicationState net) (c : Collected net)
      → IsValid net s
      → Collects net s.peers s.map_to_remove c
      → IsValid net (record s { map_to_remove = c.kept })
  cleared s c v h = record {
    address_entries = v.address_entries;
    peer_entries = v.peer_entries;
    key_entries = v.key_entries;
    addresses_found = v.addresses_found;
    peers_found = v.peers_found;
    listen_passive = v.listen_passive;
    connect_passive = v.connect_passive;
    removals = h.removals;
    removals_unique = h.unique;
  }

  -- `remove_pending` returns on a valid state, and so reads no index out of range and no peer of a
  -- passive item, and keeps the state valid. The items that are left are those that were not
  -- pending, in their order.
  pub remove_pending-peers :
      (s : CommunicationState net)
      → IsValid net s
      → (r : CommunicationState net × List (String × Bool) × List String) × (remove_pending net s
          ≡ some r)
        × IsValid net r.0
        × (r.0.peers ≡ keep_from (is_pending s.map_to_remove) 0 s.peers)
  unfolding remove_pending
  remove_pending-peers s v =
      let (c, e, h) = collect-returns net s.peers s.map_to_remove v.removals v.removals_unique in
      let l = sort_down c.indices in
      let d = sort_down-Descending (length s.peers) c.indices h.in_range h.distinct in
      let t : CommunicationState net = record s { map_to_remove = c.kept } in
      (
        (remove_indices net l t, c.keys, c.drops),
        ground (arith, e),
        remove_indices-IsValid net l t (cleared s c v h) d (
            sort_down-All _ c.indices
              (All-mono c.indices (λ i q. ground (arith, h.waiting i, q.1, q.2)) h.due)),
        peers-remove_indices l t
            ∙ remove_all-keep_from (length s.peers) l s.peers d
            ∙ keep_from-cong _ _ 0 s.peers (λ i.
              contains-sort_down i c.indices ∙ contains-pending s.map_to_remove s.peers c h i),
      )
