-- ===== src/Communication/Valid/Renumber.antt =====
-- src/libp2psocket/p2pstate.cpp: one round of the second loop of `remove_pending` keeps the
-- invariant.
use mesh_pp.Prelude.{
  ℕ, zero, suc, ◌+◌, ◌-◌, ◌≡◌, ◌≢◌, ◌<◌, ◌≤◌, ◌⊎◌, refl, sym, ◌∙◌, subst, string_discrete,
  ℕ_discrete, true, none, some, List, [], ◌∷◌, find-cons, remove_at, Map, find, erase, find-erase,
  All, All-mono, All-erase, All-absent, All-insert, At, At-lt, At-remove_at, Unique, erase-Unique,
  find-All, length, ltb, Bool-cases, Option-cases, arith, inl, inr,
}
use mesh_pp.Net.{Net}
use mesh_pp.Communication.State.{ToRemoveInfo, StateItem, CommunicationState}
use mesh_pp.Communication.Removal.{remove_from_set, renumber, renumber_step, remove_index}
use mesh_pp.Communication.Entries.{Entries-remove, Covers-remove}
use mesh_pp.Communication.Invariant.{item_address, item_key, item_peer, IsValid, Removals}

remove_from_set-All :
    {A : Type 0} (Q : A → Type 0) (xs : List A) (index : ℕ) (l : List ℕ)
    → All (λ i. At xs i Q) l
    → All (λ i. At (remove_at index xs) i Q) (remove_from_set index l)
unfolding remove_from_set
remove_from_set-All Q xs index [] a = tt
remove_from_set-All Q xs index (i ∷ l) a =
    let rest = remove_from_set-All Q xs index l a.1 in
    elim (Bool-cases (ltb index i)) [
      | inl above ↦ rw above (
          All-insert _ (i - 1) _ (ground (arith, At-remove_at Q index xs i (ground arith) a.0))
            rest)
      | inr not_above ↦ elim (Bool-cases (ltb i index)) [
        | inl below ↦
            rw (not_above, below)
              (All-insert _ i _ (ground (arith, At-remove_at Q index xs i (ground arith) a.0)) rest)
        | inr not_below ↦ rw (not_above, not_below) rest
      ]
    ]

-- A step moves the entry at `k` one down, where nothing stands one down.
renumber_step-eq :
    (k : ℕ) (m : Map ℕ ToRemoveInfo) (info : ToRemoveInfo)
    → find ℕ_discrete k m ≡ some info
    → find ℕ_discrete (k - 1) m ≡ none
    → renumber_step k m ≡ erase ℕ_discrete k ((k - 1, info) ∷ m)
unfolding renumber_step
renumber_step-eq k m info e f = rw (e, f, renumber_step)

renumber_step-none :
    (k : ℕ) (m : Map ℕ ToRemoveInfo) → find ℕ_discrete k m ≡ none → renumber_step k m ≡ m
unfolding renumber_step
renumber_step-none k m e = rw (e, renumber_step)

-- The entries below the indices that are renumbered stay.
find-renumber_step :
    (k j : ℕ) (m : Map ℕ ToRemoveInfo)
    → j + 1 < k
    → find ℕ_discrete j (renumber_step k m) ≡ find ℕ_discrete j m
unfolding renumber_step
find-renumber_step k j m h = elim (Option-cases (find ℕ_discrete k m)) [
  | inl e ↦ rw (e, renumber_step)
  | inr (info, e) ↦ elim (Option-cases (find ℕ_discrete (k - 1) m)) [
    | inl f ↦
        rw (e, f, renumber_step)
          (rw (find-erase ℕ_discrete k j ((k - 1, info) ∷ m), find-cons ℕ_discrete (k - 1) j info m)
            (ground arith))
    | inr (_, f) ↦ rw (e, f, renumber_step) (rw (find-erase ℕ_discrete k j m) (ground arith))
  ]
]

pub find-renumber_below :
    (rounds k j : ℕ) (m : Map ℕ ToRemoveInfo)
    → j + 1 < k
    → find ℕ_discrete j (renumber rounds k m) ≡ find ℕ_discrete j m
unfolding renumber
find-renumber_below zero k j m h = refl
find-renumber_below (suc rounds) k j m h =
    find-renumber_below rounds (suc k) j _ (omega arith) ∙ find-renumber_step k j m h

module _ (net : Net) (peers : List (StateItem net)) (index : ℕ) where
  -- What is asked of an entry, in the old list and in the one without the index.
  abbrev Fits : List (StateItem net) → ℕ × ToRemoveInfo → Type 0
  Fits xs e = At xs e.0 (λ x. e.1.send_drop ≡ true → x.peer ≢ none)

  -- Up to `k` the entries are renumbered, and the place before `k` is free.
  abbrev Between : ℕ → ℕ × ToRemoveInfo → Type 0
  Between k e =
      (e.0 + 1 < k → Fits (remove_at index peers) e) × (k ≤ e.0 → Fits peers e) × (e.0 + 1 ≢ k)

  free_before :
      (k : ℕ) (m : Map ℕ ToRemoveInfo)
      → 0 < k
      → All (Between k) m
      → find ℕ_discrete (k - 1) m ≡ none
  free_before k m h a = elim (Option-cases (find ℕ_discrete (k - 1) m)) [
    | inl e ↦ e
    | inr (info, e) ↦ absurd ((find-All ℕ_discrete (Between k) (k - 1) m a e).2 (omega arith))
  ]

  renumber_step-Between :
      (k : ℕ) (m : Map ℕ ToRemoveInfo)
      → index < k
      → All (Between k) m
      → All (Between (suc k)) (renumber_step k m)
  renumber_step-Between k m h a = elim (Option-cases (find ℕ_discrete k m)) [
    | inl e ↦
        rw (renumber_step-none k m e)
          (All-absent ℕ_discrete (Between k) _ k m e (λ j info b n. step j info b n) a)
    | inr (info, e) ↦ rw (renumber_step-eq k m info e (free_before k m (omega arith) a)) (
        All-erase ℕ_discrete (λ r. (Between k r) ⊎ (r ≡ (k - 1, info))) _ k ((k - 1, info) ∷ m)
          (λ j i b n. elim b [
            | inl old ↦ step j i old n
            | inr new ↦ subst (Between (suc k)) (sym new) (moved info e)
          ])
          (inr refl, All-mono m (λ r b. inl b) a))
  ]
    where
      step : (j : ℕ) (i : ToRemoveInfo) → Between k (j, i) → j ≢ k → Between (suc k) (j, i)
      step j i b n = (
        λ l. b.0 (omega (arith, b.2, n, l)),
        λ l. b.1 (omega (arith, l)),
        λ q. n (omega (arith, q)),
      )

      moved : (i : ToRemoveInfo) → find ℕ_discrete k m ≡ some i → Between (suc k) (k - 1, i)
      moved i f =
          let fits = (find-All ℕ_discrete (Between k) k m a f).1 (omega arith) in
          (
            λ l.
                subst (λ (t : ℕ). Fits (remove_at index peers) (t, i)) (ground (arith, h))
                  (At-remove_at _ index peers k (omega arith) fits),
            λ l. absurd (omega (arith, l, h)),
            λ q. omega (arith, q, h),
          )

  renumber-Between :
      (rounds k : ℕ) (m : Map ℕ ToRemoveInfo)
      → index < k
      → All (Between k) m
      → All (Between (k + rounds)) (renumber rounds k m)
  unfolding renumber
  renumber-Between zero k m h a = subst (λ (t : ℕ). All (Between t) m) (omega arith) a
  renumber-Between (suc rounds) k m h a =
      subst (λ (t : ℕ). All (Between t) (renumber rounds (suc k) (renumber_step k m))) (omega arith)
        (renumber-Between rounds (suc k) (renumber_step k m) (omega arith)
          (renumber_step-Between k m h a))

  -- The loop leaves entries that fit the list without the index.
  pub renumber-Removals :
      (m : Map ℕ ToRemoveInfo)
      → index < length peers
      → find ℕ_discrete index m ≡ none
      → Removals net peers m
      → Removals net (remove_at index peers) (renumber (length peers - (index + 1)) (index + 1) m)
  renumber-Removals m h e a =
      All-mono _
        (λ r b. elim (ℕ_discrete (r.0 + 1) (index + 1 + (length peers - (index + 1)))) [
          | yes q ↦ absurd (b.2 q)
          | no q ↦ elim (Bool-cases (ltb (r.0 + 1) (index + 1 + (length peers - (index + 1))))) [
            | inl below ↦ b.0 (ground arith)
            | inr above ↦
                let i_lt : r.0 < length peers = At-lt _ peers r.0 (b.1 (ground arith)) in
                absurd (ground arith)
          ]
        ])
        (renumber-Between (length peers - (index + 1)) (index + 1) m (omega arith)
          (All-absent ℕ_discrete _ _ index m e start a))
    where
      start :
          (j : ℕ) (i : ToRemoveInfo) → Fits peers (j, i) → j ≢ index → Between (index + 1) (j, i)
      start j i f n = (
        λ l.
            subst (λ (t : ℕ). Fits (remove_at index peers) (t, i)) (ground (arith, l))
              (At-remove_at _ index peers j n f),
        λ l. f,
        λ q. n (omega (arith, q)),
      )

renumber_step-Unique :
    (k : ℕ) (m : Map ℕ ToRemoveInfo) → Unique ℕ_discrete m → Unique ℕ_discrete (renumber_step k m)
unfolding renumber_step
renumber_step-Unique k m u = elim (Option-cases (find ℕ_discrete k m)) [
  | inl e ↦ rw (e, renumber_step) u
  | inr (info, e) ↦ elim (Option-cases (find ℕ_discrete (k - 1) m)) [
    | inl f ↦ rw (e, f, renumber_step) (erase-Unique ℕ_discrete k ((k - 1, info) ∷ m) (f, u))
    | inr (_, f) ↦ rw (e, f, renumber_step) (erase-Unique ℕ_discrete k m u)
  ]
]

renumber-Unique :
    (rounds k : ℕ) (m : Map ℕ ToRemoveInfo)
    → Unique ℕ_discrete m
    → Unique ℕ_discrete (renumber rounds k m)
unfolding renumber
renumber-Unique zero k m u = u
renumber-Unique (suc rounds) k m u =
    renumber-Unique rounds (suc k) (renumber_step k m) (renumber_step-Unique k m u)

-- A round keeps the invariant, where the index is in range and is not marked any more.
pub remove_index-IsValid :
    (net : Net) (index : ℕ) (s : CommunicationState net)
    → IsValid net s
    → index < length s.peers
    → find ℕ_discrete index s.map_to_remove ≡ none
    → IsValid net (remove_index net index s)
unfolding remove_index
remove_index-IsValid net index s v h e =
    let discrete = net.destination_discrete in
    record {
      address_entries =
          Entries-remove discrete (item_address net) index s.peers _ v.address_entries;
      peer_entries = Entries-remove string_discrete (item_peer net) index s.peers _ v.peer_entries;
      key_entries = Entries-remove string_discrete (item_key net) index s.peers _ v.key_entries;
      addresses_found =
          Covers-remove discrete (item_address net) index s.peers _ h v.addresses_found;
      peers_found = Covers-remove string_discrete (item_peer net) index s.peers _ h v.peers_found;
      listen_passive = remove_from_set-All _ s.peers index _ v.listen_passive;
      connect_passive = remove_from_set-All _ s.peers index _ v.connect_passive;
      removals = renumber-Removals net s.peers index s.map_to_remove h e v.removals;
      removals_unique = renumber-Unique _ _ _ v.removals_unique;
    }
