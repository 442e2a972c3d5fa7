-- ===== src/Communication/Valid/Marks.antt =====
-- src/libp2psocket/p2pstate.cpp: marking for removal, taking the mark back and counting down keep
-- the invariant, and what they leave in `map_to_remove`.
use mesh_pp.Prelude.{
  ℕ, get_elem?, zero, suc, ◌-◌, ◌≡◌, ◌≢◌, ◌⊎◌, refl, String, string_discrete, ℕ_discrete, Bool,
  true, false, none, some, [], ◌∷◌, Map, find, assign, find-assign, find-erase, All, All-erase,
  erase-Unique, assign-Unique, At, Unique, leb, ◌==◌, Bool-cases, Option-cases, arith, ite, inl,
  inr,
}
use mesh_pp.Net.{Net}
use mesh_pp.Communication.State.{StateItem, ToRemoveInfo, CommunicationState, address_key}
use mesh_pp.Communication.Query.{is_pending}
use mesh_pp.Communication.Removal.{
  count_down, do_step, remove_later_address, remove_later_peer, undo_remove,
}
use mesh_pp.Communication.Invariant.{IsValid, Removals}
use mesh_pp.Communication.Valid.Insert.{found_item, found_peer}

module _ (net : Net) where
  open net use {Address, destination_discrete}

  -- The invariant speaks of the marks in its last two fields only.
  remarked :
      (s : CommunicationState net) (m : Map ℕ ToRemoveInfo)
      → IsValid net s
      → Removals net s.peers m
      → Unique ℕ_discrete m
      → IsValid net (record s { map_to_remove = m })
  remarked s m v r u = record {
    address_entries = v.address_entries;
    peer_entries = v.peer_entries;
    key_entries = v.key_entries;
    addresses_found = v.addresses_found;
    peers_found = v.peers_found;
    listen_passive = v.listen_passive;
    connect_passive = v.connect_passive;
    removals = r;
    removals_unique = u;
  }

  mark-IsValid :
      (index : ℕ) (info : ToRemoveInfo) (s : CommunicationState net)
      → IsValid net s
      → At s.peers index (λ x. info.send_drop ≡ true → x.peer ≢ none)
      → IsValid net (record s { map_to_remove = assign ℕ_discrete index info s.map_to_remove })
  unfolding assign
  mark-IsValid index info s v a =
      remarked s _ v (a, All-erase ℕ_discrete _ _ index s.map_to_remove (λ j i b n. b) v.removals)
        (assign-Unique ℕ_discrete index info s.map_to_remove v.removals_unique)

  module _ (step : ℕ) (must_notify : Bool) (s : CommunicationState net) where
    -- Why the item of an address is not marked: there is none, or it is active and only a passive
    -- one was to be marked.
    abbrev pub IsKept : Address → Bool → Type 0
    IsKept addr only_if_passive =
        (find destination_discrete (address_key net addr) s.map_by_address ≡ none)
        ⊎ ((only_if_passive ≡ true)
            × (index : ℕ) × (x : StateItem net) × (p : String) × (find destination_discrete
                  (address_key net addr) s.map_by_address
                ≡ some index)
            × (get_elem? s.peers index ≡ some x)
            × (x.peer ≡ some p))

    -- The item of the address is marked, and nothing else is changed.
    abbrev pub IsMarked : Address → Bool → CommunicationState net → Type 0
    IsMarked addr only_if_passive t =
        (index : ℕ) × (x : StateItem net) × (find destination_discrete (address_key net addr)
            s.map_by_address
          ≡ some index)
        × (get_elem? s.peers index ≡ some x)
        × (only_if_passive ≡ true → x.peer ≡ none)
        × (t ≡ record s { map_to_remove = t.map_to_remove })
        × ((j : ℕ)
            → find ℕ_discrete j t.map_to_remove
              ≡ ite (ℕ_discrete index j)
                  (some (record { steps = step; send_drop = false; must_notify = must_notify }))
                  (find ℕ_discrete j s.map_to_remove))

  module _ (step : ℕ) (must_notify : Bool) (s : CommunicationState net) (v : IsValid net s) where
    -- `remove_later` by an address, with no drop to send, returns on a valid state and keeps it
    -- valid. It answers true where the address has an item that is passive, or that may also be
    -- active; then the item is marked with the steps, and the other marks and the rest of the state
    -- are as before. It answers false where the address has none, or has an active one and only a
    -- passive one was to be marked; then the state is as before.
    pub remove_later_address-marks :
        (addr : Address) (only_if_passive : Bool)
        → (r : CommunicationState net × Bool) × (remove_later_address net addr step false
              only_if_passive must_notify s
            ≡ some r)
          × IsValid net r.0
          × (((r.1 ≡ false) × (r.0 ≡ s) × IsKept step must_notify s addr only_if_passive)
              ⊎ ((r.1 ≡ true) × IsMarked step must_notify s addr only_if_passive r.0))
    unfolding remove_later_address
    remove_later_address-marks addr only =
        elim (Option-cases (find destination_discrete (address_key net addr) s.map_by_address)) [
          | inl e ↦ ((s, false), rw (e, remove_later_address), v, inl (refl, refl, inl e))
          | inr (index, e) ↦
              let (x, at, _) = found_item net addr s index v e in
              let info : ToRemoveInfo = record {
                steps = step;
                send_drop = false;
                must_notify = must_notify;
              } in
              let t : CommunicationState net = record s {
                map_to_remove = assign ℕ_discrete index info s.map_to_remove;
              } in
              let t_valid = mark-IsValid index info s v (x, at, λ q. absurd (cc q)) in
              let marks : (j : ℕ)
                  → find ℕ_discrete j t.map_to_remove
                    ≡ ite (ℕ_discrete index j) (some info) (find ℕ_discrete j s.map_to_remove) =
                λ j. find-assign ℕ_discrete index j info s.map_to_remove in
              elim (Bool-cases only) [
                | inr any ↦ (
                  (t, true),
                  ground (arith, e, any),
                  t_valid,
                  inr (refl, (index, x, e, at, λ y. absurd (ground (arith, y, any)), refl, marks)),
                )
                | inl idle ↦ elim (Option-cases x.peer) [
                  | inl free ↦ (
                    (t, true),
                    ground (arith, e, idle, at, free),
                    t_valid,
                    inr (refl, (index, x, e, at, λ _. free, refl, marks)),
                  )
                  | inr (p, busy) ↦ (
                    (s, false),
                    ground (arith, e, idle, at, busy),
                    v,
                    inl (refl, refl, inr (idle, index, x, p, e, at, busy)),
                  )
                ]
              ]
        ]

    -- `remove_later` by a peer keeps a valid state valid, also where a drop is to be sent.
    pub remove_later_peer-IsValid :
        (p : String) (send_drop : Bool)
        → IsValid net (remove_later_peer net p step send_drop must_notify s).0
    unfolding remove_later_peer
    remove_later_peer-IsValid p send_drop =
        elim (Option-cases (find string_discrete p s.map_by_peer_id)) [
          | inl e ↦ rw (e, remove_later_peer) v
          | inr (index, e) ↦
              let (x, at, q) = found_peer net p s index v e in
              rw (e, remove_later_peer)
                (mark-IsValid index _ s v (x, at, λ d. λ w. ground (arith, q, w)))
        ]

  pub undo_remove-IsValid :
      (p : String) (s : CommunicationState net) → IsValid net s → IsValid net (undo_remove net p s)
  unfolding undo_remove
  undo_remove-IsValid p s v = elim (Option-cases (find string_discrete p s.map_by_peer_id)) [
    | inl e ↦ rw (e, undo_remove) v
    | inr (index, e) ↦
        rw (e, undo_remove)
          (remarked s _ v (All-erase ℕ_discrete _ _ index s.map_to_remove (λ j i b n. b) v.removals)
            (erase-Unique ℕ_discrete index s.map_to_remove v.removals_unique))
  ]

  -- A mark that is taken back is gone, and the marks of the other items are as before both calls.
  pub undo_remove-remove_later_peer :
      (p : String) (step : ℕ) (send_drop must_notify : Bool) (s : CommunicationState net) (j : ℕ)
      → find ℕ_discrete j
          (undo_remove net p (remove_later_peer net p step send_drop must_notify s).0).map_to_remove
        ≡ elim (find string_discrete p s.map_by_peer_id) [
          | none ↦ find ℕ_discrete j s.map_to_remove
          | some index ↦ ite (ℕ_discrete index j) none (find ℕ_discrete j s.map_to_remove)
        ]
  unfolding undo_remove remove_later_peer
  undo_remove-remove_later_peer p step send_drop must_notify s j =
      elim (Option-cases (find string_discrete p s.map_by_peer_id)) [
        | inl e ↦ ground (arith, e)
        | inr (index, e) ↦
            let info : ToRemoveInfo = record {
              steps = step;
              send_drop = send_drop;
              must_notify = must_notify;
            } in
            ground (
              arith,
              e,
              find-erase ℕ_discrete index j (assign ℕ_discrete index info s.map_to_remove),
              find-assign ℕ_discrete index j info s.map_to_remove,
            )
      ]

find-count_down :
    (j : ℕ) (m : Map ℕ ToRemoveInfo)
    → find ℕ_discrete j (count_down m) ≡ elim (find ℕ_discrete j m) [
      | none ↦ none
      | some info ↦ some (record info { steps = info.steps - 1 })
    ]
unfolding find count_down
find-count_down j [] = refl
find-count_down j ((i, info) ∷ m) = ground (arith, find-count_down j m)

count_down-All :
    (P : ℕ × ToRemoveInfo → Type 0) (m : Map ℕ ToRemoveInfo)
    → ((i : ℕ) (info : ToRemoveInfo) (n : ℕ) → P (i, info) → P (i, record info { steps = n }))
    → All P m
    → All P (count_down m)
unfolding count_down
count_down-All P [] f a = tt
count_down-All P ((i, info) ∷ m) f a = elim (Bool-cases (info.steps == 0)) [
  | inl e ↦ rw e (a.0, count_down-All P m f a.1)
  | inr e ↦ rw e (f i info (info.steps - 1) a.0, count_down-All P m f a.1)
]

count_down-Unique :
    (m : Map ℕ ToRemoveInfo) → Unique ℕ_discrete m → Unique ℕ_discrete (count_down m)
unfolding count_down
count_down-Unique [] u = tt
count_down-Unique ((i, info) ∷ m) u =
    (rw (find-count_down i m) (ground (arith, u.0)), count_down-Unique m u.1)

module _ (net : Net) where
  pub do_step-IsValid : (s : CommunicationState net) → IsValid net s → IsValid net (do_step net s)
  unfolding do_step
  do_step-IsValid s v =
      remarked net s _ v (count_down-All _ s.map_to_remove (λ i info n a. a) v.removals)
        (count_down-Unique s.map_to_remove v.removals_unique)

  -- The state after a number of steps.
  pub do_steps : ℕ → CommunicationState net → CommunicationState net
  do_steps zero s = s
  do_steps (suc n) s = do_steps n (do_step net s)

  -- A marked item is pending exactly when as many steps have passed as it was marked with; an item
  -- that is not marked does not become pending.
  pub pending-do_steps :
      (n j : ℕ) (s : CommunicationState net)
      → is_pending (do_steps n s).map_to_remove j
        ≡ elim (find ℕ_discrete j s.map_to_remove) [ none ↦ false | some info ↦ leb info.steps n ]
  unfolding do_steps is_pending do_step
  pending-do_steps zero j s = ground arith
  pending-do_steps (suc n) j s =
      ground (arith, pending-do_steps n j (do_step net s), find-count_down j s.map_to_remove)
