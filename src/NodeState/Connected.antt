-- ===== src/NodeState/Connected.antt =====
-- src/libp2psocket/p2pstate.cpp: whom `get_connected_peerids` gives.
use mathlib.Core.List.{Memᴰ}
use mesh_pp.Prelude.{
  ℕ, zero, suc, ◌+◌, ◌≡◌, refl, sym, subst, String, true, false, some, List, [], ◌∷◌, All, All-mono,
  get_elem?, Bool-cases, Option-cases, inl, inr, arith,
}
use mesh_pp.Net.{Net}
use mesh_pp.Communication.State.{StateItem, connect, kind, CommunicationState}
use mesh_pp.Communication.Query.{is_pending, is_active, items_from, get_connected}
use mesh_pp.NodeState.State.{NodeState}
use mesh_pp.NodeState.Connections.{peers_of, get_connected_peerids}

module _ (net : Net) where
  -- The item is active with the peer, at an address with a remote part.
  abbrev pub ConnectedTo : String → StateItem net → Type 0
  ConnectedTo p item = (item.peer ≡ some p) × (kind net item.address ≡ connect)

  pub is_active-peer :
      (item : StateItem net) → is_active net connect item ≡ true → (p : String) × ConnectedTo p item
  unfolding is_active
  is_active-peer item e = elim (Option-cases item.peer) [
    | inl n ↦ absurd (ground (arith, n))
    | inr (p, q) ↦ (p, (q, ground (arith, q)))
  ]

  is_active_of :
      (p : String) (item : StateItem net) → ConnectedTo p item → is_active net connect item ≡ true
  unfolding is_active
  is_active_of p item (e, k) = ground (arith, e, k)

  -- The peers of the items that are not pending, from an index on.
  abbrev pub FoundIn : CommunicationState net → ℕ → List (StateItem net) → String → Type 0
  FoundIn s start items p =
      (i : ℕ) × (item : StateItem net) × (get_elem? items i ≡ some item)
      × (is_pending s.map_to_remove (start + i) ≡ false)
      × ConnectedTo p item

  pub record Peers (s : CommunicationState net) (start : ℕ) (items : List (StateItem net))
      (ps : List String) : Type 0 where
    pub sound : All (FoundIn s start items) ps
    pub complete :
        (i : ℕ) (item : StateItem net) (p : String)
        → get_elem? items i ≡ some item
        → is_pending s.map_to_remove (start + i) ≡ false
        → ConnectedTo p item
        → Memᴰ p ps

  Peers-cons :
      (s : CommunicationState net) (start : ℕ) (item : StateItem net) (items : List (StateItem net))
      (ps qs : List String)
      → ((p : String) → Memᴰ p ps → Memᴰ p qs)
      → ((p : String) → is_pending s.map_to_remove start ≡ false → ConnectedTo p item → Memᴰ p qs)
      → (All (FoundIn s start (item ∷ items)) ps → All (FoundIn s start (item ∷ items)) qs)
      → Peers s (suc start) items ps
      → Peers s start (item ∷ items) qs
  unfolding get_elem?
  Peers-cons s start item items ps qs old new found h = record {
    sound = found (
        All-mono ps
          (λ p (i, x, e, q, c). (
            suc i,
            x,
            e,
            subst (λ (t : ℕ). is_pending s.map_to_remove t ≡ false) (omega arith) q,
            c,
          ))
          h.sound);
    complete = complete;
  }
    where
      complete :
          (i : ℕ) (x : StateItem net) (p : String)
          → get_elem? (item ∷ items) i ≡ some x
          → is_pending s.map_to_remove (start + i) ≡ false
          → ConnectedTo p x
          → Memᴰ p qs
      complete zero x p e q c =
          let same : item ≡ x = ground (arith, e) in
          new p (subst (λ (t : ℕ). is_pending s.map_to_remove t ≡ false) (omega arith) q)
            (subst (ConnectedTo p) (sym same) c)
      complete (suc i) x p e q c = old p (
          h.complete i x p e
            (subst (λ (t : ℕ). is_pending s.map_to_remove t ≡ false) (omega arith) q) c)

  pub peers_of_cons :
      (item : StateItem net) (items : List (StateItem net)) (p : String) (ps : List String)
      → item.peer ≡ some p
      → peers_of net items ≡ some ps
      → peers_of net (item ∷ items) ≡ some (p ∷ ps)
  unfolding peers_of
  peers_of_cons item items p ps e f = ground (arith, e, f)

  pub items_from-Peers :
      (s : CommunicationState net) (start : ℕ) (items : List (StateItem net))
      → (ps : List String) × (peers_of net (items_from net connect start items s) ≡ some ps)
        × Peers s start items ps
  unfolding items_from get_elem? peers_of
  items_from-Peers s start [] =
      ([], refl, record { sound = tt; complete = λ i item p e q c. absurd (ground (arith, e)) })
  items_from-Peers s start (item ∷ items) =
      let (ps, e, h) = items_from-Peers s (suc start) items in
      elim (Bool-cases (is_pending s.map_to_remove start)) [
        | inl due ↦ (
          ps,
          rw due e,
          Peers-cons s start item items ps ps (λ p m. m) (λ p q c. absurd (ground (arith, due, q)))
              (λ a. a) h,
        )
        | inr stays ↦ elim (Bool-cases (is_active net connect item)) [
          | inr other ↦ (
            ps,
            rw (stays, other) e,
            Peers-cons s start item items ps ps (λ p m. m)
                (λ p q c. absurd (ground (arith, other, is_active_of p item c))) (λ a. a) h,
          )
          | inl active ↦
              let (p, c) = is_active-peer item active in
              (
                p ∷ ps,
                rw (stays, active)
                    (peers_of_cons item (items_from net connect (suc start) items s) p ps c.0 e),
                Peers-cons s start item items ps (p ∷ ps) (λ p' m. Memᴰ.tail m)
                    (λ p' q c'. Memᴰ.head (ground (arith, c.0, c'.0)))
                    (λ a. (
                      (
                        0,
                        item,
                        refl,
                        subst (λ (t : ℕ). is_pending s.map_to_remove t ≡ false) (omega arith) stays,
                        c,
                      ),
                      a,
                    ))
                    h,
              )
        ]
      ]

  -- `get_connected_peerids` returns on every state, and so reads no peer of a passive item. It
  -- gives the peers of the active items that have a remote address and are not pending: each of
  -- them, and no other.
  pub get_connected_peerids-Peers :
      (s : NodeState net)
      → (ps : List String) × (get_connected_peerids net s ≡ some ps)
        × Peers s.program_state 0 s.program_state.peers ps
  unfolding get_connected_peerids get_connected
  get_connected_peerids-Peers s = items_from-Peers s.program_state 0 s.program_state.peers
