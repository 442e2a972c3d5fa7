-- ===== src/Communication/Valid/Connect.antt =====
-- src/libp2psocket/p2pstate.cpp: `add_active` returns, keeps the invariant and leaves the connection
-- where its address, its peer and its key find it.
-- leave the address and the peer where they can be found.
use mesh_pp.Prelude.{
  ℕ, ◌≡◌, refl, subst, String, string_discrete, ℕ_discrete, false, some, get_elem?, Map, find,
  erase, find-assign, lt-length, contains, contains-discard, get_elem?-set, Option-cases, arith,
  inl, inr,
}
use mesh_pp.Net.{Net}
use mesh_pp.Communication.State.{
  PeerState, fresh_peer, update, key, StateItem, address_key, CommunicationState,
}
use mesh_pp.Communication.Insert.{
  write_active, release_peer, activate, add_active, UpdateCode, updated, added,
}
use mesh_pp.Communication.Invariant.{IsValid}
use mesh_pp.Communication.Valid.Active.{IsFree, write_active-IsValid}
use mesh_pp.Communication.Valid.Insert.{found_item, Stored, add_passive-Outcome}

module _ (net : Net) where
  open net use {Address, destination_discrete}

  release_peer-returns :
      (stored : StateItem net) (index : ℕ) (p : String) (s : CommunicationState net)
      → IsValid net s
      → get_elem? s.peers index ≡ some stored
      → (m : Map String ℕ) × (release_peer net stored p s.map_by_peer_id ≡ some m)
  unfolding release_peer
  release_peer-returns stored index p s v at = elim (Option-cases stored.peer) [
    | inl idle ↦ (s.map_by_peer_id, rw (idle, release_peer))
    | inr (q, busy) ↦ elim (string_discrete p q) [
      | yes same ↦ (s.map_by_peer_id, ground (arith, busy, same))
      | no other ↦ (
        erase string_discrete q s.map_by_peer_id,
        ground (arith, busy, other, v.peers_found index stored q at busy),
      )
    ]
  ]

  module _ (now : ℕ) (addr : Address) (p : String) (value : PeerState) where
    -- The connection is found by its address, its peer and its key, is active with the value, and
    -- waits in neither set.
    pub record Connected (s : CommunicationState net) : Type 0 where
      pub index : ℕ
      pub by_address :
          find destination_discrete (address_key net addr) s.map_by_address ≡ some index
      pub by_peer : find string_discrete p s.map_by_peer_id ≡ some index
      pub by_key : find string_discrete (key value) s.map_by_key ≡ some index
      pub item :
          get_elem? s.peers index
          ≡ some (record { value = update now value; peer = some p; address = addr })
      pub not_to_listen : contains index s.set_to_listen ≡ false
      pub not_to_connect : contains index s.set_to_connect ≡ false

    activate-Connected :
        (index : ℕ) (s : CommunicationState net)
        → IsValid net s
        → find destination_discrete (address_key net addr) s.map_by_address ≡ some index
        → ((i : ℕ) → find string_discrete p s.map_by_peer_id ≡ some i → i ≡ index)
        → (s' : CommunicationState net) × (activate net now addr p value s ≡ some s')
          × IsValid net s'
          × Connected s'
    unfolding activate write_active
    activate-Connected index s v f free =
        let (stored, at, same) = found_item net addr s index v f in
        let (m, released) = release_peer-returns stored index p s v at in
        (
          write_active net now index addr p value stored m s,
          ground (arith, f, at, released),
          write_active-IsValid net now index addr p value stored s at v m released same free,
          record {
            index = index;
            by_address = f;
            by_peer = rw (find-assign string_discrete p p index m) (ground arith);
            by_key = rw (find-assign string_discrete _ _ index _) (ground arith);
            item =
                rw (get_elem?-set s.peers index index _ (lt-length s.peers index at))
                  (ground arith);
            not_to_listen = rw (contains-discard index index s.set_to_listen) (ground arith);
            not_to_connect = rw (contains-discard index index s.set_to_connect) (ground arith);
          },
        )

    -- A free peer stays free while the address is stored.
    Stored-free :
        (value' : PeerState) (s s1 : CommunicationState net)
        → IsValid net s
        → IsValid net s1
        → IsFree net p addr s
        → (st : Stored net now addr value' s s1) → (i : ℕ)
        → find string_discrete p s1.map_by_peer_id ≡ some i
        → i ≡ st.index
    Stored-free value' s s1 v v1 free st i f = elim (ℕ_discrete i st.index) [
      | yes q ↦ q
      | no n ↦
          let known = free i (subst (λ m. find string_discrete p m ≡ some i) st.same_peers f) in
          let (x, at, same) = found_item net addr s i v known in
          absurd
            (n (ground (arith, st.found, same, v1.addresses_found i x _ (st.others i x at n) refl)))
    ]

    -- `add_active` returns on a valid state where the peer is not the one of a connection at
    -- another address, and keeps the state valid; the assert in it holds. The connection is then
    -- active with the value, is found by its address, its peer and its key, and waits neither to
    -- listen nor to connect.
    pub add_active-Connected :
        (s : CommunicationState net)
        → IsValid net s
        → IsFree net p addr s
        → (r : CommunicationState net × UpdateCode) × (add_active net now addr p value s ≡ some r)
          × IsValid net r.0
          × Connected r.0
    unfolding add_active
    add_active-Connected s v free =
        let (r, e, v1, o) = add_passive-Outcome net now addr (fresh_peer now) s v in
        elim o [
          | inl (kept, index, f) ↦
              let (s2, e2, v2, c) =
                activate-Connected index s v f (λ i g. ground (arith, f, free i g)) in
              ((s2, updated), ground (arith, e, kept, e2), v2, c)
          | inr (code, st) ↦
              let (s2, e2, v2, c) =
                activate-Connected st.index r.0 v1 st.found
                  (Stored-free (fresh_peer now) s r.0 v v1 free st) in
              ((s2, added), ground (arith, e, code, e2), v2, c)
        ]
