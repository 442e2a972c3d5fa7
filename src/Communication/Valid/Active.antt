-- ===== src/Communication/Valid/Active.antt =====
-- src/libp2psocket/p2pstate.cpp: `add_active` keeps the invariant, once its address is known.
use mesh_pp.Prelude.{
  ℕ, ◌≡◌, ◌≢◌, refl, sym, ◌∙◌, ap, subst, String, string_discrete, some, get_elem?, set, Map, find,
  assign, find-erase, find-assign, All-mono, All-discard, At-set, At-set_self, At-set_ne, lt-length,
  Option-cases, arith, if_neg, inl, inr,
}
use mesh_pp.Net.{Net}
use mesh_pp.Communication.State.{
  PeerState, update, StateItem, set_peer_id, address_key, CommunicationState,
}
use mesh_pp.Communication.Insert.{write_active, release_peer}
use mesh_pp.Communication.Entries.{
  Entries, Entries-assign, Entries-set-erase, Entries-set_same, Entries-set-none, Covers-set,
}
use mesh_pp.Communication.Invariant.{item_address, item_peer, IsValid}
use mesh_pp.Communication.Valid.Value.{Entries-value}

module _ (net : Net) where
  open net use {Address, destination_discrete}

  -- The peer is not the one of a connection at another address.
  abbrev pub IsFree : String → Address → CommunicationState net → Type 0
  IsFree p addr s =
      (i : ℕ)
      → find string_discrete p s.map_by_peer_id ≡ some i
      → find destination_discrete (address_key net addr) s.map_by_address ≡ some i

  module _ (now index : ℕ) (addr : Address) (p : String) (value : PeerState)
      (stored : StateItem net) (s : CommunicationState net)
      (at : get_elem? s.peers index ≡ some stored) (v : IsValid net s) where
    abbrev activated : StateItem net
    activated = record (set_peer_id net now addr p stored) { value = update now value }

    -- The entries that are left lead to the items that still have their keys.
    Entries-release_peer :
        (m : Map String ℕ)
        → release_peer net stored p s.map_by_peer_id ≡ some m
        → Entries string_discrete (item_peer net) (set s.peers index activated) m
    unfolding release_peer
    Entries-release_peer m e = elim (Option-cases stored.peer) [
      | inl idle ↦
          subst (Entries string_discrete (item_peer net) (set s.peers index activated))
            (ground (arith, e, idle))
            (Entries-set-none string_discrete (item_peer net) s.peers index stored activated at _
              idle v.peer_entries)
      | inr (q, busy) ↦ elim (string_discrete p q) [
        | yes same ↦
            subst (Entries string_discrete (item_peer net) (set s.peers index activated))
              (ground (arith, e, busy, same))
              (Entries-set_same string_discrete (item_peer net) s.peers index stored activated at _
                (ground (arith, busy, same)) v.peer_entries)
        | no other ↦
            subst (Entries string_discrete (item_peer net) (set s.peers index activated))
              (ground (arith, e, busy, other, v.peers_found index stored q at busy))
              (Entries-set-erase string_discrete (item_peer net) s.peers index stored activated at _
                q busy v.peer_entries)
      ]
    ]

    -- The entries of the other items stay.
    find-release :
        (m : Map String ℕ)
        → release_peer net stored p s.map_by_peer_id ≡ some m
        → (k : String) (i : ℕ) → i ≢ index
        → find string_discrete k s.map_by_peer_id ≡ some i
        → find string_discrete k m ≡ some i
    unfolding release_peer
    find-release m e k i n f = elim (Option-cases stored.peer) [
      | inl idle ↦ ground (arith, e, idle)
      | inr (q, busy) ↦ ground (
        arith,
        e,
        busy,
        v.peers_found index stored q at busy,
        find-erase string_discrete q k s.map_by_peer_id,
      )
    ]

    pub write_active-IsValid :
        (m : Map String ℕ)
        → release_peer net stored p s.map_by_peer_id ≡ some m
        → address_key net stored.address ≡ address_key net addr
        → ((i : ℕ) → find string_discrete p s.map_by_peer_id ≡ some i → i ≡ index)
        → IsValid net (write_active net now index addr p value stored m s)
    unfolding write_active
    write_active-IsValid m e same free = record {
      address_entries =
          Entries-set_same destination_discrete (item_address net) s.peers index stored activated at
            _ (ap some (sym same)) v.address_entries;
      peer_entries =
          Entries-assign string_discrete (item_peer net) _ p index m
            (At-set_self _ s.peers index activated (lt-length s.peers index at) refl)
            (Entries-release_peer m e);
      key_entries = Entries-value net s.peers index stored activated s.map_by_key at v.key_entries;
      addresses_found =
          Covers-set destination_discrete (item_address net) s.peers index stored activated at _ _
            (λ k i n f. f) (λ k f. v.addresses_found index stored k at (ap some same ∙ f))
            v.addresses_found;
      peers_found =
          Covers-set string_discrete (item_peer net) s.peers index stored activated at _ _ keep
            (λ k f. ground (arith, f, find-assign string_discrete p k index m)) v.peers_found;
      listen_passive =
          All-discard _ _ index s.set_to_listen
            (λ j a n. At-set_ne _ s.peers index j activated (lt-length s.peers index at) n a)
            v.listen_passive;
      connect_passive =
          All-discard _ _ index s.set_to_connect
            (λ j a n. At-set_ne _ s.peers index j activated (lt-length s.peers index at) n a)
            v.connect_passive;
      removals =
          All-mono _ (λ r a. At-set _ s.peers index r.0 stored activated at (λ q d. λ w. cc w) a)
            v.removals;
      removals_unique = v.removals_unique;
    }
      where
        keep :
            (k : String) (i : ℕ)
            → i ≢ index
            → find string_discrete k s.map_by_peer_id ≡ some i
            → find string_discrete k (assign string_discrete p index m) ≡ some i
        keep k i n f = elim (string_discrete p k) [
          | yes q ↦ absurd (n (free i (rw q f)))
          | no q ↦
              rw (find-assign string_discrete p k index m, if_neg _ q) (find-release m e k i n f)
        ]
