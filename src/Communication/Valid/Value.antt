-- ===== src/Communication/Valid/Value.antt =====
-- src/libp2psocket/p2pstate.cpp: the operations that add or replace keep the invariant, and read
-- no index out of range.
use mesh_pp.Prelude.{
  ℕ, ◌≡◌, refl, ap, String, string_discrete, some, List, get_elem?, set, Map, assign, All-mono,
  At-set, At-set_self, lt-length, if_pos, if_neg,
}
use mesh_pp.Net.{Net}
use mesh_pp.Communication.State.{PeerState, update, key, StateItem, CommunicationState}
use mesh_pp.Communication.Insert.{write_value, release_key}
use mesh_pp.Communication.Entries.{
  Entries, Entries-assign, Entries-set-erase, Entries-set_same, Covers-set,
}
use mesh_pp.Communication.Invariant.{item_address, item_key, item_peer, IsValid}

module _ (net : Net) where
  open net use {Address, destination_discrete}

  -- The map of keys after an item got a new value.
  pub Entries-value :
      (peers : List (StateItem net)) (index : ℕ) (stored item : StateItem net) (m : Map String ℕ)
      → get_elem? peers index ≡ some stored
      → Entries string_discrete (item_key net) peers m
      → Entries string_discrete
          (item_key net)
          (set peers index item)
          (assign string_discrete (key item.value) index (release_key item.value stored.value m))
  Entries-value peers index stored item m at h =
      Entries-assign string_discrete (item_key net) (set peers index item) (key item.value) index _
        (At-set_self _ peers index item (lt-length peers index at) refl)
        (elim (string_discrete (key item.value) (key stored.value)) [
          | yes p ↦ rw (if_pos _ p) (
              Entries-set_same string_discrete (item_key net) peers index stored item at m
                (ap some p) h)
          | no n ↦ rw (if_neg _ n) (
              Entries-set-erase string_discrete (item_key net) peers index stored item at m
                (key stored.value) refl h)
        ])

  -- Where a value is replaced at an index that an item has, the invariant stays.
  pub write_value-IsValid :
      (now index : ℕ) (value : PeerState) (stored : StateItem net) (s : CommunicationState net)
      → get_elem? s.peers index ≡ some stored
      → IsValid net s
      → IsValid net (write_value net now index value stored s)
  unfolding write_value
  write_value-IsValid now index value stored s at v = record {
    address_entries =
        Entries-set_same destination_discrete (item_address net) s.peers index stored item at _ refl
          v.address_entries;
    peer_entries =
        Entries-set_same string_discrete (item_peer net) s.peers index stored item at _ refl
          v.peer_entries;
    key_entries = Entries-value s.peers index stored item s.map_by_key at v.key_entries;
    addresses_found =
        Covers-set destination_discrete (item_address net) s.peers index stored item at _ _
          (λ k i n e. e) (λ k e. v.addresses_found index stored k at e) v.addresses_found;
    peers_found =
        Covers-set string_discrete (item_peer net) s.peers index stored item at _ _ (λ k i n e. e)
          (λ k e. v.peers_found index stored k at e) v.peers_found;
    listen_passive =
        All-mono _ (λ i a. At-set _ s.peers index i stored item at (λ q. q) a) v.listen_passive;
    connect_passive =
        All-mono _ (λ i a. At-set _ s.peers index i stored item at (λ q. q) a) v.connect_passive;
    removals = All-mono _ (λ e a. At-set _ s.peers index e.0 stored item at (λ q. q) a) v.removals;
    removals_unique = v.removals_unique;
  }
    where
      item : StateItem net
      item = record stored { value = update now value }
