-- ===== src/Communication/Valid/Passive.antt =====
-- src/libp2psocket/p2pstate.cpp: `add_passive` keeps the invariant and returns.
use mesh_pp.Prelude.{
  ℕ, ◌≡◌, ◌≢◌, refl, sym, string_discrete, ℕ_discrete, none, some, List, get_elem?, get_elem?-set,
  set, find, erase, assign, insert, find-erase, find-assign, All-mono, All-absent, All-insert,
  At-set, At-set_self, At-set_ne, Unique, lt-length, arith, if_pos, if_neg,
}
use mesh_pp.Net.{Net}
use mesh_pp.Communication.State.{
  PeerState, fresh_peer, key, connect, listen, StateItem, new_item, kind, address_key,
  CommunicationState,
}
use mesh_pp.Communication.Insert.{write_passive, release_key}
use mesh_pp.Communication.Entries.{
  Entries, Covers, Entries-erase, Entries-assign, Entries-set-erase, Entries-set-none, Covers-set,
}
use mesh_pp.Communication.Invariant.{item_address, item_key, item_peer, IsValid, Passive, Removals}

module _ (net : Net) where
  open net use {Address, destination_discrete}

  module _ (now index : ℕ) (addr : Address) (value : PeerState) (s : CommunicationState net) where
    -- What `add_passive` has brought about before it stores the item: the maps lead to the items
    -- that they name, the item at the index is passive, has the key and is not to be removed, and
    -- each other item is found under another key.
    pub record Ready (stored : StateItem net) : Type 0 where
      pub at : get_elem? s.peers index ≡ some stored
      pub idle : stored.peer ≡ none
      pub same_key : address_key net stored.address ≡ address_key net addr
      pub address_entries : Entries destination_discrete (item_address net) s.peers s.map_by_address
      pub peer_entries : Entries string_discrete (item_peer net) s.peers s.map_by_peer_id
      pub key_entries : Entries string_discrete (item_key net) s.peers s.map_by_key
      pub peers_found : Covers string_discrete (item_peer net) s.peers s.map_by_peer_id
      pub others :
          (i : ℕ) (x : StateItem net)
          → get_elem? s.peers i ≡ some x
          → i ≢ index
          → (find destination_discrete (address_key net x.address) s.map_by_address ≡ some i)
            × (address_key net x.address ≢ address_key net addr)
      pub listen_passive : Passive net s.peers s.set_to_listen
      pub connect_passive : Passive net s.peers s.set_to_connect
      pub removals : Removals net s.peers s.map_to_remove
      pub removals_unique : Unique ℕ_discrete s.map_to_remove
      pub not_removed : find ℕ_discrete index s.map_to_remove ≡ none

    module _ (stored : StateItem net) (r : Ready stored) where
      abbrev item : StateItem net
      item = record (new_item net now addr) { value = value }

      written : CommunicationState net
      written = write_passive net now index addr value stored s

      write-Passive : (l : List ℕ) → Passive net s.peers l → Passive net (set s.peers index item) l
      write-Passive l = All-mono l (λ i a. At-set _ s.peers index i stored item r.at (λ q. refl) a)

      insert-Passive :
          (l : List ℕ)
          → Passive net s.peers l
          → Passive net (set s.peers index item) (insert index l)
      insert-Passive l a =
          All-insert _ index l
            (At-set_self _ s.peers index item (lt-length s.peers index r.at) refl)
            (write-Passive l a)

      Entries-written_address :
          Entries destination_discrete (item_address net) (set s.peers index item) (
            assign destination_discrete
              (address_key net addr)
              index
              (erase destination_discrete (address_key net stored.address) s.map_by_address))
      Entries-written_address =
          Entries-assign destination_discrete (item_address net) _ (address_key net addr) index _
            (At-set_self _ s.peers index item (lt-length s.peers index r.at) refl)
            (Entries-set-erase destination_discrete (item_address net) s.peers index stored item
              r.at s.map_by_address (address_key net stored.address) refl r.address_entries)

      Entries-written_key : Entries string_discrete (item_key net) (set s.peers index item) (
          assign string_discrete (key value) index (
            erase string_discrete
              (key stored.value)
              (release_key value (fresh_peer now) s.map_by_key)))
      Entries-written_key =
          Entries-assign string_discrete (item_key net) _ (key value) index _
            (At-set_self _ s.peers index item (lt-length s.peers index r.at) refl)
            (Entries-set-erase string_discrete (item_key net) s.peers index stored item r.at _
              (key stored.value) refl
              (elim (string_discrete (key value) (key (fresh_peer now))) [
                | yes p ↦ rw (if_pos _ p) r.key_entries
                | no n ↦
                    rw (if_neg _ n)
                      (Entries-erase string_discrete (item_key net) s.peers _ _ r.key_entries)
              ]))

      pub write_passive-IsValid : IsValid net (write_passive net now index addr value stored s)
      unfolding write_passive
      write_passive-IsValid = record {
        address_entries = Entries-written_address;
        peer_entries =
            Entries-set-none string_discrete (item_peer net) s.peers index stored item r.at _ r.idle
              r.peer_entries;
        key_entries = Entries-written_key;
        addresses_found = λ i x k g e. elim (ℕ_discrete index i) [
          | yes q ↦ ground (
            arith,
            e,
            q,
            g,
            get_elem?-set s.peers index i item (lt-length s.peers index r.at),
            find-assign destination_discrete (address_key net addr) k index
                (erase destination_discrete (address_key net stored.address) s.map_by_address),
          )
          | no n ↦
              let g' =
                rw (get_elem?-set s.peers index i item (lt-length s.peers index r.at), if_neg _ n)
                  at g in
              let other = r.others i x g' (λ q. n (sym q)) in
              ground (
                arith,
                e,
                other.0,
                other.1,
                r.same_key,
                find-erase destination_discrete (address_key net stored.address) k s.map_by_address,
                find-assign destination_discrete (address_key net addr) k index
                    (erase destination_discrete (address_key net stored.address) s.map_by_address),
              )
        ];
        peers_found =
            Covers-set string_discrete (item_peer net) s.peers index stored item r.at _ _
              (λ k i n f. f) (λ k f. absurd (cc f)) r.peers_found;
        listen_passive =
            elim (kind net addr)
              as (λ c.
                Passive net (set s.peers index item)
                  (elim c [ connect ↦ s.set_to_listen | listen ↦ insert index s.set_to_listen ])) [
                    | connect ↦ write-Passive s.set_to_listen r.listen_passive
                    | listen ↦ insert-Passive s.set_to_listen r.listen_passive
                  ];
        connect_passive =
            elim (kind net addr)
              as (λ c.
                Passive net (set s.peers index item) (elim c [
                  | connect ↦ insert index s.set_to_connect
                  | listen ↦ s.set_to_connect
                ])) [
                  | connect ↦ insert-Passive s.set_to_connect r.connect_passive
                  | listen ↦ write-Passive s.set_to_connect r.connect_passive
                ];
        removals =
            All-absent ℕ_discrete _ _ index s.map_to_remove r.not_removed
              (λ j info a n. At-set_ne _ s.peers index j item (lt-length s.peers index r.at) n a)
              r.removals;
        removals_unique = r.removals_unique;
      }
