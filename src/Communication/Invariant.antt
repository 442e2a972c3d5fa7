-- ===== src/Communication/Invariant.antt =====
-- The invariant of `communication_state` in src/libp2psocket/p2pstate.cpp: what its asserts and
-- its unchecked indices rely on.
use mesh_pp.Prelude.{
  ℕ, ◌≡◌, ◌≢◌, String, string_discrete, ℕ_discrete, true, Option, none, some, List, get_elem?, Map,
  All, At, Unique, arith,
}
use mesh_pp.Net.{Net}
use mesh_pp.Communication.State.{
  key, ToRemoveInfo, StateItem, address_key, CommunicationState, empty_state,
}
use mesh_pp.Communication.Entries.{Entries, Covers}

module _ (net : Net) where
  open net use {Destination, Address, destination_discrete}

  abbrev pub item_address : StateItem net → Option Destination
  item_address item = some (address_key net item.address)

  abbrev pub item_key : StateItem net → Option String
  item_key item = some (key item.value)

  abbrev pub item_peer : StateItem net → Option String
  item_peer item = item.peer

  -- The indices of a set lead to items that are not active.
  abbrev pub Passive : List (StateItem net) → List ℕ → Type 0
  Passive peers = All (λ i. At peers i (λ x. x.peer ≡ none))

  -- Who is to be sent a drop is active.
  abbrev pub Removals : List (StateItem net) → Map ℕ ToRemoveInfo → Type 0
  Removals peers = All (λ e. At peers e.0 (λ x. e.1.send_drop ≡ true → x.peer ≢ none))

  pub record IsValid (s : CommunicationState net) : Type 0 where
    pub address_entries : Entries destination_discrete item_address s.peers s.map_by_address
    pub peer_entries : Entries string_discrete item_peer s.peers s.map_by_peer_id
    pub key_entries : Entries string_discrete item_key s.peers s.map_by_key
    pub addresses_found : Covers destination_discrete item_address s.peers s.map_by_address
    pub peers_found : Covers string_discrete item_peer s.peers s.map_by_peer_id
    pub listen_passive : Passive s.peers s.set_to_listen
    pub connect_passive : Passive s.peers s.set_to_connect
    pub removals : Removals s.peers s.map_to_remove
    pub removals_unique : Unique ℕ_discrete s.map_to_remove

  pub empty_state-IsValid : IsValid (empty_state net)
  unfolding get_elem?
  empty_state-IsValid = record {
    address_entries = tt;
    peer_entries = tt;
    key_entries = tt;
    addresses_found = λ i x k g e. absurd (ground arith);
    peers_found = λ i x k g e. absurd (ground arith);
    listen_passive = tt;
    connect_passive = tt;
    removals = tt;
    removals_unique = tt;
  }
