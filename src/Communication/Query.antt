-- ===== src/Communication/Query.antt =====
-- src/libp2psocket/p2pstate.cpp: the operations of `communication_state` that read it.
use mesh_pp.Prelude.{
  ℕ, String, string_discrete, ℕ_discrete, Bool, true, false, Option, none, some, List, [], ◌∷◌,
  get_elem?, Map, find, contains, discard, ◌>>=◌, ◌==◌, if◌then◌else◌, ◌||◌, suc,
}
use mesh_pp.Net.{Net}
use mesh_pp.Communication.State.{
  PeerState, passive, active, Kind, connect, listen, ToRemoveInfo, StateItem, state, kind,
  address_key, CommunicationState,
}

-- Whether the entry at an index is about to be removed.
unfoldable pub is_pending : Map ℕ ToRemoveInfo → ℕ → Bool
is_pending m index = elim (find ℕ_discrete index m) [ none ↦ false | some info ↦ info.steps == 0 ]

module _ (net : Net) where
  open net use {Address, destination_discrete}

  abbrev State : Type 0
  State = CommunicationState net

  unfoldable pub get_active_value : String → State → Option (Option PeerState)
  get_active_value p s = elim (find string_discrete p s.map_by_peer_id) [
    | none ↦ some none
    | some index ↦ do stored ← get_elem? s.peers index; some (some stored.value)
  ]

  unfoldable pub get_value : Address → State → Option (Option PeerState)
  get_value addr s = elim (find destination_discrete (address_key net addr) s.map_by_address) [
    | none ↦ some none
    | some index ↦ do stored ← get_elem? s.peers index; some (some stored.value)
  ]

  -- One round of the loop of `get_to_listen` and of `get_to_connect`.
  unfoldable pub add_address : ℕ → State → List Address → Option (List Address)
  unfolding is_pending
  add_address index s addresses =
      if is_pending s.map_to_remove index
      then some addresses
      else (do stored ← get_elem? s.peers index; some (stored.address ∷ addresses))

  unfoldable pub addresses_of : List ℕ → State → Option (List Address)
  unfolding add_address
  addresses_of [] s = some []
  addresses_of (index ∷ rest) s = do addresses ← addresses_of rest s; add_address index s addresses

  unfoldable pub get_to_listen : State → Option (List Address)
  get_to_listen s = addresses_of s.set_to_listen s

  unfoldable pub get_to_connect : State → Option (List Address)
  get_to_connect s = addresses_of s.set_to_connect s

  unfoldable pub remove_from_todo_list : Address → State → State × Bool
  remove_from_todo_list addr s =
      elim (find destination_discrete (address_key net addr) s.map_by_address) [
        | none ↦ (s, false)
        | some index ↦ (
          record s {
            set_to_listen = discard index s.set_to_listen;
            set_to_connect = discard index s.set_to_connect;
          },
          contains index s.set_to_connect || contains index s.set_to_listen,
        )
      ]

  -- Whether the item is active and of the kind that is asked for.
  unfoldable pub is_active : Kind → StateItem net → Bool
  is_active connect item = elim (state net item) [
    | passive ↦ false
    | active ↦ elim (kind net item.address) [ connect ↦ true | listen ↦ false ]
  ]
  is_active listen item = elim (state net item) [
    | passive ↦ false
    | active ↦ elim (kind net item.address) [ connect ↦ false | listen ↦ true ]
  ]

  -- The loop of `get_connected` and of `get_listening` from an index on.
  unfoldable pub items_from : Kind → ℕ → List (StateItem net) → State → List (StateItem net)
  unfolding is_pending is_active
  items_from k index [] s = []
  items_from k index (item ∷ rest) s =
      let items = items_from k (suc index) rest s in
      if is_pending s.map_to_remove index
      then items
      else if is_active k item
      then item ∷ items
      else items

  unfoldable pub get_connected : State → List (StateItem net)
  get_connected s = items_from connect 0 s.peers s

  unfoldable pub get_listening : State → List (StateItem net)
  get_listening s = items_from listen 0 s.peers s

  -- `get_peer` reads an optional that must hold a value.
  unfoldable pub get_peer_id : Address → State → Option (Option String)
  get_peer_id addr s = elim (find destination_discrete (address_key net addr) s.map_by_address) [
    | none ↦ some none
    | some index ↦ do stored ← get_elem? s.peers index; p ← stored.peer; some (some p)
  ]

  unfoldable pub get_address : String → State → Option (Option Address)
  get_address p s = elim (find string_discrete p s.map_by_peer_id) [
    | none ↦ some none
    | some index ↦ do stored ← get_elem? s.peers index; some (some stored.address)
  ]
