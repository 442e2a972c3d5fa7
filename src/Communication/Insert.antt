-- ===== src/Communication/Insert.antt =====
-- src/libp2psocket/p2pstate.cpp: the operations of `communication_state` that add an address, make
-- a connection active or replace a value. `none` is what the language leaves undefined: an index
-- out of range. Erasing an entry that is not there changes nothing.
use mesh_pp.Prelude.{
  ℕ, String, string_discrete, ℕ_discrete, Option, none, some, [], ◌∷◌, ◌++◌, length, get_elem?, set,
  Map, find, erase, assign, insert, discard, ite, ◌>>=◌, ◌==◌, if◌then◌else◌,
}
use mesh_pp.Net.{Net}
use mesh_pp.Communication.State.{
  PeerState, fresh_peer, update, key, passive, active, connect, listen, StateItem, new_item, state,
  kind, set_peer_id, address_key, CommunicationState,
}

pub data InsertCode : Type 0 where
  old fresh : InsertCode

pub data UpdateCode : Type 0 where
  updated added : UpdateCode

-- `if (value.key() != current.key()) map_by_key.erase(current.key());`
abbrev pub release_key : PeerState → PeerState → Map String ℕ → Map String ℕ
release_key value current m =
    ite (string_discrete (key value) (key current)) m (erase string_discrete (key current) m)

module _ (net : Net) where
  open net use {Address, destination_discrete}

  abbrev State : Type 0
  State = CommunicationState net

  -- The branch `result == insert_code::fresh` of `add_passive`, at the item that it replaces.
  unfoldable pub write_passive : ℕ → ℕ → Address → PeerState → StateItem net → State → State
  write_passive now index addr value stored s = record s {
    peers = set s.peers index (record (new_item net now addr) { value = value });
    map_by_address =
        assign destination_discrete (address_key net addr) index
          (erase destination_discrete (address_key net stored.address) s.map_by_address);
    map_by_key = assign string_discrete (key value) index (
        erase string_discrete (key stored.value) (release_key value (fresh_peer now) s.map_by_key));
    set_to_listen = elim (kind net addr) [
      | connect ↦ s.set_to_listen
      | listen ↦ insert index s.set_to_listen
    ];
    set_to_connect = elim (kind net addr) [
      | connect ↦ insert index s.set_to_connect
      | listen ↦ s.set_to_connect
    ];
  }

  unfoldable pub store_passive : ℕ → ℕ → Address → PeerState → State → Option State
  store_passive now index addr value s = do
    stored ← get_elem? s.peers index
    some (write_passive now index addr value stored s)

  -- An address that is known: it is taken again only where it is about to be removed and is not
  -- active.
  unfoldable pub revive : ℕ → ℕ → Address → PeerState → State → Option (State × InsertCode)
  revive now index addr value s = elim (find ℕ_discrete index s.map_to_remove) [
    | none ↦ some (s, old)
    | some info ↦
        if info.steps == 0
        then (do
          stored ← get_elem? s.peers index
          elim (state net stored) [
            | active ↦ some (s, old)
            | passive ↦ do
              s' ←
                  store_passive now index addr value
                    (record s { map_to_remove = erase ℕ_discrete index s.map_to_remove })
              some (s', fresh)
          ])
        else some (s, old)
  ]

  unfoldable pub add_passive : ℕ → Address → PeerState → State → Option (State × InsertCode)
  add_passive now addr value s =
      elim (find destination_discrete (address_key net addr) s.map_by_address) [
        | some index ↦ revive now index addr value s
        | none ↦ do
          s' ←
              store_passive now (length s.peers) addr value
                (record s { peers = s.peers ++ new_item net now addr ∷ [] })
          some (s', fresh)
      ]

  -- The entry of `map_by_peer_id` that an active item leaves when it gets another peer: the code
  -- asserts that it is there, and erases at the iterator that it found.
  unfoldable pub release_peer : StateItem net → String → Map String ℕ → Option (Map String ℕ)
  release_peer stored p m = elim stored.peer [
    | none ↦ some m
    | some q ↦
        ite (string_discrete p q) (some m)
          (do _ ← find string_discrete q m; some (erase string_discrete q m))
  ]

  -- The rest of `add_active`, once `add_passive` has run.
  unfoldable pub write_active :
      ℕ → ℕ → Address → String → PeerState → StateItem net → Map String ℕ → State → State
  write_active now index addr p value stored by_peer_id s = record s {
    peers =
        set s.peers index (record (set_peer_id net now addr p stored) { value = update now value });
    map_by_peer_id = assign string_discrete p index by_peer_id;
    map_by_key =
        assign string_discrete (key value) index (release_key value stored.value s.map_by_key);
    set_to_connect = discard index s.set_to_connect;
    set_to_listen = discard index s.set_to_listen;
  }

  unfoldable pub activate : ℕ → Address → String → PeerState → State → Option State
  activate now addr p value s = do
    index ← find destination_discrete (address_key net addr) s.map_by_address
    stored ← get_elem? s.peers index
    by_peer_id ← release_peer stored p s.map_by_peer_id
    some (write_active now index addr p value stored by_peer_id s)

  unfoldable pub add_active : ℕ → Address → String → PeerState → State → Option (State × UpdateCode)
  add_active now addr p value s = do
    (s1, code) ← add_passive now addr (fresh_peer now) s
    s2 ← activate now addr p value s1
    some (s2, elim code [ old ↦ updated | fresh ↦ added ])

  -- The body that `set_active_value` and `set_value` share, at the index that they find.
  unfoldable pub write_value : ℕ → ℕ → PeerState → StateItem net → State → State
  write_value now index value stored s = record s {
    peers = set s.peers index (record stored { value = update now value });
    map_by_key =
        assign string_discrete (key value) index (release_key value stored.value s.map_by_key);
  }

  unfoldable pub store_value : ℕ → ℕ → PeerState → State → Option State
  store_value now index value s = do
    stored ← get_elem? s.peers index
    some (write_value now index value stored s)

  unfoldable pub set_active_value : ℕ → String → PeerState → State → Option State
  set_active_value now p value s = elim (find string_discrete p s.map_by_peer_id) [
    | none ↦ some s
    | some index ↦ store_value now index value s
  ]

  unfoldable pub set_value : ℕ → Address → PeerState → State → Option State
  set_value now addr value s =
      elim (find destination_discrete (address_key net addr) s.map_by_address) [
        | none ↦ some s
        | some index ↦ store_value now index value s
      ]
