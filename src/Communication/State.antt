-- ===== src/Communication/State.antt =====
-- src/libp2psocket/p2pstate.cpp: `peer_state`, `state_item` and the members of
-- `communication_state`. A reading of the clock is an argument of what reads it.
use mesh_pp.Prelude.{
  ℕ, ◌-◌, ◌^◌, String, Bool, not, Option, none, some, List, [], Map, if◌then◌else◌,
}
use mesh_pp.Net.{Net}

-- `size_t(-1)`.
abbrev pub size_max : ℕ
size_max = 2 ^ 64 - 1

pub record PeerState : Type 0 where
  pub open_attempts : ℕ
  pub requested : ℕ
  pub node_id : String
  pub updated : ℕ

-- The constructor, at the time that it reads.
abbrev pub fresh_peer : ℕ → PeerState
fresh_peer now = record {
  open_attempts = size_max;
  requested = size_max;
  node_id = "";
  updated = now;
}

abbrev pub update : ℕ → PeerState → PeerState
update now v = record v { updated = now }

abbrev pub key : PeerState → String
key v = v.node_id

pub data Phase : Type 0 where
  passive active : Phase

pub data Kind : Type 0 where
  connect listen : Kind

pub record ToRemoveInfo : Type 0 where
  pub steps : ℕ
  pub send_drop : Bool
  pub must_notify : Bool

module _ (net : Net) where
  open net use {Destination, Address, is_empty, near, remote}

  pub record StateItem : Type 0 where
    pub value : PeerState
    pub peer : Option String
    pub address : Address

  -- `state_item(addr)`, with the value that its constructor makes.
  abbrev pub new_item : ℕ → Address → StateItem
  new_item now addr = record { value = fresh_peer now; peer = none; address = addr }

  abbrev pub state : StateItem → Phase
  state item = elim item.peer [ none ↦ passive | some p ↦ active ]

  unfoldable pub kind : Address → Kind
  kind addr = if is_empty (remote addr) then listen else connect

  abbrev pub set_peer_id : ℕ → Address → String → StateItem → StateItem
  set_peer_id now addr p item = record {
    value = update now item.value;
    peer = some p;
    address = addr;
  }

  unfoldable pub address_key : Address → Destination
  address_key addr = if not (is_empty (remote addr)) then remote addr else near addr

  pub record CommunicationState : Type 0 where
    pub peers : List StateItem
    pub map_by_address : Map Destination ℕ
    pub map_by_peer_id : Map String ℕ
    pub map_by_key : Map String ℕ
    pub set_to_listen : List ℕ
    pub set_to_connect : List ℕ
    pub map_to_remove : Map ℕ ToRemoveInfo

  -- The set in which an item of the kind waits.
  abbrev pub todo_set : Kind → CommunicationState → List ℕ
  todo_set connect s = s.set_to_connect
  todo_set listen s = s.set_to_listen

  abbrev pub empty_state : CommunicationState
  empty_state = record {
    peers = [];
    map_by_address = [];
    map_by_peer_id = [];
    map_by_key = [];
    set_to_listen = [];
    set_to_connect = [];
    map_to_remove = [];
  }
