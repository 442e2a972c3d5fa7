-- ===== src/NodeState/Connections.antt =====
-- src/libp2psocket/p2pstate.cpp: what `p2pstate_ex` passes on to its `communication_state`.
use mesh_pp.Prelude.{
  ℕ, String, Bool, Option, none, some, List, [], ◌∷◌, map, ◌>>=◌, ◌==◌, if◌then◌else◌,
}
use mesh_pp.Net.{Net}
use mesh_pp.Communication.State.{fresh_peer, StateItem, CommunicationState, size_max}
use mesh_pp.Communication.Insert
use mesh_pp.Communication.Insert.{InsertCode, UpdateCode}
use mesh_pp.Communication.Query
use mesh_pp.Communication.Removal
use mesh_pp.NodeState.State.{NodeState}

module _ (net : Net) where
  open net use {Address}

  abbrev Node : Type 0
  Node = NodeState net

  -- The node with what a call left of its connections.
  abbrev pub with_state {ℓ} : {A : Type ℓ} → Node → CommunicationState net × A → Node × A
  with_state s (t, a) = (record s { program_state = t }, a)

  unfoldable pub do_step : Node → Node
  do_step s = record s { program_state = Removal.do_step net s.program_state }

  unfoldable pub set_active_nodeid : ℕ → String → String → Node → Option Node
  set_active_nodeid now peerid nodeid s = do
    t ←
        Insert.set_active_value net now peerid (record (fresh_peer now) { node_id = nodeid })
          s.program_state
    some (record s { program_state = t })

  -- `get_peer` of each item.
  unfoldable pub peers_of : List (StateItem net) → Option (List String)
  peers_of [] = some []
  peers_of (item ∷ items) = do p ← item.peer; ps ← peers_of items; some (p ∷ ps)

  unfoldable pub get_connected_peerids : Node → Option (List String)
  get_connected_peerids s = peers_of (Query.get_connected net s.program_state)

  unfoldable pub get_connected_addresses : Node → List Address
  get_connected_addresses s = map (λ item. item.address) (Query.get_connected net s.program_state)

  unfoldable pub get_listening_addresses : Node → List Address
  get_listening_addresses s = map (λ item. item.address) (Query.get_listening net s.program_state)

  unfoldable pub add_passive : ℕ → Address → Node → Option (Node × InsertCode)
  add_passive now addr s = do
    r ← Insert.add_passive net now addr (fresh_peer now) s.program_state
    some (with_state s r)

  unfoldable pub add_passive_attempts : ℕ → Address → ℕ → Node → Option (Node × InsertCode)
  add_passive_attempts now addr open_attempts s = do
    r ←
        Insert.add_passive net now addr (record (fresh_peer now) { open_attempts = open_attempts })
          s.program_state
    some (with_state s r)

  unfoldable pub add_active : ℕ → Address → String → Node → Option (Node × UpdateCode)
  add_active now addr p s = do
    r ← Insert.add_active net now addr p (fresh_peer now) s.program_state
    some (with_state s r)

  unfoldable pub get_to_listen : Node → Option (List Address)
  get_to_listen s = Query.get_to_listen net s.program_state

  unfoldable pub get_to_connect : Node → Option (List Address)
  get_to_connect s = Query.get_to_connect net s.program_state

  unfoldable pub remove_from_todo_list : Address → Node → Node × Bool
  remove_from_todo_list addr s = with_state s (Query.remove_from_todo_list net addr s.program_state)

  unfoldable pub get_open_attempts : Address → Node → Option ℕ
  get_open_attempts addr s = do
    found ← Query.get_value net addr s.program_state
    some (elim found [
      | none ↦ 0
      | some value ↦ if value.open_attempts == size_max then 0 else value.open_attempts
    ])

  unfoldable pub remove_later_peer : String → ℕ → Bool → Bool → Node → Node × Bool
  remove_later_peer p step send_drop must_notify s =
      with_state s (Removal.remove_later_peer net p step send_drop must_notify s.program_state)

  unfoldable pub remove_later_address :
      Address → ℕ → Bool → Bool → Bool → Node → Option (Node × Bool)
  remove_later_address addr step send_drop only_if_passive must_notify s = do
    r ←
        Removal.remove_later_address net addr step send_drop only_if_passive must_notify
          s.program_state
    some (with_state s r)

  unfoldable pub undo_remove : String → Node → Node
  undo_remove p s = record s { program_state = Removal.undo_remove net p s.program_state }

  unfoldable pub get_nodeid : String → Node → Option String
  get_nodeid peerid s = do
    found ← Query.get_active_value net peerid s.program_state
    some (elim found [ none ↦ "" | some value ↦ value.node_id ])
