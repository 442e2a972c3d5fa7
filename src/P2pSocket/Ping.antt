-- ===== src/P2pSocket/Ping.antt =====
-- src/libp2psocket/p2psocket.cpp: `receive`, the case of a `Ping`. Where the code leaves the case
-- early, the turn ends.
use mesh_pp.Prelude.{
  ℕ, ◌/◌, String, Bool, true, false, not, ◌&&◌, ◌||◌, some, ◌>>=◌, if◌then◌else◌, ok, throw,
}
use mesh_pp.Net.{Net}
use mesh_pp.NodeState.State.{
  NodeState, ContactStatus, no_contact, new_contact, existing_contact, name,
  get_external_ip_address, set_external_ip_address, is_peer_verified, set_peer_verified,
}
use mesh_pp.NodeState.Connections
use mesh_pp.NodeState.Contacts.{contacts_empty, add_contact}
use mesh_pp.NodeState.Dropped.{process_node_drop}
use mesh_pp.P2pSocket.State.{
  Wire, P2pSocket, Packet, stream_join, pong, Turn, Outcome, done, put_state, send_to, give,
  signed_text, is_stale,
}
use mesh_pp.P2pSocket.Setup.{same_address, is_the_first_configured_address}
use mesh_pp.P2pSocket.Receive.{is_empty_text}

-- The fields of the message `Ping`.
pub record PingMessage (Address : Type 0) : Type 0 where
  pub connection_info : Address
  pub nodeid : String
  pub stamp : ℕ
  pub signature : String

module _ (net : Net) (wire : Wire net) where
  open net use {Destination, Address, near, remote, is_empty}
  open wire use {make_address, ip_type, empty_destination, digest, sign, verify_signature, second}

  abbrev Node : Type 0
  Node = NodeState net

  abbrev Receiving : Type 0
  Receiving = Turn net wire

  abbrev Ended : Type 0
  Ended = Outcome net wire

  abbrev pub external_address : PingMessage Address → Address
  external_address msg =
      make_address (remote msg.connection_info) empty_destination (ip_type msg.connection_info)

  -- The test `can_reset_external_address`, with what it keeps in the socket.
  unfoldable pub can_reset : Address → Receiving → P2pSocket net wire × Bool
  can_reset peer_connection t =
      if contacts_empty net digest t.sock.state
      then (t.sock, true)
      else is_the_first_configured_address net wire peer_connection t.current_connection t.sock

  -- Whether the peer is trusted with the message, and the state with a peer that is verified now.
  unfoldable pub check_signature : String → PingMessage Address → Node → Node × Bool
  check_signature current_peer msg s =
      if is_empty_text net wire msg.signature
      then (s, is_peer_verified net current_peer s)
      else if verify_signature msg.nodeid (signed_text net wire msg.nodeid msg.stamp) msg.signature
      then (set_peer_verified net current_peer s, true)
      else (s, false)

  -- The stored address after the message, in the state.
  unfoldable pub store_external : Bool → PingMessage Address → Node → Node
  store_external reset msg s =
      let stored = get_external_ip_address net s in
      if (is_empty (near stored) && is_empty (remote stored)) || reset
      then set_external_ip_address net (external_address msg) s
      else s

  abbrev pub pong_to : ℕ → PingMessage Address → Node → Packet net wire
  pong_to clock msg s = pong (name net s) (clock / second) (
      if is_empty_text net wire msg.signature
      then ""
      else sign (signed_text net wire (name net s) (clock / second)))

  -- What follows on the answer of `add_contact`.
  unfoldable pub answer_status :
      ℕ → String → PingMessage Address → ContactStatus → Receiving → Ended
  answer_status now current_peer msg no_contact t =
      done net wire (put_state net wire (process_node_drop net msg.nodeid t.sock.state) t)
  answer_status now current_peer msg existing_contact t = do
    let (s, _) = Connections.remove_later_peer net current_peer 10 true true t.sock.state
    s1 ← Connections.set_active_nodeid net now current_peer msg.nodeid s
    done net wire (put_state net wire s1 t)
  answer_status now current_peer msg new_contact t = do
    let (s, _) = Connections.remove_later_peer net current_peer 10 true true t.sock.state
    s1 ← Connections.set_active_nodeid net now current_peer msg.nodeid s
    let t1 = put_state net wire s1 t
    done net wire (
        if is_empty_text net wire msg.nodeid
        then t1
        else give net wire stream_join (record t1 { peer = msg.nodeid }))

  -- From `add_contact` on.
  unfoldable pub accept_ping : ℕ → ℕ → String → PingMessage Address → Receiving → Ended
  accept_ping now clock current_peer msg t =
      elim (add_contact net digest current_peer msg.nodeid t.sock.state) [
        | throw e ↦ some (t, some e)
        | ok (s, status) ↦
            answer_status now current_peer msg status
              (send_to net wire current_peer (pong_to clock msg s) (put_state net wire s t))
      ]

  -- From the test of the time on, with the answer of `can_reset`.
  unfoldable pub check_ping : ℕ → ℕ → String → PingMessage Address → Bool → Receiving → Ended
  check_ping now clock current_peer msg reset t = is_stale net wire msg.stamp clock >>= λ stale.
      if stale
      then done net wire t
      else let (s, trusted) = check_signature current_peer msg t.sock.state in
        if not trusted
        then done net wire (put_state net wire s t)
        else let s1 = store_external reset msg s in
          if same_address net wire (external_address msg) (get_external_ip_address net s1)
          then accept_ping now clock current_peer msg (put_state net wire s1 t)
          else done net wire (put_state net wire s1 t)

  unfoldable pub receive_ping : ℕ → ℕ → String → PingMessage Address → Receiving → Ended
  receive_ping now clock current_peer msg t = elim (wire.info_connection current_peer) [
    | throw e ↦ some (t, some e)
    | ok peer_connection ↦
        let (sock, reset) = can_reset peer_connection t in
        check_ping now clock current_peer msg reset (record t { sock = sock })
  ]
