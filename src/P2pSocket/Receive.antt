-- ===== src/P2pSocket/Receive.antt =====
-- src/libp2psocket/p2psocket.cpp: `receive`, the packets that the socket itself makes. `now` is the
-- reading of the steady clock, `clock` the one of the system's clock.
use Prim.Native.String.{◌++◌ as ◌+++◌}
use mesh_pp.Prelude.{
  ℕ, ◌/◌, String, string_discrete, Bool, true, false, ◌||◌, some, ◌>>=◌, ◌==◌, if◌then◌else◌,
  logic_error,
}
use mesh_pp.Net.{Net}
use mesh_pp.NodeState.State.{
  NodeState, name, get_fixed_local_port, set_fixed_local_port, set_peer_unverified,
}
use mesh_pp.NodeState.Connections
use mesh_pp.NodeState.Dropped.{process_node_drop}
use mesh_pp.P2pSocket.State.{
  Wire, Packet, stream_drop, stream_protocol_error, ping, Turn, Outcome, done, put_state, send_to,
  give, signed_text,
}
use mesh_pp.P2pSocket.Setup.{remove_if_configured_address}

module _ (net : Net) (wire : Wire net) where
  open net use {Destination, Address, near, remote, is_empty}
  open wire use {
    make_address, ip_type, port, empty_destination, digest, sign, verify_signature, second,
    Contents,
  }

  abbrev Node : Type 0
  Node = NodeState net

  abbrev Receiving : Type 0
  Receiving = Turn net wire

  abbrev Ended : Type 0
  Ended = Outcome net wire

  abbrev pub is_empty_text : String → Bool
  is_empty_text s = elim (string_discrete s "") [ yes _ ↦ true | no _ ↦ false ]

  abbrev pub signed_ping : ℕ → Address → Node → Packet net wire
  signed_ping clock connection s =
      ping connection (name net s) (clock / second)
        (sign (signed_text net wire (name net s) (clock / second)))

  unfoldable pub receive_join : ℕ → ℕ → String → Receiving → Ended
  receive_join now clock current_peer t =
      let s = t.sock.state in
      let local_port = port (near t.current_connection) in
      if get_fixed_local_port net s == 0 || local_port == get_fixed_local_port net s
      then (do
        (s1, _) ← Connections.add_active net now t.current_connection current_peer s
        let (s2, _) = Connections.remove_later_peer net current_peer 10 true false s1
        (s3, _) ←
            Connections.add_passive net now
              (make_address (near t.current_connection) empty_destination
                (ip_type t.current_connection))
              (set_fixed_local_port net local_port s2)
        done net wire (
            put_state net wire s3
              (send_to net wire current_peer (signed_ping clock t.current_connection s1) t)))
      else some (t, some logic_error)

  unfoldable pub receive_protocol_error : String → String → String → Receiving → Ended
  receive_protocol_error buffer current_peer current_peer_nodeid t =
      let (s, _) = Connections.remove_later_peer net current_peer 0 true false t.sock.state in
      let t1 = record (put_state net wire s t) { peer = current_peer_nodeid } in
      done net wire (
        if is_empty_text current_peer_nodeid
        then t1
        else give net wire (stream_protocol_error buffer) t1)

  -- `socket_open_refused` and `socket_open_error`.
  unfoldable pub receive_not_open : Packet net wire → Address → String → Receiving → Ended
  receive_not_open packet address current_peer t = do
    sock ← remove_if_configured_address net wire address t.sock
    done net wire (give net wire packet (record t { sock = sock; peer = "p2p: " +++ current_peer }))

  unfoldable pub receive_drop : String → String → Receiving → Ended
  receive_drop current_peer current_peer_nodeid t =
      let s = set_peer_unverified net current_peer t.sock.state in
      let (s1, _) = Connections.remove_later_peer net current_peer 0 false false s in
      let t1 = record (put_state net wire s1 t) { peer = current_peer_nodeid } in
      done net wire (
        if is_empty_text current_peer_nodeid
        then t1
        else put_state net wire (process_node_drop net current_peer_nodeid s1)
            (give net wire stream_drop t1))
