-- ===== src/P2pSocket/Exchange.antt =====
-- src/libp2psocket/p2psocket.cpp: `receive`, the cases of the other messages.
use mesh_pp.Prelude.{
  ℕ, String, string_discrete, Bool, none, some, List, [], ◌∷◌, ◌>>=◌, if◌then◌else◌, ite, ok, throw,
}
use mesh_pp.Net.{Net}
use mesh_pp.NodeState.State.{NodeState, name, is_peer_verified}
use mesh_pp.NodeState.Connections
use mesh_pp.NodeState.Contacts.{get_kbucket_nodeids, process_introduce_request}
use mesh_pp.NodeState.Dropped.{process_node_join, filter_introduce_candidates}
use mesh_pp.P2pSocket.State.{
  Wire, find_node, node_details, introduce_to, open_connection_with, contents, Turn, Outcome, done,
  with_near, put_state, send_to, give, signed_text, is_stale,
}
use mesh_pp.P2pSocket.Receive.{is_empty_text}

module _ (net : Net) (wire : Wire net) where
  open net use {Address, near}
  open wire use {digest, verify_signature, Contents}

  abbrev Receiving : Type 0
  Receiving = Turn net wire

  abbrev Ended : Type 0
  Ended = Outcome net wire

  -- Whether the pong is signed by its node, or comes from a peer that is verified.
  unfoldable pub is_trusted : String → String → ℕ → String → NodeState net → Bool
  is_trusted current_peer nodeid stamp signature s =
      if is_empty_text net wire signature
      then is_peer_verified net current_peer s
      else verify_signature nodeid (signed_text net wire nodeid stamp) signature

  unfoldable pub receive_pong : ℕ → String → String → ℕ → String → Receiving → Ended
  receive_pong clock current_peer nodeid stamp signature t =
      ite (string_discrete (name net t.sock.state) nodeid) (done net wire t) (
        is_stale net wire stamp clock >>= λ stale.
        if stale
        then done net wire t
        else if is_trusted current_peer nodeid stamp signature t.sock.state
        then done net wire (send_to net wire current_peer (find_node (name net t.sock.state)) t)
        else done net wire t)

  unfoldable pub receive_find_node : String → Receiving → Ended
  receive_find_node current_peer t = done net wire (
      send_to net wire current_peer
        (node_details (name net t.sock.state) (get_kbucket_nodeids net digest t.sock.state)) t)

  unfoldable pub send_introductions : String → List String → Receiving → Receiving
  send_introductions current_peer [] t = t
  send_introductions current_peer (intro ∷ rest) t =
      send_introductions current_peer rest (send_to net wire current_peer (introduce_to intro) t)

  unfoldable pub receive_node_details : String → List String → Receiving → Ended
  receive_node_details current_peer nodeids t =
      let (s, want_introduce) = filter_introduce_candidates net digest nodeids t.sock.state in
      done net wire (send_introductions current_peer want_introduce (put_state net wire s t))

  unfoldable pub receive_introduce_to : String → String → Receiving → Ended
  receive_introduce_to current_peer nodeid t =
      elim (process_introduce_request net digest nodeid t.sock.state) [
        | none ↦ done net wire t
        | some introduce_peer_id ↦ elim (wire.info introduce_peer_id) [
          | throw e ↦ some (t, some e)
          | ok introduce_addr ↦
              let sent =
                send_to net wire introduce_peer_id (open_connection_with t.current_connection)
                  (send_to net wire current_peer (open_connection_with introduce_addr) t) in
              done net wire (record sent { current_connection = wire.moved t.current_connection })
        ]
      ]

  unfoldable pub receive_open_connection : ℕ → Address → Receiving → Ended
  receive_open_connection now addr t = if t.sock.discovery_server then done net wire t else (do
    (s, _) ←
        Connections.add_passive_attempts net now
          (with_near net wire (near t.current_connection) addr) 1000 t.sock.state
    done net wire (put_state net wire s t))

  unfoldable pub receive_other : Contents → String → Receiving → Ended
  receive_other pack current_peer_nodeid t =
      let t1 = record t { peer = current_peer_nodeid } in
      done net wire (
        if is_empty_text net wire current_peer_nodeid
        then t1
        else put_state net wire (process_node_join net current_peer_nodeid t.sock.state)
            (give net wire (contents pack) t1))
