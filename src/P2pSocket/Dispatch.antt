-- ===== src/P2pSocket/Dispatch.antt =====
-- src/libp2psocket/p2psocket.cpp: `receive`, its loop over the packets that the socket gives.
use mesh_pp.Prelude.{
  ℕ, ◌+◌, String, Bool, true, false, none, some, List, [], ◌∷◌, ◌>>=◌, if◌then◌else◌, ok, throw,
}
use mesh_pp.Net.{Net}
use mesh_pp.NodeState.Connections
use mesh_pp.P2pSocket.State.{
  Wire, P2pSocket, Packet, stream_join, stream_drop, stream_protocol_error, socket_open_refused,
  socket_open_error, ping, pong, find_node, node_details, introduce_to, open_connection_with, other,
  contents, Turn, Outcome, done,
}
use mesh_pp.P2pSocket.Receive.{receive_join, receive_protocol_error, receive_not_open, receive_drop}
use mesh_pp.P2pSocket.Ping.{receive_ping}
use mesh_pp.P2pSocket.Exchange.{
  receive_pong, receive_find_node, receive_node_details, receive_introduce_to,
  receive_open_connection, receive_other,
}

module _ (net : Net) (wire : Wire net) where
  abbrev Receiving : Type 0
  Receiving = Turn net wire

  abbrev Ended : Type 0
  Ended = Outcome net wire

  -- The packets for which the connection of the peer is not asked for.
  unfoldable pub has_connection : Packet net wire → Bool
  has_connection stream_drop = false
  has_connection (socket_open_refused _) = false
  has_connection (socket_open_error _) = false
  has_connection _ = true

  -- `sk.info(current_peer)`; what it throws is caught.
  unfoldable pub look_up : Packet net wire → String → Receiving → Receiving
  look_up packet current_peer t =
      if has_connection packet
      then (elim (wire.info current_peer) [
        | throw _ ↦ t
        | ok connection ↦ record t { current_connection = connection }
      ])
      else t

  -- The `switch`.
  unfoldable pub dispatch : ℕ → ℕ → String → String → Packet net wire → Receiving → Ended
  dispatch now clock current_peer nodeid stream_join t =
      receive_join net wire now clock current_peer t
  dispatch now clock current_peer nodeid stream_drop t = receive_drop net wire current_peer nodeid t
  dispatch now clock current_peer nodeid (stream_protocol_error buffer) t =
      receive_protocol_error net wire buffer current_peer nodeid t
  dispatch now clock current_peer nodeid (socket_open_refused address) t =
      receive_not_open net wire (socket_open_refused address) address current_peer t
  dispatch now clock current_peer nodeid (socket_open_error address) t =
      receive_not_open net wire (socket_open_error address) address current_peer t
  dispatch now clock current_peer nodeid (ping connection_info id stamp signature) t =
      receive_ping net wire now clock current_peer
        (record {
          connection_info = connection_info;
          nodeid = id;
          stamp = stamp;
          signature = signature;
        })
        t
  dispatch now clock current_peer nodeid (pong id stamp signature) t =
      receive_pong net wire clock current_peer id stamp signature t
  dispatch now clock current_peer nodeid (find_node id) t =
      receive_find_node net wire current_peer t
  dispatch now clock current_peer nodeid (node_details origin nodeids) t =
      receive_node_details net wire current_peer nodeids t
  dispatch now clock current_peer nodeid (introduce_to id) t =
      receive_introduce_to net wire current_peer id t
  dispatch now clock current_peer nodeid (open_connection_with addr) t =
      receive_open_connection net wire now addr t
  dispatch now clock current_peer nodeid (other pack) t = receive_other net wire pack nodeid t
  dispatch now clock current_peer nodeid (contents pack) t = done net wire t

  unfoldable pub receive_packet : ℕ → ℕ → String → Packet net wire → Receiving → Ended
  receive_packet now clock current_peer packet t = do
    nodeid ← Connections.get_nodeid net current_peer t.sock.state
    dispatch now clock current_peer nodeid packet (look_up packet current_peer t)

  -- What is thrown ends the loop.
  unfoldable pub receive_packets : ℕ → ℕ → String → List (Packet net wire) → Receiving → Ended
  receive_packets now clock current_peer [] t = done net wire t
  receive_packets now clock current_peer (packet ∷ packets) t = do
    (t1, thrown) ← receive_packet now clock current_peer packet t
    elim thrown [
      | none ↦ receive_packets now clock current_peer packets t1
      | some e ↦ some (t1, some e)
    ]

  abbrev pub new_turn : net.Address → P2pSocket net wire → Receiving
  new_turn unset sock = record {
    sock = sock;
    sent = [];
    returned = [];
    peer = "";
    current_connection = unset;
  }

  unfoldable pub count_attempt : List (Packet net wire) → P2pSocket net wire → P2pSocket net wire
  count_attempt [] sock = record sock { receive_attempt_count = sock.receive_attempt_count + 1 }
  count_attempt (_ ∷ _) sock = record sock { receive_attempt_count = 0 }

  -- A node that was removed is reported before the socket is asked; `packets` and `current_peer`
  -- are what the socket answers.
  unfoldable pub receive :
      ℕ → ℕ → net.Address → String → List (Packet net wire) → P2pSocket net wire → Ended
  receive now clock unset current_peer packets sock = elim sock.notify_removed_peers [
    | nodeid ∷ rest ↦
        done net wire (record (new_turn unset (record sock { notify_removed_peers = rest })) {
          returned = stream_drop ∷ [];
          peer = nodeid;
        })
    | [] ↦
        receive_packets now clock current_peer packets (new_turn unset (count_attempt packets sock))
  ]
