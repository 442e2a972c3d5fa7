-- ===== src/P2pSocket/Returns.antt =====
-- src/libp2psocket/p2psocket.cpp: each packet on a valid node.
use Prim.Native.String.{◌++◌ as ◌+++◌}
use mesh_pp.Prelude.{
  Result-cases, ℕ, ◌≡◌, refl, sym, subst, String, string_discrete, true, false, ◌||◌, ◌==◌, none,
  some, List, [], ◌∷◌, logic_error, Bool-cases, Option-cases, inl, inr, arith,
}
use mesh_pp.Net.{Net}
use mesh_pp.Communication.Valid.Active.{IsFree}
use mesh_pp.NodeState.State.{name, set_peer_unverified, set_fixed_local_port, get_fixed_local_port}
use mesh_pp.NodeState.Connections
use mesh_pp.NodeState.Contacts.{process_introduce_request}
use mesh_pp.NodeState.Dropped.{filter_introduce_candidates}
use mesh_pp.NodeState.Skipped.{filter_kept}
use mesh_pp.P2pSocket.State.{
  Wire, P2pSocket, Packet, stream_join, stream_drop, stream_protocol_error, socket_open_refused,
  socket_open_error, ping, pong, find_node as find_node_packet, node_details, introduce_to,
  open_connection_with, other, contents, Turn, put_state, send_to, give, with_near, stamp_of,
  IsTime,
}
use mesh_pp.P2pSocket.Sound.{
  Sound, Sound-kept, add_passive-Sound, add_passive_attempts-Sound, add_active-Sound,
  remove_later_peer-Sound, remove_later_address-Sound, get_nodeid-Sound, process_node_drop-Sound,
  process_node_join-Sound,
}
use mesh_pp.P2pSocket.SoundReceive.{Returns, stale_cases, receive_ping-Returns}
use mesh_pp.P2pSocket.Setup.{is_configured_address, remove_if_configured_address}
use mesh_pp.P2pSocket.Receive.{
  is_empty_text, receive_join, receive_protocol_error, receive_not_open, receive_drop, signed_ping,
}
use mesh_pp.P2pSocket.Exchange.{
  is_trusted, receive_pong, receive_find_node, send_introductions, receive_node_details,
  receive_introduce_to, receive_open_connection, receive_other,
}
use mesh_pp.P2pSocket.Dispatch.{look_up, dispatch, receive_packet}

module _ (net : Net) (wire : Wire net) where
  open net use {Address, near}
  open wire use {digest, port, make_address, empty_destination, ip_type, Contents}

  abbrev Turned : Type 0
  Turned = Turn net wire

  receive_protocol_error-Returns :
      (buffer current_peer nodeid : String) (t : Turned)
      → Sound net wire t.sock.state
      → Returns net wire (receive_protocol_error net wire buffer current_peer nodeid t)
  unfolding receive_protocol_error
  receive_protocol_error-Returns buffer current_peer nodeid t h =
      let h1 = remove_later_peer-Sound net wire current_peer 0 true false t.sock.state h in
      elim (Bool-cases (is_empty_text net wire nodeid)) [
        | inl q ↦ (_, refl, rw q h1)
        | inr q ↦ (_, refl, rw q h1)
      ]

  remove_if_configured_address-Sound :
      (item : Address) (sock : P2pSocket net wire)
      → Sound net wire sock.state
      → (sock' : P2pSocket net wire) × (remove_if_configured_address net wire item sock
          ≡ some sock')
        × Sound net wire sock'.state
  unfolding remove_if_configured_address
  remove_if_configured_address-Sound item sock h =
      let ((s, marked), e, h1) =
        remove_later_address-Sound net wire item 0 true false sock.state h in
      elim (Bool-cases (is_configured_address net wire sock item)) [
        | inl q ↦ (record sock { state = s }, ground (arith, q, e), h1)
        | inr q ↦ (sock, ground (arith, q), h)
      ]

  receive_not_open-Returns :
      (packet : Packet net wire) (address : Address) (current_peer : String) (t : Turned)
      → Sound net wire t.sock.state
      → Returns net wire (receive_not_open net wire packet address current_peer t)
  unfolding receive_not_open
  receive_not_open-Returns packet address current_peer t h =
      let (sock, e, h1) = remove_if_configured_address-Sound address t.sock h in
      (
        (give net wire packet (record t { sock = sock; peer = "p2p: " +++ current_peer }), none),
        ground (arith, e),
        h1,
      )

  receive_drop-Returns :
      (current_peer nodeid : String) (t : Turned)
      → Sound net wire t.sock.state
      → Returns net wire (receive_drop net wire current_peer nodeid t)
  unfolding receive_drop set_peer_unverified
  receive_drop-Returns current_peer nodeid t h =
      let h0 =
        Sound-kept net wire t.sock.state (set_peer_unverified net current_peer t.sock.state) refl
          refl refl h in
      let h1 =
        remove_later_peer-Sound net wire current_peer 0 false false
          (set_peer_unverified net current_peer t.sock.state) h0 in
      elim (Bool-cases (is_empty_text net wire nodeid)) [
        | inl q ↦ (_, refl, rw q h1)
        | inr q ↦ (_, refl, rw q (process_node_drop-Sound net wire nodeid _ h1))
      ]

  receive_join-Returns :
      (now clock : ℕ) (current_peer : String) (t : Turned)
      → IsFree net current_peer t.current_connection t.sock.state.program_state
      → Sound net wire t.sock.state
      → Returns net wire (receive_join net wire now clock current_peer t)
  unfolding receive_join set_fixed_local_port
  receive_join-Returns now clock current_peer t free h =
      let local_port = port (near t.current_connection) in
      let ((s1, code), e, h1) =
        add_active-Sound net wire now t.current_connection current_peer t.sock.state free h in
      let s2 = (Connections.remove_later_peer net current_peer 10 true false s1).0 in
      let h2 = remove_later_peer-Sound net wire current_peer 10 true false s1 h1 in
      let ((s3, answer), e3, h3) =
        add_passive-Sound net wire now
          (make_address (near t.current_connection) empty_destination
            (ip_type t.current_connection))
          (set_fixed_local_port net local_port s2)
          (Sound-kept net wire s2 (set_fixed_local_port net local_port s2) refl refl refl h2) in
      elim (Bool-cases (
        get_fixed_local_port net t.sock.state == 0
        || local_port == get_fixed_local_port net t.sock.state)) [
          | inr q ↦ ((t, some logic_error), ground (arith, q), h)
          | inl q ↦ (
            (
              put_state net wire s3 (
                  send_to net wire current_peer (signed_ping net wire clock t.current_connection s1)
                    t),
              none,
            ),
            ground (arith, q, e, e3),
            h3,
          )
        ]

  receive_pong-Returns :
      (clock : ℕ) (current_peer nodeid : String) (stamp : ℕ) (signature : String) (t : Turned)
      → Sound net wire t.sock.state
      → IsTime net wire stamp
      → Returns net wire (receive_pong net wire clock current_peer nodeid stamp signature t)
  unfolding receive_pong
  receive_pong-Returns clock current_peer nodeid stamp signature t h time =
      let asked = send_to net wire current_peer (find_node_packet (name net t.sock.state)) t in
      elim (string_discrete (name net t.sock.state) nodeid) [
        | yes q ↦ ((t, none), ground (arith, q), h)
        | no n ↦ elim (stale_cases net wire stamp clock time) [
          | inl q ↦ ((t, none), ground (arith, n, q), h)
          | inr q ↦
              elim (Bool-cases
                (is_trusted net wire current_peer nodeid stamp signature t.sock.state)) [
                  | inl y ↦ ((asked, none), ground (arith, n, q, y), h)
                  | inr y ↦ ((t, none), ground (arith, n, q, y), h)
                ]
        ]
      ]

  send_introductions_sock :
      (current_peer : String) (nodeids : List String) (t : Turned)
      → (send_introductions net wire current_peer nodeids t).sock ≡ t.sock
  unfolding send_introductions
  send_introductions_sock current_peer [] t = refl
  send_introductions_sock current_peer (intro ∷ rest) t =
      send_introductions_sock current_peer rest
        (send_to net wire current_peer (introduce_to intro) t)

  receive_node_details-Returns :
      (current_peer : String) (nodeids : List String) (t : Turned)
      → Sound net wire t.sock.state
      → Returns net wire (receive_node_details net wire current_peer nodeids t)
  unfolding receive_node_details
  receive_node_details-Returns current_peer nodeids t h =
      let (s, want_introduce) = filter_introduce_candidates net digest nodeids t.sock.state in
      let (i, b, p) = filter_kept net digest nodeids t.sock.state in
      (
        (send_introductions net wire current_peer want_introduce (put_state net wire s t), none),
        refl,
        subst (λ (x : P2pSocket net wire). Sound net wire x.state)
            (sym (send_introductions_sock current_peer want_introduce (put_state net wire s t)))
            (Sound-kept net wire t.sock.state s b i p h),
      )

  receive_introduce_to-Returns :
      (current_peer nodeid : String) (t : Turned)
      → Sound net wire t.sock.state
      → Returns net wire (receive_introduce_to net wire current_peer nodeid t)
  unfolding receive_introduce_to
  receive_introduce_to-Returns current_peer nodeid t h =
      elim (Option-cases (process_introduce_request net digest nodeid t.sock.state)) [
        | inl q ↦ ((t, none), ground (arith, q), h)
        | inr (p, q) ↦ elim (Result-cases (wire.info p)) [
          | inl (e, f) ↦ ((t, some e), ground (arith, q, f), h)
          | inr (addr, f) ↦ (
            (
              record (send_to net wire p (open_connection_with t.current_connection)
                  (send_to net wire current_peer (open_connection_with addr) t)) {
                    current_connection = wire.moved t.current_connection;
                  },
              none,
            ),
            ground (arith, q, f),
            h,
          )
        ]
      ]

  receive_open_connection-Returns :
      (now : ℕ) (addr : Address) (t : Turned)
      → Sound net wire t.sock.state
      → Returns net wire (receive_open_connection net wire now addr t)
  unfolding receive_open_connection
  receive_open_connection-Returns now addr t h =
      let ((s, code), e, h1) =
        add_passive_attempts-Sound net wire now
          (with_near net wire (near t.current_connection) addr) 1000 t.sock.state h in
      elim (Bool-cases t.sock.discovery_server) [
        | inl q ↦ ((t, none), ground (arith, q), h)
        | inr q ↦ ((put_state net wire s t, none), ground (arith, q, e), h1)
      ]

  receive_other-Returns :
      (pack : Contents) (nodeid : String) (t : Turned)
      → Sound net wire t.sock.state
      → Returns net wire (receive_other net wire pack nodeid t)
  unfolding receive_other
  receive_other-Returns pack nodeid t h = elim (Bool-cases (is_empty_text net wire nodeid)) [
    | inl q ↦ (_, refl, rw q h)
    | inr q ↦ (_, refl, rw q (process_node_join-Sound net wire nodeid t.sock.state h))
  ]

  look_up_sock :
      (packet : Packet net wire) (current_peer : String) (t : Turned)
      → (look_up net wire packet current_peer t).sock ≡ t.sock
  unfolding look_up
  look_up_sock packet current_peer t = ground arith

  dispatch-Returns :
      (now clock : ℕ) (current_peer nodeid : String) (packet : Packet net wire) (t : Turned)
      → (packet ≡ stream_join
          → IsFree net current_peer t.current_connection t.sock.state.program_state)
      → ((stamp : ℕ) → stamp_of net wire packet ≡ some stamp → IsTime net wire stamp)
      → Sound net wire t.sock.state
      → Returns net wire (dispatch net wire now clock current_peer nodeid packet t)
  unfolding dispatch receive_find_node
  dispatch-Returns now clock p nodeid stream_join t free time h =
      receive_join-Returns now clock p t (free refl) h
  dispatch-Returns now clock p nodeid stream_drop t free time h = receive_drop-Returns p nodeid t h
  dispatch-Returns now clock p nodeid (stream_protocol_error buffer) t free time h =
      receive_protocol_error-Returns buffer p nodeid t h
  dispatch-Returns now clock p nodeid (socket_open_refused address) t free time h =
      receive_not_open-Returns (socket_open_refused address) address p t h
  dispatch-Returns now clock p nodeid (socket_open_error address) t free time h =
      receive_not_open-Returns (socket_open_error address) address p t h
  dispatch-Returns now clock p nodeid (ping info id stamp signature) t free time h =
      receive_ping-Returns net wire now clock p
        (record { connection_info = info; nodeid = id; stamp = stamp; signature = signature }) t h
        (time stamp refl)
  dispatch-Returns now clock p nodeid (pong id stamp signature) t free time h =
      receive_pong-Returns clock p id stamp signature t h (time stamp refl)
  dispatch-Returns now clock p nodeid (find_node_packet id) t free time h = (_, refl, h)
  dispatch-Returns now clock p nodeid (node_details origin nodeids) t free time h =
      receive_node_details-Returns p nodeids t h
  dispatch-Returns now clock p nodeid (introduce_to id) t free time h =
      receive_introduce_to-Returns p id t h
  dispatch-Returns now clock p nodeid (open_connection_with addr) t free time h =
      receive_open_connection-Returns now addr t h
  dispatch-Returns now clock p nodeid (other pack) t free time h =
      receive_other-Returns pack nodeid t h
  dispatch-Returns now clock p nodeid (contents pack) t free time h = ((t, none), refl, h)

  -- On a valid node every packet is taken without undefined behaviour: the round of the loop ends
  -- or throws, and leaves a valid node. If the packet is a `stream_join`, the peer that sends it is
  -- not connected at another address; if it has a stamp, the system's clock can hold it.
  pub receive_packet-Returns :
      (now clock : ℕ) (current_peer : String) (packet : Packet net wire) (t : Turned)
      → (packet ≡ stream_join
          → IsFree net current_peer
              (look_up net wire packet current_peer t).current_connection
              t.sock.state.program_state)
      → ((stamp : ℕ) → stamp_of net wire packet ≡ some stamp → IsTime net wire stamp)
      → Sound net wire t.sock.state
      → Returns net wire (receive_packet net wire now clock current_peer packet t)
  unfolding receive_packet
  receive_packet-Returns now clock current_peer packet t free time h =
      let same = look_up_sock packet current_peer t in
      let (nodeid, e) = get_nodeid-Sound net wire current_peer t.sock.state h in
      let (r, f, h1) =
        dispatch-Returns now clock current_peer nodeid packet
          (look_up net wire packet current_peer t) (rw same free) time (rw same h) in
      (r, ground (arith, e, f), h1)
