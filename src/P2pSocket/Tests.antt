-- ===== src/P2pSocket/Tests.antt =====
-- src/libp2psocket/p2psocket.cpp: runs of `receive`, and the theorems about it at concrete inputs.
use mathlib.Core.Path.{ap₂}
use mathlib.Core.List.{Memᴰ}
use text.Mathlib.TextEquality.{eq_iff}
use mesh_pp.Prelude.{
  ℕ, ◌≡◌, refl, ap, String, string_discrete, ℕ_discrete, Bool, true, false, none, some, List, [],
  map, ok, logic_error, inl, arith, find, All,
}
use mesh_pp.Communication.Tests.{demo_net, due-IsValid}
use mesh_pp.KBucket.Contacts.{find_if, find_contact, is_same}
use mesh_pp.KBucket.Kontakt.{
  string_distance, distance_from, subtract, xor_bytes, read_byte, byte_count, count_bytes,
}
use mesh_pp.NodeState.State.{
  NodeState, get_fixed_local_port, is_peer_verified, set_peer_verified, get_external_ip_address,
  set_external_ip_address,
}
use mesh_pp.NodeState.Connections
use mesh_pp.NodeState.Connected.{Peers}
use mesh_pp.NodeState.Distinct.{Distinct}
use mesh_pp.NodeState.Tests.{demo_digest, node, node-IsNode, leaving}
use mesh_pp.P2pSocket.State.{
  Wire, P2pSocket, stream_join, stream_drop, ping, send_to, Turn, done, put_state, is_stale,
}
use mesh_pp.P2pSocket.Setup.{same_address}
use mesh_pp.P2pSocket.Ping.{PingMessage, receive_ping, can_reset, check_signature, store_external}
use mesh_pp.P2pSocket.Dispatch.{receive_packet, new_turn}
use mesh_pp.P2pSocket.Loop.{timer_action, drop_pending}
use mesh_pp.P2pSocket.Receive.{receive_join}
use mesh_pp.P2pSocket.Drop
use mesh_pp.P2pSocket.Join
use mesh_pp.NodeState.Contacts.{find_node, remove_pending}
use mesh_pp.P2pSocket.Trust
use mesh_pp.P2pSocket.Sound
use mesh_pp.P2pSocket.SoundReceive
use mesh_pp.P2pSocket.Returns
use mesh_pp.P2pSocket.Timer

pair_discrete : Discrete (ℕ × ℕ)
pair_discrete (a, b) (c, d) = elim (ℕ_discrete a c) [
  | no n ↦ no (λ e. n (ap (λ t. t.0) e))
  | yes p ↦ elim (ℕ_discrete b d) [
    | no n ↦ no (λ e. n (ap (λ t. t.1) e))
    | yes q ↦ yes (ap₂ (λ x y. (x, y)) p q)
  ]
]

demo_verify : String → String → String → Bool
demo_verify nodeid text signature = elim (string_discrete text signature) [
  | yes _ ↦ true
  | no _ ↦ false
]

-- A text is its own signature.
abbrev demo_wire : Wire demo_net
demo_wire = record {
  IpType = Unit {0};
  moved = λ a. a;
  make_address = λ l r i. (l, r);
  ip_type = λ a. tt;
  empty_destination = 0;
  port = λ d. d;
  with_port = λ p d. p;
  address_discrete = pair_discrete;
  info = λ p. ok (5, 7);
  info_connection = λ p. ok (5, 7);
  Contents = ℕ;
  sign = λ text. text;
  verify_signature = demo_verify;
  digest = demo_digest;
  gm_string = λ stamp. "now";
  second = 1;
}

abbrev turn : NodeState demo_net → Turn demo_net demo_wire
turn s =
    new_turn demo_net demo_wire (0, 0)
      (record {
        discovery_server = false;
        state = s;
        connect_to_addresses = [];
        the_first_connect_to_address_from_socket = (0, 0);
        receive_attempt_count = 0;
        notify_removed_peers = [];
      })

program : Unit {0}
unfolding get_fixed_local_port pair_discrete demo_verify string_discrete find is_stale
    check_signature store_external same_address set_peer_verified set_external_ip_address
    get_external_ip_address is_peer_verified ℕ_discrete find_if find_contact is_same string_distance
    distance_from subtract xor_bytes read_byte byte_count count_bytes
program = tt

-- The node's own ping, sent back to it within the interval.
abbrev echo : PingMessage (ℕ × ℕ)
echo = record { connection_info = (7, 5); nodeid = "self"; stamp = 100; signature = "selfnow" }

abbrev late : PingMessage (ℕ × ℕ)
late = record echo { stamp = 60 }

receive_ping-refused_example :
    (sock : P2pSocket demo_net demo_wire) × (receive_ping demo_net demo_wire 1 100 "q" late
        (turn node)
      ≡ done demo_net demo_wire (record (turn node) { sock = sock }))
    × (sock.state ≡ node)
unfolding program
receive_ping-refused_example =
    Trust.receive_ping-refused demo_net demo_wire 1 100 "q" late (turn node) (5, 7) refl (inl refl)

echo-NamesItself : (reset : Bool) → Trust.NamesItself demo_net demo_wire 100 "q" echo reset node
unfolding program
echo-NamesItself reset = record {
  fresh = refl;
  trusted = refl;
  matches = refl;
  absent = refl;
  own = refl;
}

receive_ping-NamesItself_example :
    (t' : Turn demo_net demo_wire) × (receive_ping demo_net demo_wire 1 100 "q" echo (turn node)
      ≡ some (t', some logic_error))
receive_ping-NamesItself_example =
    Trust.receive_ping-NamesItself demo_net demo_wire 1 100 "q" echo (turn node) (5, 7) node-IsNode
      refl (echo-NamesItself (can_reset demo_net demo_wire (5, 7) (turn node)).1)

leaving-Sound : Sound.Sound demo_net demo_wire leaving
leaving-Sound = record {
  connections = due-IsValid;
  node = record { valid = node-IsNode.valid; self = refl };
}

receive_packet-Returns_example :
    SoundReceive.Returns demo_net demo_wire
      (receive_packet demo_net demo_wire 1 100 "q" stream_join (turn leaving))
unfolding program
receive_packet-Returns_example =
    Returns.receive_packet-Returns demo_net demo_wire 1 100 "q" stream_join (turn leaving)
      (λ _ i f. absurd (ground (arith, f))) (λ stamp e. absurd (ground (arith, e))) leaving-Sound

timer_action-sent_example :
    (peers : List String) × Distinct peers
    × Peers demo_net
        (Connections.do_step demo_net leaving).program_state
        0
        (Connections.do_step demo_net leaving).program_state.peers
        peers
    × (timer_action demo_net demo_wire 100 (turn leaving)
        ≡ done demo_net demo_wire
            (record (put_state demo_net demo_wire
              (Connections.do_step demo_net leaving)
              (turn leaving)) {
                sent =
                    map
                      (Timer.timer_ping demo_net demo_wire 100
                        (λ p. (5, 7))
                        (Connections.do_step demo_net leaving))
                      peers;
              }))
timer_action-sent_example =
    Timer.timer_action-sent demo_net demo_wire 100 (λ p. (5, 7)) (turn leaving) (λ p. refl)
      due-IsValid

drop_pending-Dropped_example :
    (r : NodeState demo_net × List (String × Bool) × List String) × (t' : Turn demo_net demo_wire)
    × (remove_pending demo_net demo_digest leaving ≡ some r)
    × (drop_pending demo_net demo_wire (turn leaving) ≡ some t')
    × Sound.Sound demo_net demo_wire t'.sock.state
    × (t'.sent ≡ map (λ p. (p, stream_drop)) r.2)
    × All (λ p. is_peer_verified demo_net p t'.sock.state ≡ false) r.2
    × All (λ k. find_node demo_net demo_digest k.0 "" t'.sock.state.kbucket ≡ none) r.1
    × All (λ k. k.1 ≡ true → Memᴰ k.0 t'.sock.notify_removed_peers) r.1
drop_pending-Dropped_example =
    Drop.drop_pending-Dropped demo_net demo_wire (turn leaving) leaving-Sound

-- Signatures that are never empty.
abbrev keyed_wire : Wire demo_net
keyed_wire = record demo_wire {
  sign = λ text. "signature";
  verify_signature = λ nodeid text signature. demo_verify nodeid "signature" signature;
}

abbrev joining : Turn demo_net keyed_wire
joining =
    record (new_turn demo_net keyed_wire (6, 7)
      (record {
        discovery_server = false;
        state = leaving;
        connect_to_addresses = [];
        the_first_connect_to_address_from_socket = (0, 0);
        receive_attempt_count = 0;
        notify_removed_peers = [];
      })) { current_connection = (6, 7) }

joining-Sound : Sound.Sound demo_net keyed_wire leaving
joining-Sound = record {
  connections = due-IsValid;
  node = record { valid = node-IsNode.valid; self = refl };
}

receive_join-is_trusted_example :
    (s : NodeState demo_net) × (msg : PingMessage (ℕ × ℕ)) × (receive_join demo_net keyed_wire 1 100
        "q" joining
      ≡ done demo_net keyed_wire (
          put_state demo_net keyed_wire s (
            send_to demo_net keyed_wire "q"
              (ping msg.connection_info msg.nodeid msg.stamp msg.signature)
              joining)))
    × Sound.Sound demo_net keyed_wire s
    × (is_stale demo_net keyed_wire msg.stamp 120 ≡ some false)
    × ((p : String) (u : NodeState demo_net) → Trust.is_trusted demo_net keyed_wire p msg u ≡ true)
unfolding program
receive_join-is_trusted_example =
    Join.receive_join-is_trusted demo_net keyed_wire 1 100 120 "q" joining (ground arith)
      (ground arith) (ground arith) (ground arith)
      (λ text e. absurd (ground (arith, (eq_iff "signature" "").1 e))) (λ text. refl)
      (λ i f. absurd (ground (arith, f))) joining-Sound refl
