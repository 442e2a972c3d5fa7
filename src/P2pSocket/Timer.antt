-- ===== src/P2pSocket/Timer.antt =====
-- src/libp2psocket/p2psocket.cpp: whom `timer_action` pings.
use mesh_pp.Prelude.{ℕ, ◌/◌, ◌≡◌, sym, ◌∙◌, ap, String, none, List, [], ◌∷◌, ◌++◌, map, ok, arith}
use mathlib.Core.List.{append_assoc, append-nil}
use mesh_pp.Net.{Net}
use mesh_pp.NodeState.State.{NodeState, name}
use mesh_pp.NodeState.Connections
use mesh_pp.Communication.Invariant.{IsValid}
use mesh_pp.Communication.Valid.Marks.{do_step-IsValid}
use mesh_pp.NodeState.Distinct.{Distinct, get_connected_peerids-Distinct}
use mesh_pp.NodeState.Connected.{Peers, get_connected_peerids-Peers}
use mesh_pp.P2pSocket.State.{Wire, Packet, ping, Turn, done, put_state, send_to}
use mesh_pp.P2pSocket.Loop.{ping_all, timer_action}

module _ (net : Net) (wire : Wire net) where
  open net use {Address}
  open wire use {second}

  -- The ping that a peer at an address gets.
  abbrev pub timer_ping : ℕ → (String → Address) → NodeState net → String → String × Packet net wire
  timer_ping clock address s p = (p, ping (address p) (name net s) (clock / second) "")

  ping_all-sent :
      (clock : ℕ) (address : String → Address)
      → ((p : String) → wire.info p ≡ ok (address p))
      → (peers : List String) (t : Turn net wire)
      → ping_all net wire clock peers t
        ≡ (record t { sent = t.sent ++ map (timer_ping clock address t.sock.state) peers }, none)
  unfolding ping_all
  ping_all-sent clock address info [] t =
      ap (λ (l : List (String × Packet net wire)). (record t { sent = l }, none))
        (sym (append-nil t.sent))
  ping_all-sent clock address info (p ∷ peers) t =
      let t1 = send_to net wire p (timer_ping clock address t.sock.state p).1 t in
      let first : ping_all net wire clock (p ∷ peers) t ≡ ping_all net wire clock peers t1 =
        ground (arith, info p) in
      first
      ∙ ping_all-sent clock address info peers t1
      ∙ ap (λ (l : List (String × Packet net wire)). (record t { sent = l }, none))
          (append_assoc t.sent (timer_ping clock address t.sock.state p ∷ [])
            (map (timer_ping clock address t.sock.state) peers))

  -- On a valid state, and where the socket knows the address of each peer, `timer_action` returns:
  -- it counts the steps of the marks down, and sends one ping without a signature to each peer that
  -- is active at a remote address and whose connection is not pending after that, and none to any
  -- other.
  pub timer_action-sent :
      (clock : ℕ) (address : String → Address) (t : Turn net wire)
      → ((p : String) → wire.info p ≡ ok (address p))
      → IsValid net t.sock.state.program_state
      → (peers : List String) × Distinct peers
        × Peers net
            (Connections.do_step net t.sock.state).program_state
            0
            (Connections.do_step net t.sock.state).program_state.peers
            peers
        × (timer_action net wire clock t
            ≡ done net wire (record (put_state net wire (Connections.do_step net t.sock.state) t) {
              sent =
                  t.sent
                  ++ map (timer_ping clock address (Connections.do_step net t.sock.state)) peers;
            }))
  unfolding timer_action Connections.do_step
  timer_action-sent clock address t info v =
      let s = Connections.do_step net t.sock.state in
      let (peers, e, h) = get_connected_peerids-Peers net s in
      let once =
        get_connected_peerids-Distinct net s peers
          (do_step-IsValid net t.sock.state.program_state v) e in
      (
        peers,
        once,
        h,
        ground (arith, e, ping_all-sent clock address info peers (put_state net wire s t)),
      )
