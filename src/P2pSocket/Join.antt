-- ===== src/P2pSocket/Join.antt =====
-- src/libp2psocket/p2psocket.cpp: the ping that a connection starts with, and who takes it.
use native.Mathlib.Nat.{div-add-mod', mod-lt}
use mesh_pp.Prelude.{
  ℕ, ◌+◌, ◌*◌, ◌/◌, ◌^◌, if◌then◌else◌, none, ◌≤◌, ◌<◌, ◌≡◌, ◌≢◌, refl, String, string_discrete,
  true, false, ◌||◌, ◌==◌, Option-cases, some, inl, inr, arith, ltb, leb,
}
use mesh_pp.Net.{Net}
use mesh_pp.Communication.State.{fresh_peer}
use mesh_pp.Communication.Insert
use mesh_pp.Communication.Insert.{UpdateCode}
use mesh_pp.Communication.Valid.Active.{IsFree}
use mesh_pp.NodeState.State.{NodeState, name, set_fixed_local_port, get_fixed_local_port}
use mesh_pp.NodeState.Connections
use mesh_pp.P2pSocket.State.{
  Wire, ping, Turn, done, put_state, send_to, signed_text, is_stale, ping_interval,
}
use mesh_pp.P2pSocket.Receive.{is_empty_text, receive_join, signed_ping}
use mesh_pp.P2pSocket.Ping.{PingMessage}
use mesh_pp.P2pSocket.Trust.{is_trusted}
use mesh_pp.P2pSocket.Sound.{
  Sound, Sound-kept, add_passive-Sound, add_active-Sound, remove_later_peer-Sound,
}

module _ (net : Net) (wire : Wire net) where
  open net use {Address, near}
  open wire use {
    digest, port, make_address, empty_destination, ip_type, sign, verify_signature, second,
  }

  is_stale_within :
      (clock clock' : ℕ)
      → 0 < second
      → clock ≤ clock'
      → clock' ≤ clock + 29 * second
      → clock < 2 ^ 63
      → is_stale net wire (clock / second) clock' ≡ some false
  unfolding is_stale
  is_stale_within clock clock' pos l u top =
      within (clock / second * second) (omega (arith, div-add-mod' clock second))
        (omega (arith, div-add-mod' clock second, mod-lt clock pos))
    where
      within :
          (x : ℕ)
          → x ≤ clock
          → clock < x + second
          → (if ltb x (2 ^ 63)
              then some (
                  ltb (x + ping_interval net wire * second) clock'
                  || leb (clock' + ping_interval net wire * second) x)
              else none)
            ≡ some false
      within x p q = ground (arith, l, u, pos, top)

  -- The ping that a connection starts with, as its receiver reads it.
  abbrev pub first_ping : ℕ → Address → NodeState net → PingMessage Address
  first_ping clock connection s = record {
    connection_info = connection;
    nodeid = name net s;
    stamp = clock / second;
    signature = sign (signed_text net wire (name net s) (clock / second));
  }

  name-add_active :
      (now : ℕ) (addr : Address) (p : String) (s : NodeState net) (r : NodeState net × UpdateCode)
      → Connections.add_active net now addr p s ≡ some r
      → name net r.0 ≡ name net s
  unfolding Connections.add_active name
  name-add_active now addr p s r e =
      elim (Option-cases (Insert.add_active net now addr p (fresh_peer now) s.program_state)) [
        | inl f ↦ absurd (ground (arith, e, f))
        | inr (c, f) ↦ ground (arith, e, f)
      ]

  receive_join_ping :
      (now clock : ℕ) (current_peer : String) (t : Turn net wire)
      → IsFree net current_peer t.current_connection t.sock.state.program_state
      → Sound net wire t.sock.state
      → (get_fixed_local_port net t.sock.state == 0
          || port (near t.current_connection) == get_fixed_local_port net t.sock.state)
        ≡ true
      → (s : NodeState net) × (receive_join net wire now clock current_peer t
          ≡ done net wire (
              put_state net wire s (
                send_to net wire current_peer
                  (signed_ping net wire clock t.current_connection t.sock.state)
                  t)))
        × Sound net wire s
  unfolding receive_join set_fixed_local_port
  receive_join_ping now clock current_peer t free h q =
      let local_port = port (near t.current_connection) in
      let ((s1, code), e, h1) =
        add_active-Sound net wire now t.current_connection current_peer t.sock.state free h in
      let s2 = (Connections.remove_later_peer net current_peer 10 true false s1).0 in
      let h2 = remove_later_peer-Sound net wire current_peer 10 true false s1 h1 in
      let ((s3, answer), e3, h3) =
        add_passive-Sound net wire now
          (make_address (near t.current_connection) empty_destination
            (ip_type t.current_connection))
          (set_fixed_local_port net local_port s2)
          (Sound-kept net wire s2 (set_fixed_local_port net local_port s2) refl refl refl h2) in
      let same = name-add_active now t.current_connection current_peer t.sock.state (s1, code) e in
      (s3, ground (arith, q, e, e3, same), h3)

  -- On a valid node, where the peer is not connected at another address and the local port of the
  -- connection is the node's or the node has none, `receive` of a `stream_join` leaves a valid node
  -- and sends one packet, a ping, to the peer. Who receives it after at most 29 seconds by the same
  -- clock takes it as fresh and trusted, where the node's signatures verify and are not empty and
  -- the reading of the clock is below 2^63.
  pub receive_join-is_trusted :
      (now clock clock' : ℕ) (current_peer : String) (t : Turn net wire)
      → 0 < second
      → clock ≤ clock'
      → clock' ≤ clock + 29 * second
      → clock < 2 ^ 63
      → ((text : String) → sign text ≢ "")
      → ((text : String) → verify_signature (name net t.sock.state) text (sign text) ≡ true)
      → IsFree net current_peer t.current_connection t.sock.state.program_state
      → Sound net wire t.sock.state
      → (get_fixed_local_port net t.sock.state == 0
          || port (near t.current_connection) == get_fixed_local_port net t.sock.state)
        ≡ true
      → (s : NodeState net) × (msg : PingMessage Address) × (receive_join net wire now clock
            current_peer t
          ≡ done net wire (
              put_state net wire s (
                send_to net wire current_peer
                  (ping msg.connection_info msg.nodeid msg.stamp msg.signature)
                  t)))
        × Sound net wire s
        × (is_stale net wire msg.stamp clock' ≡ some false)
        × ((p : String) (u : NodeState net) → is_trusted net wire p msg u ≡ true)
  receive_join-is_trusted now clock clock' current_peer t pos l u top present valid free h q =
      let (s, e, h1) = receive_join_ping now clock current_peer t free h q in
      let text = signed_text net wire (name net t.sock.state) (clock / second) in
      let signed : is_empty_text net wire (sign text) ≡ false =
        elim (string_discrete (sign text) "") [
          | yes z ↦ absurd (present text z)
          | no n ↦ ground (arith, n)
        ] in
      (
        s,
        first_ping clock t.current_connection t.sock.state,
        e,
        h1,
        is_stale_within clock clock' pos l u top,
        λ p v. rw signed (valid text),
      )
