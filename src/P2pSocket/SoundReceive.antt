-- ===== src/P2pSocket/SoundReceive.antt =====
-- src/libp2psocket/p2psocket.cpp: `receive` on a valid node.
use mesh_pp.Prelude.{
  Result-cases, false, true, ap, ℕ, ◌≡◌, refl, sym, ◌∙◌, subst, String, ℕ_discrete, Bool, true,
  Option, none, some, Exception, ok, throw, logic_error, Bool-cases, Option-cases, inl, inr, ◌⊎◌,
  arith,
}
use mesh_pp.Net.{Net}
use mesh_pp.KBucket.Contacts.{insert_contact}
use mesh_pp.KBucket.Kontakt.{string_distance, distance_from}
use mesh_pp.NodeState.State.{
  NodeState, ContactStatus, no_contact, new_contact, existing_contact, get_external_ip_address,
  bucket_capacity, contact,
}
use mesh_pp.NodeState.Contacts.{find_node, add_contact}
use mesh_pp.NodeState.AddContact.{add_contact_lem}
use mesh_pp.P2pSocket.State.{
  Wire, Turn, Outcome, done, put_state, send_to, give, stream_join, is_stale, IsTime,
  is_stale_defined,
}
use mesh_pp.P2pSocket.Sound.{
  Sound, Sound-kept, set_active_nodeid-Sound, remove_later_peer-Sound, process_node_drop-Sound,
}
use mesh_pp.P2pSocket.Setup.{same_address}
use mesh_pp.P2pSocket.Receive.{is_empty_text}
use mesh_pp.P2pSocket.Ping.{
  PingMessage, pong_to, answer_status, accept_ping, check_ping, receive_ping, can_reset,
  check_signature, store_external, external_address,
}
use mesh_pp.P2pSocket.Trust.{
  check_signature_kept, store_external_kept, can_reset_state, receive_ping_ok,
}

module _ (net : Net) (wire : Wire net) where
  open net use {Address, near}
  open wire use {digest, port}

  pub stale_cases :
      (stamp now : ℕ)
      → IsTime net wire stamp
      → (is_stale net wire stamp now ≡ some true) ⊎ (is_stale net wire stamp now ≡ some false)
  stale_cases stamp now time =
      let (b, e) = is_stale_defined net wire stamp now time in
      elim (Bool-cases b) [ inl q ↦ inl (e ∙ ap some q) | inr q ↦ inr (e ∙ ap some q) ]

  -- The call ends or throws, and leaves a valid node.
  abbrev pub Returns : Outcome net wire → Type 0
  Returns o = (r : Turn net wire × Option Exception) × (o ≡ some r) × Sound net wire r.0.sock.state

  add_contact_kept :
      (peerid nodeid : String) (s s' : NodeState net) (status : ContactStatus)
      → add_contact net digest peerid nodeid s ≡ ok (s', status)
      → s'.program_state ≡ s.program_state
  unfolding add_contact
  add_contact_kept peerid nodeid s s' status e =
      elim (Option-cases (find_node net digest nodeid peerid s.kbucket)) [
        | inr (k, f) ↦ ground (arith, e, f)
        | inl f ↦
            elim (Result-cases (
              insert_contact (distance_from digest) bucket_capacity (contact nodeid peerid)
                s.kbucket)) [
                  | inl (x, g) ↦ absurd (ground (arith, e, f, g))
                  | inr ((b, done), g) ↦ ground (arith, e, f, g)
                ]
      ]

  -- What `add_contact` makes of a valid node.
  add_contact-Sound :
      (peerid nodeid : String) (s : NodeState net)
      → Sound net wire s
      → ((e : Exception) × (add_contact net digest peerid nodeid s ≡ throw e))
        ⊎ ((r : NodeState net × ContactStatus) × (add_contact net digest peerid nodeid s ≡ ok r)
            × Sound net wire r.0)
  add_contact-Sound peerid nodeid s h =
      let (known, own, other) = add_contact_lem net digest peerid nodeid s h.node in
      elim (Option-cases (find_node net digest nodeid peerid s.kbucket)) [
        | inr (k, f) ↦ inr ((s, existing_contact), known k f, h)
        | inl f ↦
            elim (ℕ_discrete (string_distance digest s.self_id) (string_distance digest nodeid)) [
              | yes q ↦ inl (logic_error, own f q)
              | no n ↦ elim (other f n) [
                | inr e ↦ inr ((s, no_contact), e, h)
                | inl (s', e, node, _) ↦ inr (
                  (s', new_contact),
                  e,
                  record {
                    connections =
                        rw (add_contact_kept peerid nodeid s s' new_contact e) h.connections;
                    node = node;
                  },
                )
              ]
            ]
      ]

  answer_status-Returns :
      (now : ℕ) (current_peer : String) (msg : PingMessage Address) (status : ContactStatus)
      (t : Turn net wire)
      → Sound net wire t.sock.state
      → Returns (answer_status net wire now current_peer msg status t)
  unfolding answer_status
  answer_status-Returns now current_peer msg no_contact t h =
      (_, refl, process_node_drop-Sound net wire msg.nodeid t.sock.state h)
  answer_status-Returns now current_peer msg existing_contact t h =
      let marked = remove_later_peer-Sound net wire current_peer 10 true true t.sock.state h in
      let (s1, e, h1) = set_active_nodeid-Sound net wire now current_peer msg.nodeid _ marked in
      ((put_state net wire s1 t, none), ground (arith, e), h1)
  answer_status-Returns now current_peer msg new_contact t h =
      let marked = remove_later_peer-Sound net wire current_peer 10 true true t.sock.state h in
      let (s1, e, h1) = set_active_nodeid-Sound net wire now current_peer msg.nodeid _ marked in
      let t1 = put_state net wire s1 t in
      elim (Bool-cases (is_empty_text net wire msg.nodeid)) [
        | inl q ↦ ((t1, none), ground (arith, e, q), h1)
        | inr q ↦ (
          (give net wire stream_join (record t1 { peer = msg.nodeid }), none),
          ground (arith, e, q),
          h1,
        )
      ]

  accept_ping-Returns :
      (now clock : ℕ) (current_peer : String) (msg : PingMessage Address) (t : Turn net wire)
      → Sound net wire t.sock.state
      → Returns (accept_ping net wire now clock current_peer msg t)
  unfolding accept_ping
  accept_ping-Returns now clock current_peer msg t h =
      elim (add_contact-Sound current_peer msg.nodeid t.sock.state h) [
        | inl (e, q) ↦ ((t, some e), ground (arith, q), h)
        | inr ((s, status), q, h1) ↦
            let (r, e, h2) =
              answer_status-Returns now current_peer msg status
                (send_to net wire current_peer (pong_to net wire clock msg s)
                  (put_state net wire s t))
                h1 in
            (r, ground (arith, q, e), h2)
      ]

  check_ping-Returns :
      (now clock : ℕ) (current_peer : String) (msg : PingMessage Address) (reset : Bool)
      (t : Turn net wire)
      → Sound net wire t.sock.state
      → IsTime net wire msg.stamp
      → Returns (check_ping net wire now clock current_peer msg reset t)
  unfolding check_ping
  check_ping-Returns now clock current_peer msg reset t h time =
      let s = (check_signature net wire current_peer msg t.sock.state).0 in
      let (b, i, p) = check_signature_kept net wire current_peer msg t.sock.state in
      let h1 = Sound-kept net wire t.sock.state s b i p h in
      let s2 = store_external net wire reset msg s in
      let (b', i', p') = store_external_kept net wire reset msg s in
      let h2 = Sound-kept net wire s s2 b' i' p' h1 in
      elim (stale_cases msg.stamp clock time) [
        | inl q ↦ ((t, none), ground (arith, q), h)
        | inr q ↦ elim (Bool-cases (check_signature net wire current_peer msg t.sock.state).1) [
          | inr n ↦ ((put_state net wire s t, none), ground (arith, q, n), h1)
          | inl y ↦
              elim (Bool-cases (
                same_address net wire (external_address net wire msg)
                  (get_external_ip_address net s2))) [
                    | inr n ↦ ((put_state net wire s2 t, none), ground (arith, q, y, n), h2)
                    | inl same ↦
                        let (r, e, h3) =
                          accept_ping-Returns now clock current_peer msg (put_state net wire s2 t)
                            h2 in
                        (r, ground (arith, q, y, same, e), h3)
                  ]
        ]
      ]

  pub receive_ping-Returns :
      (now clock : ℕ) (current_peer : String) (msg : PingMessage Address) (t : Turn net wire)
      → Sound net wire t.sock.state
      → IsTime net wire msg.stamp
      → Returns (receive_ping net wire now clock current_peer msg t)
  unfolding receive_ping
  receive_ping-Returns now clock current_peer msg t h time =
      elim (Result-cases (wire.info_connection current_peer)) [
        | inl (e, q) ↦ ((t, some e), ground (arith, q), h)
        | inr (peer_connection, q) ↦
            let (sock, reset) = can_reset net wire peer_connection t in
            let (r, e, h1) =
              check_ping-Returns now clock current_peer msg reset (record t { sock = sock })
                (subst (Sound net wire) (sym (can_reset_state net wire peer_connection t)) h)
                time in
            (r, receive_ping_ok net wire now clock current_peer msg t peer_connection q ∙ e, h1)
      ]
