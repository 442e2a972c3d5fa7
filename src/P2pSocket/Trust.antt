-- ===== src/P2pSocket/Trust.antt =====
-- src/libp2psocket/p2psocket.cpp: which pings `receive` takes.
use mesh_pp.Prelude.{
  ℕ, ◌≡◌, refl, sym, ◌∙◌, ap, subst, String, Bool, true, false, none, some, if◌then◌else◌, ok,
  throw, logic_error, Bool-cases, inl, inr, ◌⊎◌, arith,
}
use mesh_pp.Net.{Net}
use mesh_pp.KBucket.Kontakt.{string_distance}
use mesh_pp.NodeState.State.{
  NodeState, get_external_ip_address, set_external_ip_address, is_peer_verified, set_peer_verified,
}
use mesh_pp.NodeState.Contacts.{find_node, add_contact}
use mesh_pp.NodeState.AddContact.{IsNode, add_contact_lem}
use mesh_pp.P2pSocket.State.{Wire, P2pSocket, Turn, done, put_state, signed_text, is_stale}
use mesh_pp.P2pSocket.Setup.{same_address, is_the_first_configured_address}
use mesh_pp.P2pSocket.Receive.{is_empty_text}
use mesh_pp.P2pSocket.Ping.{
  PingMessage, can_reset, check_signature, store_external, accept_ping, check_ping, receive_ping,
  external_address,
}

module _ (net : Net) (wire : Wire net) where
  open net use {Address}
  open wire use {digest, verify_signature}

  -- The peer signs with the key of the node id, or gives no signature and was verified before.
  abbrev pub is_trusted : String → PingMessage Address → NodeState net → Bool
  is_trusted current_peer msg s =
      if is_empty_text net wire msg.signature
      then is_peer_verified net current_peer s
      else verify_signature msg.nodeid (signed_text net wire msg.nodeid msg.stamp) msg.signature

  check_signature-is_trusted :
      (current_peer : String) (msg : PingMessage Address) (s : NodeState net)
      → ((check_signature net wire current_peer msg s).1 ≡ is_trusted current_peer msg s)
        × (is_trusted current_peer msg s ≡ false
            → (check_signature net wire current_peer msg s).0 ≡ s)
  unfolding check_signature
  check_signature-is_trusted current_peer msg s =
      elim (Bool-cases (is_empty_text net wire msg.signature)) [
        | inl e ↦ rw e (refl, λ _. refl)
        | inr e ↦
            elim (Bool-cases (
              verify_signature msg.nodeid (signed_text net wire msg.nodeid msg.stamp)
                msg.signature)) [
                  | inl v ↦ rw (e, v) (refl, λ f. absurd (ground (arith, f)))
                  | inr v ↦ rw (e, v) (refl, λ _. refl)
                ]
      ]

  pub can_reset_state :
      (peer_connection : Address) (t : Turn net wire)
      → (can_reset net wire peer_connection t).0.state ≡ t.sock.state
  unfolding can_reset is_the_first_configured_address
  can_reset_state peer_connection t = ground arith

  check_ping_refused :
      (now clock : ℕ) (current_peer : String) (msg : PingMessage Address) (reset : Bool)
      (t : Turn net wire)
      → (is_stale net wire msg.stamp clock ≡ some true)
        ⊎ ((is_stale net wire msg.stamp clock ≡ some false)
            × (is_trusted current_peer msg t.sock.state ≡ false))
      → check_ping net wire now clock current_peer msg reset t ≡ done net wire t
  unfolding check_ping
  check_ping_refused now clock current_peer msg reset t refused =
      let (e, kept) = check_signature-is_trusted current_peer msg t.sock.state in
      elim refused [ inl stale ↦ rw stale refl | inr (fresh, n) ↦ rw (fresh, e, n, kept n) refl ]

  pub receive_ping_ok :
      (now clock : ℕ) (current_peer : String) (msg : PingMessage Address) (t : Turn net wire)
      (peer_connection : Address)
      → wire.info_connection current_peer ≡ ok peer_connection
      → receive_ping net wire now clock current_peer msg t
        ≡ check_ping net wire now clock current_peer msg
            (can_reset net wire peer_connection t).1
            (record t { sock = (can_reset net wire peer_connection t).0 })
  unfolding receive_ping
  receive_ping_ok now clock current_peer msg t peer_connection e = ground (arith, e)

  -- Where the socket gives the connection of the peer, and the system's clock can hold the stamp of
  -- a ping, the ping is passed over if its stamp is not within the interval, or if it is but the
  -- ping is not trusted: the state of the node is as before, nothing is sent, and nothing is given
  -- to the caller.
  pub receive_ping-refused :
      (now clock : ℕ) (current_peer : String) (msg : PingMessage Address) (t : Turn net wire)
      (peer_connection : Address)
      → wire.info_connection current_peer ≡ ok peer_connection
      → (is_stale net wire msg.stamp clock ≡ some true)
        ⊎ ((is_stale net wire msg.stamp clock ≡ some false)
            × (is_trusted current_peer msg t.sock.state ≡ false))
      → (sock : P2pSocket net wire) × (receive_ping net wire now clock current_peer msg t
          ≡ done net wire (record t { sock = sock }))
        × (sock.state ≡ t.sock.state)
  receive_ping-refused now clock current_peer msg t peer_connection e refused =
      let (sock, reset) = can_reset net wire peer_connection t in
      let same : sock.state ≡ t.sock.state = can_reset_state peer_connection t in
      (
        sock,
        receive_ping_ok now clock current_peer msg t peer_connection e
            ∙ check_ping_refused now clock current_peer msg reset (record t { sock = sock })
                (rw same refused),
        same,
      )

  pub check_signature_kept :
      (current_peer : String) (msg : PingMessage Address) (s : NodeState net)
      → ((check_signature net wire current_peer msg s).0.kbucket ≡ s.kbucket)
        × ((check_signature net wire current_peer msg s).0.self_id ≡ s.self_id)
        × ((check_signature net wire current_peer msg s).0.program_state ≡ s.program_state)
  unfolding check_signature set_peer_verified
  check_signature_kept current_peer msg s = (ground arith, ground arith, ground arith)

  pub store_external_kept :
      (reset : Bool) (msg : PingMessage Address) (s : NodeState net)
      → ((store_external net wire reset msg s).kbucket ≡ s.kbucket)
        × ((store_external net wire reset msg s).self_id ≡ s.self_id)
        × ((store_external net wire reset msg s).program_state ≡ s.program_state)
  unfolding store_external set_external_ip_address
  store_external_kept reset msg s = (ground arith, ground arith, ground arith)

  -- The state that `add_contact` is called on.
  abbrev pub before_contact : String → PingMessage Address → Bool → NodeState net → NodeState net
  before_contact current_peer msg reset s =
      store_external net wire reset msg (check_signature net wire current_peer msg s).0

  pub before_contact_kept :
      (current_peer : String) (msg : PingMessage Address) (reset : Bool) (s : NodeState net)
      → ((before_contact current_peer msg reset s).kbucket ≡ s.kbucket)
        × ((before_contact current_peer msg reset s).self_id ≡ s.self_id)
        × ((before_contact current_peer msg reset s).program_state ≡ s.program_state)
  before_contact_kept current_peer msg reset s =
      let (b, i, p) = check_signature_kept current_peer msg s in
      let (b', i', p') =
        store_external_kept reset msg (check_signature net wire current_peer msg s).0 in
      (b' ∙ b, i' ∙ i, p' ∙ p)

  accept_ping_throw :
      (now clock : ℕ) (current_peer : String) (msg : PingMessage Address) (t : Turn net wire)
      → add_contact net digest current_peer msg.nodeid t.sock.state ≡ throw logic_error
      → accept_ping net wire now clock current_peer msg t ≡ some (t, some logic_error)
  unfolding accept_ping
  accept_ping_throw now clock current_peer msg t e = ground (arith, e)

  check_ping_accept :
      (now clock : ℕ) (current_peer : String) (msg : PingMessage Address) (reset : Bool)
      (t : Turn net wire)
      → is_stale net wire msg.stamp clock ≡ some false
      → (check_signature net wire current_peer msg t.sock.state).1 ≡ true
      → same_address net wire
          (external_address net wire msg)
          (get_external_ip_address net (before_contact current_peer msg reset t.sock.state))
        ≡ true
      → check_ping net wire now clock current_peer msg reset t
        ≡ accept_ping net wire now clock current_peer msg
            (put_state net wire (before_contact current_peer msg reset t.sock.state) t)
  unfolding check_ping
  check_ping_accept now clock current_peer msg reset t fresh trusted matches =
      ground (arith, fresh, trusted, matches)

  -- A fresh and trusted ping at the address that the node has stored, of a node id that the bucket
  -- does not find and that has the digest of the node's own.
  pub record NamesItself (clock : ℕ) (current_peer : String) (msg : PingMessage Address)
      (reset : Bool) (s : NodeState net) : Type 0 where
    pub fresh : is_stale net wire msg.stamp clock ≡ some false
    pub trusted : is_trusted current_peer msg s ≡ true
    pub matches :
        same_address net wire
          (external_address net wire msg)
          (get_external_ip_address net (before_contact current_peer msg reset s))
        ≡ true
    pub absent : find_node net digest msg.nodeid current_peer s.kbucket ≡ none
    pub own : string_distance digest s.self_id ≡ string_distance digest msg.nodeid

  check_ping-NamesItself :
      (now clock : ℕ) (current_peer : String) (msg : PingMessage Address) (reset : Bool)
      (t : Turn net wire)
      → IsNode net digest t.sock.state
      → NamesItself clock current_peer msg reset t.sock.state
      → (t' : Turn net wire) × (check_ping net wire now clock current_peer msg reset t
          ≡ some (t', some logic_error))
  check_ping-NamesItself now clock current_peer msg reset t v h =
      let s = before_contact current_peer msg reset t.sock.state in
      let (b, i, _) = before_contact_kept current_peer msg reset t.sock.state in
      let node : IsNode net digest s = record {
        valid = rw b v.valid;
        self = ap (λ k. k.origin.node_id) b ∙ v.self ∙ sym i;
      } in
      let (_, thrown, _) = add_contact_lem net digest current_peer msg.nodeid s node in
      let refused : add_contact net digest current_peer msg.nodeid s ≡ throw logic_error =
        thrown (ap (find_node net digest msg.nodeid current_peer) b ∙ h.absent)
          (ap (string_distance digest) i ∙ h.own) in
      let (signed, _) = check_signature-is_trusted current_peer msg t.sock.state in
      (
        put_state net wire s t,
        check_ping_accept now clock current_peer msg reset t h.fresh (signed ∙ h.trusted) h.matches
            ∙ accept_ping_throw now clock current_peer msg (put_state net wire s t) refused,
      )

  -- A ping that is fresh and trusted and gives the address that the node has stored, but a node id
  -- with the digest of the node's own that the bucket does not find, makes `receive` throw the
  -- `logic_error` of `KBucket::insert`.
  pub receive_ping-NamesItself :
      (now clock : ℕ) (current_peer : String) (msg : PingMessage Address) (t : Turn net wire)
      (peer_connection : Address)
      → IsNode net digest t.sock.state
      → wire.info_connection current_peer ≡ ok peer_connection
      → NamesItself clock current_peer msg (can_reset net wire peer_connection t).1 t.sock.state
      → (t' : Turn net wire) × (receive_ping net wire now clock current_peer msg t
          ≡ some (t', some logic_error))
  receive_ping-NamesItself now clock current_peer msg t peer_connection v info h =
      let (sock, reset) = can_reset net wire peer_connection t in
      let same : t.sock.state ≡ sock.state = sym (can_reset_state peer_connection t) in
      let (t', e) =
        check_ping-NamesItself now clock current_peer msg reset (record t { sock = sock })
          (subst (IsNode net digest) same v)
          (subst (NamesItself clock current_peer msg reset) same h) in
      (t', receive_ping_ok now clock current_peer msg t peer_connection info ∙ e)
