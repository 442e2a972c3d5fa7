-- ===== src/P2pSocket/Loop.antt =====
-- src/libp2psocket/p2psocket.cpp: `prepare_wait`, `timer_action`, `send` and the calls that ask.
use mesh_pp.Prelude.{
  ℕ, zero, suc, ltb, ◌/◌, String, string_discrete, Bool, true, false, ◌&&◌, Option, none, some,
  List, [], ◌∷◌, ◌>>=◌, ◌==◌, if◌then◌else◌, ite, Exception, Result, ok, throw, runtime_error,
}
use mesh_pp.Net.{Net}
use mesh_pp.NodeState.State.{
  NodeState, contact, name, get_fixed_local_port, get_external_ip_address, set_peer_unverified,
}
use mesh_pp.NodeState.Connections
use mesh_pp.NodeState.Contacts
use mesh_pp.KBucket.Distance.{index_from_distance}
use mesh_pp.KBucket.Kontakt.{distance_from}
use mesh_pp.P2pSocket.State.{
  Wire, P2pSocket, stream_drop, ping, other, Turn, Outcome, with_local_port, put_state, send_to,
}
use mesh_pp.P2pSocket.Setup.{add_passives, remove_if_configured_address}

-- `unordered_set::insert`.
unfoldable pub insert_text : String → List String → List String
insert_text x [] = x ∷ []
insert_text x (y ∷ ys) = ite (string_discrete y x) (y ∷ ys) (y ∷ insert_text x ys)

unfoldable pub notify : List (String × Bool) → List String → List String
notify [] removed = removed
notify ((nodeid, must_notify) ∷ keys) removed =
    notify keys (if must_notify then insert_text nodeid removed else removed)

module _ (net : Net) (wire : Wire net) where
  open net use {Address}
  open wire use {digest, second}

  abbrev Node : Type 0
  Node = NodeState net

  abbrev Running : Type 0
  Running = Turn net wire

  abbrev Ended : Type 0
  Ended = Outcome net wire

  -- What the socket does for an address: the peers that it listens or connects as, or what it
  -- throws.
  abbrev pub Answers : Type 0
  Answers = Address → Result (List String)

  unfoldable pub send_drops : List String → Running → Running
  send_drops [] t = t
  send_drops (remove_sk ∷ rest) t = send_drops rest (
      send_to net wire remove_sk stream_drop
        (put_state net wire (set_peer_unverified net remove_sk t.sock.state) t))

  -- The first part of `prepare_wait`.
  unfoldable pub drop_pending : Running → Option Running
  drop_pending t = do
    (s, keys, drops) ← Contacts.remove_pending net digest t.sock.state
    some (
        send_drops drops (record t {
          sock = record (t.sock) {
            state = s;
            notify_removed_peers = notify keys t.sock.notify_removed_peers;
          };
        }))

  -- `add_active` for each peer that listens; `sk.info` may throw.
  unfoldable pub add_listening : ℕ → List String → Node → Option (Node × Option Exception)
  add_listening now [] s = some (s, none)
  add_listening now (peer_item ∷ peers) s = elim (wire.info peer_item) [
    | throw e ↦ some (s, some e)
    | ok conn_item ↦ do
      (s1, _) ← Connections.add_active net now conn_item peer_item s
      add_listening now peers s1
  ]

  -- One address to listen on. On what is thrown, it no longer waits.
  unfoldable pub listen_on : ℕ → Answers → Address → Node → Option (Node × Option Exception)
  listen_on now listening item s =
      if get_fixed_local_port net s == 0
      then some (s, some runtime_error)
      else let item1 = with_local_port net wire (get_fixed_local_port net s) item in
        elim (listening item1) [
          | throw e ↦ some ((Connections.remove_from_todo_list net item1 s).0, some e)
          | ok peers ↦ do
            (s1, thrown) ← add_listening now peers s
            some (elim thrown [
              | none ↦ (s1, none)
              | some e ↦ ((Connections.remove_from_todo_list net item1 s1).0, some e)
            ])
        ]

  unfoldable pub listen_all : ℕ → Answers → List Address → Node → Option (Node × Option Exception)
  listen_all now listening [] s = some (s, none)
  listen_all now listening (item ∷ items) s = do
    (s1, thrown) ← listen_on now listening item s
    elim thrown [ none ↦ listen_all now listening items s1 | some e ↦ some (s1, some e) ]

  -- One address to connect to: it no longer waits, whether the socket throws or not; what the
  -- configuration has is to be removed where it throws, and anything else after 30 steps.
  unfoldable pub connect_to :
      (Address → ℕ → Result (List String))
      → Address
      → P2pSocket net wire
      → Option (P2pSocket net wire × Option Exception)
  connect_to opening item sock = do
    attempts ← Connections.get_open_attempts net item sock.state
    (sock1, thrown) ← elim (opening item attempts) [
      | throw e ↦ do sock1 ← remove_if_configured_address net wire item sock; some (sock1, some e)
      | ok _ ↦ do
        (s, _) ← Connections.remove_later_address net item 30 false true false sock.state
        some (record sock { state = s }, none)
    ]
    some (
      record sock1 { state = (Connections.remove_from_todo_list net item sock1.state).0 },
      thrown,
    )

  unfoldable pub connect_all :
      (Address → ℕ → Result (List String))
      → List Address
      → P2pSocket net wire
      → Option (P2pSocket net wire × Option Exception)
  connect_all opening [] sock = some (sock, none)
  connect_all opening (item ∷ items) sock = do
    (sock1, thrown) ← connect_to opening item sock
    elim thrown [ none ↦ connect_all opening items sock1 | some e ↦ some (sock1, some e) ]

  unfoldable pub is_nil {ℓ} : {A : Type ℓ} → List A → Bool
  is_nil [] = true
  is_nil (_ ∷ _) = false

  -- The configured addresses again, where nothing is connected or waits, or after a longer time.
  -- Whether the two timers have expired is what belt.pp answers.
  unfoldable pub reconnect :
      ℕ → Bool → Bool → List Address → P2pSocket net wire → Option (P2pSocket net wire)
  reconnect now connect_expired reconnect_expired waiting sock = do
    connected ← Connections.get_connected_peerids net sock.state
    s ←
        (if is_nil waiting && is_nil connected && connect_expired
          then add_passives net wire now sock.connect_to_addresses sock.state
          else some sock.state)
    s1 ←
        (if reconnect_expired
          then add_passives net wire now sock.connect_to_addresses s
          else some s)
    some (record sock { state = s1 })

  unfoldable pub connect_waiting :
      ℕ → (Address → ℕ → Result (List String)) → Bool → Bool → Running → Ended
  connect_waiting now opening connect_expired reconnect_expired t = do
    to_connect ← Connections.get_to_connect net t.sock.state
    sock ← reconnect now connect_expired reconnect_expired to_connect t.sock
    (sock1, thrown) ← connect_all opening to_connect sock
    some (record t { sock = sock1 }, thrown)

  unfoldable pub prepare_wait :
      ℕ → Answers → (Address → ℕ → Result (List String)) → Bool → Bool → Running → Ended
  prepare_wait now listening opening connect_expired reconnect_expired t = do
    t1 ← drop_pending t
    to_listen ← Connections.get_to_listen net t1.sock.state
    (s, thrown) ← listen_all now listening to_listen t1.sock.state
    elim thrown [
      | none ↦
          connect_waiting now opening connect_expired reconnect_expired (put_state net wire s t1)
      | some e ↦ some (put_state net wire s t1, some e)
    ]

  -- The packets that `send` refuses, and the two that it takes.
  unfoldable pub send : String → Bool → wire.Contents → Running → Running × Option Exception
  send peer is_drop pack t = elim (Contacts.get_peer_id net digest peer t.sock.state) [
    | none ↦ (t, some runtime_error)
    | some p2p_peerid ↦
        if is_drop
        then (
          put_state net wire
              (Connections.remove_later_peer net p2p_peerid 0 true false t.sock.state).0 t,
          none,
        )
        else (send_to net wire p2p_peerid (other pack) t, none)
  ]

  -- A ping without a signature to each peer.
  unfoldable pub ping_all : ℕ → List String → Running → Running × Option Exception
  ping_all clock [] t = (t, none)
  ping_all clock (item ∷ items) t = elim (wire.info item) [
    | throw e ↦ (t, some e)
    | ok current_connection ↦ ping_all clock items (
        send_to net wire item (ping current_connection (name net t.sock.state) (clock / second) "")
          t)
  ]

  unfoldable pub timer_action : ℕ → Running → Ended
  timer_action clock t = do
    let s = Connections.do_step net t.sock.state
    connected ← Connections.get_connected_peerids net s
    some (ping_all clock connected (put_state net wire s t))

  unfoldable pub external_address : P2pSocket net wire → Address
  external_address sock = get_external_ip_address net sock.state

  unfoldable pub info_connection : String → P2pSocket net wire → Result Address
  info_connection peer sock = elim (Contacts.get_peer_id net digest peer sock.state) [
    | none ↦ throw runtime_error
    | some p2p_peerid ↦ wire.info p2p_peerid
  ]

-- The set in a slot of `peers_distance`; a slot out of range is not written.
unfoldable pub add_to_slot : ℕ → String → List (List String) → List (List String)
add_to_slot i peer [] = []
add_to_slot zero peer (slot ∷ slots) = insert_text peer slot ∷ slots
add_to_slot (suc i) peer (slot ∷ slots) = slot ∷ add_to_slot i peer slots

unfoldable pub fill_slots :
    (String → ℕ) → String → List String → List (List String) → List (List String)
fill_slots digest nodeid [] slots = slots
fill_slots digest nodeid (peer ∷ all_peers) slots =
    let i = index_from_distance (distance_from digest (contact nodeid "") (contact peer "")) in
    fill_slots digest nodeid all_peers (if ltb i 20 then add_to_slot i peer slots else slots)

unfoldable pub empty_slots : ℕ → List (List String)
empty_slots zero = []
empty_slots (suc n) = [] ∷ empty_slots n

unfoldable pub peers_distance : (String → ℕ) → String → List String → List (List String)
peers_distance digest nodeid all_peers = fill_slots digest nodeid all_peers (empty_slots 20)
