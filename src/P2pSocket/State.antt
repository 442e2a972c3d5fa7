-- ===== src/P2pSocket/State.antt =====
-- src/libp2psocket/p2psocket.cpp: the members of `p2psocket_internals`, the packets, and what is
-- taken from other libraries.
use Prim.Native.String.{◌++◌ as ◌+++◌}
use mesh_pp.Prelude.{
  ℕ, ◌+◌, ◌*◌, ◌^◌, ◌<◌, ◌≡◌, if◌then◌else◌, arith, String, Bool, ◌||◌, Option, none, some, List,
  [], ◌∷◌, ◌++◌, ltb, leb, Exception, Result,
}
use mesh_pp.Net.{Net}
use mesh_pp.NodeState.State.{NodeState}

-- The fields of an address, the answers of the socket about a peer, and the signatures.
pub record Wire (net : Net) : Type 1 where
  pub IpType : Type 0
  -- What is left of an address that `assign` has moved from.
  pub moved : net.Address → net.Address
  pub make_address : net.Destination → net.Destination → IpType → net.Address
  pub ip_type : net.Address → IpType
  pub empty_destination : net.Destination
  pub port : net.Destination → ℕ
  pub with_port : ℕ → net.Destination → net.Destination
  pub address_discrete : Discrete net.Address
  -- `socket::info` and `socket::info_connection`, which may throw.
  pub info : String → Result net.Address
  pub info_connection : String → Result net.Address
  pub Contents : Type 0
  pub sign : String → String
  pub verify_signature : String → String → String → Bool
  -- The digest of `string_distance`.
  pub digest : String → ℕ
  -- `gm_time_t_to_gm_string`, and the length of a second on the system's clock.
  pub gm_string : ℕ → String
  pub second : ℕ

module _ (net : Net) (wire : Wire net) where
  open net use {Destination, Address, near, remote, is_empty}
  open wire use {make_address, ip_type, with_port, Contents, second}

  pub data Packet : Type 0 where
    stream_join stream_drop : Packet
    stream_protocol_error : String → Packet
    socket_open_refused socket_open_error : Address → Packet
    ping : (connection_info : Address) (nodeid : String) (stamp : ℕ) (signature : String) → Packet
    pong : (nodeid : String) (stamp : ℕ) (signature : String) → Packet
    find_node : (nodeid : String) → Packet
    node_details : (origin : String) (nodeids : List String) → Packet
    introduce_to : (nodeid : String) → Packet
    open_connection_with : (addr : Address) → Packet
    other : Contents → Packet
    contents : Contents → Packet

  pub record P2pSocket : Type 0 where
    pub discovery_server : Bool
    pub state : NodeState net
    pub connect_to_addresses : List Address
    pub the_first_connect_to_address_from_socket : Address
    pub receive_attempt_count : ℕ
    pub notify_removed_peers : List String

  -- What a call has done so far: to the object, to the socket, and for its caller.
  pub record Turn : Type 0 where
    pub sock : P2pSocket
    pub sent : List (String × Packet)
    pub returned : List Packet
    pub peer : String
    -- The local variable `current_connection` of `receive`, which each packet leaves to the next.
    pub current_connection : Address

  -- A call ends, or throws, with what it has done; `none` is undefined behaviour.
  abbrev pub Outcome : Type 0
  Outcome = Option (Turn × Option Exception)

  abbrev pub done : Turn → Outcome
  done t = some (t, none)

  abbrev pub with_near : Destination → Address → Address
  with_near d a = make_address d (remote a) (ip_type a)

  abbrev pub with_local_port : ℕ → Address → Address
  with_local_port p a = with_near (with_port p (near a)) a

  abbrev pub put_state : NodeState net → Turn → Turn
  put_state s t = record t { sock = record (t.sock) { state = s } }

  -- `sk.send`, and a packet for the caller.
  abbrev pub send_to : String → Packet → Turn → Turn
  send_to p packet t = record t { sent = t.sent ++ (p, packet) ∷ [] }

  abbrev pub give : Packet → Turn → Turn
  give packet t = record t { returned = t.returned ++ packet ∷ [] }

  -- `beltpp::gm_time_t_to_gm_string` of a stamp, after the node id.
  abbrev pub signed_text : String → ℕ → String
  signed_text nodeid stamp = nodeid +++ wire.gm_string stamp

  abbrev pub ping_interval : ℕ
  ping_interval = 30

  -- `seconds(-PING_INTERVAL) > diff || seconds(PING_INTERVAL) <= diff`, of a stamp in seconds and a
  -- reading of the clock. `from_time_t` counts the stamp in a signed integer of 64 bits, and a stamp
  -- that it does not hold is undefined behaviour.
  unfoldable pub is_stale : ℕ → ℕ → Option Bool
  is_stale stamp now =
      if ltb (stamp * second) (2 ^ 63)
      then some (
          ltb (stamp * second + ping_interval * second) now
          || leb (now + ping_interval * second) (stamp * second))
      else none

  -- The stamp of a packet that has one.
  abbrev pub stamp_of : Packet → Option ℕ
  stamp_of (ping connection_info nodeid stamp signature) = some stamp
  stamp_of (pong nodeid stamp signature) = some stamp
  stamp_of _ = none

  -- The system's clock can hold the stamp.
  abbrev pub IsTime : ℕ → Type 0
  IsTime stamp = stamp * second < 2 ^ 63

  pub is_stale_defined : (stamp now : ℕ) → IsTime stamp → (b : Bool) × (is_stale stamp now ≡ some b)
  unfolding is_stale
  is_stale_defined stamp now h = (
    ltb (stamp * second + ping_interval * second) now
        || leb (now + ping_interval * second) (stamp * second),
    ground (arith, h),
  )
