-- ===== src/P2pSocket/Setup.antt =====
-- src/libp2psocket/p2psocket.cpp: the constructor, and the addresses that the node is configured
-- with.
use mesh_pp.Prelude.{
  ℕ, String, Bool, true, false, not, ◌&&◌, ◌||◌, Option, some, List, [], ◌∷◌, ◌>>=◌, if◌then◌else◌,
  Result, ok, throw, logic_error, runtime_error,
}
use mesh_pp.Net.{Net}
use mesh_pp.NodeState.State.{NodeState, new_node, set_fixed_local_port}
use mesh_pp.NodeState.Connections
use mesh_pp.P2pSocket.State.{Wire, P2pSocket, with_local_port}

module _ (net : Net) (wire : Wire net) where
  open net use {Destination, Address, near, remote, is_empty, destination_discrete}
  open wire use {make_address, ip_type, port, with_port, empty_destination, digest}

  abbrev Socket : Type 0
  Socket = P2pSocket net wire

  -- One round of the loop of `init_bind_to_address`.
  unfoldable pub init_item : Address → Address → Result Address
  init_item bind_to_address item =
      if is_empty (near item) && is_empty (remote item)
      then throw runtime_error
      else let turned : Address =
          if not (is_empty (near item)) && is_empty (remote item)
          then make_address empty_destination (near item) (ip_type item)
          else item in
        ok (
          if not (is_empty (near bind_to_address))
          then with_local_port net wire (port (near bind_to_address)) turned
          else turned)

  unfoldable pub init_items : Address → List Address → Result (List Address)
  init_items bind_to_address [] = ok []
  init_items bind_to_address (item ∷ items) = elim (init_item bind_to_address item) [
    | throw e ↦ throw e
    | ok first ↦ elim (init_items bind_to_address items) [
      | throw e ↦ throw e
      | ok rest ↦ ok (first ∷ rest)
    ]
  ]

  unfoldable pub init_bind_to_address : Bool → Address → List Address → Result (List Address)
  init_bind_to_address discovery_server bind_to_address connect_to_addresses =
      if discovery_server then ok [] else init_items bind_to_address connect_to_addresses

  unfoldable pub add_passives : ℕ → List Address → NodeState net → Option (NodeState net)
  add_passives now [] s = some s
  add_passives now (item ∷ items) s = do
    (t, _) ← Connections.add_passive net now item s
    add_passives now items t

  -- With nothing to listen on, there must be an address to connect to.
  unfoldable pub add_configured : ℕ → List Address → NodeState net → Option (Result (NodeState net))
  add_configured now [] s = some (throw logic_error)
  add_configured now (item ∷ items) s = do t ← add_passives now (item ∷ items) s; some (ok t)

  -- The constructor, for a key's text, once the socket is there: the state, or what is thrown.
  unfoldable pub new_state :
      ℕ → Address → List Address → NodeState net → Option (Result (NodeState net))
  new_state now bind_to_address addresses s =
      if is_empty (near bind_to_address) then add_configured now addresses s else (do
        (t, _) ←
            Connections.add_passive net now
              (make_address (near bind_to_address) empty_destination (ip_type bind_to_address))
              (set_fixed_local_port net (port (near bind_to_address)) s)
        u ← add_passives now addresses t
        some (ok u))

  unfoldable pub new_socket :
      ℕ → Bool → Address → List Address → String → Address → Option (Result Socket)
  new_socket now discovery_server bind_to_address connect_to_addresses pk unset =
      elim (new_node net digest pk unset) [
        | throw e ↦ some (throw e)
        | ok s ↦ elim (init_bind_to_address discovery_server bind_to_address connect_to_addresses) [
          | throw e ↦ some (throw e)
          | ok addresses ↦ do
            r ← new_state now bind_to_address addresses s
            some (elim r [
              | throw e ↦ throw e
              | ok t ↦ ok (record {
                discovery_server = discovery_server;
                state = t;
                connect_to_addresses = addresses;
                the_first_connect_to_address_from_socket = unset;
                receive_attempt_count = 0;
                notify_removed_peers = [];
              })
            ])
        ]
      ]

  unfoldable pub same_remote : Address → Address → Bool
  same_remote item it = elim (destination_discrete (remote item) (remote it)) [
    | yes _ ↦ true
    | no _ ↦ false
  ]

  unfoldable pub is_configured : List Address → Address → Bool
  is_configured [] item = false
  is_configured (it ∷ its) item = same_remote item it || is_configured its item

  unfoldable pub is_configured_address : Socket → Address → Bool
  is_configured_address sock item = is_configured sock.connect_to_addresses item

  unfoldable pub same_address : Address → Address → Bool
  same_address a b = elim (wire.address_discrete a b) [ yes _ ↦ true | no _ ↦ false ]

  unfoldable pub is_front : List Address → Address → Bool
  is_front [] item = false
  is_front (it ∷ _) item = same_remote it item

  -- Where the address is the first one in the configuration, the connection is kept.
  unfoldable pub is_the_first_configured_address : Address → Address → Socket → Socket × Bool
  is_the_first_configured_address peer_connection item sock =
      if not (is_empty (remote sock.the_first_connect_to_address_from_socket))
        && same_address sock.the_first_connect_to_address_from_socket item
      then (sock, true)
      else if is_front sock.connect_to_addresses item
      then (record sock { the_first_connect_to_address_from_socket = peer_connection }, true)
      else (sock, false)

  unfoldable pub remove_if_configured_address : Address → Socket → Option Socket
  remove_if_configured_address item sock =
      if is_configured_address sock item
      then (do
        (s, _) ← Connections.remove_later_address net item 0 false true false sock.state
        some (record sock { state = s }))
      else some sock
