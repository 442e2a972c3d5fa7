-- ===== src/Communication/Valid/Getters.antt =====
-- src/libp2psocket/p2pstate.cpp: what the getters give after `add_active`.
use mesh_pp.Prelude.{ℕ, ◌≡◌, String, some, arith}
use mesh_pp.Net.{Net}
use mesh_pp.Communication.State.{PeerState, CommunicationState, update}
use mesh_pp.Communication.Insert.{UpdateCode, add_active}
use mesh_pp.Communication.Query.{get_active_value, get_value, get_peer_id, get_address}
use mesh_pp.Communication.Invariant.{IsValid}
use mesh_pp.Communication.Valid.Active.{IsFree}
use mesh_pp.Communication.Valid.Connect.{Connected, add_active-Connected}

module _ (net : Net) where
  open net use {Address}

  Connected-getters :
      (now : ℕ) (addr : Address) (p : String) (value : PeerState) (s : CommunicationState net)
      → Connected net now addr p value s
      → (get_active_value net p s ≡ some (some (update now value)))
        × (get_value net addr s ≡ some (some (update now value)))
        × (get_peer_id net addr s ≡ some (some p))
        × (get_address net p s ≡ some (some addr))
  unfolding get_active_value get_value get_peer_id get_address
  Connected-getters now addr p value s c =
      let a = c.by_address in
      let b = c.by_peer in
      let i = c.item in
      (ground (arith, b, i), ground (arith, a, i), ground (arith, a, i), ground (arith, b, i))

  -- On a valid state, and where the peer is not connected at another address, `add_active` returns,
  -- and the getters then find the connection: `get_active_value` and `get_value` give the value
  -- with the time of the call, by the peer and by the address, `get_peer_id` the peer and
  -- `get_address` the address.
  pub getters-add_active :
      (now : ℕ) (addr : Address) (p : String) (value : PeerState) (s : CommunicationState net)
      → IsValid net s
      → IsFree net p addr s
      → (r : CommunicationState net × UpdateCode) × (add_active net now addr p value s ≡ some r)
        × (get_active_value net p r.0 ≡ some (some (update now value)))
        × (get_value net addr r.0 ≡ some (some (update now value)))
        × (get_peer_id net addr r.0 ≡ some (some p))
        × (get_address net p r.0 ≡ some (some addr))
  getters-add_active now addr p value s v free =
      let (r, e, _, c) = add_active-Connected net now addr p value s v free in
      let (active, by_address, peer, address) = Connected-getters now addr p value r.0 c in
      (r, e, active, by_address, peer, address)
