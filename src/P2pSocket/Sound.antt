-- ===== src/P2pSocket/Sound.antt =====
-- src/libp2psocket/p2psocket.cpp: the valid states of a node, and its calls on them.
use mesh_pp.Prelude.{
  ℕ, ◌≡◌, sym, ◌∙◌, ap, subst, String, string_discrete, Bool, false, some, Option-cases, inl, inr,
  arith, find,
}
use mesh_pp.Net.{Net}
use mesh_pp.Communication.State.{CommunicationState, fresh_peer}
use mesh_pp.Communication.Invariant
use mesh_pp.Communication.Insert
use mesh_pp.Communication.Query
use mesh_pp.Communication.Valid.Active.{IsFree}
use mesh_pp.Communication.Valid.Insert.{add_passive-Outcome, found_peer}
use mesh_pp.Communication.Valid.Connect.{add_active-Connected}
use mesh_pp.Communication.Valid.Values.{get_active_value-set_active_value}
use mesh_pp.Communication.Valid.Marks.{remove_later_peer-IsValid, remove_later_address-marks}
use mesh_pp.NodeState.State.{NodeState}
use mesh_pp.NodeState.Connections
use mesh_pp.NodeState.Dropped.{process_node_join, process_node_drop}
use mesh_pp.NodeState.AddContact.{IsNode}
use mesh_pp.P2pSocket.State.{Wire}

module _ (net : Net) (wire : Wire net) where
  open net use {Address}
  open wire use {digest}

  abbrev Node : Type 0
  Node = NodeState net

  -- The connections and the bucket are valid.
  pub record Sound (s : Node) : Type 0 where
    pub connections : Invariant.IsValid net s.program_state
    pub node : IsNode net digest s

  -- What a state has in common with another, where only its other members changed.
  pub Sound-kept :
      (s t : Node)
      → t.kbucket ≡ s.kbucket
      → t.self_id ≡ s.self_id
      → t.program_state ≡ s.program_state
      → Sound s
      → Sound t
  Sound-kept s t b i p h = record {
    connections = subst (Invariant.IsValid net) (sym p) h.connections;
    node = record {
      valid = rw b h.node.valid;
      self = ap (λ k. k.origin.node_id) b ∙ h.node.self ∙ sym i;
    };
  }

  -- The connections changed.
  pub Sound-connections :
      (s : Node) (c : CommunicationState net)
      → Invariant.IsValid net c
      → Sound s
      → Sound (record s { program_state = c })
  Sound-connections s c v h = record {
    connections = v;
    node = record { valid = h.node.valid; self = h.node.self };
  }

  pub add_passive-Sound :
      (now : ℕ) (addr : Address) (s : Node)
      → Sound s
      → (r : Node × Insert.InsertCode) × (Connections.add_passive net now addr s ≡ some r)
        × Sound r.0
  unfolding Connections.add_passive
  add_passive-Sound now addr s h =
      let ((t, code), e, v, _) =
        add_passive-Outcome net now addr (fresh_peer now) s.program_state h.connections in
      ((record s { program_state = t }, code), ground (arith, e), Sound-connections s t v h)

  pub add_passive_attempts-Sound :
      (now : ℕ) (addr : Address) (n : ℕ) (s : Node)
      → Sound s
      → (r : Node × Insert.InsertCode) × (Connections.add_passive_attempts net now addr n s
          ≡ some r)
        × Sound r.0
  unfolding Connections.add_passive_attempts
  add_passive_attempts-Sound now addr n s h =
      let ((t, code), e, v, _) =
        add_passive-Outcome net now addr (record (fresh_peer now) { open_attempts = n })
          s.program_state h.connections in
      ((record s { program_state = t }, code), ground (arith, e), Sound-connections s t v h)

  pub add_active-Sound :
      (now : ℕ) (addr : Address) (p : String) (s : Node)
      → IsFree net p addr s.program_state
      → Sound s
      → (r : Node × Insert.UpdateCode) × (Connections.add_active net now addr p s ≡ some r)
        × Sound r.0
  unfolding Connections.add_active
  add_active-Sound now addr p s free h =
      let ((t, code), e, v, _) =
        add_active-Connected net now addr p (fresh_peer now) s.program_state h.connections free in
      ((record s { program_state = t }, code), ground (arith, e), Sound-connections s t v h)

  pub set_active_nodeid-Sound :
      (now : ℕ) (p nodeid : String) (s : Node)
      → Sound s
      → (t : Node) × (Connections.set_active_nodeid net now p nodeid s ≡ some t) × Sound t
  unfolding Connections.set_active_nodeid
  set_active_nodeid-Sound now p nodeid s h =
      let (t, e, v, _) =
        get_active_value-set_active_value net now p (record (fresh_peer now) { node_id = nodeid })
          s.program_state h.connections in
      (record s { program_state = t }, ground (arith, e), Sound-connections s t v h)

  pub remove_later_peer-Sound :
      (p : String) (step : ℕ) (send_drop must_notify : Bool) (s : Node)
      → Sound s
      → Sound (Connections.remove_later_peer net p step send_drop must_notify s).0
  unfolding Connections.remove_later_peer
  remove_later_peer-Sound p step send_drop must_notify s h =
      Sound-connections s _
        (remove_later_peer-IsValid net step must_notify s.program_state h.connections p send_drop) h

  pub remove_later_address-Sound :
      (addr : Address) (step : ℕ) (only must : Bool) (s : Node)
      → Sound s
      → (r : Node × Bool) × (Connections.remove_later_address net addr step false only must s
          ≡ some r)
        × Sound r.0
  unfolding Connections.remove_later_address
  remove_later_address-Sound addr step only must s h =
      let ((t, marked), e, v, _) =
        remove_later_address-marks net step must s.program_state h.connections addr only in
      ((record s { program_state = t }, marked), ground (arith, e), Sound-connections s t v h)

  pub get_nodeid-Sound :
      (p : String) (s : Node)
      → Sound s
      → (nodeid : String) × (Connections.get_nodeid net p s ≡ some nodeid)
  unfolding Connections.get_nodeid Query.get_active_value
  get_nodeid-Sound p s h =
      elim (Option-cases (find string_discrete p s.program_state.map_by_peer_id)) [
        | inl e ↦ ("", ground (arith, e))
        | inr (index, e) ↦
            let (item, at, _) = found_peer net p s.program_state index h.connections e in
            (item.value.node_id, ground (arith, e, at))
      ]

  pub process_node_drop-Sound :
      (nodeid : String) (s : Node) → Sound s → Sound (process_node_drop net nodeid s)
  unfolding process_node_drop
  process_node_drop-Sound nodeid s h =
      Sound-kept s (process_node_drop net nodeid s) (ground arith) (ground arith) (ground arith) h

  pub process_node_join-Sound :
      (nodeid : String) (s : Node) → Sound s → Sound (process_node_join net nodeid s)
  unfolding process_node_join
  process_node_join-Sound nodeid s h =
      Sound-kept s (process_node_join net nodeid s) (ground arith) (ground arith) (ground arith) h
