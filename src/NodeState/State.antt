-- ===== src/NodeState/State.antt =====
-- src/libp2psocket/p2pstate.cpp: the members of `p2pstate_ex`, its constructor and its plain
-- getters and setters. A node is named by the text of its public key.
use mesh_pp.Prelude.{
  ℕ, String, string_discrete, Bool, true, false, none, some, [], Map, find, erase, assign, ite,
  Result, ok, throw, runtime_error,
}
use mesh_pp.Net.{Net}
use mesh_pp.Communication.State.{CommunicationState, empty_state}
use mesh_pp.KBucket.Contacts.{KBucket, new_bucket}
use mesh_pp.KBucket.Kontakt.{Konnection, distance_from}

pub data ContactStatus : Type 0 where
  no_contact new_contact existing_contact : ContactStatus

-- The template argument `K` that `KBucket` has where none is given.
abbrev pub bucket_capacity : ℕ
bucket_capacity = 20

abbrev pub contact : String → String → Konnection
contact node_id peer = record { node_id = node_id; peer = peer }

module _ (net : Net) where
  open net use {Address}

  pub record NodeState : Type 0 where
    pub fixed_local_port : ℕ
    pub external_ip_address : Address
    pub self_id : String
    pub kbucket : KBucket Konnection
    pub program_state : CommunicationState net
    pub verified_peers : Map String (Unit {0})
    -- The number of proposals to skip and the number that were skipped.
    pub droped_nodes : Map String (ℕ × ℕ)

  -- The constructor, from the text of the key; the address that is not set yet is an argument.
  unfoldable pub new_node : (String → ℕ) → String → Address → Result NodeState
  new_node digest pk unset = ite (string_discrete pk "") (throw runtime_error) (
      ok (record {
        fixed_local_port = 0;
        external_ip_address = unset;
        self_id = pk;
        kbucket = new_bucket (distance_from digest) bucket_capacity (contact pk "");
        program_state = empty_state net;
        verified_peers = [];
        droped_nodes = [];
      }))

  unfoldable pub name : NodeState → String
  name s = s.self_id

  -- The port is an `unsigned short`, and so below `2 ^ 16`.
  unfoldable pub set_fixed_local_port : ℕ → NodeState → NodeState
  set_fixed_local_port port s = record s { fixed_local_port = port }

  unfoldable pub get_fixed_local_port : NodeState → ℕ
  get_fixed_local_port s = s.fixed_local_port

  unfoldable pub set_external_ip_address : Address → NodeState → NodeState
  set_external_ip_address address s = record s { external_ip_address = address }

  unfoldable pub get_external_ip_address : NodeState → Address
  get_external_ip_address s = s.external_ip_address

  unfoldable pub is_peer_verified : String → NodeState → Bool
  is_peer_verified p s = elim (find string_discrete p s.verified_peers) [
    | none ↦ false
    | some _ ↦ true
  ]

  unfoldable pub set_peer_verified : String → NodeState → NodeState
  set_peer_verified p s = record s { verified_peers = assign string_discrete p tt s.verified_peers }

  unfoldable pub set_peer_unverified : String → NodeState → NodeState
  set_peer_unverified p s = record s { verified_peers = erase string_discrete p s.verified_peers }
