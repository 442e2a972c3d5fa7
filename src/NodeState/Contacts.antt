-- ===== src/NodeState/Contacts.antt =====
-- src/libp2psocket/p2pstate.cpp: what `p2pstate_ex` does with its bucket of contacts.
use mesh_pp.Prelude.{
  ℕ, String, Bool, true, false, Option, none, some, List, [], ◌∷◌, map, ◌>>=◌, if◌then◌else◌,
  Result, ok, throw,
}
use mesh_pp.Net.{Net}
use mesh_pp.Communication.Removal
use mesh_pp.KBucket.Contacts.{KBucket, insert_contact, find_contact, erase_contact}
use mesh_pp.KBucket.Kontakt.{Konnection, distance_from}
use mesh_pp.NodeState.State.{
  NodeState, ContactStatus, no_contact, new_contact, existing_contact, bucket_capacity, contact,
}

module _ (net : Net) (digest : String → ℕ) where
  abbrev Node : Type 0
  Node = NodeState net

  abbrev pub find_node : String → String → KBucket Konnection → Option Konnection
  find_node nodeid peerid =
      find_contact (distance_from digest) bucket_capacity (contact nodeid peerid)

  unfoldable pub add_contact : String → String → Node → Result (Node × ContactStatus)
  add_contact peerid nodeid s = elim (find_node nodeid peerid s.kbucket) [
    | some _ ↦ ok (s, existing_contact)
    | none ↦
        elim (insert_contact (distance_from digest) bucket_capacity (contact nodeid peerid)
          s.kbucket) [
            | throw e ↦ throw e
            | ok (b, done) ↦ ok (record s { kbucket = b }, if done then new_contact else no_contact)
          ]
  ]

  unfoldable pub contacts_empty : Node → Bool
  contacts_empty s = elim s.kbucket.contacts [ [] ↦ true | _ ∷ _ ↦ false ]

  unfoldable pub erase_keys : List (String × Bool) → KBucket Konnection → KBucket Konnection
  erase_keys [] b = b
  erase_keys ((key, must_notify) ∷ keys) b =
      erase_keys keys (erase_contact (distance_from digest) bucket_capacity (contact key "") b)

  unfoldable pub remove_pending : Node → Option (Node × List (String × Bool) × List String)
  remove_pending s = do
    (t, keys, drops) ← Removal.remove_pending net s.program_state
    some (record s { program_state = t; kbucket = erase_keys keys s.kbucket }, keys, drops)

  unfoldable pub get_kbucket_nodeids : Node → List String
  get_kbucket_nodeids s = map (λ k. k.node_id) s.kbucket.contacts

  unfoldable pub get_peer_id : String → Node → Option String
  get_peer_id nodeid s = elim (find_node nodeid "" s.kbucket) [ none ↦ none | some k ↦ some k.peer ]

  unfoldable pub process_introduce_request : String → Node → Option String
  process_introduce_request nodeid s = elim (find_node nodeid "" s.kbucket) [
    | none ↦ none
    | some k ↦ some k.peer
  ]
