-- ===== src/NodeState/Tests.antt =====
-- src/libp2psocket/p2pstate.cpp: runs of a node, and the theorems about it at concrete inputs.
use mesh_pp.Prelude.{
  ℕ, ◌+◌, ◌≡◌, ◌≢◌, refl, String, string_discrete, Bool, none, some, List, [], ◌∷◌, find, erase,
  assign, All, ite, ltb, if◌then◌else◌, arith, ok, throw, logic_error,
}
use text.Mathlib.TextEquality.{eq_iff}
use mesh_pp.Communication.State.{empty_state}
use mesh_pp.Communication.Tests.{demo_net, due, due-IsValid}
use mesh_pp.Communication.Invariant
use mesh_pp.KBucket.Distance.{count_halvings, index_from_distance}
use mesh_pp.KBucket.Contacts.{
  insert_ordered, count_if, find_if, erase_first, is_same, index, eq_index, is_full, insert_contact,
  find_contact, erase_contact,
}
use mesh_pp.KBucket.Kontakt.{
  Konnection, count_bytes, byte_count, read_byte, xor_bytes, subtract, string_distance,
  distance_from,
}
use mesh_pp.NodeState.State.{NodeState, new_contact, existing_contact, contact}
use mesh_pp.NodeState.Connections.{get_connected_peerids}
use mesh_pp.NodeState.Connected
use mesh_pp.NodeState.Contacts.{find_node, add_contact, get_peer_id, remove_pending}
use mesh_pp.NodeState.Dropped.{
  drop_node, pass_over, is_candidate, process_node_join, process_node_drop,
  filter_introduce_candidates,
}
use mesh_pp.NodeState.Backoff
use mesh_pp.NodeState.Skipped
use mesh_pp.NodeState.AddContact
use mesh_pp.NodeState.RemovePending

abbrev pub demo_digest : String → ℕ
demo_digest s = ite (string_discrete s "self") 8 (ite (string_discrete s "a") 9 12)

program : Unit {0}
unfolding string_discrete find erase assign count_halvings index_from_distance insert_ordered
    count_if find_if erase_first is_same index eq_index is_full insert_contact find_contact
    erase_contact count_bytes byte_count read_byte xor_bytes subtract string_distance distance_from
    add_contact get_peer_id drop_node pass_over is_candidate process_node_join process_node_drop
    filter_introduce_candidates Skipped.ask_again
program = tt

-- A node that has one contact, and that one node has dropped.
abbrev pub node : NodeState demo_net
node = record {
  fixed_local_port = 0;
  external_ip_address = (0, 0);
  self_id = "self";
  kbucket = record { origin = contact "self" ""; contacts = contact "a" "p" ∷ [] };
  program_state = empty_state demo_net;
  verified_peers = [];
  droped_nodes = ("b", (10, 8)) ∷ [];
}

-- The node's own id in a contact is refused with an exception.
own_contact : add_contact demo_net demo_digest "q" "self" node ≡ throw logic_error
unfolding program
own_contact = refl

other_contact :
    add_contact demo_net demo_digest "q" "b" node
    ≡ ok (
      record node {
        kbucket = record {
          origin = contact "self" "";
          contacts = contact "a" "p" ∷ contact "b" "q" ∷ [];
        };
      },
      new_contact,
    )
unfolding program
other_contact = refl

-- Twice more the dropped node is passed over; then it is proposed, with a node that is not known.
asked :
    (filter_introduce_candidates demo_net demo_digest
      ("self" ∷ "b" ∷ "c" ∷ [])
      (Skipped.ask_again demo_net demo_digest 1 "b" node)).1
    ≡ "c" ∷ []
unfolding program
asked = refl

asked_again :
    (filter_introduce_candidates demo_net demo_digest
      ("a" ∷ "b" ∷ [])
      (Skipped.ask_again demo_net demo_digest 2 "b" node)).1
    ≡ "b" ∷ []
unfolding program
asked_again = refl

dropped_again :
    (process_node_drop demo_net "b"
      (Skipped.ask_again demo_net demo_digest 2 "b" node)).droped_nodes
    ≡ ("b", (100, 0)) ∷ []
unfolding program
dropped_again = refl

pub node-IsNode : AddContact.IsNode demo_net demo_digest node
unfolding program
node-IsNode = record {
  valid = record { ordered = (ground arith, tt); bounded = λ i. ground arith };
  self = refl;
}

node-Limited : Backoff.Limited demo_net demo_digest node
node-Limited = ((1, omega arith, omega arith, omega arith), tt)

droped_nodes-Limited_example :
    Backoff.Limited demo_net demo_digest (process_node_drop demo_net "b" node)
    × Backoff.Limited demo_net demo_digest (process_node_join demo_net "b" node)
    × Backoff.Limited demo_net demo_digest
        (filter_introduce_candidates demo_net demo_digest ("a" ∷ "b" ∷ []) node).0
droped_nodes-Limited_example =
    Backoff.droped_nodes-Limited demo_net demo_digest "b" ("a" ∷ "b" ∷ []) node node-Limited

node-IsDropped : Skipped.IsDropped demo_net demo_digest "b" 10 8 node
unfolding program
node-IsDropped = (λ e. absurd (ground (arith, (eq_iff "b" "self").1 e)), refl, refl)

filter-ask_again_example :
    (filter_introduce_candidates demo_net demo_digest
      ("b" ∷ [])
      (Skipped.ask_again demo_net demo_digest 2 "b" node)).1
    ≡ (if ltb (8 + 2) 10 then [] else "b" ∷ [])
filter-ask_again_example =
    Skipped.filter-ask_again demo_net demo_digest 2 "b" 10 8 node node-IsDropped

abbrev candidates : NodeState demo_net × List String
candidates = filter_introduce_candidates demo_net demo_digest ("self" ∷ "a" ∷ "c" ∷ []) node

filter-IsUnknown_example :
    (candidates.0.self_id ≡ node.self_id)
    × (candidates.0.kbucket ≡ node.kbucket)
    × All (Skipped.IsUnknown demo_net demo_digest node) candidates.1
filter-IsUnknown_example =
    Skipped.filter-IsUnknown demo_net demo_digest ("self" ∷ "a" ∷ "c" ∷ []) node

add_contact_lem_example :
    ((k : Konnection)
      → find_node demo_net demo_digest "b" "q" node.kbucket ≡ some k
      → add_contact demo_net demo_digest "q" "b" node ≡ ok (node, existing_contact))
    × (find_node demo_net demo_digest "b" "q" node.kbucket ≡ none
        → string_distance demo_digest node.self_id ≡ string_distance demo_digest "b"
        → add_contact demo_net demo_digest "q" "b" node ≡ throw logic_error)
    × (find_node demo_net demo_digest "b" "q" node.kbucket ≡ none
        → string_distance demo_digest node.self_id ≢ string_distance demo_digest "b"
        → AddContact.Added demo_net demo_digest "q" "b" node
            (add_contact demo_net demo_digest "q" "b" node))
add_contact_lem_example = AddContact.add_contact_lem demo_net demo_digest "q" "b" node node-IsNode

-- The connection to the contact is to be removed.
abbrev pub leaving : NodeState demo_net
leaving = record node { program_state = due }

find_node-remove_pending_example :
    (r : NodeState demo_net × List (String × Bool) × List String) × (remove_pending demo_net
        demo_digest leaving
      ≡ some r)
    × Invariant.IsValid demo_net r.0.program_state
    × AddContact.IsNode demo_net demo_digest r.0
    × All (λ k. find_node demo_net demo_digest k.0 "" r.0.kbucket ≡ none) r.1
find_node-remove_pending_example =
    RemovePending.find_node-remove_pending demo_net demo_digest leaving due-IsValid
      (record { valid = node-IsNode.valid; self = refl })

get_connected_peerids-Peers_example :
    (ps : List String) × (get_connected_peerids demo_net leaving ≡ some ps)
    × Connected.Peers demo_net leaving.program_state 0 leaving.program_state.peers ps
get_connected_peerids-Peers_example = Connected.get_connected_peerids-Peers demo_net leaving
