-- ===== src/NodeState/Dropped.antt =====
-- src/libp2psocket/p2pstate.cpp: nodes that were dropped, and for how many proposals they are
-- passed over.
use mesh_pp.Prelude.{
  ℕ, ◌+◌, ◌*◌, String, string_discrete, Bool, true, false, none, some, List, [], ◌∷◌, Map, find,
  erase, assign, ltb, leb, ite, if◌then◌else◌,
}
use mesh_pp.Net.{Net}
use mesh_pp.NodeState.State.{NodeState}
use mesh_pp.NodeState.Contacts.{find_node}

abbrev pub greatest_limit : ℕ
greatest_limit = 1_000_000_000_000

-- The entry of a node that is dropped, or dropped again after it was passed over often enough.
unfoldable pub drop_node : String → Map String (ℕ × ℕ) → Map String (ℕ × ℕ)
drop_node nodeid m = elim (find string_discrete nodeid m) [
  | none ↦ assign string_discrete nodeid (1, 0) m
  | some (limit, count) ↦
      if leb limit count
      then assign string_discrete nodeid (if ltb limit greatest_limit then limit * 10 else limit, 0)
          m
      else m
]

-- Whether the node is to be proposed; where it is passed over, that is counted.
unfoldable pub pass_over : String → Map String (ℕ × ℕ) → Map String (ℕ × ℕ) × Bool
pass_over nodeid m = elim (find string_discrete nodeid m) [
  | none ↦ (m, true)
  | some (limit, count) ↦
      if ltb count limit
      then (assign string_discrete nodeid (limit, count + 1) m, false)
      else (m, true)
]

module _ (net : Net) where
  abbrev Node : Type 0
  Node = NodeState net

  unfoldable pub process_node_join : String → Node → Node
  process_node_join nodeid s =
      ite (string_discrete nodeid "") s
        (record s { droped_nodes = erase string_discrete nodeid s.droped_nodes })

  unfoldable pub process_node_drop : String → Node → Node
  process_node_drop nodeid s =
      ite (string_discrete nodeid "") s
        (record s { droped_nodes = drop_node nodeid s.droped_nodes })

module _ (net : Net) (digest : String → ℕ) where
  -- One round of the loop: the node is passed over, or it is a candidate.
  unfoldable pub is_candidate : String → NodeState net → NodeState net × Bool
  is_candidate nodeid s =
      ite (string_discrete nodeid s.self_id) (s, false)
        (elim (find_node net digest nodeid "" s.kbucket) [
          | some _ ↦ (s, false)
          | none ↦
              let (droped_nodes, chosen) = pass_over nodeid s.droped_nodes in
              (record s { droped_nodes = droped_nodes }, chosen)
        ])

  unfoldable pub filter_introduce_candidates :
      List String → NodeState net → NodeState net × List String
  filter_introduce_candidates [] s = (s, [])
  filter_introduce_candidates (nodeid ∷ nodeids) s =
      let (s1, chosen) = is_candidate nodeid s in
      let (s2, rest) = filter_introduce_candidates nodeids s1 in
      (s2, if chosen then nodeid ∷ rest else rest)
