-- ===== src/NodeState/Backoff.antt =====
-- src/libp2psocket/p2pstate.cpp: how long `filter_introduce_candidates` passes over a dropped node.
use native.Mathlib.Nat.{pow-zero, pow-suc, pow-le-pow_right}
use mesh_pp.Prelude.{
  ℕ, suc, ◌+◌, ◌*◌, ◌^◌, ◌≤◌, ◌<◌, ◌≡◌, ◌≢◌, String, string_discrete, false, none, some, List, [],
  ◌∷◌, Map, find, erase, assign, All, All-erase, find-All, ltb, leb, if◌then◌else◌, Bool-cases,
  Option-cases, dec_lt, inl, inr, arith,
}
use mesh_pp.Net.{Net}
use mesh_pp.KBucket.Kontakt.{Konnection}
use mesh_pp.NodeState.State.{NodeState}
use mesh_pp.NodeState.Contacts.{find_node}
use mesh_pp.NodeState.Dropped.{
  drop_node, pass_over, process_node_join, process_node_drop, is_candidate,
  filter_introduce_candidates, greatest_limit,
}

-- The limit is a power of ten up to 10^12, and the count does not pass it.
abbrev pub IsLimited : String × (ℕ × ℕ) → Type 0
IsLimited e = (k : ℕ) × (e.1.0 ≡ 10 ^ k) × (k ≤ 12) × (e.1.1 ≤ e.1.0)

assign-Limited :
    (nodeid : String) (v : ℕ × ℕ) (m : Map String (ℕ × ℕ))
    → IsLimited (nodeid, v)
    → All IsLimited m
    → All IsLimited (assign string_discrete nodeid v m)
unfolding assign
assign-Limited nodeid v m h a =
    (h, All-erase string_discrete IsLimited IsLimited nodeid m (λ j w b n. b) a)

next_limit :
    (nodeid : String) (limit count : ℕ)
    → IsLimited (nodeid, (limit, count))
    → IsLimited (nodeid, (if ltb limit greatest_limit then limit * 10 else limit, 0))
next_limit nodeid limit count (k, e, l, c) = elim (Bool-cases (ltb limit greatest_limit)) [
  | inr top ↦ rw top (k, e, l, omega arith)
  | inl below ↦
      let small : k < 12 = elim (dec_lt k 12) [
        | yes q ↦ q
        | no q ↦ absurd (
            ground (
              arith,
              below,
              e,
              pow-le-pow_right {n = 10} (omega arith) {i = 12} {j = k} (omega (arith, q)),
            ))
      ] in
      rw below (suc k, omega (arith, e, pow-suc 10 k), omega (arith, small), omega arith)
]

drop_node-Limited :
    (nodeid : String) (m : Map String (ℕ × ℕ))
    → All IsLimited m
    → All IsLimited (drop_node nodeid m)
unfolding drop_node
drop_node-Limited nodeid m a = elim (Option-cases (find string_discrete nodeid m)) [
  | inl e ↦
      rw (e, drop_node)
        (assign-Limited nodeid (1, 0) m (0, omega (arith, pow-zero 10), omega arith, omega arith) a)
  | inr ((limit, count), e) ↦
      let h = find-All string_discrete IsLimited nodeid m a e in
      elim (Bool-cases (leb limit count)) [
        | inl again ↦
            rw (e, again, drop_node) (assign-Limited nodeid _ m (next_limit nodeid limit count h) a)
        | inr wait ↦ rw (e, wait, drop_node) a
      ]
]

pass_over-Limited :
    (nodeid : String) (m : Map String (ℕ × ℕ))
    → All IsLimited m
    → All IsLimited (pass_over nodeid m).0
unfolding pass_over
pass_over-Limited nodeid m a = elim (Option-cases (find string_discrete nodeid m)) [
  | inl e ↦ rw (e, pass_over) a
  | inr ((limit, count), e) ↦
      let (k, power, small, le) = find-All string_discrete IsLimited nodeid m a e in
      elim (Bool-cases (ltb count limit)) [
        | inl wait ↦
            rw (e, wait, pass_over)
              (assign-Limited nodeid (limit, count + 1) m (k, power, small, ground (arith, wait)) a)
        | inr done ↦ rw (e, done, pass_over) a
      ]
]

module _ (net : Net) (digest : String → ℕ) where
  abbrev pub Limited : NodeState net → Type 0
  Limited s = All IsLimited s.droped_nodes

  -- The three outcomes of a round.
  pub is_candidate_cases :
      (nodeid : String) (s : NodeState net)
      → (nodeid ≡ s.self_id → is_candidate net digest nodeid s ≡ (s, false))
        × (nodeid ≢ s.self_id
            → (k : Konnection) → find_node net digest nodeid "" s.kbucket ≡ some k
            → is_candidate net digest nodeid s ≡ (s, false))
        × (nodeid ≢ s.self_id
            → find_node net digest nodeid "" s.kbucket ≡ none
            → is_candidate net digest nodeid s ≡ (
              record s { droped_nodes = (pass_over nodeid s.droped_nodes).0 },
              (pass_over nodeid s.droped_nodes).1,
            ))
  unfolding is_candidate
  is_candidate_cases nodeid s =
      (λ q. ground (arith, q), λ n k e. ground (arith, n, e), λ n e. ground (arith, n, e))

  is_candidate-Limited :
      (nodeid : String) (s : NodeState net)
      → Limited s
      → Limited (is_candidate net digest nodeid s).0
  is_candidate-Limited nodeid s a =
      let (self, known, other) = is_candidate_cases nodeid s in
      elim (string_discrete nodeid s.self_id) [
        | yes q ↦ rw (self q) a
        | no n ↦ elim (Option-cases (find_node net digest nodeid "" s.kbucket)) [
          | inl e ↦ rw (other n e) (pass_over-Limited nodeid s.droped_nodes a)
          | inr (k, e) ↦ rw (known n k e) a
        ]
      ]

  filter-Limited :
      (nodeids : List String) (s : NodeState net)
      → Limited s
      → Limited (filter_introduce_candidates net digest nodeids s).0
  unfolding filter_introduce_candidates
  filter-Limited [] s a = a
  filter-Limited (nodeid ∷ nodeids) s a =
      filter-Limited nodeids (is_candidate net digest nodeid s).0 (is_candidate-Limited nodeid s a)

  -- `process_node_drop`, `process_node_join` and `filter_introduce_candidates` keep the limits of
  -- the dropped nodes: powers of ten that are at most 10^12, with counts that do not pass them.
  pub droped_nodes-Limited :
      (nodeid : String) (nodeids : List String) (s : NodeState net)
      → Limited s
      → Limited (process_node_drop net nodeid s)
        × Limited (process_node_join net nodeid s)
        × Limited (filter_introduce_candidates net digest nodeids s).0
  unfolding process_node_drop process_node_join
  droped_nodes-Limited nodeid nodeids s a = elim (string_discrete nodeid "") [
    | yes q ↦
        let drop : process_node_drop net nodeid s ≡ s = ground (arith, q) in
        let join : process_node_join net nodeid s ≡ s = ground (arith, q) in
        rw (drop, join) (a, a, filter-Limited nodeids s a)
    | no n ↦
        let drop : process_node_drop net nodeid s
            ≡ (record s { droped_nodes = drop_node nodeid s.droped_nodes }) =
          ground (arith, n) in
        let join : process_node_join net nodeid s
            ≡ (record s { droped_nodes = erase string_discrete nodeid s.droped_nodes }) =
          ground (arith, n) in
        rw (drop, join)
          (
            drop_node-Limited nodeid s.droped_nodes a,
            All-erase string_discrete IsLimited IsLimited nodeid s.droped_nodes (λ j w b m. b) a,
            filter-Limited nodeids s a,
          )
  ]
