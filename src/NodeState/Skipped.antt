-- ===== src/NodeState/Skipped.antt =====
-- src/libp2psocket/p2pstate.cpp: which nodes `filter_introduce_candidates` proposes.
use mesh_pp.Prelude.{
  ℕ, zero, suc, ◌+◌, ◌≡◌, ◌≢◌, refl, sym, ◌∙◌, subst, String, string_discrete, true, none, some,
  List, [], ◌∷◌, find, find-assign, All, All-mono, ltb, if◌then◌else◌, Bool-cases, Option-cases,
  inl, inr, arith,
}
use mesh_pp.Net.{Net}
use mesh_pp.NodeState.State.{NodeState}
use mesh_pp.NodeState.Contacts.{find_node}
use mesh_pp.NodeState.Dropped.{pass_over, is_candidate, filter_introduce_candidates}
use mesh_pp.NodeState.Backoff.{is_candidate_cases}

module _ (net : Net) (digest : String → ℕ) where
  -- The node after it was asked about one node id a number of times.
  unfoldable pub ask_again : ℕ → String → NodeState net → NodeState net
  ask_again zero nodeid s = s
  ask_again (suc times) nodeid s =
      ask_again times nodeid (filter_introduce_candidates net digest (nodeid ∷ []) s).0

  -- A node id that is another node's, that the bucket does not have, and that was dropped.
  abbrev pub IsDropped : String → ℕ → ℕ → NodeState net → Type 0
  IsDropped nodeid limit count s =
      (nodeid ≢ s.self_id)
      × (find_node net digest nodeid "" s.kbucket ≡ none)
      × (find string_discrete nodeid s.droped_nodes ≡ some (limit, count))

  filter-IsDropped :
      (nodeid : String) (limit count : ℕ) (s : NodeState net)
      → IsDropped nodeid limit count s
      → IsDropped nodeid limit
          (if ltb count limit then count + 1 else count)
          (filter_introduce_candidates net digest (nodeid ∷ []) s).0
        × ((filter_introduce_candidates net digest (nodeid ∷ []) s).1
            ≡ (if ltb count limit then [] else nodeid ∷ []))
  unfolding filter_introduce_candidates pass_over
  filter-IsDropped nodeid limit count s (n, absent, entry) =
      let (self, known, other) = is_candidate_cases net digest nodeid s in
      rw (other n absent) (elim (Bool-cases (ltb count limit)) [
        | inl wait ↦
            rw (entry, wait, pass_over)
              (
                (
                  n,
                  absent,
                  rw (find-assign string_discrete nodeid nodeid (limit, count + 1) s.droped_nodes)
                      (ground arith),
                ),
                refl,
              )
        | inr done ↦ rw (entry, done, pass_over) ((n, absent, entry), refl)
      ])

  ask_again-IsDropped :
      (times : ℕ) (nodeid : String) (limit count : ℕ) (s : NodeState net)
      → IsDropped nodeid limit count s
      → (now : ℕ) × IsDropped nodeid limit now (ask_again times nodeid s)
        × (ltb now limit ≡ ltb (count + times) limit)
  unfolding ask_again
  ask_again-IsDropped zero nodeid limit count s d = (count, d, ground arith)
  ask_again-IsDropped (suc times) nodeid limit count s d =
      let (d1, answer) = filter-IsDropped nodeid limit count s d in
      let (now, d2, e) = ask_again-IsDropped times nodeid limit _ _ d1 in
      (now, d2, e ∙ ground arith)

  -- A dropped node that has the limit and the count is passed over as long as the count and the
  -- number of the calls so far are below the limit, and is proposed from then on.
  pub filter-ask_again :
      (times : ℕ) (nodeid : String) (limit count : ℕ) (s : NodeState net)
      → IsDropped nodeid limit count s
      → (filter_introduce_candidates net digest (nodeid ∷ []) (ask_again times nodeid s)).1
        ≡ (if ltb (count + times) limit then [] else nodeid ∷ [])
  filter-ask_again times nodeid limit count s d =
      let (now, d1, e) = ask_again-IsDropped times nodeid limit count s d in
      let (d2, answer) = filter-IsDropped nodeid limit now (ask_again times nodeid s) d1 in
      answer ∙ ground (arith, e)

  -- Another node's id that the bucket does not have.
  abbrev pub IsUnknown : NodeState net → String → Type 0
  IsUnknown s nodeid = (nodeid ≢ s.self_id) × (find_node net digest nodeid "" s.kbucket ≡ none)

  is_candidate-IsUnknown :
      (nodeid : String) (s : NodeState net)
      → ((is_candidate net digest nodeid s).0.self_id ≡ s.self_id)
        × ((is_candidate net digest nodeid s).0.kbucket ≡ s.kbucket)
        × ((is_candidate net digest nodeid s).1 ≡ true → IsUnknown s nodeid)
  is_candidate-IsUnknown nodeid s =
      let (self, known, other) = is_candidate_cases net digest nodeid s in
      elim (string_discrete nodeid s.self_id) [
        | yes q ↦ rw (self q) (refl, refl, λ e. absurd (ground (arith, e)))
        | no n ↦ elim (Option-cases (find_node net digest nodeid "" s.kbucket)) [
          | inl e ↦ rw (other n e) (refl, refl, λ _. (n, e))
          | inr (k, e) ↦ rw (known n k e) (refl, refl, λ f. absurd (ground (arith, f)))
        ]
      ]

  -- `filter_introduce_candidates` changes neither the node's id nor its bucket, and gives only ids
  -- of other nodes that the bucket does not have.
  pub filter-IsUnknown :
      (nodeids : List String) (s : NodeState net)
      → ((filter_introduce_candidates net digest nodeids s).0.self_id ≡ s.self_id)
        × ((filter_introduce_candidates net digest nodeids s).0.kbucket ≡ s.kbucket)
        × All (IsUnknown s) (filter_introduce_candidates net digest nodeids s).1
  unfolding filter_introduce_candidates
  filter-IsUnknown [] s = (refl, refl, tt)
  filter-IsUnknown (nodeid ∷ nodeids) s =
      let (self, bucket, unknown) = is_candidate-IsUnknown nodeid s in
      let (self', bucket', rest) = filter-IsUnknown nodeids (is_candidate net digest nodeid s).0 in
      let rest' : All (IsUnknown s)
          (filter_introduce_candidates net digest nodeids (is_candidate net digest nodeid s).0).1 =
        All-mono _
          (λ n u.
            (λ e. u.0 (e ∙ sym self), subst (λ b. find_node net digest n "" b ≡ none) bucket u.1))
          rest in
      (
        self' ∙ self,
        bucket' ∙ bucket,
        elim (Bool-cases (is_candidate net digest nodeid s).1) [
          | inl e ↦ rw e (unknown e, rest')
          | inr e ↦ rw e rest'
        ],
      )

  is_candidate_connections :
      (nodeid : String) (s : NodeState net)
      → (is_candidate net digest nodeid s).0.program_state ≡ s.program_state
  unfolding is_candidate
  is_candidate_connections nodeid s = ground arith

  -- Only the count of the dropped nodes changes.
  pub filter_kept :
      (nodeids : List String) (s : NodeState net)
      → ((filter_introduce_candidates net digest nodeids s).0.self_id ≡ s.self_id)
        × ((filter_introduce_candidates net digest nodeids s).0.kbucket ≡ s.kbucket)
        × ((filter_introduce_candidates net digest nodeids s).0.program_state ≡ s.program_state)
  unfolding filter_introduce_candidates
  filter_kept nodeids s =
      let (i, b, _) = filter-IsUnknown nodeids s in (i, b, connections nodeids s)
    where
      connections :
          (nodeids : List String) (s : NodeState net)
          → (filter_introduce_candidates net digest nodeids s).0.program_state ≡ s.program_state
      connections [] s = refl
      connections (nodeid ∷ rest) s =
          connections rest (is_candidate net digest nodeid s).0 ∙ is_candidate_connections nodeid s
