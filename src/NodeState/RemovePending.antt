-- ===== src/NodeState/RemovePending.antt =====
-- src/libp2psocket/p2pstate.cpp: the contacts that go with `remove_pending`.
use mesh_pp.Prelude.{ℕ, ◌≡◌, refl, ◌∙◌, ap, String, Bool, none, some, List, [], ◌∷◌, All, arith}
use mesh_pp.Net.{Net}
use mesh_pp.Communication.Invariant
use mesh_pp.Communication.Valid.RemovePending.{remove_pending-peers}
use mesh_pp.KBucket.Contacts.{KBucket, find_if, is_same, find_contact, erase_contact, erase_first}
use mesh_pp.KBucket.Kontakt.{Konnection, distance_from}
use mesh_pp.KBucket.Valid.{IsValid}
use mesh_pp.KBucket.Erase.{find_contact-erase_contact}
use mesh_pp.NodeState.State.{NodeState, bucket_capacity, contact}
use mesh_pp.NodeState.Contacts.{find_node, erase_keys, remove_pending}
use mesh_pp.NodeState.ContactLaws.{distance_from-IsCoherent}
use mesh_pp.NodeState.AddContact.{IsNode}

module _ {ℓ} {C : Type ℓ} where
  -- What is not found stays so after another element is erased.
  find_if-erase_first :
      (test other : C → Bool) (cs : List C)
      → find_if test cs ≡ none
      → find_if test (erase_first other cs) ≡ none
  unfolding find_if erase_first
  find_if-erase_first test other [] e = refl
  find_if-erase_first test other (c ∷ cs) e = ground (arith, find_if-erase_first test other cs)

module _ (net : Net) (digest : String → ℕ) where
  abbrev Bucket : Type 0
  Bucket = KBucket Konnection

  abbrev Valid : Bucket → Type 0
  Valid b = IsValid (distance_from digest) bucket_capacity b

  abbrev erase_node : String → Bucket → Bucket
  erase_node key b = erase_contact (distance_from digest) bucket_capacity (contact key "") b

  find_node-erase_contact :
      (key erased : String) (b : Bucket)
      → find_node net digest key "" b ≡ none
      → find_node net digest key "" (erase_node erased b) ≡ none
  unfolding erase_contact find_contact
  find_node-erase_contact key erased b e = ground (
    arith,
    find_if-erase_first (is_same (distance_from digest) bucket_capacity (contact key ""))
        (is_same (distance_from digest) bucket_capacity (contact erased "")) b.contacts e,
  )

  erase_contact-origin : (key : String) (b : Bucket) → (erase_node key b).origin ≡ b.origin
  unfolding erase_contact
  erase_contact-origin key b = ground arith

  find_node-erase_keys :
      (keys : List (String × Bool)) (key : String) (b : Bucket)
      → find_node net digest key "" b ≡ none
      → find_node net digest key "" (erase_keys net digest keys b) ≡ none
  unfolding erase_keys
  find_node-erase_keys [] key b e = e
  find_node-erase_keys ((k, m) ∷ keys) key b e =
      find_node-erase_keys keys key (erase_node k b) (find_node-erase_contact key k b e)

  erase_keys-Valid :
      (keys : List (String × Bool)) (b : Bucket)
      → Valid b
      → Valid (erase_keys net digest keys b)
        × ((erase_keys net digest keys b).origin ≡ b.origin)
        × All (λ k. find_node net digest k.0 "" (erase_keys net digest keys b) ≡ none) keys
  unfolding erase_keys
  erase_keys-Valid [] b v = (v, refl, tt)
  erase_keys-Valid ((k, m) ∷ keys) b v =
      let (w, gone, _) =
        find_contact-erase_contact (distance_from digest) bucket_capacity
          (distance_from-IsCoherent digest) (contact k "") b v in
      let (x, origin, rest) = erase_keys-Valid keys (erase_node k b) w in
      (
        x,
        origin ∙ erase_contact-origin k b,
        (find_node-erase_keys keys k (erase_node k b) gone, rest),
      )

  -- The node's `remove_pending` returns where the connections and the bucket are valid, and both
  -- are valid then. No contact is found any more for a node id that is returned.
  pub find_node-remove_pending :
      (s : NodeState net)
      → Invariant.IsValid net s.program_state
      → IsNode net digest s
      → (r : NodeState net × List (String × Bool) × List String) × (remove_pending net digest s
          ≡ some r)
        × Invariant.IsValid net r.0.program_state
        × IsNode net digest r.0
        × All (λ k. find_node net digest k.0 "" r.0.kbucket ≡ none) r.1
  unfolding remove_pending
  find_node-remove_pending s v w =
      let ((t, keys, drops), e, u, _) = remove_pending-peers net s.program_state v in
      let (valid, origin, gone) = erase_keys-Valid keys s.kbucket w.valid in
      (
        (
          record s { program_state = t; kbucket = erase_keys net digest keys s.kbucket },
          keys,
          drops,
        ),
        ground (arith, e),
        u,
        record { valid = valid; self = ap (λ (k : Konnection). k.node_id) origin ∙ w.self },
        gone,
      )
