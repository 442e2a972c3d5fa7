-- ===== src/NodeState/AddContact.antt =====
-- src/libp2psocket/p2pstate.cpp: what becomes of a contact that is added.
use mesh_pp.Prelude.{
  ℕ, ◌≡◌, ◌≢◌, ◌↔◌, ◌∙◌, ap, String, Bool, true, false, none, some, if◌then◌else◌, Bool-cases, inl,
  inr, ◌⊎◌, arith, Result, ok, throw, logic_error,
}
use mesh_pp.Net.{Net}
use mesh_pp.KBucket.Contacts.{KBucket, is_same, insert_contact, find_contact}
use mesh_pp.KBucket.Kontakt.{Konnection, distance_from, string_distance}
use mesh_pp.KBucket.Metric.{subtract-eq-zero_iff}
use mesh_pp.KBucket.Valid.{IsValid, Inserted, insert_contact-Inserted}
use mesh_pp.NodeState.State.{
  NodeState, ContactStatus, no_contact, new_contact, existing_contact, bucket_capacity, contact,
}
use mesh_pp.NodeState.Contacts.{find_node, add_contact, get_peer_id}
use mesh_pp.NodeState.ContactLaws.{found_new, insert_contact-kept, is_same-contact, same_peer}

module _ (net : Net) (digest : String → ℕ) where
  -- The bucket is valid, and the node is its origin.
  pub record IsNode (s : NodeState net) : Type 0 where
    pub valid : IsValid (distance_from digest) bucket_capacity s.kbucket
    pub self : s.kbucket.origin.node_id ≡ s.self_id

  -- What `add_contact` makes of a contact that it does not know, and that is not the node itself.
  abbrev pub Added :
      String → String → NodeState net → Result (NodeState net × ContactStatus) → Type 0
  Added peerid nodeid s r =
      ((s' : NodeState net) × (r ≡ ok (s', new_contact))
        × IsNode s'
        × (get_peer_id net digest nodeid s' ≡ some peerid))
      ⊎ (r ≡ ok (s, no_contact))

  get_peer_id-insert_contact :
      (peerid nodeid : String) (b b' : KBucket Konnection)
      → find_contact (distance_from digest) bucket_capacity (contact nodeid peerid) b ≡ none
      → Inserted (distance_from digest) bucket_capacity b (contact nodeid peerid) b' true
      → (k : Konnection) × (find_contact
            (distance_from digest)
            bucket_capacity
            (contact nodeid "")
            b'
          ≡ some k)
        × (k.peer ≡ peerid)
  unfolding find_contact is_same distance_from same_peer
  get_peer_id-insert_contact peerid nodeid b b' absent inserted =
      let (k, e, same) =
        found_new (is_same (distance_from digest) bucket_capacity (contact nodeid ""))
          (same_peer peerid) b.contacts b'.contacts (contact nodeid peerid) absent
          (is_same-contact digest nodeid "" peerid) (ground arith) (λ t. inserted.contents t) in
      (k, e, ground (arith, same))

  abbrev Bucket : Type 0
  Bucket = KBucket Konnection

  abbrev insert_node : String → String → Bucket → Result (Bucket × Bool)
  insert_node peerid nodeid b =
      insert_contact (distance_from digest) bucket_capacity (contact nodeid peerid) b

  add_contact_throw :
      (peerid nodeid : String) (s : NodeState net)
      → find_node net digest nodeid peerid s.kbucket ≡ none
      → insert_node peerid nodeid s.kbucket ≡ throw logic_error
      → add_contact net digest peerid nodeid s ≡ throw logic_error
  unfolding add_contact
  add_contact_throw peerid nodeid s e f = ground (arith, e, f)

  add_contact_ok :
      (peerid nodeid : String) (s : NodeState net) (b : Bucket) (done : Bool)
      → find_node net digest nodeid peerid s.kbucket ≡ none
      → insert_node peerid nodeid s.kbucket ≡ ok (b, done)
      → add_contact net digest peerid nodeid s
        ≡ ok (record s { kbucket = b }, if done then new_contact else no_contact)
  unfolding add_contact
  add_contact_ok peerid nodeid s b done e f = ground (arith, e, f)

  is_same-origin :
      (peerid nodeid : String) (s : NodeState net)
      → IsNode s
      → (is_same (distance_from digest) bucket_capacity s.kbucket.origin (contact nodeid peerid)
          ≡ true)
        ↔ (string_distance digest s.self_id ≡ string_distance digest nodeid)
  unfolding is_same distance_from
  is_same-origin peerid nodeid s v = rw (← v.self) (
    λ e. (subtract-eq-zero_iff _ _).0 (ground (arith, e)),
    λ p. ground (
      arith,
      (subtract-eq-zero_iff (string_distance digest s.kbucket.origin.node_id)
            (string_distance digest nodeid)).1
          p,
    ),
  )

  add_contact-Added :
      (peerid nodeid : String) (s : NodeState net) (b : Bucket) (done : Bool)
      → IsNode s
      → find_node net digest nodeid peerid s.kbucket ≡ none
      → insert_node peerid nodeid s.kbucket ≡ ok (b, done)
      → Inserted (distance_from digest) bucket_capacity s.kbucket (contact nodeid peerid) b done
      → Added peerid nodeid s (add_contact net digest peerid nodeid s)
  unfolding get_peer_id
  add_contact-Added peerid nodeid s b false v absent e inserted =
      let same : b ≡ s.kbucket =
        insert_contact-kept (distance_from digest) bucket_capacity (contact nodeid peerid) s.kbucket
          b e in
      inr (
        add_contact_ok peerid nodeid s b false absent e
        ∙ ap (λ (t : Bucket). ok (record s { kbucket = t }, no_contact)) same)
  add_contact-Added peerid nodeid s b true v absent e inserted =
      let (k, found, same) = get_peer_id-insert_contact peerid nodeid s.kbucket b absent inserted in
      inl (
        record s { kbucket = b },
        add_contact_ok peerid nodeid s b true absent e,
        record {
          valid = inserted.valid;
          self = ap (λ (t : Konnection). t.node_id) inserted.same_origin ∙ v.self;
        },
        ground (arith, found, same),
      )

  -- A contact that the bucket has stays as it is. Of a contact that it does not have, `add_contact`
  -- throws exactly where the digest of its node id is the one of the node's own. Otherwise it
  -- answers `no_contact` and changes nothing, or `new_contact`: then the bucket is still valid, and
  -- `get_peer_id` gives for the node id the peer that was added with it.
  pub add_contact_lem :
      (peerid nodeid : String) (s : NodeState net)
      → IsNode s
      → ((k : Konnection)
          → find_node net digest nodeid peerid s.kbucket ≡ some k
          → add_contact net digest peerid nodeid s ≡ ok (s, existing_contact))
        × (find_node net digest nodeid peerid s.kbucket ≡ none
            → string_distance digest s.self_id ≡ string_distance digest nodeid
            → add_contact net digest peerid nodeid s ≡ throw logic_error)
        × (find_node net digest nodeid peerid s.kbucket ≡ none
            → string_distance digest s.self_id ≢ string_distance digest nodeid
            → Added peerid nodeid s (add_contact net digest peerid nodeid s))
  unfolding add_contact
  add_contact_lem peerid nodeid s v =
      let (thrown, inserted) =
        insert_contact-Inserted (distance_from digest) bucket_capacity (contact nodeid peerid)
          s.kbucket v.valid in
      let (self, own) = is_same-origin peerid nodeid s v in
      (
        λ k e. ground (arith, e),
        λ e p. add_contact_throw peerid nodeid s e (thrown (own p)),
        λ e n.
            elim (Bool-cases (
              is_same (distance_from digest) bucket_capacity s.kbucket.origin
                (contact nodeid peerid))) [
                  | inl q ↦ absurd (n (self q))
                  | inr q ↦
                      let ((b, done), f, i) = inserted q in
                      add_contact-Added peerid nodeid s b done v e f i
                ],
      )
