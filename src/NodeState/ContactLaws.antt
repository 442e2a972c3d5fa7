-- ===== src/NodeState/ContactLaws.antt =====
-- src/libp2psocket/p2pstate.cpp: `add_contact` and `get_peer_id`.
use mesh_pp.Prelude.{
  ℕ, ◌+◌, ◌≤◌, ◌<◌, ◌≡◌, refl, sym, ◌∙◌, ap, String, string_discrete, Bool, true, false, not, ◌&&◌,
  none, some, List, [], ◌∷◌, if◌then◌else◌, Bool-cases, Option-cases, inl, inr, arith, ok,
}
use mesh_pp.KBucket.Contacts.{KBucket, insert_ordered, count_if, find_if, is_same, insert_contact}
use mesh_pp.KBucket.Kontakt.{Konnection, distance_from, string_distance, subtract}
use mesh_pp.KBucket.Metric.{subtract-eq-zero_iff}
use mesh_pp.KBucket.Erase.{IsCoherent}
use mesh_pp.NodeState.State.{bucket_capacity, contact}

module _ {ℓ} {C : Type ℓ} where
  count_if-find_if : (test : C → Bool) (cs : List C) → find_if test cs ≡ none → count_if test cs ≡ 0
  unfolding find_if count_if
  count_if-find_if test [] e = refl
  count_if-find_if test (c ∷ cs) e = ground (arith, count_if-find_if test cs)

  count_if-le :
      (narrow wide : C → Bool) (cs : List C)
      → ((c : C) → narrow c ≡ true → wide c ≡ true)
      → count_if narrow cs ≤ count_if wide cs
  unfolding count_if
  count_if-le narrow wide [] f = omega arith
  count_if-le narrow wide (c ∷ cs) f = ground (arith, f c, count_if-le narrow wide cs f)

  -- What `find_if` finds passes the test, and is counted by every test that it passes.
  find_if-some :
      (test : C → Bool) (cs : List C) (c : C)
      → find_if test cs ≡ some c
      → (test c ≡ true) × ((other : C → Bool) → other c ≡ true → 0 < count_if other cs)
  unfolding find_if count_if
  find_if-some test [] c e = absurd (ground arith)
  find_if-some test (d ∷ cs) c e = elim (Bool-cases (test d)) [
    | inl t ↦ (ground (arith, t), λ other o. ground (arith, t, o))
    | inr t ↦
        let rest = find_if-some test cs c (ground (arith, t)) in
        (rest.0, λ other o. ground (arith, rest.1 other o))
  ]

  -- Where a new element passes the test, and none did, the test finds an element that differs from
  -- the new one in nothing that the other test tells.
  pub found_new :
      (test other : C → Bool) (cs cs' : List C) (contact : C)
      → find_if test cs ≡ none
      → test contact ≡ true
      → other contact ≡ true
      → ((t : C → Bool) → count_if t cs' ≡ count_if t cs + (if t contact then 1 else 0))
      → (c : C) × (find_if test cs' ≡ some c) × (other c ≡ true)
  found_new test other cs cs' contact e p q h = elim (Option-cases (find_if test cs')) [
    | inl missing ↦ absurd (ground (arith, h test, count_if-find_if test cs' missing, p))
    | inr (c, f) ↦ (
      c,
      f,
      elim (Bool-cases (other c)) [
        | inl yes_other ↦ yes_other
        | inr differs ↦
            let both : C → Bool = λ d. test d && not (other d) in
            let found = find_if-some test cs' c f in
            absurd (
              ground (
                arith,
                h both,
                q,
                found.1 both (ground (arith, found.0, differs)),
                count_if-le both test cs (λ d t. ground (arith, t)),
                count_if-find_if test cs e,
              ))
      ],
    )
  ]

pub distance_from-IsCoherent :
    (digest : String → ℕ) → IsCoherent (distance_from digest) bucket_capacity
unfolding distance_from
distance_from-IsCoherent digest o c a b p q =
    ap (subtract (string_distance digest o.node_id))
      (sym ((subtract-eq-zero_iff _ _).0 p) ∙ (subtract-eq-zero_iff _ _).0 q)

-- A call that inserts nothing leaves the contacts as they are.
insert_ordered-kept {ℓ} :
    {C : Type ℓ} (from : C → ℕ) (contact : C) (cs : List C)
    → (insert_ordered from contact cs).1 ≡ false
    → (insert_ordered from contact cs).0 ≡ cs
unfolding insert_ordered
insert_ordered-kept from contact [] e = absurd (ground arith)
insert_ordered-kept from contact (c ∷ cs) e = ground (arith, insert_ordered-kept from contact cs)

pub insert_contact-kept {ℓ} :
    {C : Type ℓ} (distance : C → C → ℕ) (capacity : ℕ) (contact : C) (b b' : KBucket C)
    → insert_contact distance capacity contact b ≡ ok (b', false)
    → b' ≡ b
unfolding insert_contact
insert_contact-kept distance capacity contact b b' e =
    ground (arith, e, insert_ordered-kept (distance b.origin) contact b.contacts)

pub is_same-contact :
    (digest : String → ℕ) (nodeid p q : String)
    → is_same (distance_from digest) bucket_capacity (contact nodeid p) (contact nodeid q) ≡ true
unfolding is_same distance_from
is_same-contact digest nodeid p q = ground (
  arith,
  (subtract-eq-zero_iff (string_distance digest nodeid) (string_distance digest nodeid)).1 refl,
)

unfoldable pub same_peer : String → Konnection → Bool
same_peer p k = elim (string_discrete k.peer p) [ yes _ ↦ true | no _ ↦ false ]
