-- ===== src/KBucket/Valid.antt =====
-- src/kbucket/kbucket.hpp: the valid buckets (the contacts stand in the order of their distance, none
-- is the origin, and no index has more than `K`), and `insert`.
use mesh_pp.Prelude.{
  ℕ, ◌+◌, ◌<◌, ◌≤◌, ◌≡◌, refl, Bool, true, false, ◌&&◌, List, [], ◌∷◌, ltb, ◌==◌, if◌then◌else◌, ok,
  throw, logic_error, Bool-cases, inl, inr, arith,
}
use mesh_pp.KBucket.Contacts.{
  insert_ordered, count_if, KBucket, is_same, index, eq_index, is_full, insert_contact,
}

-- Distances that grow, from above a bound.
abbrev pub Increasing {ℓ} : {C : Type ℓ} → (C → ℕ) → ℕ → List C → Type 0
Increasing from n [] = Unit {0}
Increasing from n (c ∷ cs) = (n < from c) × Increasing from (from c) cs

module _ {ℓ} {C : Type ℓ} (from : C → ℕ) where
  pub Increasing-mono :
      (m n : ℕ) (cs : List C) → m ≤ n → Increasing from n cs → Increasing from m cs
  Increasing-mono m n [] l h = tt
  Increasing-mono m n (c ∷ cs) l h = (omega arith, h.1)

  insert_ordered-Increasing :
      (n : ℕ) (contact : C) (cs : List C)
      → n < from contact
      → Increasing from n cs
      → Increasing from n (insert_ordered from contact cs).0
  unfolding insert_ordered
  insert_ordered-Increasing n contact [] l h = (l, tt)
  insert_ordered-Increasing n contact (c ∷ cs) l h =
      ground
        (arith, λ (p : from c < from contact). insert_ordered-Increasing (from c) contact cs p h.1)

  -- None of the contacts is at a distance at most the bound.
  count_if-Increasing :
      (n d : ℕ) (cs : List C) → d ≤ n → Increasing from n cs → count_if (λ c. from c == d) cs ≡ 0
  unfolding count_if
  count_if-Increasing n d [] l h = refl
  count_if-Increasing n d (c ∷ cs) l h =
      ground (arith, count_if-Increasing (from c) d cs (omega (arith, h.0)) h.1)

  -- A contact is inserted exactly when no other is at its distance.
  insert_ordered-done :
      (n : ℕ) (contact : C) (cs : List C)
      → Increasing from n cs
      → (insert_ordered from contact cs).1 ≡ (count_if (λ c. from c == from contact) cs == 0)
  unfolding insert_ordered count_if
  insert_ordered-done n contact [] h = refl
  insert_ordered-done n contact (c ∷ cs) h = ground (
    arith,
    insert_ordered-done (from c) contact cs h.1,
    λ (p : from contact < from c).
        count_if-Increasing (from c) (from contact) cs (omega (arith, p)) h.1,
  )

  count_if-insert_ordered :
      (test : C → Bool) (contact : C) (cs : List C)
      → count_if test (insert_ordered from contact cs).0
        ≡ count_if test cs + (if (insert_ordered from contact cs).1 && test contact then 1 else 0)
  unfolding insert_ordered count_if
  count_if-insert_ordered test contact [] = ground arith
  count_if-insert_ordered test contact (c ∷ cs) =
      ground (arith, count_if-insert_ordered test contact cs)

module _ {ℓ} {C : Type ℓ} (distance : C → C → ℕ) (capacity : ℕ) where
  pub record IsValid (b : KBucket C) : Type 0 where
    pub ordered : Increasing (distance b.origin) 0 b.contacts
    pub bounded : (i : ℕ) → count_if (eq_index distance capacity b.origin i) b.contacts ≤ capacity

  -- Whether there is room at the index of the contact, and no other contact at its distance.
  pub admits : KBucket C → C → Bool
  admits b contact =
      ltb
        (count_if (eq_index distance capacity b.origin (index distance capacity b.origin contact))
          b.contacts)
        capacity
      && (count_if (λ c. distance b.origin c == distance b.origin contact) b.contacts == 0)

  pub record Inserted (b : KBucket C) (contact : C) (b' : KBucket C) (done : Bool) : Type ℓ where
    pub valid : IsValid b'
    pub same_origin : b'.origin ≡ b.origin
    pub answer : done ≡ admits b contact
    pub contents :
        (test : C → Bool)
        → count_if test b'.contacts
          ≡ count_if test b.contacts + (if done && test contact then 1 else 0)

  -- On a valid bucket `insert` throws exactly for a contact at distance zero from the origin. Any
  -- other contact is inserted exactly when less than `K` contacts have its index and none has its
  -- distance; the bucket stays valid, and holds the contacts that it held and, if the answer is
  -- true, the new one.
  pub insert_contact-Inserted :
      (contact : C) (b : KBucket C)
      → IsValid b
      → (is_same distance capacity b.origin contact ≡ true
          → insert_contact distance capacity contact b ≡ throw logic_error)
        × (is_same distance capacity b.origin contact ≡ false
            → (r : KBucket C × Bool) × (insert_contact distance capacity contact b ≡ ok r)
              × Inserted b contact r.0 r.1)
  unfolding insert_contact is_same admits is_full eq_index
  insert_contact-Inserted contact b v = (λ e. ground (arith, e), inserted)
    where
      inserted :
          is_same distance capacity b.origin contact ≡ false
          → (r : KBucket C × Bool) × (insert_contact distance capacity contact b ≡ ok r)
            × Inserted b contact r.0 r.1
      inserted e =
          let result = insert_ordered (distance b.origin) contact b.contacts in
          elim (Bool-cases (is_full distance capacity contact b)) [
            | inl no_room ↦ (
              (b, false),
              ground (arith, e, no_room),
              record {
                valid = v;
                same_origin = refl;
                answer = ground (arith, no_room);
                contents = λ test. ground arith;
              },
            )
            | inr room ↦ (
              (record b { contacts = result.0 }, result.1),
              ground (arith, e, room),
              record {
                valid = record {
                  ordered =
                      insert_ordered-Increasing (distance b.origin) 0 contact b.contacts
                        (ground (arith, e)) v.ordered;
                  bounded = λ i. ground (
                    arith,
                    v.bounded i,
                    room,
                    count_if-insert_ordered (distance b.origin)
                        (eq_index distance capacity b.origin i) contact b.contacts,
                  );
                };
                same_origin = refl;
                answer = ground (
                  arith,
                  room,
                  insert_ordered-done (distance b.origin) 0 contact b.contacts v.ordered,
                );
                contents =
                    λ test. count_if-insert_ordered (distance b.origin) test contact b.contacts;
              },
            )
          ]
