-- ===== src/KBucket/Erase.antt =====
-- src/kbucket/kbucket.hpp: `find` and `erase`.
use mesh_pp.Prelude.{
  ℕ, ◌≤◌, ◌≡◌, refl, Bool, true, false, none, List, [], ◌∷◌, Option-cases, inl, inr, arith,
}
use mesh_pp.KBucket.Contacts.{
  count_if, find_if, erase_first, KBucket, is_same, eq_index, find_contact, erase_contact,
}
use mesh_pp.KBucket.Valid.{Increasing, Increasing-mono, IsValid}

module _ {ℓ} {C : Type ℓ} (from : C → ℕ) (test : C → Bool) where
  -- The contacts that pass the test are at one distance.
  abbrev AtOnce : Type ℓ
  AtOnce = (a b : C) → test a ≡ true → test b ≡ true → from a ≡ from b

  find_if-Increasing :
      (a : C) (cs : List C)
      → AtOnce
      → test a ≡ true
      → Increasing from (from a) cs
      → find_if test cs ≡ none
  unfolding find_if
  find_if-Increasing a [] f t h = refl
  find_if-Increasing a (c ∷ cs) f t h = ground (
    arith,
    f a c t,
    find_if-Increasing a cs f t
        (Increasing-mono from (from a) (from c) cs (omega (arith, h.0)) h.1),
  )

  find_if-erase_first :
      (n : ℕ) (cs : List C)
      → AtOnce
      → Increasing from n cs
      → find_if test (erase_first test cs) ≡ none
  unfolding find_if erase_first
  find_if-erase_first n [] f h = refl
  find_if-erase_first n (c ∷ cs) f h = ground (
    arith,
    find_if-erase_first (from c) cs f h.1,
    λ (t : test c ≡ true). find_if-Increasing c cs f t h.1,
  )

  erase_first-Increasing :
      (n : ℕ) (cs : List C) → Increasing from n cs → Increasing from n (erase_first test cs)
  unfolding erase_first
  erase_first-Increasing n [] h = tt
  erase_first-Increasing n (c ∷ cs) h = ground (
    arith,
    erase_first-Increasing (from c) cs h.1,
    Increasing-mono from n (from c) cs (omega (arith, h.0)) h.1,
  )

module _ {ℓ} {C : Type ℓ} (test : C → Bool) where
  count_if-erase_first-le :
      (other : C → Bool) (cs : List C) → count_if other (erase_first test cs) ≤ count_if other cs
  unfolding count_if erase_first
  count_if-erase_first-le other [] = omega arith
  count_if-erase_first-le other (c ∷ cs) = ground (arith, count_if-erase_first-le other cs)

  count_if-erase_first :
      (other : C → Bool) (cs : List C)
      → ((c : C) → test c ≡ true → other c ≡ false)
      → count_if other (erase_first test cs) ≡ count_if other cs
  unfolding count_if erase_first
  count_if-erase_first other [] f = refl
  count_if-erase_first other (c ∷ cs) f = ground (arith, f c, count_if-erase_first other cs f)

module _ {ℓ} {C : Type ℓ} (distance : C → C → ℕ) (capacity : ℕ) where
  -- Contacts at distance zero from one contact are at one distance from any other.
  abbrev pub IsCoherent : Type ℓ
  IsCoherent = (o c a b : C) → distance c a ≡ 0 → distance c b ≡ 0 → distance o a ≡ distance o b

  find_contact-erase_first :
      IsCoherent
      → (contact : C) (b : KBucket C) → IsValid distance capacity b
      → find_contact distance capacity contact
          (record b { contacts = erase_first (is_same distance capacity contact) b.contacts })
        ≡ none
  unfolding find_contact is_same
  find_contact-erase_first coherent contact b v =
      find_if-erase_first (distance b.origin) (is_same distance capacity contact) 0 b.contacts
        (λ a c p q. coherent b.origin contact a c (ground (arith, p)) (ground (arith, q))) v.ordered

  -- After `erase` the bucket is valid, the contact is not found, and the contacts that are not at
  -- distance zero from it are as before.
  pub find_contact-erase_contact :
      IsCoherent
      → (contact : C) (b : KBucket C) → IsValid distance capacity b
      → IsValid distance capacity (erase_contact distance capacity contact b)
        × (find_contact distance capacity contact (erase_contact distance capacity contact b)
            ≡ none)
        × ((other : C → Bool)
            → ((c : C) → is_same distance capacity contact c ≡ true → other c ≡ false)
            → count_if other (erase_contact distance capacity contact b).contacts
              ≡ count_if other b.contacts)
  unfolding erase_contact
  find_contact-erase_contact coherent contact b v =
      elim (Option-cases (find_contact distance capacity contact b)) [
        | inl e ↦ rw (e, erase_contact) (v, e, λ other f. refl)
        | inr (c, e) ↦
            rw (e, erase_contact) (erased, find_contact-erase_first coherent contact b v, kept)
      ]
    where
      same : C → Bool
      same = is_same distance capacity contact

      erased : IsValid distance capacity (record b { contacts = erase_first same b.contacts })
      erased = record {
        ordered = erase_first-Increasing (distance b.origin) same 0 b.contacts v.ordered;
        bounded = λ i. omega (
          arith,
          v.bounded i,
          count_if-erase_first-le same (eq_index distance capacity b.origin i) b.contacts,
        );
      }

      kept :
          (other : C → Bool)
          → ((c : C) → is_same distance capacity contact c ≡ true → other c ≡ false)
          → count_if other (erase_first same b.contacts) ≡ count_if other b.contacts
      kept other f = count_if-erase_first same other b.contacts f
