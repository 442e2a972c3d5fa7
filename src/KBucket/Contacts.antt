-- ===== src/KBucket/Contacts.antt =====
-- src/kbucket/kbucket.hpp: the class template `KBucket`. Its container, a multi-index set, is the
-- list of its contacts in the order of its first index: the distance from the origin, each distance
-- once. An iterator is an index or, where it is only compared with `end()`, an option.
use mesh_pp.Prelude.{
  ℕ, zero, suc, Bool, true, false, Option, none, some, List, [], ◌∷◌, remove_at, ltb, leb, ◌==◌,
  if◌then◌else◌, Result, ok, throw, logic_error,
}
use mesh_pp.KBucket.Distance.{index_from_distance}

-- The contact that is inserted, and whether it was: into an ordered unique index.
unfoldable pub insert_ordered {ℓ} : {C : Type ℓ} → (C → ℕ) → C → List C → List C × Bool
insert_ordered from contact [] = (contact ∷ [], true)
insert_ordered from contact (c ∷ cs) =
    let (rest, done) = insert_ordered from contact cs in
    if ltb (from contact) (from c)
    then (contact ∷ c ∷ cs, true)
    else if ltb (from c) (from contact)
    then (c ∷ rest, done)
    else (c ∷ cs, false)

unfoldable pub count_if {ℓ} : {C : Type ℓ} → (C → Bool) → List C → ℕ
count_if test [] = 0
count_if test (c ∷ cs) = let n = count_if test cs in if test c then suc n else n

unfoldable pub find_if {ℓ} : {C : Type ℓ} → (C → Bool) → List C → Option C
find_if test [] = none
find_if test (c ∷ cs) = let rest = find_if test cs in if test c then some c else rest

-- The element at the iterator that `find_if` returns goes.
unfoldable pub erase_first {ℓ} : {C : Type ℓ} → (C → Bool) → List C → List C
erase_first test [] = []
erase_first test (c ∷ cs) = let rest = erase_first test cs in if test c then cs else c ∷ rest

pub record KBucket {ℓ} (C : Type ℓ) : Type ℓ where
  pub origin : C
  pub contacts : List C

module _ {ℓ} {C : Type ℓ} (distance : C → C → ℕ) (capacity : ℕ) where
  unfoldable pub is_same : C → C → Bool
  is_same a b = distance a b == 0

  unfoldable pub index : C → C → ℕ
  index a b = index_from_distance (distance a b)

  unfoldable pub new_bucket : C → KBucket C
  new_bucket origin = record { origin = origin; contacts = [] }

  -- The test `eq_index` of `insert`.
  unfoldable pub eq_index : C → ℕ → C → Bool
  eq_index origin i c = index origin c == i

  -- `index_count >= K`.
  unfoldable pub is_full : C → KBucket C → Bool
  is_full contact b =
      leb capacity (count_if (eq_index b.origin (index b.origin contact)) b.contacts)

  -- The second part of the pair that is returned; the first, an iterator, is read by no caller.
  unfoldable pub insert_contact : C → KBucket C → Result (KBucket C × Bool)
  insert_contact contact b =
      if is_same b.origin contact
      then throw logic_error
      else if is_full contact b
      then ok (b, false)
      else let (contacts, done) = insert_ordered (distance b.origin) contact b.contacts in
        ok (record b { contacts = contacts }, done)

  unfoldable pub find_contact : C → KBucket C → Option C
  find_contact contact b = find_if (is_same contact) b.contacts

  unfoldable pub erase_contact : C → KBucket C → KBucket C
  erase_contact contact b = elim (find_contact contact b) [
    | none ↦ b
    | some _ ↦ record b { contacts = erase_first (is_same contact) b.contacts }
  ]

  unfoldable pub erase_at : ℕ → KBucket C → KBucket C
  erase_at pos b = record b { contacts = remove_at pos b.contacts }

  -- `erase(first, last)`: a number of contacts from a position on.
  unfoldable pub erase_range : ℕ → ℕ → KBucket C → KBucket C
  erase_range pos zero b = b
  erase_range pos (suc n) b = erase_range pos n (erase_at pos b)

  unfoldable pub clear : KBucket C → KBucket C
  clear b = record b { contacts = [] }
