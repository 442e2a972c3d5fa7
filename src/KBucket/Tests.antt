-- ===== src/KBucket/Tests.antt =====
-- src/kbucket: runs of the bucket on numbers, and the theorems about it at concrete inputs.
use mesh_pp.Prelude.{
  ℕ, ◌≡◌, ◌↔◌, refl, sym, ap, ◌∙◌, Bool, true, false, none, [], ◌∷◌, ok, throw, logic_error, arith,
}
use mesh_pp.KBucket.Distance.{count_halvings, index_from_distance}
use mesh_pp.KBucket.Contacts.{
  insert_ordered, count_if, find_if, erase_first, KBucket, is_same, index, eq_index, is_full,
  insert_contact, find_contact, erase_contact, erase_at, clear,
}
use mesh_pp.KBucket.Kontakt.{count_bytes, byte_count, read_byte, xor_bytes, subtract}
use mesh_pp.KBucket.Metric.{subtract-eq-zero_iff}
use mesh_pp.KBucket.Valid
use mesh_pp.KBucket.Erase

program : Unit {0}
unfolding count_halvings index_from_distance insert_ordered count_if find_if erase_first is_same
    index eq_index is_full insert_contact find_contact erase_contact erase_at clear count_bytes
    byte_count read_byte xor_bytes subtract
program = tt

-- Two contacts at the indices 2 and 0 from the number 8.
abbrev two : KBucket ℕ
two = record { origin = 8; contacts = 9 ∷ 12 ∷ [] }

-- The index of 13 is that of 12; a bucket that holds two for an index takes it, and one that holds
-- one does not. The origin is refused.
inserted : insert_contact subtract 2 13 two ≡ ok (record two { contacts = 9 ∷ 12 ∷ 13 ∷ [] }, true)
unfolding program
inserted = refl

no_room : insert_contact subtract 1 13 two ≡ ok (two, false)
unfolding program
no_room = refl

itself : insert_contact subtract 1 8 two ≡ throw logic_error
unfolding program
itself = refl

erased : erase_contact subtract 1 9 two ≡ record two { contacts = 12 ∷ [] }
unfolding program
erased = refl

bytes : subtract 0x1234 0x0034 ≡ 0x1200
unfolding program
bytes = refl

two-IsValid : Valid.IsValid subtract 2 two
unfolding program
two-IsValid = record { ordered = (ground arith, (ground arith, tt)); bounded = λ i. ground arith }

subtract-IsCoherent : Erase.IsCoherent subtract 2
subtract-IsCoherent o c a b p q =
    ap (subtract o) (sym ((subtract-eq-zero_iff c a).0 p) ∙ (subtract-eq-zero_iff c b).0 q)

insert_contact-Inserted_example :
    (is_same subtract 2 8 13 ≡ true → insert_contact subtract 2 13 two ≡ throw logic_error)
    × (is_same subtract 2 8 13 ≡ false
        → (r : KBucket ℕ × Bool) × (insert_contact subtract 2 13 two ≡ ok r)
          × Valid.Inserted subtract 2 two 13 r.0 r.1)
insert_contact-Inserted_example = Valid.insert_contact-Inserted subtract 2 13 two two-IsValid

find_contact-erase_contact_example :
    Valid.IsValid subtract 2 (erase_contact subtract 2 9 two)
    × (find_contact subtract 2 9 (erase_contact subtract 2 9 two) ≡ none)
    × ((other : ℕ → Bool)
        → ((c : ℕ) → is_same subtract 2 9 c ≡ true → other c ≡ false)
        → count_if other (erase_contact subtract 2 9 two).contacts ≡ count_if other two.contacts)
find_contact-erase_contact_example =
    Erase.find_contact-erase_contact subtract 2 subtract-IsCoherent 9 two two-IsValid

abbrev first_digest : ℕ
first_digest = 513

abbrev second_digest : ℕ
second_digest = 769

subtract-eq-zero_iff_example :
    (subtract first_digest second_digest ≡ 0) ↔ (first_digest ≡ second_digest)
subtract-eq-zero_iff_example = subtract-eq-zero_iff first_digest second_digest
