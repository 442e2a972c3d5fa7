-- ===== src/VectorLoader/Saves.antt =====
-- src/libsystemutility/fileutility.cpp: `save` of `vector_loader`, against lists.
use mesh_pp.Prelude.{
  ℕ, suc, ◌<◌, ◌≤◌, ◌≡◌, refl, ap, ◌∙◌, subst, true, false, Option, none, some, List, [], ◌∷◌,
  String, ℕ_discrete, find, arith, leb, length, get_elem?, if◌then◌else◌,
}
use mathlib.Core.Option.{some-injective}
use mesh_pp.MapLoader.State.{Code, unchanged, deleted, modified}
use mesh_pp.MapLoader.Refines.{is_some, IsEntry}
use mesh_pp.MapLoader.Entries.{IsErasable, after_erased, erasable, written_is}
use mesh_pp.VectorLoader.State.{
  Blocks, Changes, VectorLoader, save_gone, save_changed, save_changes, save_vector,
}
use mesh_pp.VectorLoader.Refines.{Lists, Kept, Mirrors, get_elem?-is_some}
use mesh_pp.VectorLoader.Turns.{
  IsGoneFrom, IsChangedBelow, is_gone, is_changed, save_gone_lem, save_changed_lem,
}

module _ {V : Type 0} where
  list_ext : (xs ys : List V) → ((j : ℕ) → get_elem? xs j ≡ get_elem? ys j) → xs ≡ ys
  unfolding get_elem?
  list_ext [] [] h = refl
  list_ext [] (y ∷ ys) h = absurd (ground (arith, h 0))
  list_ext (x ∷ xs) [] h = absurd (ground (arith, h 0))
  list_ext (x ∷ xs) (y ∷ ys) h =
      ap (λ t. t ∷ xs) (some-injective x y (h 0))
      ∙ ap (λ t. y ∷ t) (list_ext xs ys (λ j. h (suc j)))

  gone_from :
      (n j : ℕ) (saved current : Option V) (entry : Option (Option V × Code))
      → (current ≡ none → n ≤ j)
      → IsEntry saved current entry
      → IsGoneFrom n j entry
  gone_from n j saved current none h i = tt
  gone_from n j saved current (some (v, unchanged)) h i = tt
  gone_from n j saved current (some (v, modified)) h i = tt
  gone_from n j saved current (some (v, deleted)) h i = h i.0

  changed_below :
      (n j : ℕ) (saved current : Option V) (entry : Option (Option V × Code))
      → (is_some current ≡ true → j < n)
      → IsEntry saved current entry
      → IsChangedBelow n j entry
  changed_below n j saved current none h i = tt
  changed_below n j saved current (some (v, unchanged)) h i = tt
  changed_below n j saved current (some (v, modified)) h i = h i.1
  changed_below n j saved current (some (v, deleted)) h i = tt

  must_be_gone :
      (saved current : Option V) (entry : Option (Option V × Code))
      → is_some saved ≡ true
      → is_some current ≡ false
      → IsEntry saved current entry
      → is_gone entry ≡ true
  must_be_gone saved current none p q i = absurd (ground (arith, p, q, ap is_some i))
  must_be_gone saved current (some (v, unchanged)) p q i = absurd (ground (arith, p, q, i.2))
  must_be_gone saved current (some (v, modified)) p q i = absurd (ground (arith, p, q, i.1))
  must_be_gone saved current (some (v, deleted)) p q i = refl

  must_be_changed :
      (saved current : Option V) (entry : Option (Option V × Code))
      → is_some saved ≡ false
      → is_some current ≡ true
      → IsEntry saved current entry
      → is_changed entry ≡ true
  must_be_changed saved current none p q i = absurd (ground (arith, p, q, ap is_some i))
  must_be_changed saved current (some (v, unchanged)) p q i =
      absurd (ground (arith, p, q, ap is_some i.0))
  must_be_changed saved current (some (v, modified)) p q i = refl
  must_be_changed saved current (some (v, deleted)) p q i = absurd (ground (arith, p, q, i.1))

module _ {V : Type 0} (filename : ℕ → String) (s : VectorLoader V) (a : Lists V)
    (r : Mirrors filename s a) where
  entry_at :
      (P : ℕ → Option (Option V × Code) → Type 0)
      → ((j : ℕ) (entry : Option (Option V × Code))
          → IsEntry (get_elem? a.saved j) (get_elem? a.current j) entry
          → P j entry)
      → (j : ℕ) → P j (find ℕ_discrete j s.overlay)
  entry_at P h j = h j (find ℕ_discrete j s.overlay) (r.entries_are j)

  abbrev lesser : ℕ
  lesser = if leb (length a.current) (length a.saved) then length a.current else length a.saved

  gone_turn :
      ((save_gone filename s.overlay (s.size, s.files)).0 ≡ lesser)
      × ((j : ℕ)
          → (save_gone filename s.overlay (s.size, s.files)).1 (filename j) j
            ≡ after_erased (find ℕ_discrete j s.overlay) (get_elem? a.saved j))
  gone_turn =
      save_gone_lem filename s.overlay lesser s.size s.files (get_elem? a.saved) r.is_unique
        (entry_at (λ j x. IsErasable x (get_elem? a.saved j))
          (λ j. erasable (get_elem? a.saved j) (get_elem? a.current j)))
        (entry_at (IsGoneFrom lesser) (λ j entry.
          gone_from lesser j (get_elem? a.saved j) (get_elem? a.current j) entry
            (λ e. ground (arith, ap is_some e, get_elem?-is_some a.current j))))
        (ground (arith, r.size_is))
        (λ m.
          entry_at (λ j x. j ≡ lesser → is_gone x ≡ true)
            (λ j entry i q.
              must_be_gone (get_elem? a.saved j) (get_elem? a.current j) entry
                (ground (arith, get_elem?-is_some a.saved j, q, m, r.size_is))
                (ground (arith, get_elem?-is_some a.current j, q, m, r.size_is)) i)
            lesser refl)
        r.files_are

  abbrev written : ℕ × Blocks V
  written = save_changed filename s.overlay (save_gone filename s.overlay (s.size, s.files))

  changed_turn : (written.0 ≡ length a.current) × Kept filename written.1 a.current
  changed_turn =
      let (e, f) = gone_turn in
      let (e', f') =
        save_changed_lem filename s.overlay (length a.current)
          (save_gone filename s.overlay (s.size, s.files)).0
          (save_gone filename s.overlay (s.size, s.files)).1
          (λ j. after_erased (find ℕ_discrete j s.overlay) (get_elem? a.saved j)) r.is_unique
          (entry_at (IsChangedBelow (length a.current)) (λ j entry.
            changed_below (length a.current) j (get_elem? a.saved j) (get_elem? a.current j) entry
              (λ l. ground (arith, l, get_elem?-is_some a.current j))))
          (ground (arith, e))
          (λ m q l.
            entry_at (λ j x. j ≡ m → is_changed x ≡ true)
              (λ j entry i p.
                must_be_changed (get_elem? a.saved j) (get_elem? a.current j) entry
                  (ground (arith, get_elem?-is_some a.saved j, p, q, l, e))
                  (ground (arith, get_elem?-is_some a.current j, p, q)) i)
              m refl)
          f in
      (
        e',
        λ j.
            f' j
            ∙ written_is (get_elem? a.saved j) (get_elem? a.current j) (find ℕ_discrete j s.overlay)
                (r.entries_are j),
      )

  save_changes-Mirrors :
      (overlay : Changes V)
      → s.overlay ≡ overlay
      → Mirrors filename (save_changes filename overlay s) (record a { saved = a.current })
  unfolding save_changes find
  save_changes-Mirrors [] e =
      subst (λ t. Mirrors filename s (record a { saved = t }))
        (list_ext a.saved a.current (λ j.
          subst (λ t. IsEntry (get_elem? a.saved j) (get_elem? a.current j) (find ℕ_discrete j t)) e
            (r.entries_are j)))
        r
  save_changes-Mirrors (x ∷ overlay) e = record {
    size_is = changed_turn.0;
    size_with_is = r.size_with_is;
    entries_are = λ j. refl;
    is_unique = tt;
    size_file_is = changed_turn.0;
    files_are = changed_turn.1;
    disk_size_file_is = r.disk_size_file_is;
    disk_files_are = r.disk_files_are;
    is_committed = λ q. absurd (ground (arith, q));
  }

  pub save_vector-Mirrors :
      Mirrors filename (save_vector filename s) (record a { saved = a.current })
  unfolding save_vector
  save_vector-Mirrors = save_changes-Mirrors s.overlay refl
