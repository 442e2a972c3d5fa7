-- ===== src/VectorLoader/Refines.antt =====
-- src/libsystemutility/fileutility.hpp: a `vector_loader` seen as three lists, and the calls on one
-- index.
use mesh_pp.Prelude.{
  ℕ, zero, suc, ◌≡◌, refl, sym, ap, ◌∙◌, subst, false, Option, none, some, List, [], ◌∷◌, ◌++◌,
  String, ℕ_discrete, ite, find, erase, assign, if_pos, if_neg, Unique, find-assign, find-erase,
  assign-Unique, erase-Unique, arith, ltb, length, get_elem?,
}
use mesh_pp.MapLoader.State.{Code, change_packet}
use mesh_pp.MapLoader.Refines.{is_some, IsEntry}
use mesh_pp.MapLoader.Entries.{put_at, put_at_self}
use mesh_pp.VectorLoader.State.{Blocks, Changes, VectorLoader, put_change}

-- The list as it is used, as it is saved, and as it is committed.
pub record Lists (V : Type 0) : Type 0 where
  pub current : List V
  pub saved : List V
  pub committed : List V

module _ {V : Type 0} where
  unfoldable pub modify_at : ℕ → (V → V) → List V → List V
  modify_at k g [] = []
  modify_at zero g (x ∷ xs) = g x ∷ xs
  modify_at (suc k) g (x ∷ xs) = x ∷ modify_at k g xs

  unfoldable pub drop_last : List V → List V
  drop_last [] = []
  drop_last (x ∷ []) = []
  drop_last (x ∷ y ∷ xs) = x ∷ drop_last (y ∷ xs)

  pub get_elem?-modify_at :
      (k : ℕ) (g : V → V) (xs : List V) (j : ℕ)
      → get_elem? (modify_at k g xs) j
        ≡ put_at ℕ_discrete k (change_packet g (get_elem? xs k)) (get_elem? xs) j
  unfolding get_elem? modify_at change_packet
  get_elem?-modify_at k g [] j = ground arith
  get_elem?-modify_at zero g (x ∷ xs) zero = ground arith
  get_elem?-modify_at zero g (x ∷ xs) (suc j) = ground arith
  get_elem?-modify_at (suc k) g (x ∷ xs) zero = ground arith
  get_elem?-modify_at (suc k) g (x ∷ xs) (suc j) = ground (arith, get_elem?-modify_at k g xs j)

  pub length-modify_at : (k : ℕ) (g : V → V) (xs : List V) → length (modify_at k g xs) ≡ length xs
  unfolding modify_at
  length-modify_at k g [] = refl
  length-modify_at zero g (x ∷ xs) = refl
  length-modify_at (suc k) g (x ∷ xs) = ap suc (length-modify_at k g xs)

  pub get_elem?-append_one :
      (v : V) (xs : List V) (j : ℕ)
      → get_elem? (xs ++ v ∷ []) j ≡ put_at ℕ_discrete (length xs) (some v) (get_elem? xs) j
  unfolding get_elem?
  get_elem?-append_one v [] zero = ground arith
  get_elem?-append_one v [] (suc j) = ground arith
  get_elem?-append_one v (x ∷ xs) zero = ground arith
  get_elem?-append_one v (x ∷ xs) (suc j) = ground (arith, get_elem?-append_one v xs j)

  pub length-drop_last : (xs : List V) {k : ℕ} → length xs ≡ suc k → length (drop_last xs) ≡ k
  unfolding drop_last
  length-drop_last [] e = absurd (omega (arith, e))
  length-drop_last (x ∷ []) e = omega (arith, e)
  length-drop_last (x ∷ y ∷ xs) {k = zero} e = absurd (omega (arith, e))
  length-drop_last (x ∷ y ∷ xs) {k = suc k} e =
      ap suc (length-drop_last (y ∷ xs) (omega (arith, e)))

  pub get_elem?-drop_last :
      (xs : List V) (k j : ℕ)
      → length xs ≡ suc k
      → get_elem? (drop_last xs) j ≡ put_at ℕ_discrete k none (get_elem? xs) j
  unfolding get_elem? drop_last
  get_elem?-drop_last [] k j e = absurd (omega (arith, e))
  get_elem?-drop_last (x ∷ []) k zero e = ground (arith, e)
  get_elem?-drop_last (x ∷ []) k (suc j) e = ground (arith, e)
  get_elem?-drop_last (x ∷ y ∷ xs) zero j e = absurd (omega (arith, e))
  get_elem?-drop_last (x ∷ y ∷ xs) (suc k) zero e = ground arith
  get_elem?-drop_last (x ∷ y ∷ xs) (suc k) (suc j) e =
      ground (arith, get_elem?-drop_last (y ∷ xs) k j (omega (arith, e)))

  pub get_elem?-is_some : (xs : List V) (i : ℕ) → is_some (get_elem? xs i) ≡ ltb i (length xs)
  unfolding get_elem?
  get_elem?-is_some [] i = ground arith
  get_elem?-is_some (x ∷ xs) zero = ground arith
  get_elem?-is_some (x ∷ xs) (suc i) = ground (arith, get_elem?-is_some xs i)

  abbrev pub AreEntries : Changes V → List V → List V → Type 0
  AreEntries overlay saved current =
      (i : ℕ) → IsEntry (get_elem? saved i) (get_elem? current i) (find ℕ_discrete i overlay)

  -- A change of the list and of the overlay at one index.
  pub change-AreEntries :
      (k : ℕ) (o : Option V) (entry : Option (Option V × Code)) (overlay overlay' : Changes V)
      (saved current current' : List V)
      → ((j : ℕ) → get_elem? current' j ≡ put_at ℕ_discrete k o (get_elem? current) j)
      → ((j : ℕ)
          → find ℕ_discrete j overlay' ≡ ite (ℕ_discrete k j) entry (find ℕ_discrete j overlay))
      → IsEntry (get_elem? saved k) o entry
      → AreEntries overlay saved current
      → AreEntries overlay' saved current'
  change-AreEntries k o entry overlay overlay' saved current current' f g e a j =
      elim (ℕ_discrete k j) [
        | yes p ↦
            moved (f j ∙ if_pos (ℕ_discrete k j) p o (get_elem? current j))
              (g j ∙ if_pos (ℕ_discrete k j) p entry (find ℕ_discrete j overlay))
              (subst (λ t. IsEntry (get_elem? saved t) o entry) p e)
        | no n ↦
            moved (f j ∙ if_neg (ℕ_discrete k j) n o (get_elem? current j))
              (g j ∙ if_neg (ℕ_discrete k j) n entry (find ℕ_discrete j overlay)) (a j)
      ]
    where
      moved :
          {x : Option V} {y : Option (Option V × Code)}
          → get_elem? current' j ≡ x
          → find ℕ_discrete j overlay' ≡ y
          → IsEntry (get_elem? saved j) x y
          → IsEntry (get_elem? saved j) (get_elem? current' j) (find ℕ_discrete j overlay')
      moved {x} {y} b c i =
          subst (λ t. IsEntry (get_elem? saved j) t (find ℕ_discrete j overlay')) (sym b)
            (subst (λ t. IsEntry (get_elem? saved j) x t) (sym c) i)

module _ {V : Type 0} (filename : ℕ → String) where
  abbrev pub Kept : Blocks V → List V → Type 0
  Kept files xs = (j : ℕ) → files (filename j) j ≡ get_elem? xs j

  pub record Mirrors (s : VectorLoader V) (a : Lists V) : Type 0 where
    pub size_is : s.size ≡ length a.saved
    pub size_with_is : s.size_with_overlay ≡ length a.current
    pub entries_are : AreEntries s.overlay a.saved a.current
    pub is_unique : Unique ℕ_discrete s.overlay
    pub size_file_is : s.size_file ≡ length a.saved
    pub files_are : Kept s.files a.saved
    pub disk_size_file_is : s.disk_size_file ≡ length a.committed
    pub disk_files_are : Kept s.disk_files a.committed
    pub is_committed : s.has_transaction ≡ false → a.saved ≡ a.committed

  module _ (s : VectorLoader V) (a : Lists V) (r : Mirrors s a) where
    -- Another overlay and another list.
    pub with_Mirrors :
        (overlay : Changes V) (current : List V) (n : ℕ)
        → AreEntries overlay a.saved current
        → Unique ℕ_discrete overlay
        → n ≡ length current
        → Mirrors
            (record s { overlay = overlay; size_with_overlay = n })
            (record a { current = current })
    with_Mirrors overlay current n e u l = record {
      size_is = r.size_is;
      size_with_is = l;
      entries_are = e;
      is_unique = u;
      size_file_is = r.size_file_is;
      files_are = r.files_are;
      disk_size_file_is = r.disk_size_file_is;
      disk_files_are = r.disk_files_are;
      is_committed = r.is_committed;
    }

    module _ (k n : ℕ) (o : Option V) (current : List V)
        (f : (j : ℕ) → get_elem? current j ≡ put_at ℕ_discrete k o (get_elem? a.current) j)
        (l : n ≡ length current) where
      pub kept-Mirrors :
          IsEntry (get_elem? a.saved k) o (find ℕ_discrete k s.overlay)
          → Mirrors (record s { size_with_overlay = n }) (record a { current = current })
      kept-Mirrors e =
          with_Mirrors s.overlay current n
            (change-AreEntries k o (find ℕ_discrete k s.overlay) s.overlay s.overlay a.saved
              a.current current f
              (λ j. sym (put_at_self ℕ_discrete k (λ t. find ℕ_discrete t s.overlay) j)) e
              r.entries_are)
            r.is_unique l

      pub put_change-Mirrors :
          (v : Option V) (code : Code)
          → IsEntry (get_elem? a.saved k) o (some (v, code))
          → Mirrors
              (record (put_change k v code s) { size_with_overlay = n })
              (record a { current = current })
      unfolding put_change
      put_change-Mirrors v code e =
          with_Mirrors (assign ℕ_discrete k (v, code) s.overlay) current n
            (change-AreEntries k o (some (v, code)) s.overlay
              (assign ℕ_discrete k (v, code) s.overlay) a.saved a.current current f
              (λ j. find-assign ℕ_discrete k j (v, code) s.overlay) e r.entries_are)
            (assign-Unique ℕ_discrete k (v, code) s.overlay r.is_unique) l

      pub erase-Mirrors :
          IsEntry (get_elem? a.saved k) o none
          → Mirrors
              (record s { overlay = erase ℕ_discrete k s.overlay; size_with_overlay = n })
              (record a { current = current })
      erase-Mirrors e =
          with_Mirrors (erase ℕ_discrete k s.overlay) current n
            (change-AreEntries k o none s.overlay (erase ℕ_discrete k s.overlay) a.saved a.current
              current f (λ j. find-erase ℕ_discrete k j s.overlay) e r.entries_are)
            (erase-Unique ℕ_discrete k s.overlay r.is_unique) l
