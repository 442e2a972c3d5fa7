-- ===== src/VectorLoader/Turns.antt =====
-- src/libsystemutility/fileutility.cpp: the two turns of `vector_loader_internals::save`.
use mesh_pp.Prelude.{
  ℕ, zero, suc, ◌<◌, ◌≤◌, ◌≡◌, refl, sym, ap, ◌∙◌, Bool, true, false, Option, none, some, [], ◌∷◌,
  String, string_discrete, ℕ_discrete, ite, find, if_pos, if_neg, find-cons, Unique, arith, ltb,
  leb, if◌then◌else◌,
}
use mesh_pp.MapLoader.State.{Code, unchanged, deleted, modified}
use mesh_pp.MapLoader.Entries.{
  IsErasable, after_erased, after_written, put_at, rest_find, first_find, both_changes, rest_change,
  rest_is_kept,
}
use mesh_pp.VectorLoader.State.{Blocks, Changes, put_block, save_gone, save_changed}

module _ {V : Type 0} where
  -- The bounds that an entry puts on the size that the first turn leaves.
  abbrev pub IsGoneFrom : ℕ → ℕ → Option (Option V × Code) → Type 0
  IsGoneFrom n j none = Unit
  IsGoneFrom n j (some (v, deleted)) = n ≤ j
  IsGoneFrom n j (some (v, unchanged)) = Unit
  IsGoneFrom n j (some (v, modified)) = Unit

  abbrev pub IsChangedBelow : ℕ → ℕ → Option (Option V × Code) → Type 0
  IsChangedBelow n j none = Unit
  IsChangedBelow n j (some (v, deleted)) = Unit
  IsChangedBelow n j (some (v, unchanged)) = Unit
  IsChangedBelow n j (some (v, modified)) = j < n

  abbrev pub is_gone : Option (Option V × Code) → Bool
  is_gone none = false
  is_gone (some (v, deleted)) = true
  is_gone (some (v, unchanged)) = false
  is_gone (some (v, modified)) = false

  abbrev pub is_changed : Option (Option V × Code) → Bool
  is_changed none = false
  is_changed (some (v, deleted)) = false
  is_changed (some (v, unchanged)) = false
  is_changed (some (v, modified)) = true

  -- An entry with this property is the first one or is among the others.
  rest_has :
      (p : Option (Option V × Code) → Bool) (k j : ℕ) (e : Option V × Code) (overlay : Changes V)
      → p (find ℕ_discrete j ((k, e) ∷ overlay)) ≡ true
      → ¬ (k ≡ j)
      → p (find ℕ_discrete j overlay) ≡ true
  rest_has p k j e overlay h n =
      ap p (
        sym (
          find-cons ℕ_discrete k j e overlay
          ∙ if_neg (ℕ_discrete k j) n (some e) (find ℕ_discrete j overlay)))
      ∙ h

  rest_is :
      (p : Option (Option V × Code) → Bool) (k j : ℕ) (e : Option V × Code) (overlay : Changes V)
      → p (some e) ≡ false
      → p (find ℕ_discrete j ((k, e) ∷ overlay)) ≡ true
      → p (find ℕ_discrete j overlay) ≡ true
  rest_is p k j e overlay q h = elim (ℕ_discrete k j) [
    | yes s ↦ absurd (
        ground (
          arith,
          q,
          ap p (
                sym (
                  find-cons ℕ_discrete k j e overlay
                  ∙ if_pos (ℕ_discrete k j) s (some e) (find ℕ_discrete j overlay)))
              ∙ h,
        ))
    | no n ↦ rest_has p k j e overlay h n
  ]

module _ {V : Type 0} (filename : ℕ → String) where
  abbrev pub Keeps : Blocks V → (ℕ → Option V) → Type 0
  Keeps files g = (j : ℕ) → files (filename j) j ≡ g j

  put_block_lem :
      (k : ℕ) (v : Option V) (files : Blocks V) (g : ℕ → Option V)
      → Keeps files g
      → Keeps (put_block (filename k) k v files) (put_at ℕ_discrete k v g)
  unfolding put_block
  put_block_lem k v files g r j = elim (ℕ_discrete k j) [
    | yes p ↦
        if_pos (string_discrete (filename k) (filename j)) (ap filename p)
          (ite (ℕ_discrete k j) v (files (filename j) j)) (files (filename j) j)
        ∙ if_pos (ℕ_discrete k j) p v (files (filename j) j)
        ∙ sym (if_pos (ℕ_discrete k j) p v (g j))
    | no n ↦
        same (string_discrete (filename k) (filename j))
          (if_neg (ℕ_discrete k j) n v (files (filename j) j))
        ∙ r j
        ∙ sym (if_neg (ℕ_discrete k j) n v (g j))
  ]
    where
      same : {P : Type 0} (d : Dec P) {x y : Option V} → x ≡ y → ite d x y ≡ y
      same (yes p) e = e
      same (no n) e = refl

  -- The first turn, on a size that it makes smaller or keeps.
  pub save_gone_lem :
      (overlay : Changes V) (n size : ℕ) (files : Blocks V) (g : ℕ → Option V)
      → Unique ℕ_discrete overlay
      → ((j : ℕ) → IsErasable (find ℕ_discrete j overlay) (g j))
      → ((j : ℕ) → IsGoneFrom n j (find ℕ_discrete j overlay))
      → n ≤ size
      → (n < size → is_gone (find ℕ_discrete n overlay) ≡ true)
      → Keeps files g
      → ((save_gone filename overlay (size, files)).0 ≡ n)
        × Keeps
            (save_gone filename overlay (size, files)).1
            (λ j. after_erased (find ℕ_discrete j overlay) (g j))
  unfolding save_gone find
  save_gone_lem [] n size files g u h b l w r = (ground (arith, l, w), r)
  save_gone_lem ((k, (v, deleted)) ∷ overlay) n size files g u h b l w r =
      let above : n ≤ k = first_find ℕ_discrete (IsGoneFrom n) k (v, deleted) overlay b in
      let (e, r') =
        save_gone_lem overlay n (if ltb k size then k else size)
          (put_block (filename k) k none files) (put_at ℕ_discrete k none g) u.1
          (rest_is_kept ℕ_discrete k none overlay g u.0
            (rest_find ℕ_discrete (λ j x. IsErasable x (g j)) k (v, deleted) overlay tt u.0 h))
          (rest_find ℕ_discrete (IsGoneFrom n) k (v, deleted) overlay tt u.0 b)
          (ground (arith, above, l))
          (λ m.
            rest_has is_gone k n (v, deleted) overlay (w (ground (arith, m))) (ground (arith, m)))
          (put_block_lem k none files g r) in
      (e, λ j. r' j ∙ both_changes ℕ_discrete after_erased k (v, deleted) overlay none g u.0 refl j)
  save_gone_lem ((k, (v, unchanged)) ∷ overlay) n size files g u h b l w r =
      let (e, r') =
        save_gone_lem overlay n size files g u.1
          (rest_find ℕ_discrete (λ j x. IsErasable x (g j)) k (v, unchanged) overlay tt u.0 h)
          (rest_find ℕ_discrete (IsGoneFrom n) k (v, unchanged) overlay tt u.0 b) l
          (λ m. rest_is is_gone k n (v, unchanged) overlay refl (w m)) r in
      (e, λ j. r' j ∙ rest_change ℕ_discrete after_erased k (v, unchanged) overlay g u.0 refl j)
  save_gone_lem ((k, (v, modified)) ∷ overlay) n size files g u h b l w r =
      let (e, r') =
        save_gone_lem overlay n size files g u.1
          (rest_find ℕ_discrete (λ j x. IsErasable x (g j)) k (v, modified) overlay tt u.0 h)
          (rest_find ℕ_discrete (IsGoneFrom n) k (v, modified) overlay tt u.0 b) l
          (λ m. rest_is is_gone k n (v, modified) overlay refl (w m)) r in
      (e, λ j. r' j ∙ rest_change ℕ_discrete after_erased k (v, modified) overlay g u.0 refl j)

  -- The second turn, on a size that it makes larger or keeps.
  pub save_changed_lem :
      (overlay : Changes V) (n size : ℕ) (files : Blocks V) (g : ℕ → Option V)
      → Unique ℕ_discrete overlay
      → ((j : ℕ) → IsChangedBelow n j (find ℕ_discrete j overlay))
      → size ≤ n
      → ((m : ℕ) → suc m ≡ n → size < n → is_changed (find ℕ_discrete m overlay) ≡ true)
      → Keeps files g
      → ((save_changed filename overlay (size, files)).0 ≡ n)
        × Keeps
            (save_changed filename overlay (size, files)).1
            (λ j. after_written (find ℕ_discrete j overlay) (g j))
  unfolding save_changed find
  save_changed_lem [] zero size files g u b l w r = (ground (arith, l), r)
  save_changed_lem [] (suc n) size files g u b l w r = (ground (arith, l, w n refl), r)
  save_changed_lem ((k, (v, modified)) ∷ overlay) n size files g u b l w r =
      let below : k < n = first_find ℕ_discrete (IsChangedBelow n) k (v, modified) overlay b in
      let (e, r') =
        save_changed_lem overlay n (if leb size k then suc k else size)
          (put_block (filename k) k v files) (put_at ℕ_discrete k v g) u.1
          (rest_find ℕ_discrete (IsChangedBelow n) k (v, modified) overlay tt u.0 b)
          (ground (arith, below, l))
          (λ m q s.
            rest_has is_changed k m (v, modified) overlay (w m q (ground (arith, s)))
              (ground (arith, s, q)))
          (put_block_lem k v files g r) in
      (e, λ j. r' j ∙ both_changes ℕ_discrete after_written k (v, modified) overlay v g u.0 refl j)
  save_changed_lem ((k, (v, unchanged)) ∷ overlay) n size files g u b l w r =
      let (e, r') =
        save_changed_lem overlay n size files g u.1
          (rest_find ℕ_discrete (IsChangedBelow n) k (v, unchanged) overlay tt u.0 b) l
          (λ m q s. rest_is is_changed k m (v, unchanged) overlay refl (w m q s)) r in
      (e, λ j. r' j ∙ rest_change ℕ_discrete after_written k (v, unchanged) overlay g u.0 refl j)
  save_changed_lem ((k, (v, deleted)) ∷ overlay) n size files g u b l w r =
      let (e, r') =
        save_changed_lem overlay n size files g u.1
          (rest_find ℕ_discrete (IsChangedBelow n) k (v, deleted) overlay tt u.0 b) l
          (λ m q s. rest_is is_changed k m (v, deleted) overlay refl (w m q s)) r in
      (e, λ j. r' j ∙ rest_change ℕ_discrete after_written k (v, deleted) overlay g u.0 refl j)
