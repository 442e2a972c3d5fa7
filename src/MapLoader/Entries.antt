-- ===== src/MapLoader/Entries.antt =====
-- src/libsystemutility/fileutility.hpp: the entries of the overlays of `map_loader` and
-- `vector_loader`, over what is saved.
use mesh_pp.Prelude.{
  ◌≡◌, refl, sym, ap, ◌∙◌, subst, true, Option, none, some, ◌∷◌, ite, Map, find, if_pos, if_neg,
  find-cons,
}
use mesh_pp.MapLoader.State.{change_packet, Code, unchanged, deleted, modified}
use mesh_pp.MapLoader.Refines.{IsEntry, is_some}

module _ {V : Type 0} where
  -- What an entry of the overlay asks of what is saved, and what the first turn leaves of it.
  abbrev pub IsErasable : Option (Option V × Code) → Option V → Type 0
  IsErasable (some (v, deleted)) saved = is_some saved ≡ true
  IsErasable (some (v, unchanged)) saved = Unit
  IsErasable (some (v, modified)) saved = Unit
  IsErasable none saved = Unit

  abbrev pub after_erased : Option (Option V × Code) → Option V → Option V
  after_erased (some (v, deleted)) saved = none
  after_erased (some (v, unchanged)) saved = saved
  after_erased (some (v, modified)) saved = saved
  after_erased none saved = saved

  abbrev pub IsWritable : Option (Option V × Code) → Type 0
  IsWritable (some (v, modified)) = is_some v ≡ true
  IsWritable (some (v, unchanged)) = Unit
  IsWritable (some (v, deleted)) = Unit
  IsWritable none = Unit

  abbrev pub after_written : Option (Option V × Code) → Option V → Option V
  after_written (some (v, modified)) saved = v
  after_written (some (v, unchanged)) saved = saved
  after_written (some (v, deleted)) saved = saved
  after_written none saved = saved

  pub erasable :
      (saved current : Option V) (entry : Option (Option V × Code))
      → IsEntry saved current entry
      → IsErasable entry saved
  erasable saved current none i = tt
  erasable saved current (some (v, unchanged)) i = tt
  erasable saved current (some (v, modified)) i = tt
  erasable saved current (some (v, deleted)) i = i.1

  pub writable :
      (saved current : Option V) (entry : Option (Option V × Code))
      → IsEntry saved current entry
      → IsWritable entry
  writable saved current none i = tt
  writable saved current (some (v, unchanged)) i = tt
  writable saved current (some (v, modified)) i = ap is_some i.0 ∙ i.1
  writable saved current (some (v, deleted)) i = tt

  pub written_is :
      (saved current : Option V) (entry : Option (Option V × Code))
      → IsEntry saved current entry
      → after_written entry (after_erased entry saved) ≡ current
  written_is saved current none i = i
  written_is saved current (some (v, unchanged)) i = i.0
  written_is saved current (some (v, modified)) i = i.0
  written_is saved current (some (v, deleted)) i = sym i.0

  pub changed_some : (g : V → V) (c : Option V) → is_some (change_packet g c) ≡ is_some c
  unfolding change_packet
  changed_some g none = refl
  changed_some g (some v) = refl

module _ {K V : Type 0} (dec : Discrete K) where
  -- A function with one value changed.
  abbrev pub put_at : K → Option V → (K → Option V) → K → Option V
  put_at k o f j = ite (dec k j) o (f j)

  -- The entries of the rest of an overlay.
  pub rest_find :
      (P : K → Option (Option V × Code) → Type 0) (k : K) (e : Option V × Code)
      (overlay : Map K (Option V × Code))
      → P k none
      → find dec k overlay ≡ none
      → ((j : K) → P j (find dec j ((k, e) ∷ overlay)))
      → (j : K) → P j (find dec j overlay)
  rest_find P k e overlay nothing absent h j = elim (dec k j) [
    | yes p ↦ subst (λ t. P t (find dec t overlay)) p (subst (P k) (sym absent) nothing)
    | no n ↦
        subst (P j) (find-cons dec k j e overlay ∙ if_neg (dec k j) n (some e) (find dec j overlay))
          (h j)
  ]

  pub first_find :
      (P : K → Option (Option V × Code) → Type 0) (k : K) (e : Option V × Code)
      (overlay : Map K (Option V × Code))
      → ((j : K) → P j (find dec j ((k, e) ∷ overlay)))
      → P k (some e)
  first_find P k e overlay h =
      subst (P k)
        (find-cons dec k k e overlay ∙ if_pos (dec k k) refl (some e) (find dec k overlay)) (h k)

  -- What a change at the first key and the changes at the rest amount to.
  pub both_changes :
      (after : Option (Option V × Code) → Option V → Option V) (k : K) (e : Option V × Code)
      (overlay : Map K (Option V × Code)) (o : Option V) (g : K → Option V)
      → find dec k overlay ≡ none
      → after none o ≡ after (some e) (g k)
      → (j : K)
      → after (find dec j overlay) (put_at k o g j) ≡ after (find dec j ((k, e) ∷ overlay)) (g j)
  both_changes after k e overlay o g absent q j = elim (dec k j) [
    | yes p ↦
        subst
          (λ t.
            after (find dec t overlay) (put_at k o g t)
            ≡ after (find dec t ((k, e) ∷ overlay)) (g t))
          p
          (ap (λ t. after t (put_at k o g k)) absent
            ∙ ap (after none) (if_pos (dec k k) refl o (g k))
            ∙ q
            ∙ ap (λ t. after t (g k))
                (sym (
                  find-cons dec k k e overlay
                  ∙ if_pos (dec k k) refl (some e) (find dec k overlay))))
    | no n ↦
        ap (after (find dec j overlay)) (if_neg (dec k j) n o (g j))
        ∙ ap (λ t. after t (g j))
            (sym (find-cons dec k j e overlay ∙ if_neg (dec k j) n (some e) (find dec j overlay)))
  ]

  pub put_at_self : (k : K) (g : K → Option V) (j : K) → put_at k (g k) g j ≡ g j
  put_at_self k g j = elim (dec k j) [
    | yes p ↦ if_pos (dec k j) p (g k) (g j) ∙ ap g p
    | no n ↦ if_neg (dec k j) n (g k) (g j)
  ]

  pub rest_change :
      (after : Option (Option V × Code) → Option V → Option V) (k : K) (e : Option V × Code)
      (overlay : Map K (Option V × Code)) (g : K → Option V)
      → find dec k overlay ≡ none
      → after none (g k) ≡ after (some e) (g k)
      → (j : K) → after (find dec j overlay) (g j) ≡ after (find dec j ((k, e) ∷ overlay)) (g j)
  rest_change after k e overlay g absent q j =
      ap (after (find dec j overlay)) (sym (put_at_self k g j))
      ∙ both_changes after k e overlay (g k) g absent q j

  pub rest_is_kept :
      (k : K) (o : Option V) (overlay : Map K (Option V × Code)) (g : K → Option V)
      → find dec k overlay ≡ none
      → ((j : K) → IsErasable (find dec j overlay) (g j))
      → (j : K) → IsErasable (find dec j overlay) (put_at k o g j)
  rest_is_kept k o overlay g absent h j = elim (dec k j) [
    | yes p ↦
        subst (λ t. IsErasable (find dec t overlay) (put_at k o g t)) p
          (subst (λ t. IsErasable t (put_at k o g k)) (sym absent) tt)
    | no n ↦ subst (IsErasable (find dec j overlay)) (sym (if_neg (dec k j) n o (g j))) (h j)
  ]
