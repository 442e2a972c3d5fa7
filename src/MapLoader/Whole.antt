-- ===== src/MapLoader/Whole.antt =====
-- src/libsystemutility/fileutility.cpp: the calls of `map_loader` on all keys, against maps.
use mesh_pp.Prelude.{
  ◌≡◌, refl, sym, ap, ◌∙◌, subst, Bool, true, false, Option, none, some, [], ◌∷◌, String,
  string_discrete, Map, find, Unique, find-assign, find-cons, assign-Unique, arith,
}
use mesh_pp.MapLoader.State.{
  MapLoader, Code, deleted, Overlay, Files, IndexFile, keys_of, member, all_deleted, clear, done,
  open_loader,
}
use mesh_pp.MapLoader.Save.{
  Written, save_modified, discard_under, discard_loader, commit_under, commit, as_saved,
  finish_save, to_write, save_overlay, save,
}
use mesh_pp.MapLoader.Refines.{is_some, Maps, name_of, Stored, IsEntry, Live, Represents}
use mesh_pp.MapLoader.Entries.{after_erased, erasable, writable, written_is}
use mesh_pp.MapLoader.Stores.{ite_map, Stored-ext, save_erased-Stored, save_modified-Stored}

member-keys_of :
    (k : String) (m : Map String String) → member k (keys_of m) ≡ is_some (find string_discrete k m)
unfolding member keys_of find
member-keys_of k [] = refl
member-keys_of k ((j, v) ∷ m) = ground (arith, member-keys_of k m)

all_deleted-Unique :
    (V : Type 0) (index : Map String String) → Unique string_discrete (all_deleted {V = V} index)
unfolding all_deleted
all_deleted-Unique V [] = tt
all_deleted-Unique V ((j, f) ∷ index) =
    assign-Unique string_discrete j (none, deleted) (all_deleted index) (all_deleted-Unique V index)

module _ {V : Type 0} where
  abbrev pub cleared : Maps V → Maps V
  cleared a = record a { current = λ k. none }

  abbrev pub saved_maps : Maps V → Maps V
  saved_maps a = record a { saved = a.current }

  abbrev pub committed_maps : Maps V → Maps V
  committed_maps a = record a { committed = a.saved }

  abbrev pub discarded : Maps V → Maps V
  discarded a = record a { current = a.committed; saved = a.committed }

  abbrev marked : Option String → Option (Option V × Code)
  marked none = none
  marked (some f) = some (none, deleted)

  find-all_deleted :
      (k : String) (index : Map String String)
      → find string_discrete k (all_deleted {V = V} index) ≡ marked (find string_discrete k index)
  unfolding all_deleted find
  find-all_deleted k [] = refl
  find-all_deleted k ((j, f) ∷ index) =
      find-assign string_discrete j k (none, deleted) (all_deleted index)
      ∙ ite_map (string_discrete j k) marked {x' = some f} (λ p. refl) (find-all_deleted k index)
      ∙ ap marked (sym (find-cons string_discrete j k f index))

module _ {V : Type 0} (filename : String → String) where
  some_name : (k : String) (o : Option V) → is_some (name_of filename k o) ≡ is_some o
  some_name k none = refl
  some_name k (some v) = refl

  cleared-IsEntry :
      (k : String) (saved : Option V) (name : Option String)
      → name ≡ name_of filename k saved
      → IsEntry saved none (marked name)
  cleared-IsEntry k none none e = refl
  cleared-IsEntry k (some v) (some f) e = (refl, refl)
  cleared-IsEntry k none (some f) e = absurd (ground (arith, e))
  cleared-IsEntry k (some v) none e = absurd (ground (arith, e))

  -- An index under an empty overlay.
  fresh_Live :
      (index : Map String String) (index_file : IndexFile) (files : Files V) (g : String → Option V)
      → Stored filename index index_file files g
      → Live filename (keys_of index) [] g g
  unfolding find
  fresh_Live index index_file files g t = record {
    keys_are = λ k. member-keys_of k index ∙ ap is_some (t.index_is k) ∙ some_name k (g k);
    overlay_is = λ k. refl;
    is_unique = tt;
  }

  pub open_loader-Represents :
      (index : Map String String) (index_file : IndexFile) (files : Files V) (g : String → Option V)
      → Stored filename index index_file files g
      → Represents filename
          (open_loader index index_file files)
          (record { current = g; saved = g; committed = g })
  unfolding open_loader
  open_loader-Represents index index_file files g t = record {
    stored = t;
    rollback = t;
    live = fresh_Live index index_file files g t;
    is_committed = λ e k. refl;
  }

  module _ (s : MapLoader V) (a : Maps V) (r : Represents filename s a) where
    pub clear-Represents : Represents filename (clear s) (cleared a)
    unfolding clear member
    clear-Represents = record {
      stored = r.stored;
      rollback = r.rollback;
      live = record {
        keys_are = λ k. refl;
        overlay_is = λ k.
            subst (IsEntry (a.saved k) none) (sym (find-all_deleted k s.index)) (
              cleared-IsEntry k (a.saved k) (find string_discrete k s.index) (r.stored.index_is k));
        is_unique = all_deleted-Unique V s.index;
      };
      is_committed = r.is_committed;
    }

    commit_under-Represents :
        (b : Bool)
        → s.has_transaction ≡ b
        → Represents filename (commit_under b s) (committed_maps a)
    unfolding commit_under
    commit_under-Represents true e = record {
      stored = r.stored;
      rollback = r.stored;
      live = r.live;
      is_committed = λ q k. refl;
    }
    commit_under-Represents false e = record {
      stored = r.stored;
      rollback = Stored-ext filename a.saved (λ k. sym (r.is_committed e k)) r.rollback;
      live = r.live;
      is_committed = λ q k. refl;
    }

    pub commit-Represents : Represents filename (commit s) (committed_maps a)
    unfolding commit
    commit-Represents = commit_under-Represents s.has_transaction refl

    discard_under-Represents :
        (b : Bool) → s.has_transaction ≡ b → Represents filename (discard_under b s) (discarded a)
    unfolding discard_under
    discard_under-Represents true e = record {
      stored = r.rollback;
      rollback = r.rollback;
      live = fresh_Live s.index_to_rollback s.disk_index_file s.disk_files a.committed r.rollback;
      is_committed = λ q k. refl;
    }
    discard_under-Represents false e =
        let t = Stored-ext filename a.committed (r.is_committed e) r.stored in
        record {
          stored = t;
          rollback = r.rollback;
          live = fresh_Live s.index s.index_file s.files a.committed t;
          is_committed = λ q k. refl;
        }

    pub discard-Represents : Represents filename (discard_loader s) (discarded a)
    unfolding discard_loader
    discard-Represents = discard_under-Represents s.has_transaction refl

    overlay-IsEntry :
        (k : String) → IsEntry (a.saved k) (a.current k) (find string_discrete k s.overlay)
    overlay-IsEntry k = r.live.overlay_is k

    emptied_Live : Live filename s.keys_with_overlay [] a.current a.current
    unfolding find
    emptied_Live = record { keys_are = r.live.keys_are; overlay_is = λ k. refl; is_unique = tt }

    finish_save-Represents :
        (t : Written V)
        → Stored filename t.index t.index_file t.files
            (λ j. after_erased (find string_discrete j s.overlay) (a.saved j))
        → Represents filename (as_saved s (save_modified filename s.overlay t)) (saved_maps a)
    finish_save-Represents t r' = record {
      stored =
          Stored-ext filename a.current
            (λ j.
              written_is (a.saved j) (a.current j) (find string_discrete j s.overlay)
                (overlay-IsEntry j))
            (save_modified-Stored filename s.overlay t
              (λ j. after_erased (find string_discrete j s.overlay) (a.saved j)) r.live.is_unique
              (λ j.
                writable (a.saved j) (a.current j) (find string_discrete j s.overlay)
                  (overlay-IsEntry j))
              r');
      rollback = r.rollback;
      live = emptied_Live;
      is_committed = λ e k. absurd (ground (arith, e));
    }

    empty_current : s.overlay ≡ [] → (k : String) → a.saved k ≡ a.current k
    unfolding find
    empty_current e k =
        subst (λ t. IsEntry (a.saved k) (a.current k) (find string_discrete k t)) e
          (overlay-IsEntry k)

    unsaved-Represents : s.overlay ≡ [] → Represents filename s (saved_maps a)
    unsaved-Represents e = record {
      stored = Stored-ext filename a.current (empty_current e) r.stored;
      rollback = r.rollback;
      live =
          subst (λ t. Live filename s.keys_with_overlay t a.current a.current) (sym e) emptied_Live;
      is_committed = λ q k. sym (empty_current e k) ∙ r.is_committed q k;
    }

    save_overlay-Represents :
        (overlay : Overlay V)
        → s.overlay ≡ overlay
        → Represents filename (save_overlay filename overlay s).0 (saved_maps a)
          × ((save_overlay filename overlay s).1 ≡ done)
    unfolding save_overlay finish_save
    save_overlay-Represents [] e = (unsaved-Represents e, refl)
    save_overlay-Represents (x ∷ overlay) e =
        let (t, q, r') =
          save_erased-Stored filename s.overlay (to_write s) a.saved r.live.is_unique
            (λ j.
              erasable (a.saved j) (a.current j) (find string_discrete j s.overlay)
                (overlay-IsEntry j))
            r.stored in
        rw q (finish_save-Represents t r', refl)

    pub save-Represents :
        Represents filename (save filename s).0 (saved_maps a) × ((save filename s).1 ≡ done)
    unfolding save
    save-Represents = save_overlay-Represents s.overlay refl
