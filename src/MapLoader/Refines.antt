-- ===== src/MapLoader/Refines.antt =====
-- src/libsystemutility/fileutility.hpp: a `map_loader` seen as three maps, and the calls on one key.
use mesh_pp.Prelude.{
  ◌≡◌, sym, ap, ◌∙◌, subst, Bool, true, false, Option, none, some, List, String, string_discrete,
  ite, Map, find, assign, if_pos, if_neg, Unique, find-assign, assign-Unique,
}
use mesh_pp.MapLoader.State.{
  MapLoader, Code, unchanged, deleted, modified, Overlay, Files, IndexFile, member, put_overlay,
}

abbrev pub is_some {ℓ} : {A : Type ℓ} → Option A → Bool
is_some none = false
is_some (some v) = true

-- The map with one key changed.
abbrev pub set_at : {V : Type 0} → String → Option V → (String → Option V) → String → Option V
set_at k o f j = ite (string_discrete k j) o (f j)

-- What a loader stands for: the map that its calls see, the one that is saved, and the one that is
-- committed.
pub record Maps (V : Type 0) : Type 0 where
  pub current : String → Option V
  pub saved : String → Option V
  pub committed : String → Option V

module _ {V : Type 0} where
  -- An entry of the overlay, over what is saved.
  abbrev pub IsEntry : Option V → Option V → Option (Option V × Code) → Type 0
  IsEntry saved current none = saved ≡ current
  IsEntry saved current (some (v, unchanged)) =
      (saved ≡ current) × (v ≡ current) × (is_some current ≡ true)
  IsEntry saved current (some (v, modified)) = (v ≡ current) × (is_some current ≡ true)
  IsEntry saved current (some (v, deleted)) = (current ≡ none) × (is_some saved ≡ true)

module _ {V : Type 0} (filename : String → String) where
  abbrev pub name_of : String → Option V → Option String
  name_of k none = none
  name_of k (some v) = some (filename k)

  -- An index and the files, as they keep a map.
  pub record Stored (index : Map String String) (index_file : IndexFile) (files : Files V)
      (saved : String → Option V) : Type 0 where
    pub index_is : (k : String) → find string_discrete k index ≡ name_of k (saved k)
    pub index_file_is : (k : String) → index_file k ≡ name_of k (saved k)
    pub files_are : (k : String) → files (filename k) k ≡ saved k

  pub record Live (keys : List String) (overlay : Overlay V) (saved current : String → Option V)
      : Type 0 where
    pub keys_are : (k : String) → member k keys ≡ is_some (current k)
    pub overlay_is : (k : String) → IsEntry (saved k) (current k) (find string_discrete k overlay)
    pub is_unique : Unique string_discrete overlay

  pub record Represents (s : MapLoader V) (a : Maps V) : Type 0 where
    pub stored : Stored s.index s.index_file s.files a.saved
    pub rollback : Stored s.index_to_rollback s.disk_index_file s.disk_files a.committed
    pub live : Live s.keys_with_overlay s.overlay a.saved a.current
    pub is_committed : s.has_transaction ≡ false → (k : String) → a.saved k ≡ a.committed k

  -- A change of the keys and of the overlay at one key.
  pub change-Live :
      (k : String) (o : Option V) (entry : Option (Option V × Code)) (keys keys' : List String)
      (overlay overlay' : Overlay V) (saved current : String → Option V)
      → ((j : String) → member j keys' ≡ ite (string_discrete k j) (is_some o) (member j keys))
      → ((j : String)
          → find string_discrete j overlay'
            ≡ ite (string_discrete k j) entry (find string_discrete j overlay))
      → IsEntry (saved k) o entry
      → Unique string_discrete overlay'
      → Live keys overlay saved current
      → Live keys' overlay' saved (set_at k o current)
  change-Live k o entry keys keys' overlay overlay' saved current f g e u l = record {
    keys_are = λ j. elim (string_discrete k j) [
      | yes p ↦
          f j
          ∙ if_pos (string_discrete k j) p (is_some o) (member j keys)
          ∙ ap is_some (sym (if_pos (string_discrete k j) p o (current j)))
      | no n ↦
          f j
          ∙ if_neg (string_discrete k j) n (is_some o) (member j keys)
          ∙ l.keys_are j
          ∙ ap is_some (sym (if_neg (string_discrete k j) n o (current j)))
    ];
    overlay_is = λ j. elim (string_discrete k j) [
      | yes p ↦
          moved j o entry (if_pos (string_discrete k j) p o (current j))
            (g j ∙ if_pos (string_discrete k j) p entry (find string_discrete j overlay))
            (subst (λ t. IsEntry (saved t) o entry) p e)
      | no n ↦
          moved j (current j) (find string_discrete j overlay)
            (if_neg (string_discrete k j) n o (current j))
            (g j ∙ if_neg (string_discrete k j) n entry (find string_discrete j overlay))
            (l.overlay_is j)
    ];
    is_unique = u;
  }
    where
      moved :
          (j : String) (x : Option V) (y : Option (Option V × Code))
          → set_at k o current j ≡ x
          → find string_discrete j overlay' ≡ y
          → IsEntry (saved j) x y
          → IsEntry (saved j) (set_at k o current j) (find string_discrete j overlay')
      moved j x y a b i =
          subst (λ t. IsEntry (saved j) t (find string_discrete j overlay')) (sym a)
            (subst (λ t. IsEntry (saved j) x t) (sym b) i)

  module _ (s : MapLoader V) (a : Maps V) (r : Represents s a) where
    -- A loader with another overlay, under the map that its calls see then.
    pub with_Live :
        (keys : List String) (overlay : Overlay V) (current : String → Option V)
        → Live keys overlay a.saved current
        → Represents
            (record s { keys_with_overlay = keys; overlay = overlay })
            (record a { current = current })
    with_Live keys overlay current l = record {
      stored = r.stored;
      rollback = r.rollback;
      live = l;
      is_committed = r.is_committed;
    }

    pub same_keys :
        (k : String) (o : Option V) (j : String)
        → is_some o ≡ is_some (a.current k)
        → member j s.keys_with_overlay
          ≡ ite (string_discrete k j) (is_some o) (member j s.keys_with_overlay)
    same_keys k o j q = elim (string_discrete k j) [
      | yes p ↦
          ap (λ t. member t s.keys_with_overlay) (sym p)
          ∙ r.live.keys_are k
          ∙ sym q
          ∙ sym (if_pos (string_discrete k j) p (is_some o) (member j s.keys_with_overlay))
      | no n ↦ sym (if_neg (string_discrete k j) n (is_some o) (member j s.keys_with_overlay))
    ]

    pub put_overlay-Represents :
        (k : String) (v o : Option V) (code : Code)
        → IsEntry (a.saved k) o (some (v, code))
        → is_some o ≡ is_some (a.current k)
        → Represents (put_overlay k v code s) (record a { current = set_at k o a.current })
    unfolding put_overlay
    put_overlay-Represents k v o code e q =
        with_Live s.keys_with_overlay (assign string_discrete k (v, code) s.overlay)
          (set_at k o a.current)
          (change-Live k o (some (v, code)) s.keys_with_overlay s.keys_with_overlay s.overlay
            (assign string_discrete k (v, code) s.overlay) a.saved a.current
            (λ j. same_keys k o j q) (λ j. find-assign string_discrete k j (v, code) s.overlay) e
            (assign-Unique string_discrete k (v, code) s.overlay r.live.is_unique) r.live)

    -- A loader whose key has the value that is written stands for the written map too.
    pub kept-Represents :
        (k : String) (o : Option V)
        → o ≡ a.current k
        → Represents s (record a { current = set_at k o a.current })
    kept-Represents k o q = with_Live s.keys_with_overlay s.overlay (set_at k o a.current) (
        change-Live k o (find string_discrete k s.overlay) s.keys_with_overlay s.keys_with_overlay
          s.overlay s.overlay a.saved a.current (λ j. same_keys k o j (ap is_some q))
          (λ j. elim (string_discrete k j) [
            | yes p ↦
                ap (λ t. find string_discrete t s.overlay) (sym p)
                ∙ sym (
                    if_pos (string_discrete k j) p (find string_discrete k s.overlay)
                      (find string_discrete j s.overlay))
            | no n ↦ sym (
                if_neg (string_discrete k j) n (find string_discrete k s.overlay)
                  (find string_discrete j s.overlay))
          ])
          (subst (λ t. IsEntry (a.saved k) t (find string_discrete k s.overlay)) (sym q)
            (r.live.overlay_is k))
          r.live.is_unique r.live)
