-- ===== src/MapLoader/Keys.antt =====
-- src/libsystemutility/fileutility.hpp: the calls of `map_loader` on one key, against a map.
use mesh_pp.Prelude.{
  ◌≡◌, refl, sym, ap, ◌∙◌, subst, true, false, not, Option, none, some, List, [], ◌∷◌, String,
  string_discrete, ite, find, erase, assign, find-assign, find-erase, assign-Unique, erase-Unique,
  arith,
}
use mesh_pp.MapLoader.State.{
  MapLoader, Code, unchanged, deleted, modified, member, erase_key, Answer, answer, value,
  out_of_range, put_overlay, reach_entry, insert_entry, insert_key, erase_entry, mark_erased,
  erase_keys_with_overlay,
}
use mesh_pp.MapLoader.Refines.{
  is_some, set_at, Maps, name_of, IsEntry, Represents, change-Live, with_Live,
  put_overlay-Represents, kept-Represents,
}

-- What a look-up answers.
abbrev pub found : {V : Type 0} → Option V → Answer V
found none = out_of_range
found (some v) = value (some v)

pub found_some : {V : Type 0} (c : Option V) → is_some c ≡ true → value c ≡ found c
found_some none e = absurd (ground (arith, e))
found_some (some v) e = refl

pub found_none : {V : Type 0} (c : Option V) → c ≡ none → out_of_range ≡ found c
found_none c e = sym (ap found e)

-- What is under a key after a value is inserted.
abbrev pub kept : {V : Type 0} → V → Option V → Option V
kept v none = some v
kept v (some w) = some w

kept_some : {V : Type 0} (v : V) (c : Option V) → is_some c ≡ true → kept v c ≡ c
kept_some v none e = absurd (ground (arith, e))
kept_some v (some w) e = refl

member-erase_key :
    (k j : String) (keys : List String)
    → member j (erase_key k keys) ≡ ite (string_discrete k j) false (member j keys)
unfolding member erase_key
member-erase_key k j [] = ground arith
member-erase_key k j (i ∷ keys) = ground (arith, member-erase_key k j keys)

module _ {V : Type 0} (filename : String → String) (s : MapLoader V) (a : Maps V)
    (r : Represents filename s a) (k : String) where
  -- What an index entry says of what is saved.
  saved_some : {f : String} → find string_discrete k s.index ≡ some f → is_some (a.saved k) ≡ true
  saved_some {f} e = named (a.saved k) (sym (r.stored.index_is k) ∙ e)
    where
      named : (o : Option V) → name_of filename k o ≡ some f → is_some o ≡ true
      named none q = absurd (ground (arith, q))
      named (some v) q = refl

  saved_none : find string_discrete k s.index ≡ none → a.saved k ≡ none
  saved_none e = named (a.saved k) (sym (r.stored.index_is k) ∙ e)
    where
      named : (o : Option V) → name_of filename k o ≡ none → o ≡ none
      named none q = refl
      named (some v) q = absurd (ground (arith, q))

  overlay-IsEntry :
      {entry : Option (Option V × Code)}
      → find string_discrete k s.overlay ≡ entry
      → IsEntry (a.saved k) (a.current k) entry
  overlay-IsEntry e = subst (λ t. IsEntry (a.saved k) (a.current k) t) e (r.live.overlay_is k)

  module _ (change : Option V → Option V) (code : Code) (empty : change none ≡ none)
      (same : (c : Option V) → is_some (change c) ≡ is_some c)
      (enters : (saved c : Option V)
        → saved ≡ c
        → is_some c ≡ true
        → IsEntry saved (change c) (some (change c, code))) where
    abbrev reached : Maps V
    reached = record a { current = set_at k (change (a.current k)) a.current }

    pub reach_entry-Represents :
        (entry : Option (Option V × Code)) (name : Option String)
        → find string_discrete k s.overlay ≡ entry
        → find string_discrete k s.index ≡ name
        → Represents filename (reach_entry filename k change code s entry name).0 reached
          × ((reach_entry filename k change code s entry name).1 ≡ found (a.current k))
    unfolding reach_entry
    reach_entry-Represents (some (v, deleted)) name e q =
        let gone = (overlay-IsEntry e).0 in
        (
          kept-Represents filename s a r k (change (a.current k))
              (ap change gone ∙ empty ∙ sym gone),
          found_none (a.current k) gone,
        )
    reach_entry-Represents (some (v, modified)) name e q =
        let i = overlay-IsEntry e in
        (
          put_overlay-Represents filename s a r k (change v) (change (a.current k)) modified
              (ap change i.0, same (a.current k) ∙ i.1) (same (a.current k)),
          ap value i.0 ∙ found_some (a.current k) i.1,
        )
    reach_entry-Represents (some (v, unchanged)) name e q =
        let (i, j, l) = overlay-IsEntry e in
        (
          put_overlay-Represents filename s a r k (change v) (change (a.current k)) code
              (subst (λ t. IsEntry (a.saved k) (change (a.current k)) (some (change t, code)))
                (sym j) (enters (a.saved k) (a.current k) i l))
              (same (a.current k)),
          ap value j ∙ found_some (a.current k) l,
        )
    reach_entry-Represents none none e q =
        let gone = sym (overlay-IsEntry e) ∙ saved_none q in
        (
          kept-Represents filename s a r k (change (a.current k))
              (ap change gone ∙ empty ∙ sym gone),
          found_none (a.current k) gone,
        )
    reach_entry-Represents none (some f) e q =
        let i = overlay-IsEntry e in
        let l : is_some (a.current k) ≡ true = ap is_some (sym i) ∙ saved_some q in
        let j : s.files (filename k) k ≡ a.current k = r.stored.files_are k ∙ i in
        (
          put_overlay-Represents filename s a r k (change (s.files (filename k) k))
              (change (a.current k)) code
              (subst (λ t. IsEntry (a.saved k) (change (a.current k)) (some (change t, code)))
                (sym j) (enters (a.saved k) (a.current k) i l))
              (same (a.current k)),
          ap value j ∙ found_some (a.current k) l,
        )

  abbrev inserted : V → Maps V
  inserted v = record a { current = set_at k (kept v (a.current k)) a.current }

  insert_key-Represents :
      (v : V)
      → a.current k ≡ none
      → IsEntry (a.saved k) (some v) (some (some v, modified))
      → Represents filename (insert_key k v s).0 (inserted v)
        × ((insert_key k v s).1 ≡ answer (not (is_some (a.current k))))
  unfolding insert_key put_overlay member
  insert_key-Represents v gone i =
      let absent : member k s.keys_with_overlay ≡ false = r.live.keys_are k ∙ ap is_some gone in
      rw (absent, gone)
        (
          with_Live filename s a r (k ∷ s.keys_with_overlay)
              (assign string_discrete k (some v, modified) s.overlay) (set_at k (some v) a.current)
              (change-Live filename k (some v) (some (some v, modified)) s.keys_with_overlay
                (k ∷ s.keys_with_overlay) s.overlay
                (assign string_discrete k (some v, modified) s.overlay) a.saved a.current
                (λ j. refl) (λ j. find-assign string_discrete k j (some v, modified) s.overlay) i
                (assign-Unique string_discrete k (some v, modified) s.overlay r.live.is_unique)
                r.live),
          refl,
        )

  not_inserted :
      (v : V)
      → is_some (a.current k) ≡ true
      → Represents filename s (inserted v)
        × ◌≡◌ {A = Answer V} (answer false) (answer (not (is_some (a.current k))))
  not_inserted v l = (
    kept-Represents filename s a r k (kept v (a.current k)) (kept_some v (a.current k) l),
    ap (λ t. answer (not t)) (sym l),
  )

  pub insert_entry-Represents :
      (v : V) (entry : Option (Option V × Code)) (name : Option String)
      → find string_discrete k s.overlay ≡ entry
      → find string_discrete k s.index ≡ name
      → Represents filename (insert_entry k v s entry name).0 (inserted v)
        × ((insert_entry k v s entry name).1 ≡ answer (not (is_some (a.current k))))
  unfolding insert_entry
  insert_entry-Represents v (some (w, deleted)) name e q =
      insert_key-Represents v (overlay-IsEntry e).0 (refl, refl)
  insert_entry-Represents v (some (w, unchanged)) name e q = not_inserted v (overlay-IsEntry e).2
  insert_entry-Represents v (some (w, modified)) name e q = not_inserted v (overlay-IsEntry e).1
  insert_entry-Represents v none (some f) e q =
      not_inserted v (ap is_some (sym (overlay-IsEntry e)) ∙ saved_some q)
  insert_entry-Represents v none none e q =
      insert_key-Represents v (sym (overlay-IsEntry e) ∙ saved_none q) (refl, refl)

  abbrev removed : Maps V
  removed = record a { current = set_at k none a.current }

  not_removed :
      a.current k ≡ none
      → Represents filename s removed
        × ◌≡◌ {A = Answer V} (answer false) (answer (is_some (a.current k)))
  not_removed gone =
      (kept-Represents filename s a r k none (sym gone), ap (λ t. answer (is_some t)) (sym gone))

  removes :
      (s' : MapLoader V)
      → s'.keys_with_overlay ≡ s.keys_with_overlay
      → is_some (a.current k) ≡ true
      → Represents filename
          (record s' { keys_with_overlay = erase_key k s.keys_with_overlay })
          removed
      → Represents filename (erase_keys_with_overlay k s').0 removed
        × ((erase_keys_with_overlay k s').1 ≡ answer (is_some (a.current k)))
  unfolding erase_keys_with_overlay
  removes s' e l r' =
      let present : member k s'.keys_with_overlay ≡ true =
        ap (member k) e ∙ r.live.keys_are k ∙ l in
      rw (present, l, e) (r', refl)

  marked :
      (v : Option V)
      → is_some (a.saved k) ≡ true
      → Represents filename
          (record s {
            keys_with_overlay = erase_key k s.keys_with_overlay;
            overlay = assign string_discrete k (v, deleted) s.overlay;
          })
          removed
  marked v l =
      with_Live filename s a r (erase_key k s.keys_with_overlay)
        (assign string_discrete k (v, deleted) s.overlay) (set_at k none a.current)
        (change-Live filename k none (some (v, deleted)) s.keys_with_overlay
          (erase_key k s.keys_with_overlay) s.overlay
          (assign string_discrete k (v, deleted) s.overlay) a.saved a.current
          (λ j. member-erase_key k j s.keys_with_overlay)
          (λ j. find-assign string_discrete k j (v, deleted) s.overlay) (refl, l)
          (assign-Unique string_discrete k (v, deleted) s.overlay r.live.is_unique) r.live)

  dropped :
      a.saved k ≡ none
      → Represents filename
          (record s {
            keys_with_overlay = erase_key k s.keys_with_overlay;
            overlay = erase string_discrete k s.overlay;
          })
          removed
  dropped gone =
      with_Live filename s a r (erase_key k s.keys_with_overlay) (erase string_discrete k s.overlay)
        (set_at k none a.current)
        (change-Live filename k none none s.keys_with_overlay (erase_key k s.keys_with_overlay)
          s.overlay (erase string_discrete k s.overlay) a.saved a.current
          (λ j. member-erase_key k j s.keys_with_overlay)
          (λ j. find-erase string_discrete k j s.overlay) gone
          (erase-Unique string_discrete k s.overlay r.live.is_unique) r.live)

  mark_erased-Represents :
      (v : Option V) (name : Option String)
      → find string_discrete k s.index ≡ name
      → is_some (a.current k) ≡ true
      → Represents filename (erase_keys_with_overlay k (mark_erased k v name s)).0 removed
        × ((erase_keys_with_overlay k (mark_erased k v name s)).1 ≡ answer (is_some (a.current k)))
  unfolding mark_erased put_overlay
  mark_erased-Represents v (some f) q l =
      removes (put_overlay k v deleted s) refl l (marked v (saved_some q))
  mark_erased-Represents v none q l =
      removes (record s { overlay = erase string_discrete k s.overlay }) refl l
        (dropped (saved_none q))

  pub erase_entry-Represents :
      (entry : Option (Option V × Code)) (name : Option String)
      → find string_discrete k s.overlay ≡ entry
      → find string_discrete k s.index ≡ name
      → Represents filename (erase_entry k s entry name).0 removed
        × ((erase_entry k s entry name).1 ≡ answer (is_some (a.current k)))
  unfolding erase_entry put_overlay
  erase_entry-Represents (some (w, deleted)) name e q = not_removed (overlay-IsEntry e).0
  erase_entry-Represents (some (w, unchanged)) name e q =
      mark_erased-Represents w name q (overlay-IsEntry e).2
  erase_entry-Represents (some (w, modified)) name e q =
      mark_erased-Represents w name q (overlay-IsEntry e).1
  erase_entry-Represents none none e q = not_removed (sym (overlay-IsEntry e) ∙ saved_none q)
  erase_entry-Represents none (some f) e q =
      let l = saved_some q in
      removes (put_overlay k none deleted s) refl (ap is_some (sym (overlay-IsEntry e)) ∙ l)
        (marked none l)
