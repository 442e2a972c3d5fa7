-- ===== src/MapLoader/Stores.antt =====
-- src/libsystemutility/fileutility.cpp: what `map_loader_internals::save` writes.
use mesh_pp.Prelude.{
  ◌≡◌, refl, sym, ap, ◌∙◌, subst, true, Option, none, some, [], ◌∷◌, String, string_discrete, ite,
  Map, find, if_pos, if_neg, Unique, find-erase, find-cons, arith, ok,
}
use mesh_pp.MapLoader.State.{unchanged, deleted, modified, Overlay, Files, IndexFile}
use mesh_pp.MapLoader.Save.{
  put_name, insert_name, insert_unless, file_of, put_value, Written, erase_saved, write_saved,
  save_erased, save_modified,
}
use mesh_pp.MapLoader.Entries.{
  IsErasable, after_erased, IsWritable, after_written, rest_find, first_find, both_changes,
  rest_change, rest_is_kept,
}
use mesh_pp.MapLoader.Refines.{is_some, set_at, name_of, Stored}

pub ite_map :
    {P A B : Type 0} (d : Dec P) (f : A → B) {x y : B} {x' y' : A}
    → (P → x ≡ f x')
    → y ≡ f y'
    → ite d x y ≡ f (ite d x' y')
ite_map (yes p) f g e = g p
ite_map (no n) f g e = e

name_kept :
    (k : String) (index : Map String String) (j : String) {f : String}
    → find string_discrete k index ≡ some f
    → find string_discrete j index
      ≡ ite (string_discrete k j) (some f) (find string_discrete j index)
name_kept k index j {f} e = elim (string_discrete k j) [
  | yes p ↦
      ap (λ t. find string_discrete t index) (sym p)
      ∙ e
      ∙ sym (if_pos (string_discrete k j) p (some f) (find string_discrete j index))
  | no n ↦ sym (if_neg (string_discrete k j) n (some f) (find string_discrete j index))
]

module _ {V : Type 0} (filename : String → String) where
  abbrev Keeps : Written V → (String → Option V) → Type 0
  Keeps t g = Stored filename t.index t.index_file t.files g

  pub Stored-ext :
      {index : Map String String} {index_file : IndexFile} {files : Files V} {g : String → Option V}
      (h : String → Option V)
      → ((j : String) → g j ≡ h j)
      → Stored filename index index_file files g
      → Stored filename index index_file files h
  Stored-ext h e t = record {
    index_is = λ j. t.index_is j ∙ ap (name_of filename j) (e j);
    index_file_is = λ j. t.index_file_is j ∙ ap (name_of filename j) (e j);
    files_are = λ j. t.files_are j ∙ e j;
  }

  put_value_lem :
      (k : String) (v : Option V) (files : Files V) (j : String)
      → put_value (filename k) k v files (filename j) j
        ≡ ite (string_discrete k j) v (files (filename j) j)
  unfolding put_value
  put_value_lem k v files j = elim (string_discrete (filename k) (filename j)) [
    | yes q ↦
        if_pos (string_discrete (filename k) (filename j)) q
          (ite (string_discrete k j) v (files (filename j) j)) (files (filename j) j)
    | no m ↦
        if_neg (string_discrete (filename k) (filename j)) m
          (ite (string_discrete k j) v (files (filename j) j)) (files (filename j) j)
        ∙ sym (if_neg (string_discrete k j) (λ p. m (ap filename p)) v (files (filename j) j))
  ]

  erase_saved-Stored :
      (k : String) (t : Written V) (g : String → Option V)
      → Keeps t g
      → Keeps (erase_saved k (filename k) t) (set_at k none g)
  unfolding erase_saved put_name
  erase_saved-Stored k t g r = record {
    index_is = λ j.
        find-erase string_discrete k j t.index
        ∙ ite_map (string_discrete k j) (name_of filename j) (λ p. refl) (r.index_is j);
    index_file_is =
        λ j. ite_map (string_discrete k j) (name_of filename j) (λ p. refl) (r.index_file_is j);
    files_are = λ j.
        put_value_lem k none t.files j
        ∙ ite_map (string_discrete k j) (λ v. v) (λ p. refl) (r.files_are j);
  }

  insert_name_lem :
      (k : String) (index : Map String String) (j : String) (o : Option V)
      → find string_discrete k index ≡ name_of filename k o
      → find string_discrete j (insert_name k (filename k) index)
        ≡ ite (string_discrete k j) (some (filename k)) (find string_discrete j index)
  unfolding insert_name insert_unless
  insert_name_lem k index j none e =
      ap (λ t. find string_discrete j (insert_unless t k (filename k) index)) e
      ∙ find-cons string_discrete k j (filename k) index
  insert_name_lem k index j (some v) e =
      ap (λ t. find string_discrete j (insert_unless t k (filename k) index)) e
      ∙ name_kept k index j e

  name_some :
      (k j : String) (v : Option V)
      → is_some v ≡ true
      → k ≡ j
      → some (filename k) ≡ name_of filename j v
  name_some k j none e p = absurd (ground (arith, e))
  name_some k j (some v) e p = ap (λ t. some (filename t)) p

  write_saved-Stored :
      (k : String) (v : Option V) (t : Written V) (g : String → Option V)
      → is_some v ≡ true
      → Keeps t g
      → Keeps (write_saved k (filename k) v t) (set_at k v g)
  unfolding write_saved put_name
  write_saved-Stored k v t g l r = record {
    index_is = λ j.
        insert_name_lem k t.index j (g k) (r.index_is k)
        ∙ ite_map (string_discrete k j) (name_of filename j) (name_some k j v l) (r.index_is j);
    index_file_is = λ j.
        ite_map (string_discrete k j) (name_of filename j) (name_some k j v l) (r.index_file_is j);
    files_are = λ j.
        put_value_lem k v t.files j
        ∙ ite_map (string_discrete k j) (λ v. v) (λ p. refl) (r.files_are j);
  }

  erased_step :
      (k : String) (v : Option V) (overlay : Overlay V) (t : Written V) {f : String}
      {t' : Written V}
      → t.index_file k ≡ some f
      → save_erased overlay (erase_saved k f t) ≡ ok t'
      → save_erased ((k, (v, deleted)) ∷ overlay) t ≡ ok t'
  unfolding save_erased
  erased_step k v overlay t named e = rw (named, save_erased) e

  pub save_erased-Stored :
      (overlay : Overlay V) (t : Written V) (g : String → Option V)
      → Unique string_discrete overlay
      → ((j : String) → IsErasable (find string_discrete j overlay) (g j))
      → Keeps t g
      → (t' : Written V) × (save_erased overlay t ≡ ok t')
        × Keeps t' (λ j. after_erased (find string_discrete j overlay) (g j))
  unfolding save_erased find
  save_erased-Stored [] t g u h r = (t, refl, r)
  save_erased-Stored ((k, (v, deleted)) ∷ overlay) t g u h r =
      let l : is_some (g k) ≡ true =
        first_find string_discrete (λ j x. IsErasable x (g j)) k (v, deleted) overlay h in
      let named : t.index_file k ≡ some (filename k) =
        r.index_file_is k ∙ sym (name_some k k (g k) l refl) in
      let h' =
        rest_is_kept string_discrete k none overlay g u.0
          (rest_find string_discrete (λ j x. IsErasable x (g j)) k (v, deleted) overlay tt u.0 h) in
      let (t', e, r') =
        save_erased-Stored overlay (erase_saved k (filename k) t) (set_at k none g) u.1 h'
          (erase_saved-Stored k t g r) in
      (
        t',
        erased_step k v overlay t named e,
        Stored-ext (λ j. after_erased (find string_discrete j ((k, (v, deleted)) ∷ overlay)) (g j))
            (both_changes string_discrete after_erased k (v, deleted) overlay none g u.0 refl) r',
      )
  save_erased-Stored ((k, (v, unchanged)) ∷ overlay) t g u h r =
      let (t', e, r') =
        save_erased-Stored overlay t g u.1
          (rest_find string_discrete (λ j x. IsErasable x (g j)) k (v, unchanged) overlay tt u.0 h)
          r in
      (
        t',
        e,
        Stored-ext
            (λ j. after_erased (find string_discrete j ((k, (v, unchanged)) ∷ overlay)) (g j))
            (rest_change string_discrete after_erased k (v, unchanged) overlay g u.0 refl) r',
      )
  save_erased-Stored ((k, (v, modified)) ∷ overlay) t g u h r =
      let (t', e, r') =
        save_erased-Stored overlay t g u.1
          (rest_find string_discrete (λ j x. IsErasable x (g j)) k (v, modified) overlay tt u.0 h)
          r in
      (
        t',
        e,
        Stored-ext (λ j. after_erased (find string_discrete j ((k, (v, modified)) ∷ overlay)) (g j))
            (rest_change string_discrete after_erased k (v, modified) overlay g u.0 refl) r',
      )

  file_of_name :
      (k : String) (o : Option V) → file_of filename k (name_of filename k o) ≡ filename k
  unfolding file_of
  file_of_name k none = refl
  file_of_name k (some v) = refl

  pub save_modified-Stored :
      (overlay : Overlay V) (t : Written V) (g : String → Option V)
      → Unique string_discrete overlay
      → ((j : String) → IsWritable (find string_discrete j overlay))
      → Keeps t g
      → Keeps
          (save_modified filename overlay t)
          (λ j. after_written (find string_discrete j overlay) (g j))
  unfolding save_modified find
  save_modified-Stored [] t g u h r = r
  save_modified-Stored ((k, (v, modified)) ∷ overlay) t g u h r =
      let l : is_some v ≡ true =
        first_find string_discrete (λ j x. IsWritable x) k (v, modified) overlay h in
      let named : file_of filename k (t.index_file k) ≡ filename k =
        ap (file_of filename k) (r.index_file_is k) ∙ file_of_name k (g k) in
      let r' : Keeps (write_saved k (file_of filename k (t.index_file k)) v t) (set_at k v g) =
        subst (λ f. Keeps (write_saved k f v t) (set_at k v g)) (sym named)
          (write_saved-Stored k v t g l r) in
      Stored-ext (λ j. after_written (find string_discrete j ((k, (v, modified)) ∷ overlay)) (g j))
        (both_changes string_discrete after_written k (v, modified) overlay v g u.0 refl)
        (save_modified-Stored overlay (write_saved k (file_of filename k (t.index_file k)) v t)
          (set_at k v g) u.1
          (rest_find string_discrete (λ j x. IsWritable x) k (v, modified) overlay tt u.0 h) r')
  save_modified-Stored ((k, (v, unchanged)) ∷ overlay) t g u h r =
      Stored-ext (λ j. after_written (find string_discrete j ((k, (v, unchanged)) ∷ overlay)) (g j))
        (rest_change string_discrete after_written k (v, unchanged) overlay g u.0 refl)
        (save_modified-Stored overlay t g u.1
          (rest_find string_discrete (λ j x. IsWritable x) k (v, unchanged) overlay tt u.0 h) r)
  save_modified-Stored ((k, (v, deleted)) ∷ overlay) t g u h r =
      Stored-ext (λ j. after_written (find string_discrete j ((k, (v, deleted)) ∷ overlay)) (g j))
        (rest_change string_discrete after_written k (v, deleted) overlay g u.0 refl)
        (save_modified-Stored overlay t g u.1
          (rest_find string_discrete (λ j x. IsWritable x) k (v, deleted) overlay tt u.0 h) r)
