-- ===== src/MapLoader/Save.antt =====
-- src/libsystemutility/fileutility.cpp: `map_loader_internals::save`, `discard` and `commit`.
use mesh_pp.Prelude.{
  Bool, true, false, Option, none, some, [], ◌∷◌, String, string_discrete, ite, Map, find, erase,
  Result, ok, throw, logic_error,
}
use mesh_pp.MapLoader.State.{
  MapLoader, unchanged, deleted, modified, Overlay, Files, IndexFile, keys_of, Answer, done,
  logic_failure,
}

unfoldable pub put_name : String → Option String → IndexFile → IndexFile
unfolding string_discrete
put_name k f index_file = λ j. ite (string_discrete k j) f (index_file j)

unfoldable pub insert_unless :
    Option String → String → String → Map String String → Map String String
insert_unless none k f index = (k, f) ∷ index
insert_unless (some g) k f index = index

-- `index.insert`, which keeps what is there.
unfoldable pub insert_name : String → String → Map String String → Map String String
unfolding find string_discrete insert_unless
insert_name k f index = insert_unless (find string_discrete k index) k f index

-- The file of a key: the one that the index names, or a new one.
unfoldable pub file_of : (String → String) → String → Option String → String
file_of filename k none = filename k
file_of filename k (some f) = f

-- What `save` changes: the index, its file and the other files.
pub record Written (V : Type 0) : Type 0 where
  pub index : Map String String
  pub index_file : IndexFile
  pub files : Files V

module _ {V : Type 0} where
  unfoldable pub put_value : String → String → Option V → Files V → Files V
  unfolding string_discrete
  put_value f k v files =
      λ g j. ite (string_discrete f g) (ite (string_discrete k j) v (files g j)) (files g j)

  -- A key that is erased: from the files of the index, from the index, and from its file.
  unfoldable pub erase_saved : String → String → Written V → Written V
  unfolding put_name put_value erase string_discrete
  erase_saved k f t = record {
    index = erase string_discrete k t.index;
    index_file = put_name k none t.index_file;
    files = put_value f k none t.files;
  }

  -- A key that is modified.
  unfoldable pub write_saved : String → String → Option V → Written V → Written V
  unfolding put_name put_value insert_name
  write_saved k f v t = record {
    index = insert_name k f t.index;
    index_file = put_name k (some f) t.index_file;
    files = put_value f k v t.files;
  }

  -- The first turn of the loop: the keys of the overlay that are deleted.
  unfoldable pub save_erased : Overlay V → Written V → Result (Written V)
  unfolding erase_saved
  save_erased [] t = ok t
  save_erased ((k, (v, deleted)) ∷ overlay) t = elim (t.index_file k) [
    | none ↦ throw logic_error
    | some f ↦ save_erased overlay (erase_saved k f t)
  ]
  save_erased ((k, (v, unchanged)) ∷ overlay) t = save_erased overlay t
  save_erased ((k, (v, modified)) ∷ overlay) t = save_erased overlay t

  -- The second turn of the loop: the keys that are modified.
  unfoldable pub save_modified : (String → String) → Overlay V → Written V → Written V
  unfolding write_saved file_of
  save_modified filename [] t = t
  save_modified filename ((k, (v, modified)) ∷ overlay) t =
      save_modified filename overlay (write_saved k (file_of filename k (t.index_file k)) v t)
  save_modified filename ((k, (v, unchanged)) ∷ overlay) t = save_modified filename overlay t
  save_modified filename ((k, (v, deleted)) ∷ overlay) t = save_modified filename overlay t

  -- `discard`: a transaction is rolled back.
  unfoldable pub discard_under : Bool → MapLoader V → MapLoader V
  unfolding keys_of
  discard_under true s = record s {
    index = s.index_to_rollback;
    keys_with_overlay = keys_of s.index_to_rollback;
    overlay = [];
    has_transaction = false;
    index_file = s.disk_index_file;
    files = s.disk_files;
  }
  discard_under false s = record s { keys_with_overlay = keys_of s.index; overlay = [] }

  unfoldable pub discard_loader : MapLoader V → MapLoader V
  unfolding discard_under
  discard_loader s = discard_under s.has_transaction s

  unfoldable pub commit_under : Bool → MapLoader V → MapLoader V
  commit_under true s = record s {
    has_transaction = false;
    index_to_rollback = s.index;
    disk_index_file = s.index_file;
    disk_files = s.files;
  }
  commit_under false s = s

  unfoldable pub commit : MapLoader V → MapLoader V
  unfolding commit_under
  commit s = commit_under s.has_transaction s

  -- The loader when both turns are done.
  abbrev pub as_saved : MapLoader V → Written V → MapLoader V
  as_saved s t = record s {
    overlay = [];
    has_transaction = true;
    index = t.index;
    index_file = t.index_file;
    files = t.files;
  }

  -- What is left of the first turn; the guard discards when there is an exception.
  unfoldable pub finish_save :
      (String → String) → MapLoader V → Result (Written V) → MapLoader V × Answer V
  unfolding save_modified discard_under
  finish_save filename s (throw e) = (discard_under true s, logic_failure)
  finish_save filename s (ok t) = (as_saved s (save_modified filename s.overlay t), done)

  abbrev pub to_write : MapLoader V → Written V
  to_write s = record { index = s.index; index_file = s.index_file; files = s.files }

  unfoldable pub save_overlay : (String → String) → Overlay V → MapLoader V → MapLoader V × Answer V
  unfolding save_erased finish_save
  save_overlay filename [] s = (s, done)
  save_overlay filename (e ∷ overlay) s =
      finish_save filename s (save_erased s.overlay (to_write s))

  unfoldable pub save : (String → String) → MapLoader V → MapLoader V × Answer V
  unfolding save_overlay
  save filename s = save_overlay filename s.overlay s
