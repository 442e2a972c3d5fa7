-- ===== src/MapLoader/State.antt =====
-- src/libsystemutility/fileutility.hpp: `map_loader` over the members of `map_loader_internals`. The
-- files that `block_file_loader` reads and writes give a value for a file name and a key; a
-- transaction sees its own copy of them.
use mesh_pp.Prelude.{
  Bool, true, false, Option, none, some, List, [], ◌∷◌, String, string_discrete, ite, Map, find,
  erase, assign, if◌then◌else◌,
}

-- `ecode`.
pub data Code : Type 0 where
  unchanged deleted modified : Code

-- A `beltpp::packet` is empty or has a value.
abbrev pub Overlay : Type 0 → Type 0
Overlay V = Map String (Option V × Code)

abbrev pub Files : Type 0 → Type 0
Files V = String → String → Option V

-- The files of the index give a file name for a key.
abbrev pub IndexFile : Type 0
IndexFile = String → Option String

pub record MapLoader (V : Type 0) : Type 0 where
  pub index : Map String String
  pub index_to_rollback : Map String String
  pub keys_with_overlay : List String
  pub overlay : Overlay V
  -- Whether there is a transaction, what is read under it, and what is read without it.
  pub has_transaction : Bool
  pub index_file : IndexFile
  pub files : Files V
  pub disk_index_file : IndexFile
  pub disk_files : Files V

unfoldable pub member : String → List String → Bool
unfolding string_discrete
member k [] = false
member k (j ∷ keys) = ite (string_discrete j k) true (member k keys)

unfoldable pub erase_key : String → List String → List String
unfolding string_discrete
erase_key k [] = []
erase_key k (j ∷ keys) = ite (string_discrete j k) (erase_key k keys) (j ∷ erase_key k keys)

-- `keys(index)`.
unfoldable pub keys_of : Map String String → List String
keys_of [] = []
keys_of ((k, v) ∷ m) = k ∷ keys_of m

-- What a call gives to its caller.
pub data Answer (V : Type 0) : Type 0 where
  done : Answer V
  answer : Bool → Answer V
  value : Option V → Answer V
  out_of_range : Answer V
  logic_failure : Answer V

module _ {V : Type 0} where
  -- The constructor, on the files as they are.
  unfoldable pub open_loader : Map String String → IndexFile → Files V → MapLoader V
  unfolding keys_of
  open_loader index index_file files = record {
    index = index;
    index_to_rollback = index;
    keys_with_overlay = keys_of index;
    overlay = [];
    has_transaction = false;
    index_file = index_file;
    files = files;
    disk_index_file = index_file;
    disk_files = files;
  }

  unfoldable pub put_overlay : String → Option V → Code → MapLoader V → MapLoader V
  unfolding assign string_discrete
  put_overlay k v code s = record s { overlay = assign string_discrete k (v, code) s.overlay }

  -- `at`, with what the caller makes of the value under the reference that it gets; `code` is what
  -- the overlay then says of the key. The last two are what the overlay and the index have for it.
  unfoldable pub reach_entry :
      (String → String)
      → String
      → (Option V → Option V)
      → Code
      → MapLoader V
      → Option (Option V × Code)
      → Option String
      → MapLoader V × Answer V
  unfolding put_overlay
  reach_entry filename k change code s (some (v, deleted)) name = (s, out_of_range)
  reach_entry filename k change code s (some (v, unchanged)) name =
      (put_overlay k (change v) code s, value v)
  reach_entry filename k change code s (some (v, modified)) name =
      (put_overlay k (change v) modified s, value v)
  reach_entry filename k change code s none none = (s, out_of_range)
  reach_entry filename k change code s none (some f) =
      (put_overlay k (change (s.files (filename k) k)) code s, value (s.files (filename k) k))

  unfoldable pub reach :
      (String → String)
      → String
      → (Option V → Option V)
      → Code
      → MapLoader V
      → MapLoader V × Answer V
  unfolding find string_discrete reach_entry
  reach filename k change code s =
      reach_entry filename k change code s (find string_discrete k s.overlay)
        (find string_discrete k s.index)

  -- `at(key) const`.
  unfoldable pub at_const : (String → String) → String → MapLoader V → MapLoader V × Answer V
  unfolding reach
  at_const filename k s = reach filename k (λ v. v) unchanged s

  unfoldable pub change_packet : (V → V) → Option V → Option V
  change_packet g none = none
  change_packet g (some v) = some (g v)

  -- `at(key)`.
  unfoldable pub at : (String → String) → String → (V → V) → MapLoader V → MapLoader V × Answer V
  unfolding reach change_packet
  at filename k g s = reach filename k (change_packet g) modified s

  -- The end of `insert`.
  unfoldable pub insert_key : String → V → MapLoader V → MapLoader V × Answer V
  unfolding put_overlay member
  insert_key k v s =
      let s' = put_overlay k (some v) modified s in
      if member k s.keys_with_overlay
      then (s', logic_failure)
      else (record s' { keys_with_overlay = k ∷ s.keys_with_overlay }, answer true)

  unfoldable pub insert_entry :
      String → V → MapLoader V → Option (Option V × Code) → Option String → MapLoader V × Answer V
  unfolding insert_key
  insert_entry k v s (some (w, deleted)) name = insert_key k v s
  insert_entry k v s (some (w, unchanged)) name = (s, answer false)
  insert_entry k v s (some (w, modified)) name = (s, answer false)
  insert_entry k v s none (some f) = (s, answer false)
  insert_entry k v s none none = insert_key k v s

  unfoldable pub insert : String → V → MapLoader V → MapLoader V × Answer V
  unfolding find string_discrete insert_entry
  insert k v s =
      insert_entry k v s (find string_discrete k s.overlay) (find string_discrete k s.index)

  -- The end of `erase`.
  unfoldable pub erase_keys_with_overlay : String → MapLoader V → MapLoader V × Answer V
  unfolding member erase_key
  erase_keys_with_overlay k s =
      if member k s.keys_with_overlay
      then (record s { keys_with_overlay = erase_key k s.keys_with_overlay }, answer true)
      else (s, logic_failure)

  unfoldable pub mark_erased : String → Option V → Option String → MapLoader V → MapLoader V
  unfolding put_overlay
  mark_erased k v (some f) s = put_overlay k v deleted s
  mark_erased k v none s = record s { overlay = erase string_discrete k s.overlay }

  unfoldable pub erase_entry :
      String → MapLoader V → Option (Option V × Code) → Option String → MapLoader V × Answer V
  unfolding mark_erased put_overlay erase_keys_with_overlay
  erase_entry k s (some (w, deleted)) name = (s, answer false)
  erase_entry k s (some (w, unchanged)) name = erase_keys_with_overlay k (mark_erased k w name s)
  erase_entry k s (some (w, modified)) name = erase_keys_with_overlay k (mark_erased k w name s)
  erase_entry k s none none = (s, answer false)
  erase_entry k s none (some f) = erase_keys_with_overlay k (put_overlay k none deleted s)

  -- `erase(key)`.
  unfoldable pub remove : String → MapLoader V → MapLoader V × Answer V
  unfolding find string_discrete erase_entry
  remove k s = erase_entry k s (find string_discrete k s.overlay) (find string_discrete k s.index)

  unfoldable pub contains : String → MapLoader V → MapLoader V × Answer V
  unfolding member
  contains k s = (s, answer (member k s.keys_with_overlay))

  -- `clear`: every key of the index is marked in an overlay that was emptied.
  unfoldable pub all_deleted : Map String String → Overlay V
  unfolding assign string_discrete
  all_deleted [] = []
  all_deleted ((k, f) ∷ index) = assign string_discrete k (none, deleted) (all_deleted index)

  unfoldable pub clear : MapLoader V → MapLoader V
  unfolding all_deleted
  clear s = record s { overlay = all_deleted s.index; keys_with_overlay = [] }
