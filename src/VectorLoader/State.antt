-- ===== src/VectorLoader/State.antt =====
-- src/libsystemutility/fileutility.hpp and fileutility.cpp: `vector_loader` and
-- `vector_loader_internals`, over the files that a transaction sees.
use mesh_pp.Prelude.{
  ℕ, zero, suc, Bool, true, false, Option, none, some, [], ◌∷◌, String, string_discrete, ℕ_discrete,
  ite, Map, find, erase, assign, if◌then◌else◌, ltb, leb,
}
use mesh_pp.MapLoader.State.{
  Code, unchanged, deleted, modified, Answer, done, value, out_of_range, change_packet,
}

-- What the files give for a file name and an index.
abbrev pub Blocks : Type 0 → Type 0
Blocks V = String → ℕ → Option V

abbrev pub Changes : Type 0 → Type 0
Changes V = Map ℕ (Option V × Code)

pub record VectorLoader (V : Type 0) : Type 0 where
  pub size : ℕ
  pub size_with_overlay : ℕ
  pub overlay : Changes V
  -- Whether there is a transaction, what is read under it, and what is read without it.
  pub has_transaction : Bool
  pub size_file : ℕ
  pub files : Blocks V
  pub disk_size_file : ℕ
  pub disk_files : Blocks V

module _ {V : Type 0} where
  -- The constructor, on the files as they are.
  unfoldable pub open_vector : ℕ → Blocks V → VectorLoader V
  open_vector size_file files = record {
    size = size_file;
    size_with_overlay = size_file;
    overlay = [];
    has_transaction = false;
    size_file = size_file;
    files = files;
    disk_size_file = size_file;
    disk_files = files;
  }

  unfoldable pub put_change : ℕ → Option V → Code → VectorLoader V → VectorLoader V
  unfolding assign ℕ_discrete
  put_change index v code s = record s { overlay = assign ℕ_discrete index (v, code) s.overlay }

  -- `load`, after the guard on the size.
  unfoldable pub load_change :
      (ℕ → String)
      → ℕ
      → (Option V → Option V)
      → Code
      → VectorLoader V
      → Bool
      → VectorLoader V × Answer V
  unfolding put_change
  load_change filename index change code s true = (s, out_of_range)
  load_change filename index change code s false =
      let item = s.files (filename index) index in
      (put_change index (change item) code s, value item)

  -- `at`, with what the caller makes of the value; `code` is what the overlay then says of it.
  unfoldable pub reach_change :
      (ℕ → String)
      → ℕ
      → (Option V → Option V)
      → Code
      → VectorLoader V
      → Option (Option V × Code)
      → VectorLoader V × Answer V
  unfolding put_change load_change
  reach_change filename index change code s (some (v, deleted)) = (s, out_of_range)
  reach_change filename index change code s (some (v, unchanged)) =
      (put_change index (change v) code s, value v)
  reach_change filename index change code s (some (v, modified)) =
      (put_change index (change v) modified s, value v)
  reach_change filename index change code s none =
      load_change filename index change code s (leb s.size index)

  unfoldable pub vector_at : (ℕ → String) → ℕ → (V → V) → VectorLoader V → VectorLoader V × Answer V
  unfolding find ℕ_discrete reach_change change_packet
  vector_at filename index g s =
      reach_change filename index (change_packet g) modified s (find ℕ_discrete index s.overlay)

  unfoldable pub vector_at_const : (ℕ → String) → ℕ → VectorLoader V → VectorLoader V × Answer V
  unfolding find ℕ_discrete reach_change
  vector_at_const filename index s =
      reach_change filename index (λ v. v) unchanged s (find ℕ_discrete index s.overlay)

  unfoldable pub push_back : V → VectorLoader V → VectorLoader V
  unfolding put_change
  push_back v s = record (put_change s.size_with_overlay (some v) modified s) {
    size_with_overlay = suc s.size_with_overlay;
  }

  -- An entry that is not saved is taken out of the overlay, and another is marked in it.
  unfoldable pub pop_known : Bool → ℕ → Option V → VectorLoader V → VectorLoader V
  unfolding put_change erase ℕ_discrete
  pop_known true index v s = record s { overlay = erase ℕ_discrete index s.overlay }
  pop_known false index v s = put_change index v deleted s

  unfoldable pub pop_change : ℕ → Option (Option V × Code) → VectorLoader V → VectorLoader V
  unfolding put_change pop_known
  pop_change index none s = put_change index none deleted s
  pop_change index (some (v, code)) s = pop_known (leb s.size index) index v s

  unfoldable pub pop_at : ℕ → VectorLoader V → VectorLoader V × Answer V
  unfolding pop_change find ℕ_discrete
  pop_at zero s = (s, out_of_range)
  pop_at (suc index) s = (
    record (pop_change index (find ℕ_discrete index s.overlay) s) { size_with_overlay = index },
    done,
  )

  -- `pop_back`; the exception of an empty container is answered as one of an index.
  unfoldable pub pop_back : VectorLoader V → VectorLoader V × Answer V
  unfolding pop_at
  pop_back s = pop_at s.size_with_overlay s

  -- The loop of `clear`, over the indices below the size.
  unfoldable pub all_gone : ℕ → Changes V
  unfolding assign ℕ_discrete
  all_gone zero = []
  all_gone (suc index) = assign ℕ_discrete index (none, deleted) (all_gone index)

  unfoldable pub clear_vector : VectorLoader V → VectorLoader V
  unfolding all_gone
  clear_vector s = record s { overlay = all_gone s.size; size_with_overlay = 0 }

  -- A write to the files.
  unfoldable pub put_block : String → ℕ → Option V → Blocks V → Blocks V
  unfolding string_discrete ℕ_discrete
  put_block f index v files =
      λ g j. ite (string_discrete f g) (ite (ℕ_discrete index j) v (files g j)) (files g j)

  -- The first turn of the loop of `save`: the indices that are deleted.
  unfoldable pub save_gone : (ℕ → String) → Changes V → ℕ × Blocks V → ℕ × Blocks V
  unfolding put_block
  save_gone filename [] t = t
  save_gone filename ((index, (v, deleted)) ∷ overlay) (size, files) =
      save_gone filename overlay
        (if ltb index size then index else size, put_block (filename index) index none files)
  save_gone filename ((index, (v, unchanged)) ∷ overlay) t = save_gone filename overlay t
  save_gone filename ((index, (v, modified)) ∷ overlay) t = save_gone filename overlay t

  -- The second turn: the indices that are modified.
  unfoldable pub save_changed : (ℕ → String) → Changes V → ℕ × Blocks V → ℕ × Blocks V
  unfolding put_block
  save_changed filename [] t = t
  save_changed filename ((index, (v, modified)) ∷ overlay) (size, files) =
      save_changed filename overlay
        (if leb size index then suc index else size, put_block (filename index) index v files)
  save_changed filename ((index, (v, unchanged)) ∷ overlay) t = save_changed filename overlay t
  save_changed filename ((index, (v, deleted)) ∷ overlay) t = save_changed filename overlay t

  unfoldable pub save_changes : (ℕ → String) → Changes V → VectorLoader V → VectorLoader V
  unfolding save_gone save_changed
  save_changes filename [] s = s
  save_changes filename (e ∷ overlay) s =
      let t = save_changed filename s.overlay (save_gone filename s.overlay (s.size, s.files)) in
      record s { size = t.0; overlay = []; has_transaction = true; size_file = t.0; files = t.1 }

  unfoldable pub save_vector : (ℕ → String) → VectorLoader V → VectorLoader V
  unfolding save_changes
  save_vector filename s = save_changes filename s.overlay s

  unfoldable pub discard_vector_under : Bool → VectorLoader V → VectorLoader V
  discard_vector_under true s = record s {
    size = s.disk_size_file;
    size_with_overlay = s.disk_size_file;
    overlay = [];
    has_transaction = false;
    size_file = s.disk_size_file;
    files = s.disk_files;
  }
  discard_vector_under false s = record s {
    size = s.disk_size_file;
    size_with_overlay = s.disk_size_file;
    overlay = [];
  }

  -- `discard`: the transaction is rolled back and the size is read again.
  unfoldable pub discard_vector : VectorLoader V → VectorLoader V
  unfolding discard_vector_under
  discard_vector s = discard_vector_under s.has_transaction s

  unfoldable pub commit_vector_under : Bool → VectorLoader V → VectorLoader V
  commit_vector_under true s = record s {
    has_transaction = false;
    disk_size_file = s.size_file;
    disk_files = s.files;
  }
  commit_vector_under false s = s

  unfoldable pub commit_vector : VectorLoader V → VectorLoader V
  unfolding commit_vector_under
  commit_vector s = commit_vector_under s.has_transaction s
