-- ===== src/MapLoader/Tests.antt =====
-- src/libsystemutility/fileutility.hpp: a run of a `map_loader`, and the theorem about it.
use mesh_pp.Prelude.{ℕ, ◌≡◌, refl, true, false, none, some, List, [], ◌∷◌, String, find}
use mesh_pp.MapLoader.Filename.{map_filename}
use mesh_pp.MapLoader.State.{
  Answer, done, answer, value, out_of_range, Files, IndexFile, open_loader,
}
use mesh_pp.MapLoader.Refines.{Stored}
use mesh_pp.MapLoader.Runs.{
  Call, at_call, at_const_call, insert_call, erase_call, contains_call, clear_call, save_call,
  commit_call, discard_call, calls, calls_maps, calls-calls_maps,
}

abbrev filename : String → String
filename = map_filename (λ k. 107) "data" 100

filename_test : filename "a" ≡ "data.0007"
unfolding map_filename
filename_test = refl

abbrev no_index : IndexFile
no_index k = none

abbrev no_files : Files ℕ
no_files f k = none

empty-Stored : Stored filename [] no_index no_files (λ k. none)
unfolding find
empty-Stored = record { index_is = λ k. refl; index_file_is = λ k. refl; files_are = λ k. refl }

-- A value that is saved and committed comes back after what followed is discarded.
abbrev run : List (Call ℕ)
run =
    insert_call "a" 1
    ∷ save_call
    ∷ commit_call
    ∷ insert_call "a" 2
    ∷ at_call "a" (λ v. 5)
    ∷ erase_call "a"
    ∷ insert_call "b" 3
    ∷ save_call
    ∷ contains_call "a"
    ∷ at_const_call "b"
    ∷ discard_call
    ∷ at_const_call "a"
    ∷ at_const_call "b"
    ∷ clear_call
    ∷ contains_call "a"
    ∷ []

abbrev answers : List (Answer ℕ)
answers =
    answer true
    ∷ done
    ∷ done
    ∷ answer false
    ∷ value (some 1)
    ∷ answer true
    ∷ answer true
    ∷ done
    ∷ answer false
    ∷ value (some 3)
    ∷ done
    ∷ value (some 1)
    ∷ out_of_range
    ∷ done
    ∷ answer false
    ∷ []

calls_test : calls filename run (open_loader [] no_index no_files) ≡ answers
unfolding calls open_loader map_filename
calls_test = refl

calls-calls_maps_example :
    calls filename run (open_loader [] no_index no_files)
    ≡ calls_maps run (record { current = λ k. none; saved = λ k. none; committed = λ k. none })
calls-calls_maps_example =
    calls-calls_maps filename run [] no_index no_files (λ k. none) empty-Stored
