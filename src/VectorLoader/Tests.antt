-- ===== src/VectorLoader/Tests.antt =====
-- src/libsystemutility/fileutility.hpp: a run of a `vector_loader`, and the theorem about it.
use mesh_pp.Prelude.{ℕ, ◌+◌, ◌≡◌, refl, some, List, [], ◌∷◌, String, get_elem?}
use mesh_pp.MapLoader.Filename.{vector_filename}
use mesh_pp.MapLoader.State.{done, value, out_of_range}
use mesh_pp.VectorLoader.State.{Blocks, open_vector}
use mesh_pp.VectorLoader.Refines.{Kept}
use mesh_pp.VectorLoader.Runs.{
  VectorCall, at_index, at_const_index, push_call, pop_call, size_call, clear_all, save_all,
  commit_all, discard_all, Reply, reply, size_reply, vector_calls, list_calls,
  vector_calls-list_calls,
}

-- Two values to a file.
abbrev filename : ℕ → String
filename = vector_filename "data" 100 2

filename_test : filename 14 ≡ "data.0007"
unfolding vector_filename
filename_test = refl

-- Two values are saved.
abbrev saved_values : List ℕ
saved_values = 7 ∷ 8 ∷ []

abbrev blocks : Blocks ℕ
blocks f index = get_elem? saved_values index

blocks-Kept : Kept filename blocks saved_values
blocks-Kept j = refl

-- The list gets shorter, longer and shorter again than what is saved.
abbrev run : List (VectorCall ℕ)
run =
    pop_call
    ∷ push_call 9
    ∷ push_call 10
    ∷ at_index 0 (λ v. v + 1)
    ∷ save_all
    ∷ size_call
    ∷ at_const_index 2
    ∷ clear_all
    ∷ push_call 11
    ∷ at_const_index 1
    ∷ save_all
    ∷ size_call
    ∷ commit_all
    ∷ pop_call
    ∷ pop_call
    ∷ discard_all
    ∷ at_const_index 0
    ∷ size_call
    ∷ []

abbrev replies : List (Reply ℕ)
replies =
    reply done
    ∷ reply done
    ∷ reply done
    ∷ reply (value (some 7))
    ∷ reply done
    ∷ size_reply 3
    ∷ reply (value (some 10))
    ∷ reply done
    ∷ reply done
    ∷ reply out_of_range
    ∷ reply done
    ∷ size_reply 1
    ∷ reply done
    ∷ reply done
    ∷ reply out_of_range
    ∷ reply done
    ∷ reply (value (some 11))
    ∷ size_reply 1
    ∷ []

vector_calls_test : vector_calls filename run (open_vector 2 blocks) ≡ replies
unfolding vector_calls open_vector vector_filename get_elem?
vector_calls_test = refl

vector_calls-list_calls_example :
    vector_calls filename run (open_vector 2 blocks)
    ≡ list_calls run
        (record { current = saved_values; saved = saved_values; committed = saved_values })
vector_calls-list_calls_example =
    vector_calls-list_calls filename run 2 blocks saved_values refl blocks-Kept
