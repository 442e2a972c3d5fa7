-- ===== src/VectorLoader/Runs.antt =====
-- src/libsystemutility/fileutility.hpp: runs of calls of `vector_loader`, and the same on lists.
use mesh_pp.Prelude.{
  ℕ, ◌≡◌, refl, sym, ap, ◌∙◌, List, [], ◌∷◌, ◌++◌, String, ℕ_discrete, find, length, get_elem?,
}
use mesh_pp.MapLoader.State.{unchanged, modified, Answer, done, change_packet}
use mesh_pp.MapLoader.Entries.{put_at_self, changed_some}
use mesh_pp.MapLoader.Keys.{found}
use mesh_pp.VectorLoader.State.{
  Blocks, VectorLoader, open_vector, vector_at, vector_at_const, push_back, pop_back, clear_vector,
  save_vector, discard_vector, commit_vector,
}
use mesh_pp.VectorLoader.Refines.{
  Lists, Kept, Mirrors, modify_at, drop_last, length-modify_at, get_elem?-modify_at,
}
use mesh_pp.VectorLoader.Indices.{
  popped_answer, reach_change-Mirrors, push_back-Mirrors, pop_at-Mirrors,
}
use mesh_pp.VectorLoader.Whole.{
  open_vector-Mirrors, clear_vector-Mirrors, commit_vector-Mirrors, discard_vector-Mirrors,
}
use mesh_pp.VectorLoader.Saves.{save_vector-Mirrors}

-- A call of the class. What the caller makes of a value under a reference is a function.
pub data VectorCall (V : Type 0) : Type 0 where
  at_index : ℕ → (V → V) → VectorCall V
  at_const_index : ℕ → VectorCall V
  push_call : V → VectorCall V
  pop_call : VectorCall V
  size_call : VectorCall V
  clear_all : VectorCall V
  save_all : VectorCall V
  commit_all : VectorCall V
  discard_all : VectorCall V

-- What a call gives to its caller: an answer, or the size.
pub data Reply (V : Type 0) : Type 0 where
  reply : Answer V → Reply V
  size_reply : ℕ → Reply V

module _ {V : Type 0} (filename : ℕ → String) where
  unfoldable pub vector_call : VectorCall V → VectorLoader V → VectorLoader V × Reply V
  unfolding vector_at vector_at_const push_back pop_back clear_vector save_vector commit_vector
      discard_vector
  vector_call (at_index k g) s = let t = vector_at filename k g s in (t.0, reply t.1)
  vector_call (at_const_index k) s = let t = vector_at_const filename k s in (t.0, reply t.1)
  vector_call (push_call v) s = (push_back v s, reply done)
  vector_call pop_call s = let t = pop_back s in (t.0, reply t.1)
  vector_call size_call s = (s, size_reply s.size_with_overlay)
  vector_call clear_all s = (clear_vector s, reply done)
  vector_call save_all s = (save_vector filename s, reply done)
  vector_call commit_all s = (commit_vector s, reply done)
  vector_call discard_all s = (discard_vector s, reply done)

  unfoldable pub vector_calls : List (VectorCall V) → VectorLoader V → List (Reply V)
  unfolding vector_call
  vector_calls [] s = []
  vector_calls (c ∷ cs) s = let after = vector_call c s in after.1 ∷ vector_calls cs after.0

module _ {V : Type 0} where
  -- The same on three lists.
  unfoldable pub list_call : VectorCall V → Lists V → Lists V × Reply V
  unfolding modify_at drop_last popped_answer
  list_call (at_index k g) a =
      (record a { current = modify_at k g a.current }, reply (found (get_elem? a.current k)))
  list_call (at_const_index k) a = (a, reply (found (get_elem? a.current k)))
  list_call (push_call v) a = (record a { current = a.current ++ v ∷ [] }, reply done)
  list_call pop_call a =
      (record a { current = drop_last a.current }, reply (popped_answer (length a.current)))
  list_call size_call a = (a, size_reply (length a.current))
  list_call clear_all a = (record a { current = [] }, reply done)
  list_call save_all a = (record a { saved = a.current }, reply done)
  list_call commit_all a = (record a { committed = a.saved }, reply done)
  list_call discard_all a = (record a { current = a.committed; saved = a.committed }, reply done)

  unfoldable pub list_calls : List (VectorCall V) → Lists V → List (Reply V)
  unfolding list_call
  list_calls [] a = []
  list_calls (c ∷ cs) a = let after = list_call c a in after.1 ∷ list_calls cs after.0

module _ {V : Type 0} (filename : ℕ → String) where
  -- A call does on a loader what it does on the lists that the loader stands for.
  pub vector_call-Mirrors :
      (c : VectorCall V) (s : VectorLoader V) (a : Lists V)
      → Mirrors filename s a
      → Mirrors filename (vector_call filename c s).0 (list_call c a).0
        × ((vector_call filename c s).1 ≡ (list_call c a).1)
  unfolding vector_call list_call vector_at vector_at_const pop_back change_packet
  vector_call-Mirrors (at_index k g) s a r =
      let (r', e) =
        reach_change-Mirrors filename s a r k (change_packet g) modified (modify_at k g a.current)
          (get_elem?-modify_at k g a.current)
          (r.size_with_is ∙ sym (length-modify_at k g a.current)) (changed_some g)
          (λ x c q l. (refl, changed_some g c ∙ l)) (find ℕ_discrete k s.overlay) refl
          (r.entries_are k) in
      (r', ap reply e)
  vector_call-Mirrors (at_const_index k) s a r =
      let (r', e) =
        reach_change-Mirrors filename s a r k (λ c. c) unchanged a.current
          (λ j. sym (put_at_self ℕ_discrete k (get_elem? a.current) j)) r.size_with_is (λ c. refl)
          (λ x c q l. (q, refl, l)) (find ℕ_discrete k s.overlay) refl (r.entries_are k) in
      (r', ap reply e)
  vector_call-Mirrors (push_call v) s a r = (push_back-Mirrors filename s a r v, refl)
  vector_call-Mirrors pop_call s a r =
      let (r', e) = pop_at-Mirrors filename s a r s.size_with_overlay refl in
      (r', ap reply (e ∙ ap popped_answer r.size_with_is))
  vector_call-Mirrors size_call s a r = (r, ap size_reply r.size_with_is)
  vector_call-Mirrors clear_all s a r = (clear_vector-Mirrors filename s a r, refl)
  vector_call-Mirrors save_all s a r = (save_vector-Mirrors filename s a r, refl)
  vector_call-Mirrors commit_all s a r = (commit_vector-Mirrors filename s a r, refl)
  vector_call-Mirrors discard_all s a r = (discard_vector-Mirrors filename s a r, refl)

  vector_calls-Mirrors :
      (cs : List (VectorCall V)) (s : VectorLoader V) (a : Lists V)
      → Mirrors filename s a
      → vector_calls filename cs s ≡ list_calls cs a
  unfolding vector_calls list_calls
  vector_calls-Mirrors [] s a r = refl
  vector_calls-Mirrors (c ∷ cs) s a r =
      let (r', e) = vector_call-Mirrors c s a r in
      ap (λ t. t ∷ vector_calls filename cs (vector_call filename c s).0) e
      ∙ ap (λ t. (list_call c a).1 ∷ t)
          (vector_calls-Mirrors cs (vector_call filename c s).0 (list_call c a).0 r')

  -- A `vector_loader` that is opened on a size and files that keep a list answers every run of
  -- calls (`at`, `push_back`, `pop_back`, `size`, `clear`, `save`, `commit` and `discard`) as three
  -- lists do, the current, the saved and the committed one. So `save` leaves the size of the
  -- current list on the disk, whether the list got shorter or longer.
  pub vector_calls-list_calls :
      (cs : List (VectorCall V)) (n : ℕ) (files : Blocks V) (xs : List V)
      → n ≡ length xs
      → Kept filename files xs
      → vector_calls filename cs (open_vector n files)
        ≡ list_calls cs (record { current = xs; saved = xs; committed = xs })
  vector_calls-list_calls cs n files xs e f =
      vector_calls-Mirrors cs (open_vector n files)
        (record { current = xs; saved = xs; committed = xs })
        (open_vector-Mirrors filename n files xs e f)
