-- ===== src/MapLoader/Runs.antt =====
-- src/libsystemutility/fileutility.hpp: runs of calls of `map_loader`, and the same on maps.
use mesh_pp.Prelude.{
  ◌≡◌, refl, ap, ◌∙◌, subst, not, Option, none, List, [], ◌∷◌, String, string_discrete, Map, find,
  if_pos, if_neg,
}
use mesh_pp.MapLoader.State.{
  MapLoader, unchanged, modified, Files, IndexFile, Answer, done, answer, reach, at, at_const,
  change_packet, insert, remove, contains, clear, open_loader,
}
use mesh_pp.MapLoader.Save.{discard_loader, commit, save}
use mesh_pp.MapLoader.Refines.{is_some, set_at, Maps, Stored, Represents}
use mesh_pp.MapLoader.Entries.{changed_some}
use mesh_pp.MapLoader.Keys.{
  found, kept, reach_entry-Represents, insert_entry-Represents, erase_entry-Represents,
}
use mesh_pp.MapLoader.Whole.{
  cleared, saved_maps, committed_maps, discarded, clear-Represents, commit-Represents,
  discard-Represents, save-Represents, open_loader-Represents,
}

-- A call of the class. What the caller makes of a value under a reference is a function.
pub data Call (V : Type 0) : Type 0 where
  at_call : String → (V → V) → Call V
  at_const_call : String → Call V
  insert_call : String → V → Call V
  erase_call : String → Call V
  contains_call : String → Call V
  clear_call : Call V
  save_call : Call V
  commit_call : Call V
  discard_call : Call V

module _ {V : Type 0} (filename : String → String) where
  unfoldable pub call : Call V → MapLoader V → MapLoader V × Answer V
  unfolding at at_const insert remove contains clear save commit discard_loader
  call (at_call k g) s = at filename k g s
  call (at_const_call k) s = at_const filename k s
  call (insert_call k v) s = insert k v s
  call (erase_call k) s = remove k s
  call (contains_call k) s = contains k s
  call clear_call s = (clear s, done)
  call save_call s = save filename s
  call commit_call s = (commit s, done)
  call discard_call s = (discard_loader s, done)

  -- What the calls give to their callers, one after the other.
  unfoldable pub calls : List (Call V) → MapLoader V → List (Answer V)
  unfolding call
  calls [] s = []
  calls (c ∷ cs) s = let after = call c s in after.1 ∷ calls cs after.0

module _ {V : Type 0} where
  -- The same on three maps.
  unfoldable pub call_maps : Call V → Maps V → Maps V × Answer V
  call_maps (at_call k g) a = (
    record a { current = set_at k (change_packet g (a.current k)) a.current },
    found (a.current k),
  )
  call_maps (at_const_call k) a = (a, found (a.current k))
  call_maps (insert_call k v) a = (
    record a { current = set_at k (kept v (a.current k)) a.current },
    answer (not (is_some (a.current k))),
  )
  call_maps (erase_call k) a =
      (record a { current = set_at k none a.current }, answer (is_some (a.current k)))
  call_maps (contains_call k) a = (a, answer (is_some (a.current k)))
  call_maps clear_call a = (cleared a, done)
  call_maps save_call a = (saved_maps a, done)
  call_maps commit_call a = (committed_maps a, done)
  call_maps discard_call a = (discarded a, done)

  unfoldable pub calls_maps : List (Call V) → Maps V → List (Answer V)
  unfolding call_maps
  calls_maps [] a = []
  calls_maps (c ∷ cs) a = let after = call_maps c a in after.1 ∷ calls_maps cs after.0

module _ {V : Type 0} (filename : String → String) where
  same_maps :
      (k : String) (a : Maps V) → record a { current = set_at k (a.current k) a.current } ≡ a
  same_maps k a = λ i. record a { current = λ j. set_at_same j i }
    where
      set_at_same : (j : String) → set_at k (a.current k) a.current j ≡ a.current j
      set_at_same j = elim (string_discrete k j) [
        | yes p ↦ if_pos (string_discrete k j) p (a.current k) (a.current j) ∙ ap a.current p
        | no n ↦ if_neg (string_discrete k j) n (a.current k) (a.current j)
      ]

  -- A call does on a loader what it does on the maps that the loader stands for, and answers the same.
  pub call-Represents :
      (c : Call V) (s : MapLoader V) (a : Maps V)
      → Represents filename s a
      → Represents filename (call filename c s).0 (call_maps c a).0
        × ((call filename c s).1 ≡ (call_maps c a).1)
  unfolding call call_maps at at_const reach insert remove contains change_packet
  call-Represents (at_call k g) s a r =
      reach_entry-Represents filename s a r k (change_packet g) modified refl (changed_some g)
        (λ saved c e l. (refl, changed_some g c ∙ l)) (find string_discrete k s.overlay)
        (find string_discrete k s.index) refl refl
  call-Represents (at_const_call k) s a r =
      let (r', e) =
        reach_entry-Represents filename s a r k (λ c. c) unchanged refl (λ c. refl)
          (λ saved c e l. (e, refl, l)) (find string_discrete k s.overlay)
          (find string_discrete k s.index) refl refl in
      (subst (Represents filename (call filename (at_const_call k) s).0) (same_maps k a) r', e)
  call-Represents (insert_call k v) s a r =
      insert_entry-Represents filename s a r k v (find string_discrete k s.overlay)
        (find string_discrete k s.index) refl refl
  call-Represents (erase_call k) s a r =
      erase_entry-Represents filename s a r k (find string_discrete k s.overlay)
        (find string_discrete k s.index) refl refl
  call-Represents (contains_call k) s a r = (r, ap answer (r.live.keys_are k))
  call-Represents clear_call s a r = (clear-Represents filename s a r, refl)
  call-Represents save_call s a r = save-Represents filename s a r
  call-Represents commit_call s a r = (commit-Represents filename s a r, refl)
  call-Represents discard_call s a r = (discard-Represents filename s a r, refl)

  calls-Represents :
      (cs : List (Call V)) (s : MapLoader V) (a : Maps V)
      → Represents filename s a
      → calls filename cs s ≡ calls_maps cs a
  unfolding calls calls_maps
  calls-Represents [] s a r = refl
  calls-Represents (c ∷ cs) s a r =
      let (r', e) = call-Represents c s a r in
      ap (λ t. t ∷ calls filename cs (call filename c s).0) e
      ∙ ap (λ t. (call_maps c a).1 ∷ t)
          (calls-Represents cs (call filename c s).0 (call_maps c a).0 r')

  -- A `map_loader` that is opened on an index and files that keep a map answers every run of calls
  -- (`at`, `insert`, `erase`, `contains`, `clear`, `save`, `commit` and `discard`) as three maps
  -- do, the current, the saved and the committed one: `save` copies the first to the second,
  -- `commit` the second to the third, and `discard` the third to both others. So no call meets the
  -- `logic_error` for keys that the overlay and the index disagree on.
  pub calls-calls_maps :
      (cs : List (Call V)) (index : Map String String) (index_file : IndexFile) (files : Files V)
      (g : String → Option V)
      → Stored filename index index_file files g
      → calls filename cs (open_loader index index_file files)
        ≡ calls_maps cs (record { current = g; saved = g; committed = g })
  calls-calls_maps cs index index_file files g t =
      calls-Represents cs (open_loader index index_file files)
        (record { current = g; saved = g; committed = g })
        (open_loader-Represents filename index index_file files g t)
