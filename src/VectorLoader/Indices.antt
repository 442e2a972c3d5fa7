-- ===== src/VectorLoader/Indices.antt =====
-- src/libsystemutility/fileutility.hpp: the calls of `vector_loader` on one index, against a list.
use mesh_pp.Prelude.{
  ℕ, zero, suc, ◌<◌, ◌≤◌, ◌≡◌, refl, sym, ap, ◌∙◌, subst, Bool, true, false, Option, none, some,
  List, [], ◌∷◌, ◌++◌, String, ℕ_discrete, find, arith, leb, length, get_elem?, length-append,
}
use mesh_pp.MapLoader.State.{Code, unchanged, deleted, modified, Answer, done, value, out_of_range}
use mesh_pp.MapLoader.Refines.{is_some, IsEntry}
use mesh_pp.MapLoader.Keys.{found, found_some, found_none}
use mesh_pp.MapLoader.Entries.{put_at}
use mesh_pp.VectorLoader.State.{
  VectorLoader, put_change, load_change, reach_change, push_back, pop_known, pop_change, pop_at,
}
use mesh_pp.VectorLoader.Refines.{
  Lists, Mirrors, drop_last, length-drop_last, get_elem?-drop_last, get_elem?-append_one,
  get_elem?-is_some, kept-Mirrors, put_change-Mirrors, erase-Mirrors,
}

pub empty_option : {V : Type 0} (o : Option V) → is_some o ≡ false → o ≡ none
empty_option none e = refl
empty_option (some v) e = absurd (ground (arith, e))

-- What a call of `pop_back` answers, for a list of this length.
unfoldable pub popped_answer : {V : Type 0} → ℕ → Answer V
popped_answer zero = out_of_range
popped_answer (suc n) = done

pub some_below :
    {V : Type 0} (xs : List V) (i : ℕ) → i < length xs → is_some (get_elem? xs i) ≡ true
some_below xs i h = ground (arith, get_elem?-is_some xs i)

pub none_above : {V : Type 0} (xs : List V) (i : ℕ) → length xs ≤ i → get_elem? xs i ≡ none
none_above xs i h = empty_option (get_elem? xs i) (ground (arith, get_elem?-is_some xs i))

module _ {V : Type 0} (filename : ℕ → String) (s : VectorLoader V) (a : Lists V)
    (r : Mirrors filename s a) where
  module _ (k : ℕ) (change : Option V → Option V) (code : Code) (current : List V)
      (f : (j : ℕ)
        → get_elem? current j
          ≡ put_at ℕ_discrete k (change (get_elem? a.current k)) (get_elem? a.current) j)
      (l : s.size_with_overlay ≡ length current)
      (change_some : (c : Option V) → is_some (change c) ≡ is_some c)
      (fresh : (x c : Option V)
        → x ≡ c
        → is_some c ≡ true
        → IsEntry x (change c) (some (change c, code))) where
    change_none : get_elem? a.current k ≡ none → change (get_elem? a.current k) ≡ none
    change_none e =
        empty_option (change (get_elem? a.current k))
          (change_some (get_elem? a.current k) ∙ ap is_some e)

    put_fresh :
        (v : Option V)
        → v ≡ get_elem? a.current k
        → get_elem? a.saved k ≡ get_elem? a.current k
        → is_some (get_elem? a.current k) ≡ true
        → Mirrors filename (put_change k (change v) code s) (record a { current = current })
          × (value v ≡ found (get_elem? a.current k))
    unfolding put_change
    put_fresh v p q e = (
      put_change-Mirrors filename s a r k s.size_with_overlay (change (get_elem? a.current k))
          current f l (change v) code
          (subst
            (λ t.
              IsEntry (get_elem? a.saved k) (change (get_elem? a.current k))
                (some (change t, code)))
            (sym p) (fresh (get_elem? a.saved k) (get_elem? a.current k) q e)),
      ap value p ∙ found_some (get_elem? a.current k) e,
    )

    load_change-Mirrors :
        (b : Bool)
        → leb s.size k ≡ b
        → find ℕ_discrete k s.overlay ≡ none
        → get_elem? a.saved k ≡ get_elem? a.current k
        → Mirrors filename
            (load_change filename k change code s b).0
            (record a { current = current })
          × ((load_change filename k change code s b).1 ≡ found (get_elem? a.current k))
    unfolding load_change
    load_change-Mirrors true e g q =
        let h : get_elem? a.saved k ≡ none = none_above a.saved k (ground (arith, r.size_is, e)) in
        (
          kept-Mirrors filename s a r k s.size_with_overlay (change (get_elem? a.current k)) current
              f l
              (subst (IsEntry (get_elem? a.saved k) (change (get_elem? a.current k))) (sym g)
                (h ∙ sym (change_none (sym q ∙ h)))),
          found_none (get_elem? a.current k) (sym q ∙ h),
        )
    load_change-Mirrors false e g q =
        let h : is_some (get_elem? a.saved k) ≡ true =
          some_below a.saved k (ground (arith, r.size_is, e)) in
        put_fresh (s.files (filename k) k) (r.files_are k ∙ q) q (ap is_some (sym q) ∙ h)

    pub reach_change-Mirrors :
        (entry : Option (Option V × Code))
        → find ℕ_discrete k s.overlay ≡ entry
        → IsEntry (get_elem? a.saved k) (get_elem? a.current k) entry
        → Mirrors filename
            (reach_change filename k change code s entry).0
            (record a { current = current })
          × ((reach_change filename k change code s entry).1 ≡ found (get_elem? a.current k))
    unfolding reach_change put_change
    reach_change-Mirrors none g i = load_change-Mirrors (leb s.size k) refl g i
    reach_change-Mirrors (some (v, unchanged)) g i = put_fresh v i.1 i.0 i.2
    reach_change-Mirrors (some (v, modified)) g i = (
      put_change-Mirrors filename s a r k s.size_with_overlay (change (get_elem? a.current k))
          current f l (change v) modified
          (ap change i.0, change_some (get_elem? a.current k) ∙ i.1),
      ap value i.0 ∙ found_some (get_elem? a.current k) i.1,
    )
    reach_change-Mirrors (some (v, deleted)) g i = (
      kept-Mirrors filename s a r k s.size_with_overlay (change (get_elem? a.current k)) current f l
          (subst (IsEntry (get_elem? a.saved k) (change (get_elem? a.current k))) (sym g)
            (change_none i.0, i.1)),
      found_none (get_elem? a.current k) i.0,
    )

  pub push_back-Mirrors :
      (v : V) → Mirrors filename (push_back v s) (record a { current = a.current ++ v ∷ [] })
  unfolding push_back
  push_back-Mirrors v =
      put_change-Mirrors filename s a r s.size_with_overlay (suc s.size_with_overlay) (some v)
        (a.current ++ v ∷ [])
        (λ j.
          subst
            (λ t.
              get_elem? (a.current ++ v ∷ []) j
              ≡ put_at ℕ_discrete t (some v) (get_elem? a.current) j)
            (sym r.size_with_is) (get_elem?-append_one v a.current j))
        (omega (arith, r.size_with_is, length-append a.current (v ∷ []))) (some v) modified
        (refl, refl)

  module _ (index : ℕ) (q : s.size_with_overlay ≡ suc index) where
    length_is : length a.current ≡ suc index
    length_is = sym r.size_with_is ∙ q

    pop_known-Mirrors :
        (b : Bool) (v : Option V)
        → leb s.size index ≡ b
        → Mirrors filename
            (record (pop_known b index v s) { size_with_overlay = index })
            (record a { current = drop_last a.current })
    unfolding pop_known
    pop_known-Mirrors true v e =
        erase-Mirrors filename s a r index index none (drop_last a.current)
          (λ j. get_elem?-drop_last a.current index j length_is)
          (sym (length-drop_last a.current length_is))
          (none_above a.saved index (ground (arith, r.size_is, e)))
    pop_known-Mirrors false v e =
        put_change-Mirrors filename s a r index index none (drop_last a.current)
          (λ j. get_elem?-drop_last a.current index j length_is)
          (sym (length-drop_last a.current length_is)) v deleted
          (refl, some_below a.saved index (ground (arith, r.size_is, e)))

    pub pop_change-Mirrors :
        (entry : Option (Option V × Code))
        → IsEntry (get_elem? a.saved index) (get_elem? a.current index) entry
        → Mirrors filename
            (record (pop_change index entry s) { size_with_overlay = index })
            (record a { current = drop_last a.current })
    unfolding pop_change
    pop_change-Mirrors none i =
        put_change-Mirrors filename s a r index index none (drop_last a.current)
          (λ j. get_elem?-drop_last a.current index j length_is)
          (sym (length-drop_last a.current length_is)) none deleted
          (refl, ap is_some i ∙ some_below a.current index (omega (arith, length_is)))
    pop_change-Mirrors (some (v, code)) i = pop_known-Mirrors (leb s.size index) v refl

  pub pop_at-Mirrors :
      (n : ℕ)
      → s.size_with_overlay ≡ n
      → Mirrors filename (pop_at n s).0 (record a { current = drop_last a.current })
        × ((pop_at n s).1 ≡ popped_answer n)
  unfolding pop_at popped_answer drop_last
  pop_at-Mirrors zero q = (emptied a.current refl (sym r.size_with_is ∙ q), refl)
    where
      emptied :
          (xs : List V)
          → a.current ≡ xs
          → length a.current ≡ 0
          → Mirrors filename s (record a { current = drop_last a.current })
      emptied [] e l =
          subst (λ t. Mirrors filename s (record a { current = t })) (e ∙ ap drop_last (sym e)) r
      emptied (x ∷ xs) e l = absurd (omega (arith, l, ap length e))
  pop_at-Mirrors (suc index) q =
      (pop_change-Mirrors index q (find ℕ_discrete index s.overlay) (r.entries_are index), refl)
