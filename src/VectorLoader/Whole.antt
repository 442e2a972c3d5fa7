-- ===== src/VectorLoader/Whole.antt =====
-- src/libsystemutility/fileutility.cpp: the calls of `vector_loader` on all indices, against lists.
use mesh_pp.Prelude.{
  ℕ, zero, suc, ◌≡◌, refl, sym, ap, ◌∙◌, subst, Bool, true, false, Option, none, some, List, [],
  String, ℕ_discrete, find, Unique, find-assign, assign-Unique, arith, ltb, length, get_elem?, ite,
}
use mesh_pp.MapLoader.State.{Code, deleted}
use mesh_pp.MapLoader.Refines.{is_some, IsEntry}
use mesh_pp.VectorLoader.State.{
  Blocks, VectorLoader, open_vector, all_gone, clear_vector, discard_vector_under, discard_vector,
  commit_vector_under, commit_vector,
}
use mesh_pp.VectorLoader.Refines.{Lists, Kept, Mirrors, with_Mirrors, get_elem?-is_some}

all_gone-Unique : (V : Type 0) (n : ℕ) → Unique ℕ_discrete (all_gone {V = V} n)
unfolding all_gone
all_gone-Unique V zero = tt
all_gone-Unique V (suc n) =
    assign-Unique ℕ_discrete n (none, deleted) (all_gone n) (all_gone-Unique V n)

module _ {V : Type 0} where
  abbrev gone_if : Bool → Option (Option V × Code)
  gone_if true = some (none, deleted)
  gone_if false = none

  find-all_gone : (j n : ℕ) → find ℕ_discrete j (all_gone {V = V} n) ≡ gone_if (ltb j n)
  unfolding all_gone find
  find-all_gone j zero = ground arith
  find-all_gone j (suc n) =
      find-assign ℕ_discrete n j (none, deleted) (all_gone n)
      ∙ ap (ite (ℕ_discrete n j) (some (none, deleted))) (find-all_gone j n)
      ∙ ground arith

  gone_if-IsEntry : (o : Option V) → IsEntry o none (gone_if (is_some o))
  gone_if-IsEntry none = refl
  gone_if-IsEntry (some v) = (refl, refl)

module _ {V : Type 0} (filename : ℕ → String) where
  pub open_vector-Mirrors :
      (n : ℕ) (files : Blocks V) (xs : List V)
      → n ≡ length xs
      → Kept filename files xs
      → Mirrors filename (open_vector n files) (record { current = xs; saved = xs; committed = xs })
  unfolding open_vector find
  open_vector-Mirrors n files xs e f = record {
    size_is = e;
    size_with_is = e;
    entries_are = λ j. refl;
    is_unique = tt;
    size_file_is = e;
    files_are = f;
    disk_size_file_is = e;
    disk_files_are = f;
    is_committed = λ q. refl;
  }

  module _ (s : VectorLoader V) (a : Lists V) (r : Mirrors filename s a) where
    pub clear_vector-Mirrors : Mirrors filename (clear_vector s) (record a { current = [] })
    unfolding clear_vector get_elem?
    clear_vector-Mirrors =
        with_Mirrors filename s a r (all_gone s.size) [] 0
          (λ j.
            subst (IsEntry (get_elem? a.saved j) none)
              (ap gone_if (get_elem?-is_some a.saved j ∙ ap (ltb j) (sym r.size_is))
                ∙ sym (find-all_gone j s.size))
              (gone_if-IsEntry (get_elem? a.saved j)))
          (all_gone-Unique V s.size) refl

    commit_vector_under-Mirrors :
        (b : Bool)
        → s.has_transaction ≡ b
        → Mirrors filename (commit_vector_under b s) (record a { committed = a.saved })
    unfolding commit_vector_under
    commit_vector_under-Mirrors true e = record {
      size_is = r.size_is;
      size_with_is = r.size_with_is;
      entries_are = r.entries_are;
      is_unique = r.is_unique;
      size_file_is = r.size_file_is;
      files_are = r.files_are;
      disk_size_file_is = r.size_file_is;
      disk_files_are = r.files_are;
      is_committed = λ q. refl;
    }
    commit_vector_under-Mirrors false e =
        subst (λ t. Mirrors filename s (record a { committed = t })) (sym (r.is_committed e)) r

    pub commit_vector-Mirrors :
        Mirrors filename (commit_vector s) (record a { committed = a.saved })
    unfolding commit_vector
    commit_vector-Mirrors = commit_vector_under-Mirrors s.has_transaction refl

    discard_vector_under-Mirrors :
        (b : Bool)
        → s.has_transaction ≡ b
        → Mirrors filename
            (discard_vector_under b s)
            (record a { current = a.committed; saved = a.committed })
    unfolding discard_vector_under find
    discard_vector_under-Mirrors true e = record {
      size_is = r.disk_size_file_is;
      size_with_is = r.disk_size_file_is;
      entries_are = λ j. refl;
      is_unique = tt;
      size_file_is = r.disk_size_file_is;
      files_are = r.disk_files_are;
      disk_size_file_is = r.disk_size_file_is;
      disk_files_are = r.disk_files_are;
      is_committed = λ q. refl;
    }
    discard_vector_under-Mirrors false e = record {
      size_is = r.disk_size_file_is;
      size_with_is = r.disk_size_file_is;
      entries_are = λ j. refl;
      is_unique = tt;
      size_file_is = r.size_file_is ∙ ap length (r.is_committed e);
      files_are = subst (Kept filename s.files) (r.is_committed e) r.files_are;
      disk_size_file_is = r.disk_size_file_is;
      disk_files_are = r.disk_files_are;
      is_committed = λ q. refl;
    }

    pub discard_vector-Mirrors :
        Mirrors filename
          (discard_vector s)
          (record a { current = a.committed; saved = a.committed })
    unfolding discard_vector
    discard_vector-Mirrors = discard_vector_under-Mirrors s.has_transaction refl
