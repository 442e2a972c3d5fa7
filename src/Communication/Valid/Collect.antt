-- ===== src/Communication/Valid/Collect.antt =====
-- src/libp2psocket/p2pstate.cpp: the first loop of `remove_pending` returns, and takes out of
-- `map_to_remove` the entries whose steps have run out.
use mesh_pp.Prelude.{
  ℕ, ◌≡◌, ◌≢◌, ◌<◌, ◌⊎◌, refl, sym, subst, String, string_discrete, ℕ_discrete, Bool, true, false,
  Option, none, some, List, [], ◌∷◌, find-cons, Map, find, All, All-mono, At, At-lt, Unique, length,
  contains, ◌==◌, if◌then◌else◌, Bool-cases, Option-cases, arith, ite, if_pos, if_neg, inl, inr,
}
use mesh_pp.Net.{Net}
use mesh_pp.Communication.State.{ToRemoveInfo, StateItem, key}
use mesh_pp.Communication.Removal.{Collected, collect_entry, collect_step, collect}
use mesh_pp.Communication.Invariant.{Removals}
use mesh_pp.Communication.Valid.Pending.{Distinct}

-- An entry that is not due yet.
abbrev pub later : Option ToRemoveInfo → Option ToRemoveInfo
later none = none
later (some info) = if info.steps == 0 then none else some info

abbrev pub IsDue : Map ℕ ToRemoveInfo → ℕ → Type 0
IsDue m i = (info : ToRemoveInfo) × (find ℕ_discrete i m ≡ some info) × (info.steps ≡ 0)

module _ (net : Net) (peers : List (StateItem net)) where
  -- The indices are those of the entries that are due, each once; the other entries are kept.
  pub record Collects (m : Map ℕ ToRemoveInfo) (c : Collected net) : Type 0 where
    pub due : All (IsDue m) c.indices
    pub complete : (i : ℕ) → IsDue m i → contains i c.indices ≡ true
    pub waiting : (i : ℕ) → find ℕ_discrete i c.kept ≡ later (find ℕ_discrete i m)
    pub distinct : Distinct c.indices
    pub in_range : All (λ i. i < length peers) c.indices
    pub removals : Removals net peers c.kept
    pub unique : Unique ℕ_discrete c.kept

  module _ (index : ℕ) (info : ToRemoveInfo) (m : Map ℕ ToRemoveInfo)
      (fresh : find ℕ_discrete index m ≡ none) where
    -- An index that is due is not the new one.
    other : (i : ℕ) → IsDue m i → i ≢ index
    other i (o, e, z) q = ground (arith, fresh, e, q)

    IsDue-cons : (i : ℕ) → IsDue m i → IsDue ((index, info) ∷ m) i
    IsDue-cons i (o, e, z) = (
      o,
      rw (find-cons ℕ_discrete index i info m, if_neg _ (λ q. other i (o, e, z) (sym q))) e,
      z,
    )

    -- An index of the longer map is the new one or an old one.
    IsDue-cases :
        (i : ℕ) → IsDue ((index, info) ∷ m) i → ((i ≡ index) × (info.steps ≡ 0)) ⊎ IsDue m i
    IsDue-cases i (o, e, z) = elim (ℕ_discrete index i) [
      | yes q ↦
          let e' = rw (find-cons ℕ_discrete index i info m, if_pos _ q) at e in
          inl (sym q, ground (arith, e', z))
      | no n ↦ inr (o, rw (find-cons ℕ_discrete index i info m, if_neg _ n) at e, z)
    ]

    collect_due :
        (c c' : Collected net)
        → Collects m c
        → index < length peers
        → info.steps ≡ 0
        → c'.indices ≡ index ∷ c.indices
        → c'.kept ≡ c.kept
        → Collects ((index, info) ∷ m) c'
    unfolding contains
    collect_due c c' h l z ei ek = record {
      due = subst (All (IsDue ((index, info) ∷ m))) (sym ei) (
        (info, rw (find-cons ℕ_discrete index index info m) (ground arith), z),
        All-mono c.indices IsDue-cons h.due,
      );
      complete = λ i d. rw ei (elim (IsDue-cases i d) [
        | inl (q, _) ↦ ground (arith, q)
        | inr d' ↦ ground (arith, h.complete i d')
      ]);
      waiting =
          λ i. rw ek (ground (arith, h.waiting i, find-cons ℕ_discrete index i info m, fresh, z));
      distinct = subst Distinct (sym ei) (All-mono c.indices other h.due, h.distinct);
      in_range = subst (All (λ i. i < length peers)) (sym ei) (l, h.in_range);
      removals = subst (Removals net peers) (sym ek) h.removals;
      unique = subst (Unique ℕ_discrete) (sym ek) h.unique;
    }

    collect_later :
        (c : Collected net)
        → Collects m c
        → At peers index (λ x. info.send_drop ≡ true → x.peer ≢ none)
        → (info.steps == 0) ≡ false
        → Collects ((index, info) ∷ m) (record c { kept = (index, info) ∷ c.kept })
    collect_later c h a n = record {
      due = All-mono c.indices IsDue-cons h.due;
      complete = λ i d. elim (IsDue-cases i d) [
        | inl (_, z) ↦ absurd (ground (arith, n, z))
        | inr d' ↦ h.complete i d'
      ];
      waiting = λ i. ground (
        arith,
        h.waiting i,
        find-cons ℕ_discrete index i info m,
        find-cons ℕ_discrete index i info c.kept,
        n,
      );
      distinct = h.distinct;
      in_range = h.in_range;
      removals = (a, h.removals);
      unique = (ground (arith, h.waiting index, fresh), h.unique);
    }

  collect_entry-returns :
      (index : ℕ) (info : ToRemoveInfo) (c : Collected net)
      → At peers index (λ x. info.send_drop ≡ true → x.peer ≢ none)
      → (c' : Collected net) × (collect_entry net peers index info c ≡ some c')
        × (c'.indices ≡ index ∷ c.indices)
        × (c'.kept ≡ c.kept)
  unfolding collect_entry
  collect_entry-returns index info c (stored, at, known) = elim (Bool-cases info.send_drop) [
    | inr quiet ↦ (
      record c { keys = reported stored; drops = c.drops; indices = index ∷ c.indices },
      ground (arith, at, quiet),
      refl,
      refl,
    )
    | inl drop ↦ elim (Option-cases stored.peer) [
      | inl e ↦ absurd (known drop e)
      | inr (p, e) ↦ (
        record c { keys = reported stored; drops = p ∷ c.drops; indices = index ∷ c.indices },
        ground (arith, at, drop, e),
        refl,
        refl,
      )
    ]
  ]
    where
      reported : StateItem net → List (String × Bool)
      reported stored =
          ite (string_discrete (key stored.value) "") c.keys
            ((key stored.value, info.must_notify) ∷ c.keys)

  pub collect-returns :
      (m : Map ℕ ToRemoveInfo)
      → Removals net peers m
      → Unique ℕ_discrete m
      → (c : Collected net) × (collect net peers m ≡ some c) × Collects m c
  unfolding collect collect_step find contains
  collect-returns [] a u = (
    record { keys = []; drops = []; indices = []; kept = [] },
    refl,
    record {
      due = tt;
      complete = λ i d. absurd (ground (arith, d.1));
      waiting = λ i. refl;
      distinct = tt;
      in_range = tt;
      removals = tt;
      unique = tt;
    },
  )
  collect-returns ((index, info) ∷ m) a u =
      let (c, e, h) = collect-returns m a.1 u.1 in
      elim (Bool-cases (info.steps == 0)) [
        | inl now ↦
            let (c', e', ei, ek) = collect_entry-returns index info c a.0 in
            (
              c',
              ground (arith, e, now, e'),
              collect_due index info m u.0 c c' h (At-lt _ peers index a.0) (ground (arith, now)) ei
                  ek,
            )
        | inr not_yet ↦ (
          record c { kept = (index, info) ∷ c.kept },
          ground (arith, e, not_yet),
          collect_later index info m u.0 c h a.0 not_yet,
        )
      ]
