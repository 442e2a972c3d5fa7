-- ===== src/Communication/Valid/Insert.antt =====
-- src/libp2psocket/p2pstate.cpp: `add_passive` and `add_active` return, keep the invariant and
-- leave the address and the peer where they can be found.
use mesh_pp.Prelude.{
  ℕ, ◌≡◌, ◌≢◌, ◌++◌, ◌⊎◌, refl, sym, String, string_discrete, ℕ_discrete, true, none, some, [], ◌∷◌,
  get_elem?, find, erase, find-erase, find-assign, All-mono, All-erase, At, At-append, At-lt,
  erase-Unique, find-All, length, lt-length, contains, contains-insert, get_elem?-append,
  get_elem?-append_last, get_elem?-append_cases, get_elem?-set, ◌==◌, Bool-cases, Option-cases,
  arith, if_neg, inl, inr,
}
use mesh_pp.Net.{Net}
use mesh_pp.Communication.State.{
  PeerState, StateItem, new_item, kind, address_key, CommunicationState, todo_set,
}
use mesh_pp.Communication.Insert.{
  write_passive, store_passive, revive, add_passive, InsertCode, old, fresh,
}
use mesh_pp.Communication.Entries.{Entries-append}
use mesh_pp.Communication.Invariant.{item_address, item_key, item_peer, IsValid}
use mesh_pp.Communication.Valid.Passive.{Ready, write_passive-IsValid}

module _ (net : Net) where
  open net use {Address, destination_discrete}

  -- The item that the map of addresses leads to has the key.
  pub found_item :
      (addr : Address) (s : CommunicationState net) (index : ℕ)
      → IsValid net s
      → find destination_discrete (address_key net addr) s.map_by_address ≡ some index
      → At s.peers index (λ x. address_key net x.address ≡ address_key net addr)
  found_item addr s index v f =
      let (x, at, e) =
        find-All destination_discrete _ (address_key net addr) s.map_by_address v.address_entries
          f in
      (x, at, ground (arith, e))

  -- The item that the map of peers leads to has the peer.
  pub found_peer :
      (p : String) (s : CommunicationState net) (index : ℕ)
      → IsValid net s
      → find string_discrete p s.map_by_peer_id ≡ some index
      → At s.peers index (λ x. x.peer ≡ some p)
  found_peer p s index v f = find-All string_discrete _ p s.map_by_peer_id v.peer_entries f

  module _ (now : ℕ) (addr : Address) (value : PeerState) (s : CommunicationState net) where
    -- The address is known, by an item that has the given value, is passive, stands in the set for
    -- its kind and is not to be removed; no other item and no active connection changed.
    pub record Stored (s' : CommunicationState net) : Type 0 where
      pub index : ℕ
      pub found : find destination_discrete (address_key net addr) s'.map_by_address ≡ some index
      pub item :
          get_elem? s'.peers index ≡ some (record { value = value; peer = none; address = addr })
      pub todo : contains index (todo_set net (kind net addr) s') ≡ true
      pub not_removed : find ℕ_discrete index s'.map_to_remove ≡ none
      pub same_peers : s'.map_by_peer_id ≡ s.map_by_peer_id
      pub others :
          (i : ℕ) (x : StateItem net)
          → get_elem? s.peers i ≡ some x
          → i ≢ index
          → get_elem? s'.peers i ≡ some x

    -- What `add_passive` may answer: the state as it was, for an address that is known, or the
    -- address stored.
    abbrev pub Outcome : CommunicationState net × InsertCode → Type 0
    Outcome r =
        ((r ≡ (s, old))
          × (index : ℕ) × (find destination_discrete (address_key net addr) s.map_by_address
              ≡ some index))
        ⊎ ((r.1 ≡ fresh) × Stored r.0)

  module _ (now : ℕ) (addr : Address) (value : PeerState) (s : CommunicationState net)
      (v : IsValid net s) where
    revived-Ready :
        (index : ℕ) (stored : StateItem net)
        → find destination_discrete (address_key net addr) s.map_by_address ≡ some index
        → get_elem? s.peers index ≡ some stored
        → stored.peer ≡ none
        → Ready net now index addr value
            (record s { map_to_remove = erase ℕ_discrete index s.map_to_remove })
            stored
    revived-Ready index stored f at idle = record {
      at = at;
      idle = idle;
      same_key = let (x, at', e) = found_item addr s index v f in ground (arith, at, at', e);
      address_entries = v.address_entries;
      peer_entries = v.peer_entries;
      key_entries = v.key_entries;
      peers_found = v.peers_found;
      others = λ i x g n. (
        v.addresses_found i x _ g refl,
        λ e. n (ground (arith, f, e, v.addresses_found i x _ g refl)),
      );
      listen_passive = v.listen_passive;
      connect_passive = v.connect_passive;
      removals = All-erase ℕ_discrete _ _ index s.map_to_remove (λ j i a n. a) v.removals;
      removals_unique = erase-Unique ℕ_discrete index s.map_to_remove v.removals_unique;
      not_removed = rw (find-erase ℕ_discrete index index s.map_to_remove) (ground arith);
    }

    appended-Ready :
        find destination_discrete (address_key net addr) s.map_by_address ≡ none
        → Ready net now
            (length s.peers)
            addr
            value
            (record s { peers = s.peers ++ new_item net now addr ∷ [] })
            (new_item net now addr)
    appended-Ready f = record {
      at = get_elem?-append_last s.peers (new_item net now addr);
      idle = refl;
      same_key = refl;
      address_entries =
          Entries-append destination_discrete (item_address net) s.peers _ _ v.address_entries;
      peer_entries = Entries-append string_discrete (item_peer net) s.peers _ _ v.peer_entries;
      key_entries = Entries-append string_discrete (item_key net) s.peers _ _ v.key_entries;
      peers_found = λ i x k g e. elim (get_elem?-append_cases s.peers (new_item net now addr) i g) [
        | inl g' ↦ v.peers_found i x k g' e
        | inr (_, p) ↦ absurd (ground (arith, p, e))
      ];
      others = λ i x g n. elim (get_elem?-append_cases s.peers (new_item net now addr) i g) [
        | inl g' ↦ (
          v.addresses_found i x _ g' refl,
          λ e. absurd (ground (arith, f, e, v.addresses_found i x _ g' refl)),
        )
        | inr (q, _) ↦ absurd (n q)
      ];
      listen_passive = All-mono _ (λ i a. At-append _ s.peers _ i a) v.listen_passive;
      connect_passive = All-mono _ (λ i a. At-append _ s.peers _ i a) v.connect_passive;
      removals = All-mono _ (λ r a. At-append _ s.peers _ r.0 a) v.removals;
      removals_unique = v.removals_unique;
      not_removed = elim (Option-cases (find ℕ_discrete (length s.peers) s.map_to_remove)) [
        | inl e ↦ e
        | inr (info, e) ↦ absurd (
            omega (
              arith,
              At-lt _ s.peers (length s.peers)
                  (find-All ℕ_discrete _ (length s.peers) s.map_to_remove v.removals e),
            ))
      ];
    }

    abbrev revived : ℕ → CommunicationState net
    revived index = record s { map_to_remove = erase ℕ_discrete index s.map_to_remove }

    abbrev appended : CommunicationState net
    appended = record s { peers = s.peers ++ new_item net now addr ∷ [] }

    written-Stored :
        (index : ℕ) (stored : StateItem net) (t : CommunicationState net)
        → Ready net now index addr value t stored
        → t.map_by_peer_id ≡ s.map_by_peer_id
        → ((i : ℕ) (x : StateItem net)
            → get_elem? s.peers i ≡ some x
            → get_elem? t.peers i ≡ some x)
        → Stored now addr value s (write_passive net now index addr value stored t)
    unfolding write_passive
    written-Stored index stored t r e kept = record {
      index = index;
      found = rw (find-assign destination_discrete _ _ index _) (ground arith);
      item = rw (get_elem?-set t.peers index index _ (lt-length t.peers index r.at)) (ground arith);
      todo = ground (
        arith,
        contains-insert index index t.set_to_connect,
        contains-insert index index t.set_to_listen,
      );
      not_removed = r.not_removed;
      same_peers = e;
      others = λ i x g n.
          rw
            (
              get_elem?-set t.peers index i _ (lt-length t.peers index r.at),
              if_neg _ (λ q. n (sym q)),
            )
            (kept i x g);
    }

    revive-Outcome :
        (index : ℕ)
        → find destination_discrete (address_key net addr) s.map_by_address ≡ some index
        → (r : CommunicationState net × InsertCode) × (revive net now index addr value s ≡ some r)
          × IsValid net r.0
          × Outcome now addr value s r
    unfolding revive store_passive
    revive-Outcome index f = elim (Option-cases (find ℕ_discrete index s.map_to_remove)) [
      | inl e ↦ ((s, old), rw (e, revive), v, inl (refl, index, f))
      | inr (info, e) ↦ elim (Bool-cases (info.steps == 0)) [
        | inr later ↦ ((s, old), ground (arith, e, later), v, inl (refl, index, f))
        | inl due ↦
            let (stored, at, _) = found_item addr s index v f in
            elim (Option-cases stored.peer) [
              | inr (p, busy) ↦
                  ((s, old), ground (arith, e, due, at, busy), v, inl (refl, index, f))
              | inl idle ↦
                  let ready = revived-Ready index stored f at idle in
                  (
                    (write_passive net now index addr value stored (revived index), fresh),
                    ground (arith, e, due, at, idle),
                    write_passive-IsValid net now index addr value (revived index) stored ready,
                    inr (refl, written-Stored index stored (revived index) ready refl (λ i x g. g)),
                  )
            ]
      ]
    ]

    -- `add_passive` returns on a valid state and keeps it valid. It leaves the state as it is and
    -- answers `old`, where the address is known; or it answers `fresh`, and then the address is
    -- stored with the value, passive, in the set to listen or to connect and not to be removed.
    pub add_passive-Outcome :
        (r : CommunicationState net × InsertCode) × (add_passive net now addr value s ≡ some r)
        × IsValid net r.0
        × Outcome now addr value s r
    unfolding add_passive store_passive
    add_passive-Outcome =
        elim (Option-cases (find destination_discrete (address_key net addr) s.map_by_address)) [
          | inr (index, f) ↦
              let (r, e, v', o) = revive-Outcome index f in (r, rw (f, add_passive) e, v', o)
          | inl f ↦
              let ready = appended-Ready f in
              (
                (
                  write_passive net now (length s.peers) addr value (new_item net now addr)
                      appended,
                  fresh,
                ),
                ground (arith, f, get_elem?-append_last s.peers (new_item net now addr)),
                write_passive-IsValid net now (length s.peers) addr value appended _ ready,
                inr (
                  refl,
                  written-Stored (length s.peers) _ appended ready refl
                      (λ i x g. get_elem?-append s.peers _ i g),
                ),
              )
        ]
