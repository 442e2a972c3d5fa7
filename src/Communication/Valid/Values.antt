-- ===== src/Communication/Valid/Values.antt =====
-- src/libp2psocket/p2pstate.cpp: setting and getting values, and what the lists of addresses and of
-- connections hold.
use mesh_pp.Prelude.{
  ℕ, ◌≡◌, ◌≢◌, refl, String, string_discrete, ℕ_discrete, true, false, none, some, List, [], ◌∷◌,
  get_elem?, get_elem?-set, lt-length, find, contains, All, All-mono, All-discard, At, Bool-cases,
  Option-cases, arith, ite, if_neg, inl, inr,
}
use mesh_pp.Net.{Net}
use mesh_pp.Communication.State.{PeerState, update, StateItem, CommunicationState, address_key}
use mesh_pp.Communication.Insert.{write_value, store_value, set_active_value, set_value}
use mesh_pp.Communication.Query.{
  is_pending, get_active_value, get_value, add_address, addresses_of, get_to_listen, get_to_connect,
  remove_from_todo_list,
}
use mesh_pp.Communication.Invariant.{IsValid, Passive}
use mesh_pp.Communication.Valid.Value.{write_value-IsValid}
use mesh_pp.Communication.Valid.Insert.{found_item, found_peer}

module _ (net : Net) where
  open net use {Address, destination_discrete}

  -- Reading at an index after a value was written.
  get-write_value :
      (now index j : ℕ) (value : PeerState) (stored : StateItem net) (s : CommunicationState net)
      → get_elem? s.peers index ≡ some stored
      → get_elem? (write_value net now index value stored s).peers j
        ≡ ite
            (ℕ_discrete index j)
            (some (record stored { value = update now value }))
            (get_elem? s.peers j)
  unfolding write_value
  get-write_value now index j value stored s at =
      get_elem?-set s.peers index j _ (lt-length s.peers index at)

  write_value-maps :
      (now index : ℕ) (value : PeerState) (stored : StateItem net) (s : CommunicationState net)
      → ((write_value net now index value stored s).map_by_peer_id ≡ s.map_by_peer_id)
        × ((write_value net now index value stored s).map_by_address ≡ s.map_by_address)
  unfolding write_value
  write_value-maps now index value stored s = (refl, refl)

  -- Another peer stands at another index.
  other_peer :
      (p q : String) (s : CommunicationState net) (index j : ℕ)
      → IsValid net s
      → p ≢ q
      → find string_discrete p s.map_by_peer_id ≡ some index
      → find string_discrete q s.map_by_peer_id ≡ some j
      → index ≢ j
  other_peer p q s index j v n e f same =
      let (x, at, a) = found_peer net p s index v e in
      let (y, bt, b) = found_peer net q s j v f in n (ground (arith, at, bt, a, b, same))

  -- Another address stands at another index.
  other_address :
      (a b : Address) (s : CommunicationState net) (index j : ℕ)
      → IsValid net s
      → address_key net a ≢ address_key net b
      → find destination_discrete (address_key net a) s.map_by_address ≡ some index
      → find destination_discrete (address_key net b) s.map_by_address ≡ some j
      → index ≢ j
  other_address a b s index j v n e f same =
      let (x, at, h) = found_item net a s index v e in
      let (y, bt, k) = found_item net b s j v f in n (ground (arith, at, bt, h, k, same))

  -- `set_active_value` returns on a valid state and keeps it valid. The peer that it names, where
  -- it is known, has the value then, with the time of the call; every other peer has the value that
  -- it had.
  pub get_active_value-set_active_value :
      (now : ℕ) (p : String) (value : PeerState) (s : CommunicationState net)
      → IsValid net s
      → (s' : CommunicationState net) × (set_active_value net now p value s ≡ some s')
        × IsValid net s'
        × ((q : String)
            → get_active_value net q s'
              ≡ ite
                  (string_discrete p q)
                  (elim (find string_discrete p s.map_by_peer_id) [
                    | none ↦ some none
                    | some _ ↦ some (some (update now value))
                  ])
                  (get_active_value net q s))
  unfolding set_active_value store_value get_active_value
  get_active_value-set_active_value now p value s v =
      elim (Option-cases (find string_discrete p s.map_by_peer_id)) [
        | inl e ↦ (
          s,
          rw (e, set_active_value),
          v,
          λ q. elim (string_discrete p q) [
            | yes same ↦ ground (arith, e, same)
            | no n ↦ rw (if_neg _ n)
          ],
        )
        | inr (index, e) ↦
            let (stored, at, peer) = found_peer net p s index v e in
            (
              write_value net now index value stored s,
              ground (arith, e, at),
              write_value-IsValid net now index value stored s at v,
              λ q.
                  let (same_peers, _) = write_value-maps now index value stored s in
                  elim (Option-cases (find string_discrete q s.map_by_peer_id)) [
                    | inl f ↦ ground (arith, e, f, same_peers)
                    | inr (j, f) ↦ ground (
                      arith,
                      e,
                      f,
                      same_peers,
                      get-write_value now index j value stored s at,
                      λ (n : p ≢ q). other_peer p q s index j v n e f,
                    )
                  ],
            )
      ]

  -- `set_value` does the same for an address; every address with another key has the value that it
  -- had.
  pub get_value-set_value :
      (now : ℕ) (addr : Address) (value : PeerState) (s : CommunicationState net)
      → IsValid net s
      → (s' : CommunicationState net) × (set_value net now addr value s ≡ some s')
        × IsValid net s'
        × ((other : Address)
            → get_value net other s'
              ≡ ite
                  (destination_discrete (address_key net addr) (address_key net other))
                  (elim (find destination_discrete (address_key net addr) s.map_by_address) [
                    | none ↦ some none
                    | some _ ↦ some (some (update now value))
                  ])
                  (get_value net other s))
  unfolding set_value store_value get_value
  get_value-set_value now addr value s v =
      elim (Option-cases (find destination_discrete (address_key net addr) s.map_by_address)) [
        | inl e ↦ (
          s,
          rw (e, set_value),
          v,
          λ other. elim (destination_discrete (address_key net addr) (address_key net other)) [
            | yes same ↦ ground (arith, e, same)
            | no n ↦ rw (if_neg _ n)
          ],
        )
        | inr (index, e) ↦
            let (stored, at, _) = found_item net addr s index v e in
            (
              write_value net now index value stored s,
              ground (arith, e, at),
              write_value-IsValid net now index value stored s at v,
              λ other.
                  let (_, same) = write_value-maps now index value stored s in
                  elim (Option-cases
                    (find destination_discrete (address_key net other) s.map_by_address)) [
                      | inl f ↦ ground (arith, e, f, same)
                      | inr (j, f) ↦ ground (
                        arith,
                        e,
                        f,
                        same,
                        get-write_value now index j value stored s at,
                        λ (n : address_key net addr ≢ address_key net other).
                            other_address addr other s index j v n e f,
                      )
                    ],
            )
      ]

  -- Each address of the set is that of an item which stands at one of its indices, is not active
  -- and is not about to be removed.
  abbrev pub IsWaiting : List ℕ → CommunicationState net → Address → Type 0
  IsWaiting l s addr =
      (index : ℕ) × (contains index l ≡ true)
      × (is_pending s.map_to_remove index ≡ false)
      × At s.peers index (λ x. (x.peer ≡ none) × (x.address ≡ addr))

  widen :
      (i : ℕ) (l : List ℕ) (s : CommunicationState net) (addr : Address)
      → IsWaiting l s addr
      → IsWaiting (i ∷ l) s addr
  unfolding contains
  widen i l s addr (index, c, n, a) = (index, ground (arith, c), n, a)

  addresses_of-IsWaiting :
      (l : List ℕ) (s : CommunicationState net)
      → Passive net s.peers l
      → (r : List Address) × (addresses_of net l s ≡ some r) × All (IsWaiting l s) r
  unfolding addresses_of add_address contains
  addresses_of-IsWaiting [] s a = ([], refl, tt)
  addresses_of-IsWaiting (i ∷ l) s ((x, at, idle), a) =
      let (r, e, h) = addresses_of-IsWaiting l s a in
      let wider = All-mono r (widen i l s) h in
      elim (Bool-cases (is_pending s.map_to_remove i)) [
        | inl due ↦ (r, ground (arith, e, due), wider)
        | inr stays ↦ (
          x.address ∷ r,
          ground (arith, e, stays, at),
          ((i, ground arith, stays, (x, at, (idle, refl))), wider),
        )
      ]

  -- `get_to_listen` and `get_to_connect` return on a valid state, and give addresses only of items
  -- in their set that are not active and not about to be removed.
  pub get_todo-IsWaiting :
      (s : CommunicationState net)
      → IsValid net s
      → ((r : List Address) × (get_to_listen net s ≡ some r) × All (IsWaiting s.set_to_listen s) r)
        × ((r : List Address) × (get_to_connect net s ≡ some r)
            × All (IsWaiting s.set_to_connect s) r)
  unfolding get_to_listen get_to_connect
  get_todo-IsWaiting s v = (
    addresses_of-IsWaiting s.set_to_listen s v.listen_passive,
    addresses_of-IsWaiting s.set_to_connect s v.connect_passive,
  )

  -- `remove_from_todo_list` keeps a valid state valid.
  pub remove_from_todo_list-IsValid :
      (addr : Address) (s : CommunicationState net)
      → IsValid net s
      → IsValid net (remove_from_todo_list net addr s).0
  unfolding remove_from_todo_list
  remove_from_todo_list-IsValid addr s v =
      elim (Option-cases (find destination_discrete (address_key net addr) s.map_by_address)) [
        | inl e ↦ rw (e, remove_from_todo_list) v
        | inr (index, e) ↦
            rw (e, remove_from_todo_list)
              (record {
                address_entries = v.address_entries;
                peer_entries = v.peer_entries;
                key_entries = v.key_entries;
                addresses_found = v.addresses_found;
                peers_found = v.peers_found;
                listen_passive =
                    All-discard _ _ index s.set_to_listen (λ j a n. a) v.listen_passive;
                connect_passive =
                    All-discard _ _ index s.set_to_connect (λ j a n. a) v.connect_passive;
                removals = v.removals;
                removals_unique = v.removals_unique;
              })
      ]
