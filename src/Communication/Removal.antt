-- ===== src/Communication/Removal.antt =====
-- src/libp2psocket/p2pstate.cpp: removal of entries of `communication_state`, marked first and
-- carried out later. `none` is what the language leaves undefined: an index out of range, or
-- reading the peer of a passive item.
use mesh_pp.Prelude.{
  ℕ, zero, suc, ◌+◌, ◌-◌, String, string_discrete, ℕ_discrete, Bool, true, false, Option, none,
  some, List, [], ◌∷◌, length, get_elem?, remove_at, Map, find, erase, assign, insert, ite, ◌>>=◌,
  ◌==◌, ltb, leb, if◌then◌else◌,
}
use mesh_pp.Net.{Net}
use mesh_pp.Communication.State.{
  key, passive, active, ToRemoveInfo, StateItem, state, address_key, CommunicationState,
}

unfoldable pub remove_from_set : ℕ → List ℕ → List ℕ
remove_from_set index [] = []
remove_from_set index (item ∷ rest) =
    let kept = remove_from_set index rest in
    if ltb index item
    then insert (item - 1) kept
    else if ltb item index
    then insert item kept
    else kept

unfoldable pub remove_from_map {ℓ} : {K : Type ℓ} → ℕ → List (K × ℕ) → List (K × ℕ)
remove_from_map index [] = []
remove_from_map index ((k, item) ∷ rest) =
    let kept = remove_from_map index rest in
    if item == index then kept else (k, if ltb index item then item - 1 else item) ∷ kept

-- The loop of `do_step`.
unfoldable pub count_down : Map ℕ ToRemoveInfo → Map ℕ ToRemoveInfo
count_down [] = []
count_down ((i, info) ∷ m) =
    (i, if info.steps == 0 then info else record info { steps = info.steps - 1 }) ∷ count_down m

-- One round of the loop over `index2` in `remove_pending`. `insert` leaves an entry that is
-- already there.
unfoldable pub renumber_step : ℕ → Map ℕ ToRemoveInfo → Map ℕ ToRemoveInfo
renumber_step index2 m = elim (find ℕ_discrete index2 m) [
  | none ↦ m
  | some info ↦
      erase ℕ_discrete index2
        (elim (find ℕ_discrete (index2 - 1) m) [ none ↦ (index2 - 1, info) ∷ m | some _ ↦ m ])
]

-- The loop, for a number of rounds from `index2` on.
unfoldable pub renumber : ℕ → ℕ → Map ℕ ToRemoveInfo → Map ℕ ToRemoveInfo
renumber zero index2 m = m
renumber (suc rounds) index2 m = renumber rounds (suc index2) (renumber_step index2 m)

-- `std::sort`, the greatest first, as the loop over `indices` reads it.
unfoldable pub insert_sorted : ℕ → List ℕ → List ℕ
insert_sorted i [] = i ∷ []
insert_sorted i (j ∷ js) = if leb j i then i ∷ j ∷ js else j ∷ insert_sorted i js

unfoldable pub sort_down : List ℕ → List ℕ
unfolding insert_sorted
sort_down [] = []
sort_down (i ∷ is) = insert_sorted i (sort_down is)

module _ (net : Net) where
  open net use {Address, destination_discrete}

  abbrev State : Type 0
  State = CommunicationState net

  unfoldable pub do_step : State → State
  do_step s = record s { map_to_remove = count_down s.map_to_remove }

  unfoldable pub remove_later_address :
      Address → ℕ → Bool → Bool → Bool → State → Option (State × Bool)
  remove_later_address addr step send_drop only_if_passive must_notify s =
      elim (find destination_discrete (address_key net addr) s.map_by_address) [
        | none ↦ some (s, false)
        | some index ↦
            let marked : State = record s {
              map_to_remove =
                  assign ℕ_discrete index
                    (record { steps = step; send_drop = send_drop; must_notify = must_notify })
                    s.map_to_remove;
            } in
            if only_if_passive
            then (do
              stored ← get_elem? s.peers index
              elim (state net stored) [ passive ↦ some (marked, true) | active ↦ some (s, false) ])
            else some (marked, true)
      ]

  unfoldable pub remove_later_peer : String → ℕ → Bool → Bool → State → State × Bool
  remove_later_peer p step send_drop must_notify s =
      elim (find string_discrete p s.map_by_peer_id) [
        | none ↦ (s, false)
        | some index ↦ (
          record s {
            map_to_remove =
                assign ℕ_discrete index
                  (record { steps = step; send_drop = send_drop; must_notify = must_notify })
                  s.map_to_remove;
          },
          true,
        )
      ]

  unfoldable pub undo_remove : String → State → State
  undo_remove p s = elim (find string_discrete p s.map_by_peer_id) [
    | none ↦ s
    | some index ↦ record s { map_to_remove = erase ℕ_discrete index s.map_to_remove }
  ]

  -- What the first loop of `remove_pending` collects.
  pub record Collected : Type 0 where
    pub keys : List (String × Bool)
    pub drops : List String
    pub indices : List ℕ
    pub kept : Map ℕ ToRemoveInfo

  -- One entry whose steps have run out.
  unfoldable pub collect_entry :
      List (StateItem net) → ℕ → ToRemoveInfo → Collected → Option Collected
  collect_entry peers index info c = do
    stored ← get_elem? peers index
    drops ← (if info.send_drop then (do p ← stored.peer; some (p ∷ c.drops)) else some c.drops)
    some (record c {
      keys =
          ite (string_discrete (key stored.value) "") c.keys
            ((key stored.value, info.must_notify) ∷ c.keys);
      drops = drops;
      indices = index ∷ c.indices;
    })

  unfoldable pub collect_step :
      List (StateItem net) → ℕ → ToRemoveInfo → Collected → Option Collected
  collect_step peers index info c =
      if info.steps == 0
      then collect_entry peers index info c
      else some (record c { kept = (index, info) ∷ c.kept })

  unfoldable pub collect : List (StateItem net) → Map ℕ ToRemoveInfo → Option Collected
  collect peers [] = some (record { keys = []; drops = []; indices = []; kept = [] })
  collect peers ((index, info) ∷ m) = do c ← collect peers m; collect_step peers index info c

  -- One round of the second loop: the entry at `index` goes, and every greater index is one less.
  unfoldable pub remove_index : ℕ → State → State
  remove_index index s = record {
    peers = remove_at index s.peers;
    map_by_address = remove_from_map index s.map_by_address;
    map_by_peer_id = remove_from_map index s.map_by_peer_id;
    map_by_key = remove_from_map index s.map_by_key;
    set_to_listen = remove_from_set index s.set_to_listen;
    set_to_connect = remove_from_set index s.set_to_connect;
    map_to_remove = renumber (length s.peers - (index + 1)) (index + 1) s.map_to_remove;
  }

  unfoldable pub remove_indices : List ℕ → State → State
  remove_indices [] s = s
  remove_indices (index ∷ rest) s = remove_indices rest (remove_index index s)

  unfoldable pub remove_pending : State → Option (State × List (String × Bool) × List String)
  remove_pending s = do
    c ← collect s.peers s.map_to_remove
    some (
      remove_indices (sort_down c.indices) (record s { map_to_remove = c.kept }),
      c.keys,
      c.drops,
    )
