-- ===== src/Communication/Tests.antt =====
-- src/libp2psocket/p2pstate.cpp: runs of `communication_state` and the theorems about it at
-- concrete inputs.
use mesh_pp.Prelude.{
  ℕ, ◌≡◌, refl, String, string_discrete, ℕ_discrete, Bool, true, false, Option, none, some, List,
  [], ◌∷◌, find, erase, assign, get_elem?, set, insert, discard, contains, remove_at, All, ite, leb,
  arith, ◌==◌, ◌⊎◌, ◌>>=◌,
}
use mesh_pp.Net.{Net}
use mesh_pp.Communication.State.{
  PeerState, update, kind, address_key, CommunicationState, empty_state,
}
use mesh_pp.Communication.Insert.{
  write_passive, store_passive, revive, add_passive, release_peer, write_active, activate,
  add_active, write_value, store_value, set_active_value, set_value, InsertCode, UpdateCode, fresh,
  updated,
}
use mesh_pp.Communication.Removal.{
  remove_from_set, remove_from_map, count_down, renumber_step, renumber, insert_sorted, sort_down,
  do_step, remove_later_address, remove_later_peer, undo_remove, collect_entry, collect_step,
  collect, remove_index, remove_indices, remove_pending,
}
use mesh_pp.Communication.Query.{
  is_pending, add_address, addresses_of, get_to_listen, get_to_connect, get_active_value, get_value,
  get_peer_id, get_address,
}
use mesh_pp.Communication.Invariant.{IsValid, empty_state-IsValid}
use mesh_pp.Communication.Reach
use mesh_pp.Communication.Valid.Insert
use mesh_pp.Communication.Valid.Connect
use mesh_pp.Communication.Valid.Values
use mesh_pp.Communication.Valid.Marks
use mesh_pp.Communication.Valid.Getters
use mesh_pp.Communication.Valid.RemovePending

-- Numbers for destinations, with 0 for the empty one.
abbrev pub demo_net : Net
demo_net = record {
  Destination = ℕ;
  Address = ℕ × ℕ;
  destination_discrete = ℕ_discrete;
  is_empty = λ d. d == 0;
  near = λ a. a.0;
  remote = λ a. a.1;
}

abbrev State : Type 0
State = CommunicationState demo_net

program : Unit {0}
unfolding find erase assign get_elem? set insert discard contains remove_at string_discrete
    ℕ_discrete kind address_key write_passive store_passive revive add_passive release_peer
    write_active activate add_active write_value store_value set_active_value set_value
    remove_from_set remove_from_map count_down renumber_step renumber insert_sorted sort_down
    do_step remove_later_address remove_later_peer undo_remove collect_entry collect_step collect
    remove_index remove_indices remove_pending is_pending add_address addresses_of get_to_listen
    get_to_connect get_active_value get_value get_peer_id get_address
program = tt

abbrev named : String → PeerState
named id = record { open_attempts = 0; requested = 0; node_id = id; updated = 0 }

-- Two addresses to connect to; the first becomes active, and is dropped.
session : Option (State × List (String × Bool) × List String)
session = do
  (s1, _) ← add_passive demo_net 1 (5, 7) (named "") (empty_state demo_net)
  (s2, _) ← add_passive demo_net 2 (5, 8) (named "") s1
  (s3, _) ← add_active demo_net 3 (5, 7) "p" (named "a") s2
  let marked = remove_later_peer demo_net "p" 0 true true s3
  remove_pending demo_net marked.0

-- What is left is the second address, under a new index; the first is reported with its key.
session_result :
    session
    ≡ some (
      record {
        peers = record { value = named ""; peer = none; address = (5, 8) } ∷ [];
        map_by_address = (8, 0) ∷ [];
        map_by_peer_id = [];
        map_by_key = [];
        set_to_listen = [];
        set_to_connect = 0 ∷ [];
        map_to_remove = [];
      },
      ("a", true) ∷ [],
      "p" ∷ [],
    )
unfolding session program
session_result = refl

-- The state after one address to connect to, and after the connection.
abbrev one : State
one = record {
  peers = record { value = named ""; peer = none; address = (5, 7) } ∷ [];
  map_by_address = (7, 0) ∷ [];
  map_by_peer_id = [];
  map_by_key = ("", 0) ∷ [];
  set_to_listen = [];
  set_to_connect = 0 ∷ [];
  map_to_remove = [];
}

abbrev two : State
two = record one {
  peers = record { value = update 3 (named "a"); peer = some "p"; address = (5, 7) } ∷ [];
  map_by_peer_id = ("p", 0) ∷ [];
  map_by_key = ("a", 0) ∷ [];
  set_to_connect = [];
}

abbrev marked : State
marked = record two {
  map_to_remove = (0, record { steps = 2; send_drop = true; must_notify = true }) ∷ [];
}

-- The same with the connection to be removed at once.
abbrev pub due : State
due = record two {
  map_to_remove = (0, record { steps = 0; send_drop = true; must_notify = true }) ∷ [];
}

one-Reach : Reach.Reach demo_net one
unfolding program
one-Reach = Reach.next Reach.start (Reach.passive 1 (5, 7) (named "") {r = (one, fresh)} refl)

two-Reach : Reach.Reach demo_net two
unfolding program
two-Reach =
    Reach.next one-Reach (
      Reach.active 3 (5, 7) "p" (named "a") {r = (two, updated)} (λ i f. absurd (ground arith))
        refl)

marked-Reach : Reach.Reach demo_net marked
unfolding program
marked-Reach = Reach.next two-Reach (Reach.mark_peer "p" 2 true true)

due-Reach : Reach.Reach demo_net due
unfolding program
due-Reach = Reach.next two-Reach (Reach.mark_peer "p" 0 true true)

pub due-IsValid : IsValid demo_net due
due-IsValid = Reach.Reach-IsValid demo_net due-Reach

one-IsValid : IsValid demo_net one
one-IsValid = Reach.Reach-IsValid demo_net one-Reach

two-IsValid : IsValid demo_net two
two-IsValid = Reach.Reach-IsValid demo_net two-Reach

Reach-IsValid_example : IsValid demo_net marked
Reach-IsValid_example = Reach.Reach-IsValid demo_net marked-Reach

remove_pending-peers_example :
    (r : State × List (String × Bool) × List String) × (remove_pending demo_net due ≡ some r)
    × IsValid demo_net r.0
    × (r.0.peers ≡ RemovePending.keep_from (is_pending due.map_to_remove) 0 due.peers)
remove_pending-peers_example = RemovePending.remove_pending-peers demo_net due due-IsValid

add_passive-Outcome_example :
    (r : State × InsertCode) × (add_passive demo_net 4 (5, 9) (named "") two ≡ some r)
    × IsValid demo_net r.0
    × Insert.Outcome demo_net 4 (5, 9) (named "") two r
add_passive-Outcome_example =
    Insert.add_passive-Outcome demo_net 4 (5, 9) (named "") two two-IsValid

add_active-Connected_example :
    (r : State × UpdateCode) × (add_active demo_net 4 (6, 7) "q" (named "b") two ≡ some r)
    × IsValid demo_net r.0
    × Connect.Connected demo_net 4 (6, 7) "q" (named "b") r.0
unfolding program
add_active-Connected_example =
    Connect.add_active-Connected demo_net 4 (6, 7) "q" (named "b") two two-IsValid
      (λ i f. absurd (ground arith))

get_active_value-set_active_value_example :
    (s' : State) × (set_active_value demo_net 5 "p" (named "b") two ≡ some s')
    × IsValid demo_net s'
    × ((q : String)
        → get_active_value demo_net q s'
          ≡ ite
              (string_discrete "p" q)
              (elim (find string_discrete "p" two.map_by_peer_id) [
                | none ↦ some none
                | some _ ↦ some (some (update 5 (named "b")))
              ])
              (get_active_value demo_net q two))
get_active_value-set_active_value_example =
    Values.get_active_value-set_active_value demo_net 5 "p" (named "b") two two-IsValid

get_value-set_value_example :
    (s' : State) × (set_value demo_net 5 (5, 7) (named "b") two ≡ some s')
    × IsValid demo_net s'
    × ((other : ℕ × ℕ)
        → get_value demo_net other s'
          ≡ ite
              (ℕ_discrete (address_key demo_net (5, 7)) (address_key demo_net other))
              (elim (find ℕ_discrete (address_key demo_net (5, 7)) two.map_by_address) [
                | none ↦ some none
                | some _ ↦ some (some (update 5 (named "b")))
              ])
              (get_value demo_net other two))
get_value-set_value_example =
    Values.get_value-set_value demo_net 5 (5, 7) (named "b") two two-IsValid

get_todo-IsWaiting_example :
    ((r : List (ℕ × ℕ)) × (get_to_listen demo_net one ≡ some r)
      × All (Values.IsWaiting demo_net one.set_to_listen one) r)
    × ((r : List (ℕ × ℕ)) × (get_to_connect demo_net one ≡ some r)
        × All (Values.IsWaiting demo_net one.set_to_connect one) r)
get_todo-IsWaiting_example = Values.get_todo-IsWaiting demo_net one one-IsValid

getters-add_active_example :
    (r : State × UpdateCode) × (add_active demo_net 3 (5, 7) "p" (named "a") (empty_state demo_net)
      ≡ some r)
    × (get_active_value demo_net "p" r.0 ≡ some (some (update 3 (named "a"))))
    × (get_value demo_net (5, 7) r.0 ≡ some (some (update 3 (named "a"))))
    × (get_peer_id demo_net (5, 7) r.0 ≡ some (some "p"))
    × (get_address demo_net "p" r.0 ≡ some (some (5, 7)))
unfolding program
getters-add_active_example =
    Getters.getters-add_active demo_net 3 (5, 7) "p" (named "a") (empty_state demo_net)
      (empty_state-IsValid demo_net) (λ i f. absurd (ground (arith, f)))

remove_later_address-marks_example :
    (r : State × Bool) × (remove_later_address demo_net (5, 7) 30 false true false one ≡ some r)
    × IsValid demo_net r.0
    × (((r.1 ≡ false) × (r.0 ≡ one) × Marks.IsKept demo_net 30 false one (5, 7) true)
        ⊎ ((r.1 ≡ true) × Marks.IsMarked demo_net 30 false one (5, 7) true r.0))
remove_later_address-marks_example =
    Marks.remove_later_address-marks demo_net 30 false one one-IsValid (5, 7) true

undo_remove-remove_later_peer_example :
    find ℕ_discrete 0
      (undo_remove demo_net "p" (remove_later_peer demo_net "p" 10 true false two).0).map_to_remove
    ≡ elim (find string_discrete "p" two.map_by_peer_id) [
      | none ↦ find ℕ_discrete 0 two.map_to_remove
      | some index ↦ ite (ℕ_discrete index 0) none (find ℕ_discrete 0 two.map_to_remove)
    ]
undo_remove-remove_later_peer_example =
    Marks.undo_remove-remove_later_peer demo_net "p" 10 true false two 0

pending-do_steps_example :
    is_pending (Marks.do_steps demo_net 2 marked).map_to_remove 0
    ≡ elim (find ℕ_discrete 0 marked.map_to_remove) [ none ↦ false | some info ↦ leb info.steps 2 ]
pending-do_steps_example = Marks.pending-do_steps demo_net 2 0 marked
