-- ===== src/Session/Tests.antt =====
-- src/libsessionutility: runs of a session manager, and the theorems about them.
use mesh_pp.Prelude.{
  ℕ, ◌≡◌, ◌≢◌, All, some, Exception, refl, true, false, none, List, [], ◌∷◌, String, ok, throw,
  runtime_error, ◌==◌, if◌then◌else◌,
}
use mesh_pp.Session.State.{
  Action, ActionClass, Session, SessionHeader, HeaderClass, NodeidSessionHeader, nodeid_headers,
  plain_headers, find_session, blocked_by,
}
use mesh_pp.Session.Manager.{add, new_session}
use mesh_pp.Session.Process.{process, erase_all_pending}
use mesh_pp.Session.Invariant.{NoClash}
use mesh_pp.Session.Calls.{starts, steps, adds, Reachable-IsSound}
use mesh_pp.Session.Errors.{IsClean}
use mesh_pp.Session.Throws.{process-find_session, add-throws}

-- Actions that are told what to do: 0 waits for a packet, 1 throws at once, 2 throws on a packet.
abbrev telling : (Header : Type 0) → ActionClass Header
telling Header = record {
  Own = ℕ;
  Package = ℕ;
  hash_code = λ own. own;
  permanent = λ a. false;
  initiate = λ a header. if a.own == 1 then throw runtime_error else ok (a, header);
  process = λ a packet header.
      if a.own == 2
      then throw runtime_error
      else ok (true, record a { completed = packet == 7 }, packet, header);
}

abbrev told : ActionClass SessionHeader
told = telling SessionHeader

abbrev action : ℕ → Action ℕ
action own = record { own = own; initiated = false; completed = false; errored = false }

abbrev header : String → SessionHeader
header peerid = record { peerid = peerid }

abbrev Sessions : Type 0
Sessions = List (Session SessionHeader ℕ)

abbrev waiting : ℕ → Session SessionHeader ℕ
waiting own = record {
  header = header "peer";
  wait_for_contact = 110;
  wait_duration = 10;
  actions = record { own = own; initiated = true; completed = false; errored = false } ∷ [];
}

add_test :
    add plain_headers told (header "peer") (action 0 ∷ []) 10 100 [] ≡ (waiting 0 ∷ [], ok true)
unfolding add
add_test = refl

-- The session ends when its last action is completed.
process_test : process plain_headers told "peer" 7 105 (waiting 0 ∷ []) ≡ ([], ok true)
unfolding process
process_test = refl

process_more :
    process plain_headers told "peer" 6 105 (waiting 0 ∷ [])
    ≡ (record (waiting 0) { wait_for_contact = 115 } ∷ [], ok true)
unfolding process
process_more = refl

erase_all_pending_test : erase_all_pending plain_headers told 110 (waiting 0 ∷ []) ≡ []
unfolding erase_all_pending
erase_all_pending_test = refl

-- Sessions with two keys, and one with the node "n" of the peer "peer".
abbrev node_headers : HeaderClass
node_headers = nodeid_headers ℕ (λ a b. a == b)

abbrev node_told : ActionClass (NodeidSessionHeader ℕ)
node_told = telling (NodeidSessionHeader ℕ)

abbrev node_header : String → String → NodeidSessionHeader ℕ
node_header peerid nodeid = record { address = 1; peerid = peerid; nodeid = nodeid }

abbrev added : List (Session (NodeidSessionHeader ℕ) ℕ)
added = (add node_headers node_told (node_header "peer" "n") (action 0 ∷ []) 10 100 []).0

-- A header with the node of the session at another address is kept out.
kept_out_test :
    (add node_headers node_told
      (record (node_header "other" "n") { address = 2 })
      (action 0 ∷ [])
      10
      100
      added)
    ≡ (added, ok false)
unfolding add
kept_out_test = refl

Reachable-IsSound_example :
    NoClash node_headers ℕ added
    × All (IsClean node_headers node_told) added
    × ((header : NodeidSessionHeader ℕ) (actions : List (Action ℕ)) (wait_duration now : ℕ)
          (k : String) (s : Session (NodeidSessionHeader ℕ) ℕ)
        → find_session node_headers ℕ k added ≡ some s
        → node_headers.keys_same s.header header ≡ false
        → find_session node_headers ℕ k
            (add node_headers node_told header actions wait_duration now added).0
          ≡ some s)
Reachable-IsSound_example =
    Reachable-IsSound node_headers node_told added
      (steps starts (adds (node_header "peer" "n") (action 0 ∷ []) 10 100 [] (refl, tt)))

process-find_session_example :
    ((k : String) (s : Session SessionHeader ℕ)
      → k ≢ "peer"
      → find_session plain_headers ℕ k (waiting 2 ∷ []) ≡ some s
      → find_session plain_headers ℕ k (process plain_headers told "peer" 6 105 (waiting 2 ∷ [])).0
        ≡ some s)
    × ((e : Exception)
        → (process plain_headers told "peer" 6 105 (waiting 2 ∷ [])).1 ≡ throw e
        → find_session plain_headers ℕ "peer"
            (process plain_headers told "peer" 6 105 (waiting 2 ∷ [])).0
          ≡ none)
process-find_session_example = process-find_session plain_headers told "peer" 6 105 (waiting 2 ∷ [])

process_thrown :
    process plain_headers told "peer" 6 105 (waiting 2 ∷ []) ≡ ([], throw runtime_error)
unfolding process
process_thrown = refl

new_peer :
    blocked_by plain_headers ℕ (new_session plain_headers told (header "other") 10) (waiting 0 ∷ [])
    ≡ none
unfolding blocked_by
new_peer = refl

add_thrown :
    (add plain_headers told (header "other") (action 1 ∷ []) 10 100 (waiting 0 ∷ [])).1
    ≡ throw runtime_error
unfolding add
add_thrown = refl

add-throws_example :
    (add plain_headers told (header "other") (action 1 ∷ []) 10 100 (waiting 0 ∷ [])).0
    ≡ waiting 0 ∷ []
add-throws_example =
    add-throws plain_headers told (header "other") (action 1 ∷ []) 10 100 (waiting 0 ∷ [])
      runtime_error new_peer add_thrown
