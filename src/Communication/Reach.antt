-- ===== src/Communication/Reach.antt =====
-- src/libp2psocket/p2pstate.cpp: the runs of `communication_state`, one call after another, in any
-- order.
use mesh_pp.Prelude.{ℕ, ◌≡◌, String, Bool, false, Option, some, List, subst, arith}
use mesh_pp.Net.{Net}
use mesh_pp.Communication.State.{PeerState, CommunicationState, empty_state}
use mesh_pp.Communication.Insert.{
  InsertCode, UpdateCode, add_passive, add_active, set_active_value, set_value,
}
use mesh_pp.Communication.Removal.{
  do_step, remove_later_address, remove_later_peer, undo_remove, remove_pending,
}
use mesh_pp.Communication.Query.{remove_from_todo_list}
use mesh_pp.Communication.Invariant.{IsValid, empty_state-IsValid}
use mesh_pp.Communication.Valid.Active.{IsFree}
use mesh_pp.Communication.Valid.Insert.{add_passive-Outcome}
use mesh_pp.Communication.Valid.Connect.{add_active-Connected}
use mesh_pp.Communication.Valid.Values.{
  get_active_value-set_active_value, get_value-set_value, remove_from_todo_list-IsValid,
}
use mesh_pp.Communication.Valid.Marks.{
  remove_later_address-marks, remove_later_peer-IsValid, undo_remove-IsValid, do_step-IsValid,
}
use mesh_pp.Communication.Valid.RemovePending.{remove_pending-peers}

-- A call that returns one of two values returns the other.
returned {ℓ} :
    {A : Type 0} (P : A → Type ℓ) {o : Option A} {a b : A} → o ≡ some a → o ≡ some b → P a → P b
returned P e f h = subst P (ground (arith, e, f)) h

module _ (net : Net) where
  open net use {Address}

  abbrev State : Type 0
  State = CommunicationState net

  -- The calls that change the state. The caller of `add_active` gives a peer that is not connected
  -- at another address, and who marks an address asks for no drop.
  pub data Step (s : State) : State → Type 0 where
    passive :
        (now : ℕ) (addr : Address) (value : PeerState) {r : State × InsertCode}
        → add_passive net now addr value s ≡ some r
        → Step s r.0
    active :
        (now : ℕ) (addr : Address) (p : String) (value : PeerState) {r : State × UpdateCode}
        → IsFree net p addr s
        → add_active net now addr p value s ≡ some r
        → Step s r.0
    set_active :
        (now : ℕ) (p : String) (value : PeerState) {t : State}
        → set_active_value net now p value s ≡ some t
        → Step s t
    set_address :
        (now : ℕ) (addr : Address) (value : PeerState) {t : State}
        → set_value net now addr value s ≡ some t
        → Step s t
    step : Step s (do_step net s)
    mark_address :
        (addr : Address) (steps : ℕ) (only_if_passive must_notify : Bool) {r : State × Bool}
        → remove_later_address net addr steps false only_if_passive must_notify s ≡ some r
        → Step s r.0
    mark_peer :
        (p : String) (steps : ℕ) (send_drop must_notify : Bool)
        → Step s (remove_later_peer net p steps send_drop must_notify s).0
    undo : (p : String) → Step s (undo_remove net p s)
    remove :
        {r : State × List (String × Bool) × List String}
        → remove_pending net s ≡ some r
        → Step s r.0
    forget : (addr : Address) → Step s (remove_from_todo_list net addr s).0

  pub data Reach : State → Type 0 where
    start : Reach (empty_state net)
    next : {s t : State} → Reach s → Step s t → Reach t

  -- No call breaks the invariant.
  pub Step-IsValid : {s t : State} → Step s t → IsValid net s → IsValid net t
  Step-IsValid {s} (passive now addr value e) v =
      let (r, f, w, _) = add_passive-Outcome net now addr value s v in
      returned (λ r. IsValid net r.0) f e w
  Step-IsValid {s} (active now addr p value free e) v =
      let (r, f, w, _) = add_active-Connected net now addr p value s v free in
      returned (λ r. IsValid net r.0) f e w
  Step-IsValid {s} (set_active now p value e) v =
      let (t, f, w, _) = get_active_value-set_active_value net now p value s v in
      returned (IsValid net) f e w
  Step-IsValid {s} (set_address now addr value e) v =
      let (t, f, w, _) = get_value-set_value net now addr value s v in returned (IsValid net) f e w
  Step-IsValid {s} step v = do_step-IsValid net s v
  Step-IsValid {s} (mark_address addr steps only must e) v =
      let (r, f, w, _) = remove_later_address-marks net steps must s v addr only in
      returned (λ r. IsValid net r.0) f e w
  Step-IsValid {s} (mark_peer p steps drop must) v =
      remove_later_peer-IsValid net steps must s v p drop
  Step-IsValid {s} (undo p) v = undo_remove-IsValid net p s v
  Step-IsValid {s} (remove e) v =
      let (r, f, w, _) = remove_pending-peers net s v in returned (λ r. IsValid net r.0) f e w
  Step-IsValid {s} (forget addr) v = remove_from_todo_list-IsValid net addr s v

  -- Every state that the calls lead to from the empty one is valid, where each `add_active` is
  -- given a peer that is not connected at another address, and each `remove_later` by an address
  -- asks for no drop. In a valid state each map leads to items that have its keys, each item is
  -- found by its address and each active one by its peer, only passive items wait to listen or to
  -- connect, and a drop is only due to an active peer.
  pub Reach-IsValid : {s : State} → Reach s → IsValid net s
  Reach-IsValid start = empty_state-IsValid net
  Reach-IsValid (next r st) = Step-IsValid st (Reach-IsValid r)
