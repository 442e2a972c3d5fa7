-- ===== src/Session/Calls.antt =====
-- src/libsessionutility/sessionutility.cpp: the calls of `session_manager`, one after the other.
use mesh_pp.Prelude.{
  false, ℕ, ◌≡◌, refl, ◌||◌, Option, none, some, List, [], ◌∷◌, String, Result, ok, throw, All,
  Bool-cases, inl, inr, length, ◌==◌, ltb,
}
use mesh_pp.Session.State.{HeaderClass, Action, ActionClass, same_text, find_session, blocked_by}
use mesh_pp.Session.Manager.{
  Entry, Adding, add, add_unless, after_adding, add_to, add_actions, start_adding, finish_add,
  contacted, new_session, remove, is_empty,
}
use mesh_pp.Session.Process.{
  Processing, process, process_in, after_processing, Progress, process_actions, start_processing,
  finish_process, processed_session, erase_all_pending,
}
use mesh_pp.Session.Invariant.{
  NoClash, IsApart, All-erase_session, erase_session-NoClash, modify-NoClash, blocked_by-none,
}
use mesh_pp.Session.Errors.{NoErrors, IsClean, add-AllClean}
use mesh_pp.Session.ProcessErrors.{process-AllClean}
use mesh_pp.Session.Kept.{add-find_session}

module _ (headers : HeaderClass) (code : ActionClass headers.Header) where
  abbrev Sessions : Type 0
  Sessions = List (Entry headers code)

  abbrev IsFine : Sessions → Type 0
  IsFine sessions = NoClash headers code.Own sessions

  finish_add-NoClash :
      (wait_duration now : ℕ) (session : Entry headers code) (st : Adding headers code)
      (sessions : Sessions)
      → IsFine sessions
      → IsFine (finish_add headers code wait_duration now session st sessions)
  unfolding finish_add
  finish_add-NoClash wait_duration now session st sessions n =
      let key = headers.peerid session.header in
      elim (Bool-cases (st.is_errored || is_empty headers code st.stored)) [
        | inl e ↦ rw e (erase_session-NoClash headers code.Own key sessions n)
        | inr e ↦ rw e (
            modify-NoClash headers code.Own key
              (contacted headers code wait_duration now session st) sessions n)
      ]

  after_adding-NoClash :
      (wait_duration now : ℕ) (session : Entry headers code) (sessions : Sessions)
      (added : Result (Adding headers code))
      → IsFine sessions
      → IsFine (after_adding headers code wait_duration now session sessions added).0
  unfolding after_adding
  after_adding-NoClash wait_duration now session sessions (throw e) n =
      erase_session-NoClash headers code.Own (headers.peerid session.header) sessions n
  after_adding-NoClash wait_duration now session sessions (ok st) n =
      finish_add-NoClash wait_duration now session st sessions n

  add_unless-NoClash :
      (o : Option (Entry headers code)) (header : headers.Header) (actions : List (Action code.Own))
      (wait_duration now : ℕ) (sessions : Sessions)
      → blocked_by headers code.Own (new_session headers code header wait_duration) sessions ≡ o
      → IsFine sessions
      → IsFine (add_unless headers code o header actions wait_duration now sessions).0
  unfolding add_unless add_to
  add_unless-NoClash none header actions wait_duration now sessions e n =
      let item = new_session headers code header wait_duration in
      after_adding-NoClash wait_duration now item (item ∷ sessions)
        (add_actions headers code actions (start_adding headers code item))
        (blocked_by-none headers code.Own item sessions e, n)
  add_unless-NoClash (some session) header actions wait_duration now sessions e n =
      elim (Bool-cases (headers.keys_same session.header header)) [
        | inl q ↦ rw q (
            after_adding-NoClash wait_duration now session sessions
              (add_actions headers code actions (start_adding headers code session)) n)
        | inr q ↦ rw q n
      ]

  add-NoClash :
      (header : headers.Header) (actions : List (Action code.Own)) (wait_duration now : ℕ)
      (sessions : Sessions)
      → IsFine sessions
      → IsFine (add headers code header actions wait_duration now sessions).0
  unfolding add
  add-NoClash header [] wait_duration now sessions n = n
  add-NoClash header (a ∷ actions) wait_duration now sessions n =
      add_unless-NoClash
        (blocked_by headers code.Own (new_session headers code header wait_duration) sessions)
        header (a ∷ actions) wait_duration now sessions refl n

  finish_process-NoClash :
      (now : ℕ) (session : Entry headers code) (actions : List (Action code.Own))
      (st : Processing headers code) (sessions : Sessions)
      → IsFine sessions
      → IsFine (finish_process headers code now session actions st sessions)
  unfolding finish_process
  finish_process-NoClash now session actions st sessions n =
      let key = headers.peerid session.header in
      elim (Bool-cases (st.is_errored || st.dispose_count == length actions)) [
        | inl e ↦ rw e (erase_session-NoClash headers code.Own key sessions n)
        | inr e ↦ rw e (
            modify-NoClash headers code.Own key
              (processed_session headers code now session actions st) sessions n)
      ]

  after_processing-NoClash :
      (now : ℕ) (session : Entry headers code) (sessions : Sessions)
      (processed : Progress headers code)
      → IsFine sessions
      → IsFine (after_processing headers code now session sessions processed).0
  unfolding after_processing
  after_processing-NoClash now session sessions (throw e) n =
      erase_session-NoClash headers code.Own (headers.peerid session.header) sessions n
  after_processing-NoClash now session sessions (ok (actions, st)) n =
      finish_process-NoClash now session actions st sessions n

  process_in-NoClash :
      (o : Option (Entry headers code)) (packet : code.Package) (now : ℕ) (sessions : Sessions)
      → IsFine sessions
      → IsFine (process_in headers code o packet now sessions).0
  unfolding process_in
  process_in-NoClash none packet now sessions n = n
  process_in-NoClash (some session) packet now sessions n =
      after_processing-NoClash now session sessions
        (process_actions headers code session.actions
          (start_processing headers code packet session))
        n

  process-NoClash :
      (peerid : String) (packet : code.Package) (now : ℕ) (sessions : Sessions)
      → IsFine sessions
      → IsFine (process headers code peerid packet now sessions).0
  unfolding process
  process-NoClash peerid packet now sessions n = elim (Bool-cases (same_text peerid "")) [
    | inl q ↦ rw q n
    | inr q ↦
        rw q
          (process_in-NoClash (find_session headers code.Own peerid sessions) packet now sessions n)
  ]

  All-erase_all_pending :
      (P : Entry headers code → Type 0) (now : ℕ) (sessions : Sessions)
      → All P sessions
      → All P (erase_all_pending headers code now sessions)
  unfolding erase_all_pending
  All-erase_all_pending P now [] a = tt
  All-erase_all_pending P now (s ∷ sessions) a = elim (Bool-cases (ltb now s.wait_for_contact)) [
    | inl e ↦ rw e (a.0, All-erase_all_pending P now sessions a.1)
    | inr e ↦ rw e (All-erase_all_pending P now sessions a.1)
  ]

  erase_all_pending-NoClash :
      (now : ℕ) (sessions : Sessions)
      → IsFine sessions
      → IsFine (erase_all_pending headers code now sessions)
  unfolding erase_all_pending
  erase_all_pending-NoClash now [] n = tt
  erase_all_pending-NoClash now (s ∷ sessions) n = elim (Bool-cases (ltb now s.wait_for_contact)) [
    | inl e ↦ rw e (
      All-erase_all_pending (IsApart headers code.Own s) now sessions n.0,
      erase_all_pending-NoClash now sessions n.1,
    )
    | inr e ↦ rw e (erase_all_pending-NoClash now sessions n.1)
  ]

  -- No two sessions have a key in common, and no action of a session is errored.
  abbrev pub IsSound : Sessions → Type 0
  IsSound sessions = NoClash headers code.Own sessions × All (IsClean headers code) sessions

  -- The calls of the class; each step is one of them. The actions that `add` is given have met no
  -- error yet.
  pub data Step : Sessions → Sessions → Type 0 where
    adds :
        (header : headers.Header) (actions : List (Action code.Own)) (wait_duration now : ℕ)
        (sessions : Sessions)
        → NoErrors headers code actions
        → Step sessions (add headers code header actions wait_duration now sessions).0
    removes :
        (peerid : String) (sessions : Sessions)
        → Step sessions (remove headers code peerid sessions)
    processes :
        (peerid : String) (packet : code.Package) (now : ℕ) (sessions : Sessions)
        → Step sessions (process headers code peerid packet now sessions).0
    erases :
        (now : ℕ) (sessions : Sessions)
        → Step sessions (erase_all_pending headers code now sessions)

  -- What a manager can come to hold.
  pub data Reachable : Sessions → Type 0 where
    starts : Reachable []
    steps : {before after : Sessions} → Reachable before → Step before after → Reachable after

  Step-IsSound : {before after : Sessions} → Step before after → IsSound before → IsSound after
  unfolding remove
  Step-IsSound (adds header actions wait_duration now sessions a) (n, c) = (
    add-NoClash header actions wait_duration now sessions n,
    add-AllClean headers code header actions wait_duration now sessions a c,
  )
  Step-IsSound (removes peerid sessions) (n, c) = (
    erase_session-NoClash headers code.Own peerid sessions n,
    All-erase_session headers code.Own (IsClean headers code) peerid sessions c,
  )
  Step-IsSound (processes peerid packet now sessions) (n, c) = (
    process-NoClash peerid packet now sessions n,
    process-AllClean headers code peerid packet now sessions c,
  )
  Step-IsSound (erases now sessions) (n, c) = (
    erase_all_pending-NoClash now sessions n,
    All-erase_all_pending (IsClean headers code) now sessions c,
  )

  Reachable-IsFine : (sessions : Sessions) → Reachable sessions → IsSound sessions
  Reachable-IsFine sessions starts = (tt, tt)
  Reachable-IsFine sessions (steps r s) = Step-IsSound s (Reachable-IsFine _ r)

  -- After any calls of `add`, `remove`, `process` and `erase_all_pending` on a new manager, where
  -- the actions that are given to `add` have met no error yet, and whatever they do then, also
  -- where they throw: no session holds an action that has met an error, and no two sessions have a
  -- key of a unique index in common. A further `add` leaves each session as it is whose keys are
  -- not the same as those of its header, also one that keeps the new session out.
  pub Reachable-IsSound :
      (sessions : Sessions)
      → Reachable sessions
      → NoClash headers code.Own sessions
        × All (IsClean headers code) sessions
        × ((header : headers.Header) (actions : List (Action code.Own)) (wait_duration now : ℕ)
              (k : String) (s : Entry headers code)
            → find_session headers code.Own k sessions ≡ some s
            → headers.keys_same s.header header ≡ false
            → find_session headers code.Own k
                (add headers code header actions wait_duration now sessions).0
              ≡ some s)
  Reachable-IsSound sessions r =
      let (n, c) = Reachable-IsFine sessions r in
      (
        n,
        c,
        λ header actions wait_duration now k s.
            add-find_session headers code header actions wait_duration now sessions k s n,
      )
