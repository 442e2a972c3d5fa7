-- ===== src/Session/Manager.antt =====
-- src/libsessionutility/sessionutility.cpp: the operations of `session_manager`. The clock is a
-- number, and a call gives the container as it leaves it.
use mesh_pp.Prelude.{
  ℕ, ◌+◌, Bool, true, false, not, ◌||◌, Option, none, some, List, [], ◌∷◌, ◌++◌, String,
  if◌then◌else◌, Result, ok, throw, logic_error, ltb, contains,
}
use mesh_pp.Session.State.{
  HeaderClass, Action, ActionClass, Session, erase_session, blocked_by, modify,
}

module _ (headers : HeaderClass) (code : ActionClass headers.Header) where
  abbrev pub Entry : Type 0
  Entry = Session headers.Header code.Own

  -- The locals of `add`, with the actions that the session has got.
  pub record Adding : Type 0 where
    pub header_update : headers.Header
    pub existing_permanent_actions : List ℕ
    pub previous_completed : Bool
    pub update_last_contacted : Bool
    pub is_errored : Bool
    pub stored : List (Action code.Own)

  unfoldable pub collect_permanent : List (Action code.Own) → List ℕ
  collect_permanent [] = []
  collect_permanent (a ∷ actions) =
      let rest = collect_permanent actions in
      if code.permanent a then code.hash_code a.own ∷ rest else rest

  unfoldable pub last_completed : List (Action code.Own) → Bool
  last_completed [] = true
  last_completed (a ∷ []) = a.completed
  last_completed (a ∷ b ∷ actions) = last_completed (b ∷ actions)

  -- An action that is not done with is moved into the session.
  unfoldable pub store_action : Action code.Own → Adding → Adding
  store_action a st =
      if not a.completed || code.permanent a
      then record st {
        existing_permanent_actions =
            if code.permanent a
            then code.hash_code a.own ∷ st.existing_permanent_actions
            else st.existing_permanent_actions;
        stored = st.stored ++ a ∷ [];
      }
      else st

  abbrev pub as_initiated : Action code.Own → Action code.Own
  as_initiated a = record a { initiated = true }

  -- What follows `initiate` in the turn: an error ends the loop.
  unfoldable pub after_initiate : Action code.Own → headers.Header → Adding → Adding
  unfolding store_action
  after_initiate a header st =
      let next = record st {
        header_update = header;
        update_last_contacted = true;
        previous_completed = a.completed;
        is_errored = a.errored;
      } in
      if a.errored then next else store_action a next

  unfoldable pub add_action : Action code.Own → Adding → Result Adding
  unfolding store_action after_initiate contains
  add_action a st =
      if contains (code.hash_code a.own) st.existing_permanent_actions
      then ok st
      else if st.previous_completed
      then elim (code.initiate a st.header_update) [
        | throw e ↦ throw e
        | ok (a', header) ↦ ok (after_initiate (as_initiated a') header st)
      ]
      else ok (store_action a st)

  unfoldable pub add_actions : List (Action code.Own) → Adding → Result Adding
  unfolding add_action
  add_actions [] st = ok st
  add_actions (a ∷ actions) st = elim (add_action a st) [
    | throw e ↦ throw e
    | ok next ↦ let rest = add_actions actions next in if next.is_errored then ok next else rest
  ]

  -- The session as the last `modify` of `add` leaves it.
  unfoldable pub contacted : ℕ → ℕ → Entry → Adding → Entry
  contacted wait_duration now session st =
      let duration =
        if ltb wait_duration session.wait_duration then wait_duration else session.wait_duration in
      if not (headers.same_header st.header_update session.header) || st.update_last_contacted
      then record {
        header = st.header_update;
        wait_for_contact =
            if st.update_last_contacted then now + duration else session.wait_for_contact;
        wait_duration = duration;
        actions = st.stored;
      }
      else record session { actions = st.stored }

  unfoldable pub is_empty : List (Action code.Own) → Bool
  is_empty [] = true
  is_empty (a ∷ actions) = false

  -- `add` behind the loop.
  unfoldable pub finish_add : ℕ → ℕ → Entry → Adding → List Entry → List Entry
  unfolding erase_session modify contacted is_empty
  finish_add wait_duration now session st sessions =
      let key = headers.peerid session.header in
      if st.is_errored || is_empty st.stored
      then erase_session headers code.Own key sessions
      else modify headers code.Own key (contacted wait_duration now session st) sessions

  abbrev pub start_adding : Entry → Adding
  start_adding session = record {
    header_update = session.header;
    existing_permanent_actions = collect_permanent session.actions;
    previous_completed = last_completed session.actions;
    update_last_contacted = false;
    is_errored = false;
    stored = session.actions;
  }

  -- What is left of the loop; an exception erases the session.
  unfoldable pub after_adding :
      ℕ → ℕ → Entry → List Entry → Result Adding → List Entry × Result Bool
  unfolding finish_add erase_session
  after_adding wait_duration now session sessions (throw e) =
      (erase_session headers code.Own (headers.peerid session.header) sessions, throw e)
  after_adding wait_duration now session sessions (ok st) =
      (finish_add wait_duration now session st sessions, ok true)

  -- `add` on the session that the container has.
  unfoldable pub add_to :
      List (Action code.Own) → ℕ → ℕ → Entry → List Entry → List Entry × Result Bool
  unfolding collect_permanent last_completed add_actions after_adding
  add_to actions wait_duration now session sessions =
      after_adding wait_duration now session sessions (add_actions actions (start_adding session))

  abbrev pub new_session : headers.Header → ℕ → Entry
  new_session header wait_duration = record {
    header = header;
    wait_for_contact = 0;
    wait_duration = wait_duration;
    actions = [];
  }

  -- `add` behind the insertion, which another session may have kept out.
  unfoldable pub add_unless :
      Option Entry
      → headers.Header
      → List (Action code.Own)
      → ℕ
      → ℕ
      → List Entry
      → List Entry × Result Bool
  unfolding add_to
  add_unless none header actions wait_duration now sessions =
      let item = new_session header wait_duration in
      add_to actions wait_duration now item (item ∷ sessions)
  add_unless (some session) header actions wait_duration now sessions =
      let added = add_to actions wait_duration now session sessions in
      if headers.keys_same session.header header then added else (sessions, ok false)

  unfoldable pub add :
      headers.Header → List (Action code.Own) → ℕ → ℕ → List Entry → List Entry × Result Bool
  unfolding blocked_by add_unless
  add header [] wait_duration now sessions = (sessions, throw logic_error)
  add header (a ∷ actions) wait_duration now sessions =
      add_unless (blocked_by headers code.Own (new_session header wait_duration) sessions) header
        (a ∷ actions) wait_duration now sessions

  unfoldable pub remove : String → List Entry → List Entry
  unfolding erase_session
  remove peerid sessions = erase_session headers code.Own peerid sessions
