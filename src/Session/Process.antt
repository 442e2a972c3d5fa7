-- ===== src/Session/Process.antt =====
-- src/libsessionutility/sessionutility.cpp: `process` and `erase_all_pending`.
use mesh_pp.Prelude.{
  ℕ, suc, ◌+◌, Bool, false, not, ◌&&◌, ◌||◌, Option, none, some, List, [], ◌∷◌, String, length,
  if◌then◌else◌, Result, ok, throw, ltb, ◌==◌,
}
use mesh_pp.Session.State.{
  HeaderClass, Action, ActionClass, Session, same_text, find_session, erase_session, modify,
}
use mesh_pp.Session.Manager.{as_initiated}

module _ (headers : HeaderClass) (code : ActionClass headers.Header) where
  -- The locals of `process`.
  pub record Processing : Type 0 where
    pub header_update : headers.Header
    pub packet : code.Package
    pub is_initiating : Bool
    pub is_errored : Bool
    pub update_last_contacted : Bool
    pub dispose_count : ℕ

  -- An action is disposed of when it is completed and not permanent.
  unfoldable pub is_done : Action code.Own → Bool
  is_done a = a.completed && not (code.permanent a)

  unfoldable pub count_done : Action code.Own → ℕ → ℕ
  unfolding is_done
  count_done a n = if is_done a then suc n else n

  -- What follows `initiate` in the turn.
  unfoldable pub after_initiate_next : Action code.Own → headers.Header → Processing → Processing
  unfolding count_done
  after_initiate_next a header st = record st {
    header_update = header;
    is_errored = a.errored;
    dispose_count = count_done a st.dispose_count;
  }

  -- What follows `process` in the turn.
  unfoldable pub after_process :
      Bool → Action code.Own → code.Package → headers.Header → Processing → Processing
  unfolding count_done
  after_process processed a packet header st = record st {
    header_update = header;
    packet = packet;
    is_initiating = processed && a.completed;
    is_errored = a.errored;
    update_last_contacted = processed || st.update_last_contacted;
    dispose_count = if processed then count_done a st.dispose_count else st.dispose_count;
  }

  abbrev pub Progress : Type 0
  Progress = Result (List (Action code.Own) × Processing)

  unfoldable pub prepend : Action code.Own → Progress → Progress
  prepend a (throw e) = throw e
  prepend a (ok (actions, st)) = ok (a ∷ actions, st)

  -- The loop over the actions, which are changed where they stand.
  unfoldable pub process_actions : List (Action code.Own) → Processing → Progress
  unfolding after_initiate_next after_process prepend
  process_actions [] st = ok ([], st)
  process_actions (a ∷ actions) st =
      let initiated : Progress = elim (code.initiate a st.header_update) [
        | throw e ↦ throw e
        | ok (a', header) ↦
            let next = after_initiate_next (as_initiated headers code a') header st in
            let rest = process_actions actions next in
            prepend (as_initiated headers code a')
              (if a'.completed then rest else ok (actions, next))
      ] in
      let processed : Progress = elim (code.process a st.packet st.header_update) [
        | throw e ↦ throw e
        | ok (answer, a', packet, header) ↦
            prepend a' (process_actions actions (after_process answer a' packet header st))
      ] in
      if st.is_errored
      then ok (a ∷ actions, st)
      else if st.is_initiating
      then initiated
      else processed

  -- `remove_if` of the actions that are done.
  unfoldable pub remove_done : List (Action code.Own) → List (Action code.Own)
  unfolding is_done
  remove_done [] = []
  remove_done (a ∷ actions) = let rest = remove_done actions in if is_done a then rest else a ∷ rest

  abbrev pub Entry : Type 0
  Entry = Session headers.Header code.Own

  -- The session as `process` leaves it.
  unfoldable pub processed_session : ℕ → Entry → List (Action code.Own) → Processing → Entry
  unfolding remove_done
  processed_session now session actions st =
      if not (headers.same_header st.header_update session.header) || st.update_last_contacted
      then record session {
        header = st.header_update;
        wait_for_contact =
            if st.update_last_contacted
            then now + session.wait_duration
            else session.wait_for_contact;
        actions = remove_done actions;
      }
      else record session { actions = actions }

  -- `process` behind the loop.
  unfoldable pub finish_process :
      ℕ → Entry → List (Action code.Own) → Processing → List Entry → List Entry
  unfolding erase_session modify processed_session
  finish_process now session actions st sessions =
      let key = headers.peerid session.header in
      if st.is_errored || st.dispose_count == length actions
      then erase_session headers code.Own key sessions
      else modify headers code.Own key (processed_session now session actions st) sessions

  abbrev pub start_processing : code.Package → Entry → Processing
  start_processing packet session = record {
    header_update = session.header;
    packet = packet;
    is_initiating = false;
    is_errored = false;
    update_last_contacted = false;
    dispose_count = 0;
  }

  -- What is left of the loop; an exception erases the session.
  unfoldable pub after_processing : ℕ → Entry → List Entry → Progress → List Entry × Result Bool
  unfolding finish_process erase_session
  after_processing now session sessions (throw e) =
      (erase_session headers code.Own (headers.peerid session.header) sessions, throw e)
  after_processing now session sessions (ok (actions, st)) =
      (finish_process now session actions st sessions, ok st.update_last_contacted)

  -- `process` on the session that is looked up.
  unfoldable pub process_in :
      Option Entry → code.Package → ℕ → List Entry → List Entry × Result Bool
  unfolding process_actions after_processing
  process_in none packet now sessions = (sessions, ok false)
  process_in (some session) packet now sessions =
      after_processing now session sessions
        (process_actions session.actions (start_processing packet session))

  unfoldable pub process : String → code.Package → ℕ → List Entry → List Entry × Result Bool
  unfolding same_text find_session process_in
  process peerid packet now sessions =
      let processed =
        process_in (find_session headers code.Own peerid sessions) packet now sessions in
      if same_text peerid "" then (sessions, ok false) else processed

  -- The sessions up to `upper_bound(now)` in the order of `wait_for_contact` are erased.
  unfoldable pub erase_all_pending : ℕ → List Entry → List Entry
  erase_all_pending now [] = []
  erase_all_pending now (s ∷ sessions) =
      let rest = erase_all_pending now sessions in
      if ltb now s.wait_for_contact then s ∷ rest else rest
