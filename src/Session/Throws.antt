-- ===== src/Session/Throws.antt =====
-- src/libsessionutility/sessionutility.cpp: an exception that leaves a call of `session_manager`.
use mesh_pp.Prelude.{
  ℕ, ◌≡◌, ◌≢◌, refl, ◌∙◌, subst, ◌||◌, ◌==◌, length, Bool, Option, none, some, List, [], ◌∷◌,
  String, Result, ok, throw, Exception, Bool-cases, inl, inr, arith,
}
use mesh_pp.Session.State.{
  HeaderClass, Action, ActionClass, same_text, find_session, erase_session, blocked_by, key_of,
}
use mesh_pp.Session.Manager.{
  Entry, Adding, add, add_unless, after_adding, add_to, add_actions, start_adding, new_session,
}
use mesh_pp.Session.Process.{
  process, process_in, after_processing, Progress, process_actions, start_processing, Processing,
  finish_process, processed_session,
}
use mesh_pp.Session.Invariant.{
  erase_session_absent, find_session-key_of, blocked_by-find_session, same_text_self,
}
use mesh_pp.Session.Found.{find_session-erase_session, erase_session_gone, modify-find_session}

module _ (headers : HeaderClass) (code : ActionClass headers.Header) where
  abbrev Sessions : Type 0
  Sessions = List (Entry headers code)

  -- What a call leaves: the sessions of other peers, and none with the peer where it throws.
  abbrev IsLeft : String → Sessions → Sessions × Result Bool → Type 0
  IsLeft peerid sessions r =
      ((k : String) (s : Entry headers code)
        → k ≢ peerid
        → find_session headers code.Own k sessions ≡ some s
        → find_session headers code.Own k r.0 ≡ some s)
      × ((e : Exception) → r.1 ≡ throw e → find_session headers code.Own peerid r.0 ≡ none)

  finish_process-find_session :
      (now : ℕ) (session : Entry headers code) (actions : List (Action code.Own))
      (st : Processing headers code) (sessions : Sessions) (k : String) (s : Entry headers code)
      → k ≢ headers.peerid session.header
      → find_session headers code.Own k sessions ≡ some s
      → find_session headers code.Own k
          (finish_process headers code now session actions st sessions)
        ≡ some s
  unfolding finish_process
  finish_process-find_session now session actions st sessions k s n e =
      let key = headers.peerid session.header in
      elim (Bool-cases (st.is_errored || st.dispose_count == length actions)) [
        | inl q ↦ rw q (find_session-erase_session headers code.Own k key sessions n ∙ e)
        | inr q ↦ rw q (
            modify-find_session headers code.Own key
              (processed_session headers code now session actions st) k sessions {t = s} n e)
      ]

  after_processing-IsLeft :
      (now : ℕ) (session : Entry headers code) (sessions : Sessions)
      (processed : Progress headers code)
      → IsLeft
          (headers.peerid session.header)
          sessions
          (after_processing headers code now session sessions processed)
  unfolding after_processing
  after_processing-IsLeft now session sessions (throw x) =
      let key = headers.peerid session.header in
      (
        λ k s n e. find_session-erase_session headers code.Own k key sessions n ∙ e,
        λ e q. erase_session_gone headers code.Own key sessions,
      )
  after_processing-IsLeft now session sessions (ok (actions, st)) = (
    λ k s n e. finish_process-find_session now session actions st sessions k s n e,
    λ e q. absurd (ground (arith, q)),
  )

  process_in-IsLeft :
      (o : Option (Entry headers code)) (packet : code.Package) (now : ℕ) (peerid : String)
      (sessions : Sessions)
      → find_session headers code.Own peerid sessions ≡ o
      → IsLeft peerid sessions (process_in headers code o packet now sessions)
  unfolding process_in
  process_in-IsLeft none packet now peerid sessions f =
      (λ k s n e. e, λ e q. absurd (ground (arith, q)))
  process_in-IsLeft (some session) packet now peerid sessions f =
      let progress =
        process_actions headers code session.actions
          (start_processing headers code packet session) in
      subst (λ t. IsLeft t sessions (after_processing headers code now session sessions progress))
        (find_session-key_of headers code.Own peerid sessions f)
        (after_processing-IsLeft now session sessions progress)

  -- `process` leaves the session of every other peer as it is, whatever the actions do to the
  -- header and also where they throw. Where it throws, no session with the peer is left.
  pub process-find_session :
      (peerid : String) (packet : code.Package) (now : ℕ) (sessions : Sessions)
      → ((k : String) (s : Entry headers code)
          → k ≢ peerid
          → find_session headers code.Own k sessions ≡ some s
          → find_session headers code.Own k (process headers code peerid packet now sessions).0
            ≡ some s)
        × ((e : Exception)
            → (process headers code peerid packet now sessions).1 ≡ throw e
            → find_session headers code.Own peerid
                (process headers code peerid packet now sessions).0
              ≡ none)
  unfolding process
  process-find_session peerid packet now sessions = elim (Bool-cases (same_text peerid "")) [
    | inl p ↦ rw p (λ k s n e. e, λ e q. absurd (ground (arith, q)))
    | inr p ↦ rw p (
        process_in-IsLeft (find_session headers code.Own peerid sessions) packet now peerid sessions
          refl)
  ]

  after_adding-throws :
      (wait_duration now : ℕ) (session : Entry headers code) (sessions : Sessions)
      (added : Result (Adding headers code)) {e : Exception}
      → (after_adding headers code wait_duration now session sessions added).1 ≡ throw e
      → (after_adding headers code wait_duration now session sessions added).0
        ≡ erase_session headers code.Own (headers.peerid session.header) sessions
  unfolding after_adding
  after_adding-throws wait_duration now session sessions (throw x) q = refl
  after_adding-throws wait_duration now session sessions (ok st) q = absurd (ground (arith, q))

  erase_session_new :
      (s : Entry headers code) (sessions : Sessions)
      → blocked_by headers code.Own s sessions ≡ none
      → erase_session headers code.Own (key_of headers code.Own s) (s ∷ sessions) ≡ sessions
  unfolding erase_session
  erase_session_new s sessions b =
      let absent = blocked_by-find_session headers code.Own s sessions b in
      rw (same_text_self (key_of headers code.Own s))
        (erase_session_absent headers code.Own (key_of headers code.Own s) sessions absent)

  add_unless-throws :
      (o : Option (Entry headers code)) (header : headers.Header) (actions : List (Action code.Own))
      (wait_duration now : ℕ) (sessions : Sessions) {e : Exception}
      → blocked_by headers code.Own (new_session headers code header wait_duration) sessions ≡ none
      → o ≡ none
      → (add_unless headers code o header actions wait_duration now sessions).1 ≡ throw e
      → (add_unless headers code o header actions wait_duration now sessions).0 ≡ sessions
  unfolding add_unless add_to
  add_unless-throws (some session) header actions wait_duration now sessions b n q =
      absurd (ground (arith, n))
  add_unless-throws none header actions wait_duration now sessions {e} b n q =
      let item = new_session headers code header wait_duration in
      after_adding-throws wait_duration now item (item ∷ sessions)
        (add_actions headers code actions (start_adding headers code item)) {e = e} q
      ∙ erase_session_new item sessions b

  -- Where `add` throws for a header that no session keeps out, the sessions are as before.
  pub add-throws :
      (header : headers.Header) (actions : List (Action code.Own)) (wait_duration now : ℕ)
      (sessions : Sessions) (e : Exception)
      → blocked_by headers code.Own (new_session headers code header wait_duration) sessions ≡ none
      → (add headers code header actions wait_duration now sessions).1 ≡ throw e
      → (add headers code header actions wait_duration now sessions).0 ≡ sessions
  unfolding add
  add-throws header [] wait_duration now sessions e b q = refl
  add-throws header (a ∷ actions) wait_duration now sessions e b q =
      add_unless-throws
        (blocked_by headers code.Own (new_session headers code header wait_duration) sessions)
        header (a ∷ actions) wait_duration now sessions {e = e} b b q
