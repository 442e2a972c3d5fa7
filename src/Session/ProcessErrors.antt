-- ===== src/Session/ProcessErrors.antt =====
-- src/libsessionutility/sessionutility.cpp: an action that is errored in `process` does not stay.
use mesh_pp.Prelude.{
  Result-cases, ℕ, ◌≡◌, refl, subst, Bool, false, not, ◌||◌, Option, none, some, List, [], ◌∷◌,
  String, ok, throw, All, Bool-cases, inl, inr, arith, length, ◌==◌,
}
use mesh_pp.Session.State.{HeaderClass, Action, ActionClass, same_text, find_session}
use mesh_pp.Session.Manager.{Entry, as_initiated}
use mesh_pp.Session.Process.{
  Processing, process, process_in, after_processing, Progress, process_actions, start_processing,
  finish_process, processed_session, remove_done, is_done, prepend, after_initiate_next,
  after_process,
}
use mesh_pp.Session.Invariant.{All-erase_session, All-modify}
use mesh_pp.Session.Found.{find_session-All}
use mesh_pp.Session.Errors.{NoErrors, IsClean}

module _ (headers : HeaderClass) (code : ActionClass headers.Header) where
  abbrev Sessions : Type 0
  Sessions = List (Entry headers code)

  abbrev IsCleanEntry : Entry headers code → Type 0
  IsCleanEntry = IsClean headers code

  abbrev AllClean : Sessions → Type 0
  AllClean sessions = All IsCleanEntry sessions

  -- What `process` has done is clean, unless it met an error; `errored` is what it started with.
  abbrev CleanProgress : Bool → Progress headers code → Type 0
  CleanProgress errored (throw e) = Unit
  CleanProgress errored (ok (actions, st)) =
      st.is_errored ≡ false → (errored ≡ false) × NoErrors headers code actions

  prepend-CleanProgress :
      (errored : Bool) (a : Action code.Own) (progress : Progress headers code)
      → errored ≡ false
      → CleanProgress a.errored progress
      → CleanProgress errored (prepend headers code a progress)
  unfolding prepend
  prepend-CleanProgress errored a (throw e) f c = tt
  prepend-CleanProgress errored a (ok (actions, st)) f c = λ g. (f, c g)

  process_actions-CleanProgress :
      (actions : List (Action code.Own)) (st : Processing headers code)
      → NoErrors headers code actions
      → CleanProgress st.is_errored (process_actions headers code actions st)
  unfolding process_actions after_initiate_next after_process
  process_actions-CleanProgress [] st n = λ g. (g, tt)
  process_actions-CleanProgress (a ∷ actions) st n = elim (Bool-cases st.is_errored) [
    | inl q ↦
        let same : ok (a ∷ actions, st) ≡ process_actions headers code (a ∷ actions) st =
          ground (arith, q) in
        subst (CleanProgress st.is_errored) same (λ g. absurd (ground (arith, g, q)))
    | inr q ↦ elim (Bool-cases st.is_initiating) [
      | inr p ↦ elim (Result-cases (code.process a st.packet st.header_update)) [
        | inl (e, i) ↦
            let same : throw e ≡ process_actions headers code (a ∷ actions) st =
              ground (arith, q, p, i) in
            subst (CleanProgress st.is_errored) same tt
        | inr ((answer, a', packet, header), i) ↦
            let next = after_process headers code answer a' packet header st in
            let rest = process_actions headers code actions next in
            let same : prepend headers code a' rest
                ≡ process_actions headers code (a ∷ actions) st =
              ground (arith, q, p, i) in
            subst (CleanProgress st.is_errored) same (
              prepend-CleanProgress st.is_errored a' rest q
                (process_actions-CleanProgress actions next n.1))
      ]
      | inl p ↦ elim (Result-cases (code.initiate a st.header_update)) [
        | inl (e, i) ↦
            let same : throw e ≡ process_actions headers code (a ∷ actions) st =
              ground (arith, q, p, i) in
            subst (CleanProgress st.is_errored) same tt
        | inr ((a', header), i) ↦
            let b = as_initiated headers code a' in
            let next = after_initiate_next headers code b header st in
            let rest = process_actions headers code actions next in
            elim (Bool-cases a'.completed) [
              | inl c ↦
                  let same : prepend headers code b rest
                      ≡ process_actions headers code (a ∷ actions) st =
                    ground (arith, q, p, i, c) in
                  subst (CleanProgress st.is_errored) same (
                    prepend-CleanProgress st.is_errored b rest q
                      (process_actions-CleanProgress actions next n.1))
              | inr c ↦
                  let same : prepend headers code b (ok (actions, next))
                      ≡ process_actions headers code (a ∷ actions) st =
                    ground (arith, q, p, i, c) in
                  subst (CleanProgress st.is_errored) same
                    (prepend-CleanProgress st.is_errored b (ok (actions, next)) q (λ g. (g, n.1)))
            ]
      ]
    ]
  ]

  remove_done-NoErrors :
      (actions : List (Action code.Own))
      → NoErrors headers code actions
      → NoErrors headers code (remove_done headers code actions)
  unfolding remove_done
  remove_done-NoErrors [] n = tt
  remove_done-NoErrors (a ∷ actions) n = elim (Bool-cases (is_done headers code a)) [
    | inl q ↦ rw q (remove_done-NoErrors actions n.1)
    | inr q ↦ rw q (n.0, remove_done-NoErrors actions n.1)
  ]

  processed_session-IsClean :
      (now : ℕ) (session : Entry headers code) (actions : List (Action code.Own))
      (st : Processing headers code)
      → NoErrors headers code actions
      → IsClean headers code (processed_session headers code now session actions st)
  unfolding processed_session
  processed_session-IsClean now session actions st n =
      elim (Bool-cases
        (not (headers.same_header st.header_update session.header) || st.update_last_contacted)) [
          | inl q ↦ rw q (remove_done-NoErrors actions n)
          | inr q ↦ rw q n
        ]

  finish_process-AllClean :
      (now : ℕ) (session : Entry headers code) (actions : List (Action code.Own))
      (st : Processing headers code) (sessions : Sessions)
      → (st.is_errored ≡ false → NoErrors headers code actions)
      → AllClean sessions
      → AllClean (finish_process headers code now session actions st sessions)
  unfolding finish_process
  finish_process-AllClean now session actions st sessions f n =
      let key = headers.peerid session.header in
      elim (Bool-cases (st.is_errored || st.dispose_count == length actions)) [
        | inl e ↦ rw e (All-erase_session headers code.Own IsCleanEntry key sessions n)
        | inr e ↦ rw e (
            All-modify headers code.Own IsCleanEntry key
              (processed_session headers code now session actions st) sessions
              (processed_session-IsClean now session actions st (f (ground (arith, e)))) n)
      ]

  after_processing-AllClean :
      (now : ℕ) (session : Entry headers code) (sessions : Sessions)
      (processed : Progress headers code)
      → CleanProgress false processed
      → AllClean sessions
      → AllClean (after_processing headers code now session sessions processed).0
  unfolding after_processing
  after_processing-AllClean now session sessions (throw e) c n =
      All-erase_session headers code.Own IsCleanEntry (headers.peerid session.header) sessions n
  after_processing-AllClean now session sessions (ok (actions, st)) c n =
      finish_process-AllClean now session actions st sessions (λ g. (c g).1) n

  process_in-AllClean :
      (o : Option (Entry headers code)) (peerid : String) (packet : code.Package) (now : ℕ)
      (sessions : Sessions)
      → find_session headers code.Own peerid sessions ≡ o
      → AllClean sessions
      → AllClean (process_in headers code o packet now sessions).0
  unfolding process_in
  process_in-AllClean none peerid packet now sessions e n = n
  process_in-AllClean (some session) peerid packet now sessions e n =
      let st = start_processing headers code packet session in
      after_processing-AllClean now session sessions
        (process_actions headers code session.actions st)
        (process_actions-CleanProgress session.actions st
          (find_session-All headers code.Own IsCleanEntry peerid sessions {s = session} e n))
        n

  pub process-AllClean :
      (peerid : String) (packet : code.Package) (now : ℕ) (sessions : Sessions)
      → All (IsClean headers code) sessions
      → All (IsClean headers code) (process headers code peerid packet now sessions).0
  unfolding process
  process-AllClean peerid packet now sessions n = elim (Bool-cases (same_text peerid "")) [
    | inl q ↦ rw q n
    | inr q ↦ rw q (
        process_in-AllClean (find_session headers code.Own peerid sessions) peerid packet now
          sessions refl n)
  ]
