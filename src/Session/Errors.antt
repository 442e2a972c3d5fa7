-- ===== src/Session/Errors.antt =====
-- src/libsessionutility/sessionutility.cpp: an action that is errored does not stay in the container.
use mesh_pp.Prelude.{
  Result-cases, ℕ, ◌≡◌, refl, subst, true, false, not, ◌||◌, Option, none, some, List, [], ◌∷◌,
  ◌++◌, ok, All, Bool-cases, inl, inr, arith, contains,
}
use mesh_pp.Session.State.{HeaderClass, Action, ActionClass, blocked_by}
use mesh_pp.Session.Manager.{
  Entry, Adding, add, add_unless, after_adding, add_to, add_actions, add_action, after_initiate,
  store_action, as_initiated, start_adding, finish_add, contacted, new_session, is_empty,
}
use mesh_pp.Session.Invariant.{All-erase_session, All-modify}
use mesh_pp.Session.Found.{blocked_by-All}

module _ (headers : HeaderClass) (code : ActionClass headers.Header) where
  abbrev Sessions : Type 0
  Sessions = List (Entry headers code)

  abbrev pub NoErrors : List (Action code.Own) → Type 0
  NoErrors actions = All (λ a. a.errored ≡ false) actions

  abbrev pub IsClean : Entry headers code → Type 0
  IsClean s = NoErrors s.actions

  NoErrors-append :
      (actions : List (Action code.Own)) (a : Action code.Own)
      → NoErrors actions
      → a.errored ≡ false
      → NoErrors (actions ++ a ∷ [])
  NoErrors-append [] a n e = (e, tt)
  NoErrors-append (b ∷ actions) a n e = (n.0, NoErrors-append actions a n.1 e)

  -- What `add` has done is clean, unless it met an error.
  abbrev Fine : Adding headers code → Type 0
  Fine st = st.is_errored ≡ false → NoErrors st.stored

  store_action-Fine :
      (a : Action code.Own) (st : Adding headers code)
      → a.errored ≡ false
      → Fine st
      → Fine (store_action headers code a st)
  unfolding store_action
  store_action-Fine a st e f = elim (Bool-cases (not a.completed || code.permanent a)) [
    | inl q ↦ rw q (λ g. NoErrors-append st.stored a (f g) e)
    | inr q ↦ rw q f
  ]

  after_initiate-Fine :
      (a : Action code.Own) (header : headers.Header) (st : Adding headers code)
      → NoErrors st.stored
      → Fine (after_initiate headers code a header st)
  unfolding after_initiate
  after_initiate-Fine a header st n =
      let next : Adding headers code = record st {
        header_update = header;
        update_last_contacted = true;
        previous_completed = a.completed;
        is_errored = a.errored;
      } in
      elim (Bool-cases a.errored) [
        | inl q ↦
            let e : next ≡ after_initiate headers code a header st = ground (arith, q) in
            subst Fine e (λ g. absurd (ground (arith, g, q)))
        | inr q ↦
            let e : store_action headers code a next ≡ after_initiate headers code a header st =
              ground (arith, q) in
            subst Fine e (store_action-Fine a next q (λ g. n))
      ]

  add_action-Fine :
      (a : Action code.Own) (st : Adding headers code) {next : Adding headers code}
      → a.errored ≡ false
      → NoErrors st.stored
      → add_action headers code a st ≡ ok next
      → Fine next
  unfolding add_action
  add_action-Fine a st {next} e n q =
      elim (Bool-cases (contains (code.hash_code a.own) st.existing_permanent_actions)) [
        | inl c ↦ let same : st ≡ next = ground (arith, q, c) in subst Fine same (λ g. n)
        | inr c ↦ elim (Bool-cases st.previous_completed) [
          | inr p ↦
              let same : store_action headers code a st ≡ next = ground (arith, q, c, p) in
              subst Fine same (store_action-Fine a st e (λ g. n))
          | inl p ↦ elim (Result-cases (code.initiate a st.header_update)) [
            | inl (x, i) ↦ absurd (ground (arith, q, c, p, i))
            | inr ((a', header), i) ↦
                let b = as_initiated headers code a' in
                let same : after_initiate headers code b header st ≡ next =
                  ground (arith, q, c, p, i) in
                subst Fine same (after_initiate-Fine (as_initiated headers code a') header st n)
          ]
        ]
      ]

  add_actions-Fine :
      (actions : List (Action code.Own)) (st : Adding headers code) {end : Adding headers code}
      → NoErrors actions
      → NoErrors st.stored
      → add_actions headers code actions st ≡ ok end
      → Fine end
  unfolding add_actions
  add_actions-Fine [] st {end} a n q =
      let same : st ≡ end = ground (arith, q) in subst Fine same (λ g. n)
  add_actions-Fine (a ∷ actions) st {end} c n q =
      elim (Result-cases (add_action headers code a st)) [
        | inl (x, i) ↦ absurd (ground (arith, q, i))
        | inr (next, i) ↦
            let f = add_action-Fine a st {next = next} c.0 n i in
            elim (Bool-cases next.is_errored) [
              | inl b ↦ let same : next ≡ end = ground (arith, q, i, b) in subst Fine same f
              | inr b ↦
                  add_actions-Fine actions next {end = end} c.1 (f b) (ground (arith, q, i, b))
            ]
      ]

  contacted-IsClean :
      (wait_duration now : ℕ) (session : Entry headers code) (st : Adding headers code)
      → NoErrors st.stored
      → IsClean (contacted headers code wait_duration now session st)
  unfolding contacted
  contacted-IsClean wait_duration now session st n =
      elim (Bool-cases
        (not (headers.same_header st.header_update session.header) || st.update_last_contacted)) [
          | inl q ↦ rw q n
          | inr q ↦ rw q n
        ]

  abbrev AllClean : Sessions → Type 0
  AllClean sessions = All IsClean sessions

  finish_add-AllClean :
      (wait_duration now : ℕ) (session : Entry headers code) (st : Adding headers code)
      (sessions : Sessions)
      → Fine st
      → AllClean sessions
      → AllClean (finish_add headers code wait_duration now session st sessions)
  unfolding finish_add
  finish_add-AllClean wait_duration now session st sessions f n =
      let key = headers.peerid session.header in
      elim (Bool-cases (st.is_errored || is_empty headers code st.stored)) [
        | inl e ↦ rw e (All-erase_session headers code.Own IsClean key sessions n)
        | inr e ↦ rw e (
            All-modify headers code.Own IsClean key
              (contacted headers code wait_duration now session st) sessions
              (contacted-IsClean wait_duration now session st (f (ground (arith, e)))) n)
      ]

  add_to-AllClean :
      (actions : List (Action code.Own)) (wait_duration now : ℕ) (session : Entry headers code)
      (sessions : Sessions)
      → NoErrors actions
      → IsClean session
      → AllClean sessions
      → AllClean (add_to headers code actions wait_duration now session sessions).0
  unfolding add_to after_adding
  add_to-AllClean actions wait_duration now session sessions a c n =
      let st = start_adding headers code session in
      elim (Result-cases (add_actions headers code actions st)) [
        | inl (e, q) ↦
            rw q (
              All-erase_session headers code.Own IsClean (headers.peerid session.header) sessions n)
        | inr (end, q) ↦ rw q (
            finish_add-AllClean wait_duration now session end sessions
              (add_actions-Fine actions st {end = end} a c q) n)
      ]

  add_unless-AllClean :
      (o : Option (Entry headers code)) (header : headers.Header) (actions : List (Action code.Own))
      (wait_duration now : ℕ) (sessions : Sessions)
      → blocked_by headers code.Own (new_session headers code header wait_duration) sessions ≡ o
      → NoErrors actions
      → AllClean sessions
      → AllClean (add_unless headers code o header actions wait_duration now sessions).0
  unfolding add_unless
  add_unless-AllClean none header actions wait_duration now sessions e a n =
      let item = new_session headers code header wait_duration in
      add_to-AllClean actions wait_duration now item (item ∷ sessions) a tt (tt, n)
  add_unless-AllClean (some session) header actions wait_duration now sessions e a n =
      let item = new_session headers code header wait_duration in
      elim (Bool-cases (headers.keys_same session.header header)) [
        | inl q ↦ rw q (
            add_to-AllClean actions wait_duration now session sessions a
              (blocked_by-All headers code.Own IsClean item sessions {t = session} e n) n)
        | inr q ↦ rw q n
      ]

  pub add-AllClean :
      (header : headers.Header) (actions : List (Action code.Own)) (wait_duration now : ℕ)
      (sessions : Sessions)
      → NoErrors actions
      → All IsClean sessions
      → All IsClean (add headers code header actions wait_duration now sessions).0
  unfolding add
  add-AllClean header [] wait_duration now sessions a n = n
  add-AllClean header (b ∷ actions) wait_duration now sessions a n =
      add_unless-AllClean
        (blocked_by headers code.Own (new_session headers code header wait_duration) sessions)
        header (b ∷ actions) wait_duration now sessions refl a n
