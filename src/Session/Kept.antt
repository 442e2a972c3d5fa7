-- ===== src/Session/Kept.antt =====
-- src/libsessionutility/sessionutility.cpp: the sessions that `add` does not address.
use mathlib.Core.Option.{some-injective}
use mesh_pp.Prelude.{
  ℕ, ◌≡◌, ◌≢◌, refl, sym, ◌∙◌, subst, true, false, ◌||◌, Option, none, some, List, [], ◌∷◌, String,
  Result-cases, Bool-cases, Option-cases, inl, inr, arith,
}
use mesh_pp.Session.State.{
  HeaderClass, Action, ActionClass, same_text, same_option, clashes, find_session, find_second,
  blocked_by, key_of,
}
use mesh_pp.Session.Manager.{
  Entry, Adding, add, add_unless, after_adding, add_to, add_actions, start_adding, finish_add,
  contacted, new_session, is_empty,
}
use mesh_pp.Session.Invariant.{
  NoClash, IsApart, same_text_eq, same_text_self, find_session-key_of, blocked_by-find_session,
}
use mesh_pp.Session.Found.{find_second-All, find_session-erase_session, modify-find_session}

module _ (headers : HeaderClass) (code : ActionClass headers.Header) where
  abbrev Sessions : Type 0
  Sessions = List (Entry headers code)

  abbrev find_in : String → Sessions → Option (Entry headers code)
  find_in k sessions = find_session headers code.Own k sessions

  -- A session that is found by its second key is the one that is found by its first.
  find_second-find_in :
      (key : Option String) (sessions : Sessions) (t : Entry headers code)
      → NoClash headers code.Own sessions
      → find_second headers code.Own key sessions ≡ some t
      → find_in (key_of headers code.Own t) sessions ≡ some t
  unfolding find_second find_session clashes
  find_second-find_in key [] t n e = absurd (ground (arith, e))
  find_second-find_in key (s ∷ sessions) t n e =
      elim (Bool-cases (same_option (headers.second_key s.header) key)) [
        | inl q ↦
            let same : s ≡ t = ground (arith, e, q) in
            subst (λ x. find_in (key_of headers code.Own x) (s ∷ sessions) ≡ some x) same
              (ground (arith, same_text_self (key_of headers code.Own s)))
        | inr q ↦
            let f : find_second headers code.Own key sessions ≡ some t = ground (arith, e, q) in
            let apart =
              find_second-All headers code.Own (IsApart headers code.Own s) key sessions {s = t} f
                n.0 in
            let rest = find_second-find_in key sessions t n.1 f in
            elim (Bool-cases (same_text (key_of headers code.Own s) (key_of headers code.Own t))) [
              | inr m ↦ ground (arith, m, rest)
              | inl m ↦
                  let same =
                    same_text_eq (key_of headers code.Own s) (key_of headers code.Own t) m in
                  let self =
                    subst (λ x. same_text (key_of headers code.Own t) x ≡ true) (sym same)
                      (same_text_self (key_of headers code.Own t)) in
                  absurd (ground (arith, apart, self))
            ]
      ]

  blocked_by-find_in :
      (s t : Entry headers code) (sessions : Sessions)
      → NoClash headers code.Own sessions
      → blocked_by headers code.Own s sessions ≡ some t
      → find_in (key_of headers code.Own t) sessions ≡ some t
  unfolding blocked_by
  blocked_by-find_in s t sessions n e =
      elim (Option-cases (find_in (key_of headers code.Own s) sessions)) [
        | inl q ↦
            find_second-find_in (headers.second_key s.header) sessions t n (ground (arith, e, q))
        | inr (u, q) ↦
            let found : find_in (key_of headers code.Own s) sessions ≡ some t =
              ground (arith, e, q) in
            subst (λ k. find_in k sessions ≡ some t)
              (sym (
                find_session-key_of headers code.Own (key_of headers code.Own s) sessions {s = t}
                  found))
              found
      ]

  finish_add-find_in :
      (wait_duration now : ℕ) (session : Entry headers code) (st : Adding headers code)
      (sessions : Sessions) (k : String) (s : Entry headers code)
      → k ≢ headers.peerid session.header
      → find_in k sessions ≡ some s
      → find_in k (finish_add headers code wait_duration now session st sessions) ≡ some s
  unfolding finish_add
  finish_add-find_in wait_duration now session st sessions k s n e =
      let key = headers.peerid session.header in
      elim (Bool-cases (st.is_errored || is_empty headers code st.stored)) [
        | inl q ↦ rw q (find_session-erase_session headers code.Own k key sessions n ∙ e)
        | inr q ↦ rw q (
            modify-find_session headers code.Own key
              (contacted headers code wait_duration now session st) k sessions {t = s} n e)
      ]

  add_to-find_in :
      (actions : List (Action code.Own)) (wait_duration now : ℕ) (session : Entry headers code)
      (sessions : Sessions) (k : String) (s : Entry headers code)
      → k ≢ headers.peerid session.header
      → find_in k sessions ≡ some s
      → find_in k (add_to headers code actions wait_duration now session sessions).0 ≡ some s
  unfolding add_to after_adding
  add_to-find_in actions wait_duration now session sessions k s n e =
      elim (Result-cases (add_actions headers code actions (start_adding headers code session))) [
        | inl (x, q) ↦ rw q (
            find_session-erase_session headers code.Own k (headers.peerid session.header) sessions n
            ∙ e)
        | inr (st, q) ↦ rw q (finish_add-find_in wait_duration now session st sessions k s n e)
      ]

  add_unless-find_in :
      (o : Option (Entry headers code)) (header : headers.Header) (actions : List (Action code.Own))
      (wait_duration now : ℕ) (sessions : Sessions) (k : String) (s : Entry headers code)
      → blocked_by headers code.Own (new_session headers code header wait_duration) sessions ≡ o
      → NoClash headers code.Own sessions
      → find_in k sessions ≡ some s
      → headers.keys_same s.header header ≡ false
      → find_in k (add_unless headers code o header actions wait_duration now sessions).0 ≡ some s
  unfolding add_unless find_session
  add_unless-find_in none header actions wait_duration now sessions k s b n e d =
      let item = new_session headers code header wait_duration in
      let absent = blocked_by-find_session headers code.Own item sessions b in
      let other : k ≢ headers.peerid header =
        λ q. ground (arith, e, subst (λ x. find_in x sessions ≡ none) (sym q) absent) in
      let still : find_in k (item ∷ sessions) ≡ some s =
        elim (Bool-cases (same_text (headers.peerid header) k)) [
          | inl q ↦ absurd (other (sym (same_text_eq (headers.peerid header) k q)))
          | inr q ↦ ground (arith, q, e)
        ] in
      add_to-find_in actions wait_duration now item (item ∷ sessions) k s other still
  add_unless-find_in (some session) header actions wait_duration now sessions k s b n e d =
      let item = new_session headers code header wait_duration in
      elim (Bool-cases (headers.keys_same session.header header)) [
        | inr q ↦ rw q e
        | inl q ↦
            let found = blocked_by-find_in item session sessions n b in
            let other : k ≢ headers.peerid session.header = λ p.
              let same : s ≡ session =
                some-injective s session
                  (sym e ∙ subst (λ x. find_in x sessions ≡ some session) (sym p) found) in
              let d' = subst (λ x. headers.keys_same x.header header ≡ false) same d in
              ground (arith, q, d') in
            rw q (add_to-find_in actions wait_duration now session sessions k s other e)
      ]

  pub add-find_session :
      (header : headers.Header) (actions : List (Action code.Own)) (wait_duration now : ℕ)
      (sessions : Sessions) (k : String) (s : Entry headers code)
      → NoClash headers code.Own sessions
      → find_session headers code.Own k sessions ≡ some s
      → headers.keys_same s.header header ≡ false
      → find_session headers code.Own k
          (add headers code header actions wait_duration now sessions).0
        ≡ some s
  unfolding add
  add-find_session header [] wait_duration now sessions k s n e d = e
  add-find_session header (a ∷ actions) wait_duration now sessions k s n e d =
      add_unless-find_in
        (blocked_by headers code.Own (new_session headers code header wait_duration) sessions)
        header (a ∷ actions) wait_duration now sessions k s refl n e d
