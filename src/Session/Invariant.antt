-- ===== src/Session/Invariant.antt =====
-- src/libsessionutility/sessionutility.cpp: the unique indices of the container, and the sessions that
-- a call does not address.
use mesh_pp.Prelude.{
  ◌≡◌, refl, sym, ap, ◌∙◌, true, false, Option, none, some, List, [], ◌∷◌, String, All, Bool-cases,
  Option-cases, inl, inr, arith, string_discrete, if_pos,
}
use mesh_pp.Session.State.{
  HeaderClass, same_text, same_option, clashes, find_session, find_second, erase_session,
  blocked_by, modify, put, Entry, key_of,
}

pub same_text_eq : (s t : String) → same_text s t ≡ true → s ≡ t
unfolding same_text
same_text_eq s t e = elim (string_discrete s t) [ yes p ↦ p | no n ↦ absurd (ground (arith, e, n)) ]

pub same_text_self : (s : String) → same_text s s ≡ true
unfolding same_text
same_text_self s = if_pos (string_discrete s s) refl true false

module _ (headers : HeaderClass) (Own : Type 0) where
  abbrev pub IsApart : Entry headers Own → Entry headers Own → Type 0
  IsApart s t = clashes headers Own s t ≡ false

  -- No two sessions of the container have a key in common.
  abbrev pub NoClash : List (Entry headers Own) → Type 0
  NoClash [] = Unit
  NoClash (s ∷ sessions) = All (IsApart s) sessions × NoClash sessions

  pub All-erase_session :
      (P : Entry headers Own → Type 0) (key : String) (sessions : List (Entry headers Own))
      → All P sessions
      → All P (erase_session headers Own key sessions)
  unfolding erase_session
  All-erase_session P key [] a = tt
  All-erase_session P key (s ∷ sessions) a =
      elim (Bool-cases (same_text (key_of headers Own s) key)) [
        | inl e ↦ rw e (All-erase_session P key sessions a.1)
        | inr e ↦ rw e (a.0, All-erase_session P key sessions a.1)
      ]

  pub erase_session-NoClash :
      (key : String) (sessions : List (Entry headers Own))
      → NoClash sessions
      → NoClash (erase_session headers Own key sessions)
  unfolding erase_session
  erase_session-NoClash key [] n = tt
  erase_session-NoClash key (s ∷ sessions) n =
      elim (Bool-cases (same_text (key_of headers Own s) key)) [
        | inl e ↦ rw e (erase_session-NoClash key sessions n.1)
        | inr e ↦
            rw e (
              All-erase_session (IsApart s) key sessions n.0,
              erase_session-NoClash key sessions n.1,
            )
      ]

  find_session-none :
      (key : String) (sessions : List (Entry headers Own))
      → find_session headers Own key sessions ≡ none
      → All (λ t. same_text (key_of headers Own t) key ≡ false) sessions
  unfolding find_session
  find_session-none key [] e = tt
  find_session-none key (s ∷ sessions) e =
      elim (Bool-cases (same_text (key_of headers Own s) key)) [
        | inl q ↦ absurd (ground (arith, e, q))
        | inr q ↦ (q, find_session-none key sessions (ground (arith, e, q)))
      ]

  find_second-none :
      (key : Option String) (sessions : List (Entry headers Own))
      → find_second headers Own key sessions ≡ none
      → All (λ t. same_option (headers.second_key t.header) key ≡ false) sessions
  unfolding find_second
  find_second-none key [] e = tt
  find_second-none key (s ∷ sessions) e =
      elim (Bool-cases (same_option (headers.second_key s.header) key)) [
        | inl q ↦ absurd (ground (arith, e, q))
        | inr q ↦ (q, find_second-none key sessions (ground (arith, e, q)))
      ]

  both :
      (s : Entry headers Own) (sessions : List (Entry headers Own))
      → All (λ t. same_text (key_of headers Own t) (key_of headers Own s) ≡ false) sessions
      → All
          (λ t. same_option (headers.second_key t.header) (headers.second_key s.header) ≡ false)
          sessions
      → All (IsApart s) sessions
  unfolding clashes
  both s [] a b = tt
  both s (t ∷ sessions) a b = (ground (arith, a.0, b.0), both s sessions a.1 b.1)

  -- What no element keeps out has its keys for itself.
  pub blocked_by-none :
      (s : Entry headers Own) (sessions : List (Entry headers Own))
      → blocked_by headers Own s sessions ≡ none
      → All (IsApart s) sessions
  unfolding blocked_by
  blocked_by-none s sessions e =
      elim (Option-cases (find_session headers Own (key_of headers Own s) sessions)) [
        | inr (t, q) ↦ absurd (ground (arith, e, q))
        | inl q ↦
            both s sessions (find_session-none (key_of headers Own s) sessions q)
              (find_second-none (headers.second_key s.header) sessions (ground (arith, e, q)))
      ]

  All-put :
      (P : Entry headers Own → Type 0) (o : Option (Entry headers Own)) (s : Entry headers Own)
      (sessions : List (Entry headers Own))
      → P s
      → All P sessions
      → All P (put headers Own o s sessions)
  unfolding put
  All-put P none s sessions p a = (p, a)
  All-put P (some t) s sessions p a = a

  pub All-modify :
      (P : Entry headers Own → Type 0) (key : String) (s : Entry headers Own)
      (sessions : List (Entry headers Own))
      → P s
      → All P sessions
      → All P (modify headers Own key s sessions)
  unfolding modify
  All-modify P key s sessions p a =
      let rest = erase_session headers Own key sessions in
      All-put P (blocked_by headers Own s rest) s rest p (All-erase_session P key sessions a)

  put-NoClash :
      (o : Option (Entry headers Own)) (s : Entry headers Own) (sessions : List (Entry headers Own))
      → blocked_by headers Own s sessions ≡ o
      → NoClash sessions
      → NoClash (put headers Own o s sessions)
  unfolding put
  put-NoClash none s sessions e n = (blocked_by-none s sessions e, n)
  put-NoClash (some t) s sessions e n = n

  pub modify-NoClash :
      (key : String) (s : Entry headers Own) (sessions : List (Entry headers Own))
      → NoClash sessions
      → NoClash (modify headers Own key s sessions)
  unfolding modify
  modify-NoClash key s sessions n =
      let rest = erase_session headers Own key sessions in
      put-NoClash (blocked_by headers Own s rest) s rest refl (erase_session-NoClash key sessions n)

  pub erase_session_absent :
      (key : String) (sessions : List (Entry headers Own))
      → find_session headers Own key sessions ≡ none
      → erase_session headers Own key sessions ≡ sessions
  unfolding find_session erase_session
  erase_session_absent key [] e = refl
  erase_session_absent key (s ∷ sessions) e =
      elim (Bool-cases (same_text (key_of headers Own s) key)) [
        | inl q ↦ absurd (ground (arith, e, q))
        | inr q ↦ rw q (ap (λ t. s ∷ t) (erase_session_absent key sessions (ground (arith, e, q))))
      ]

  pub find_session-key_of :
      (key : String) (sessions : List (Entry headers Own)) {s : Entry headers Own}
      → find_session headers Own key sessions ≡ some s
      → key_of headers Own s ≡ key
  unfolding find_session
  find_session-key_of key [] e = absurd (ground (arith, e))
  find_session-key_of key (t ∷ sessions) {s} e =
      elim (Bool-cases (same_text (key_of headers Own t) key)) [
        | inl q ↦
            let same : t ≡ s = ground (arith, e, q) in
            ap (key_of headers Own) (sym same) ∙ same_text_eq (key_of headers Own t) key q
        | inr q ↦ find_session-key_of key sessions {s = s} (ground (arith, e, q))
      ]

  pub blocked_by-find_session :
      (s : Entry headers Own) (sessions : List (Entry headers Own))
      → blocked_by headers Own s sessions ≡ none
      → find_session headers Own (key_of headers Own s) sessions ≡ none
  unfolding blocked_by
  blocked_by-find_session s sessions e =
      elim (Option-cases (find_session headers Own (key_of headers Own s) sessions)) [
        | inr (t, q) ↦ absurd (ground (arith, e, q))
        | inl q ↦ q
      ]
