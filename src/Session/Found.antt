-- ===== src/Session/Found.antt =====
-- src/libsessionutility/sessionutility.cpp: what is found in the container.
use mesh_pp.Prelude.{
  ◌≡◌, ◌≢◌, refl, sym, ◌∙◌, subst, Option, none, some, List, [], ◌∷◌, String, All, Bool-cases,
  Option-cases, inl, inr, arith,
}
use mesh_pp.Session.State.{
  HeaderClass, same_text, same_option, find_session, find_second, erase_session, blocked_by, modify,
  put, Entry, key_of,
}
use mesh_pp.Session.Invariant.{same_text_eq, blocked_by-find_session}

module _ (headers : HeaderClass) (Own : Type 0) where
  pub find_session-All :
      (P : Entry headers Own → Type 0) (key : String) (sessions : List (Entry headers Own))
      {s : Entry headers Own}
      → find_session headers Own key sessions ≡ some s
      → All P sessions
      → P s
  unfolding find_session
  find_session-All P key [] e a = absurd (ground (arith, e))
  find_session-All P key (t ∷ sessions) {s} e a =
      elim (Bool-cases (same_text (key_of headers Own t) key)) [
        | inl q ↦ subst P (ground (arith, e, q)) a.0
        | inr q ↦ find_session-All P key sessions {s = s} (ground (arith, e, q)) a.1
      ]

  pub find_second-All :
      (P : Entry headers Own → Type 0) (key : Option String) (sessions : List (Entry headers Own))
      {s : Entry headers Own}
      → find_second headers Own key sessions ≡ some s
      → All P sessions
      → P s
  unfolding find_second
  find_second-All P key [] e a = absurd (ground (arith, e))
  find_second-All P key (t ∷ sessions) {s} e a =
      elim (Bool-cases (same_option (headers.second_key t.header) key)) [
        | inl q ↦ subst P (ground (arith, e, q)) a.0
        | inr q ↦ find_second-All P key sessions {s = s} (ground (arith, e, q)) a.1
      ]

  pub blocked_by-All :
      (P : Entry headers Own → Type 0) (s : Entry headers Own) (sessions : List (Entry headers Own))
      {t : Entry headers Own}
      → blocked_by headers Own s sessions ≡ some t
      → All P sessions
      → P t
  unfolding blocked_by
  blocked_by-All P s sessions {t} e a =
      elim (Option-cases (find_session headers Own (key_of headers Own s) sessions)) [
        | inl q ↦
            find_second-All P (headers.second_key s.header) sessions {s = t} (ground (arith, e, q))
              a
        | inr (u, q) ↦
            find_session-All P (key_of headers Own s) sessions {s = t} (ground (arith, e, q)) a
      ]

  -- The other sessions stay when one is erased.
  pub find_session-erase_session :
      (k key : String) (sessions : List (Entry headers Own))
      → k ≢ key
      → find_session headers Own k (erase_session headers Own key sessions)
        ≡ find_session headers Own k sessions
  unfolding find_session erase_session
  find_session-erase_session k key [] n = refl
  find_session-erase_session k key (s ∷ sessions) n =
      let rest = find_session-erase_session k key sessions n in
      elim (Bool-cases (same_text (key_of headers Own s) key)) [
        | inr q ↦ ground (arith, q, rest)
        | inl q ↦ elim (Bool-cases (same_text (key_of headers Own s) k)) [
          | inr m ↦ ground (arith, q, m, rest)
          | inl m ↦ absurd (
              n (
                sym (same_text_eq (key_of headers Own s) k m)
                ∙ same_text_eq (key_of headers Own s) key q))
        ]
      ]

  pub erase_session_gone :
      (key : String) (sessions : List (Entry headers Own))
      → find_session headers Own key (erase_session headers Own key sessions) ≡ none
  unfolding find_session erase_session
  erase_session_gone key [] = refl
  erase_session_gone key (s ∷ sessions) =
      let rest = erase_session_gone key sessions in
      elim (Bool-cases (same_text (key_of headers Own s) key)) [
        | inl q ↦ ground (arith, q, rest)
        | inr q ↦ ground (arith, q, rest)
      ]

  put-find_session :
      (o : Option (Entry headers Own)) (s : Entry headers Own) (k : String)
      (sessions : List (Entry headers Own)) {t : Entry headers Own}
      → blocked_by headers Own s sessions ≡ o
      → find_session headers Own k sessions ≡ some t
      → find_session headers Own k (put headers Own o s sessions) ≡ some t
  unfolding find_session put
  put-find_session (some u) s k sessions b e = e
  put-find_session none s k sessions {t} b e =
      elim (Bool-cases (same_text (key_of headers Own s) k)) [
        | inr q ↦ ground (arith, q, e)
        | inl q ↦
            let absent = blocked_by-find_session headers Own s sessions b in
            absurd (
              ground (
                arith,
                e,
                subst (λ x. find_session headers Own x sessions ≡ none)
                    (same_text_eq (key_of headers Own s) k q) absent,
              ))
      ]

  -- The other sessions stay when one is modified, whatever its new keys are.
  pub modify-find_session :
      (key : String) (s : Entry headers Own) (k : String) (sessions : List (Entry headers Own))
      {t : Entry headers Own}
      → k ≢ key
      → find_session headers Own k sessions ≡ some t
      → find_session headers Own k (modify headers Own key s sessions) ≡ some t
  unfolding modify
  modify-find_session key s k sessions {t} n e =
      let rest = erase_session headers Own key sessions in
      put-find_session (blocked_by headers Own s rest) s k rest {t = t} refl
        (find_session-erase_session k key sessions n ∙ e)
