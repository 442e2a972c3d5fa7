-- ===== src/NodeState/Distinct.antt =====
-- src/libp2psocket/p2pstate.cpp: `get_connected_peerids` gives each peer once.
use mathlib.Core.Option.{some-injective}
use mesh_pp.Prelude.{
  ℕ, suc, ◌≡◌, ◌≢◌, refl, sym, subst, ◌∙◌, String, some, List, [], ◌∷◌, All, All-mono, get_elem?,
  Bool-cases, inl, inr, arith,
}
use mesh_pp.Net.{Net}
use mesh_pp.Communication.State.{StateItem, connect, CommunicationState}
use mesh_pp.Communication.Query.{is_pending, is_active, items_from, get_connected}
use mesh_pp.Communication.Invariant.{IsValid}
use mesh_pp.NodeState.State.{NodeState}
use mesh_pp.NodeState.Connections.{peers_of, get_connected_peerids}
use mesh_pp.NodeState.Connected.{is_active-peer, items_from-Peers, peers_of_cons}

-- No text stands twice in the list.
abbrev pub Distinct : List String → Type 0
Distinct [] = Unit
Distinct (p ∷ ps) = All (λ q. p ≢ q) ps × Distinct ps

module _ (net : Net) where
  -- A peer is that of one item at most.
  abbrev pub OneEach : List (StateItem net) → Type 0
  OneEach items =
      (i j : ℕ) (x y : StateItem net) (p : String)
      → get_elem? items i ≡ some x
      → get_elem? items j ≡ some y
      → x.peer ≡ some p
      → y.peer ≡ some p
      → i ≡ j

  items_from-Distinct :
      (s : CommunicationState net) (start : ℕ) (items : List (StateItem net)) (ps : List String)
      → OneEach items
      → peers_of net (items_from net connect start items s) ≡ some ps
      → Distinct ps
  unfolding items_from get_elem? peers_of
  items_from-Distinct s start [] ps one e = subst Distinct (some-injective [] ps e) tt
  items_from-Distinct s start (item ∷ items) ps one e =
      let (ps', e', h) = items_from-Peers net s (suc start) items in
      let rest : Distinct ps' =
        items_from-Distinct s (suc start) items ps'
          (λ i j x y p a b c d. omega (arith, one (suc i) (suc j) x y p a b c d)) e' in
      elim (Bool-cases (is_pending s.map_to_remove start)) [
        | inl due ↦ subst Distinct (some-injective ps' ps (sym e' ∙ rw due at e)) rest
        | inr stays ↦ elim (Bool-cases (is_active net connect item)) [
          | inr other ↦
              subst Distinct (some-injective ps' ps (sym e' ∙ rw (stays, other) at e)) rest
          | inl active ↦
              let (p, c) = is_active-peer net item active in
              let found =
                peers_of_cons net item (items_from net connect (suc start) items s) p ps' c.0 e' in
              let apart : All (λ q. p ≢ q) ps' =
                All-mono ps'
                  (λ q (i, x, at, _, d) same. absurd (
                    omega (
                      arith,
                      one 0 (suc i) item x p refl at c.0
                          (subst (λ t. x.peer ≡ some t) (sym same) d.0),
                    )))
                  h.sound in
              subst Distinct (some-injective (p ∷ ps') ps (sym found ∙ rw (stays, active) at e))
                (apart, rest)
        ]
      ]

  pub get_connected_peerids-Distinct :
      (s : NodeState net) (ps : List String)
      → IsValid net s.program_state
      → get_connected_peerids net s ≡ some ps
      → Distinct ps
  unfolding get_connected_peerids get_connected
  get_connected_peerids-Distinct s ps v e =
      items_from-Distinct s.program_state 0 s.program_state.peers ps
        (λ i j x y p a b c d.
          some-injective i j (sym (v.peers_found i x p a c) ∙ v.peers_found j y p b d))
        e
