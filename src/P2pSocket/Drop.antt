-- ===== src/P2pSocket/Drop.antt =====
-- src/libp2psocket/p2psocket.cpp: the first part of `prepare_wait`, and whom it tells of a drop.
use mathlib.Core.List.{Memᴰ, append_assoc, append-nil}
use mathlib.Core.List.Memᴰ.{cases_cons}
use mesh_pp.Prelude.{
  ◌≡◌, refl, sym, ◌∙◌, ap, subst, String, string_discrete, Bool, true, false, none, some, List, [],
  ◌∷◌, ◌++◌, map, All, All-mono, find-erase, if_pos, if_neg, inl, inr, arith,
}
use mesh_pp.Net.{Net}
use mesh_pp.NodeState.State.{NodeState, set_peer_unverified, is_peer_verified}
use mesh_pp.NodeState.Contacts.{find_node, remove_pending}
use mesh_pp.NodeState.RemovePending.{find_node-remove_pending}
use mesh_pp.P2pSocket.State.{Wire, stream_drop, Turn, put_state, send_to}
use mesh_pp.P2pSocket.Loop.{insert_text, notify, send_drops, drop_pending}
use mesh_pp.P2pSocket.Sound.{Sound, Sound-kept}

Memᴰ-insert_text_self : (x : String) (l : List String) → Memᴰ x (insert_text x l)
unfolding insert_text
Memᴰ-insert_text_self x [] = Memᴰ.head refl
Memᴰ-insert_text_self x (y ∷ l) = elim (string_discrete y x) [
  | yes e ↦ rw (if_pos _ e) (Memᴰ.head (sym e))
  | no n ↦ rw (if_neg _ n) (Memᴰ.tail (Memᴰ-insert_text_self x l))
]

Memᴰ-insert_text : (x z : String) (l : List String) → Memᴰ z l → Memᴰ z (insert_text x l)
unfolding insert_text
Memᴰ-insert_text x z [] m = Memᴰ.tail m
Memᴰ-insert_text x z (y ∷ l) m = elim (string_discrete y x) [
  | yes e ↦ rw (if_pos _ e) m
  | no n ↦
      rw (if_neg _ n)
        (elim (cases_cons m) [ inl e ↦ Memᴰ.head e | inr t ↦ Memᴰ.tail (Memᴰ-insert_text x z l t) ])
]

Memᴰ-notify :
    (z : String) (keys : List (String × Bool)) (l : List String) → Memᴰ z l → Memᴰ z (notify keys l)
unfolding notify
Memᴰ-notify z [] l m = m
Memᴰ-notify z ((k, true) ∷ keys) l m =
    Memᴰ-notify z keys (insert_text k l) (Memᴰ-insert_text k z l m)
Memᴰ-notify z ((k, false) ∷ keys) l m = Memᴰ-notify z keys l m

All-notify :
    (keys : List (String × Bool)) (l : List String)
    → All (λ k. k.1 ≡ true → Memᴰ k.0 (notify keys l)) keys
unfolding notify
All-notify [] l = tt
All-notify ((k, true) ∷ keys) l = (
  λ _. Memᴰ-notify k keys (insert_text k l) (Memᴰ-insert_text_self k l),
  All-notify keys (insert_text k l),
)
All-notify ((k, false) ∷ keys) l = (λ e. absurd (ground (arith, e)), All-notify keys l)

module _ (net : Net) (wire : Wire net) where
  open wire use {digest}

  unverified_kept :
      (p q : String) (s : NodeState net)
      → is_peer_verified net q s ≡ false
      → is_peer_verified net q (set_peer_unverified net p s) ≡ false
  unfolding is_peer_verified set_peer_unverified
  unverified_kept p q s e = elim (string_discrete p q) [
    | yes i ↦ ground (arith, e, i, find-erase string_discrete p q s.verified_peers)
    | no n ↦ ground (arith, e, n, find-erase string_discrete p q s.verified_peers)
  ]

  unverified :
      (p : String) (s : NodeState net)
      → is_peer_verified net p (set_peer_unverified net p s) ≡ false
  unfolding is_peer_verified set_peer_unverified
  unverified p s = ground (arith, find-erase string_discrete p p s.verified_peers)

  -- The packets that were sent, and the peers that are not verified any more.
  record Dropped (drops : List String) (t t' : Turn net wire) : Type 0 where
    sent : t'.sent ≡ t.sent ++ map (λ p. (p, stream_drop)) drops
    kept :
        (t'.sock.state.kbucket ≡ t.sock.state.kbucket)
        × (t'.sock.state.self_id ≡ t.sock.state.self_id)
        × (t'.sock.state.program_state ≡ t.sock.state.program_state)
    removed : t'.sock.notify_removed_peers ≡ t.sock.notify_removed_peers
    still :
        (q : String)
        → is_peer_verified net q t.sock.state ≡ false
        → is_peer_verified net q t'.sock.state ≡ false
    none_verified : All (λ p. is_peer_verified net p t'.sock.state ≡ false) drops

  send_drops-Dropped :
      (drops : List String) (t : Turn net wire) → Dropped drops t (send_drops net wire drops t)
  unfolding send_drops set_peer_unverified
  send_drops-Dropped [] t = record {
    sent = sym (append-nil t.sent);
    kept = (refl, refl, refl);
    removed = refl;
    still = λ q e. e;
    none_verified = tt;
  }
  send_drops-Dropped (p ∷ drops) t =
      let s = set_peer_unverified net p t.sock.state in
      let t1 = send_to net wire p stream_drop (put_state net wire s t) in
      let h = send_drops-Dropped drops t1 in
      record {
        sent =
            h.sent
            ∙ append_assoc t.sent ((p, stream_drop) ∷ []) (map (λ p. (p, stream_drop)) drops);
        kept = h.kept;
        removed = h.removed;
        still = λ q e. h.still q (unverified_kept p q t.sock.state e);
        none_verified = (h.still p (unverified p t.sock.state), h.none_verified);
      }

  -- The first part of `prepare_wait` returns on a valid node and leaves a valid one. It sends one
  -- drop to each peer that `remove_pending` gives, in its order, and none of them is verified any
  -- more. The bucket finds nothing for the node ids that `remove_pending` gives, and each of them
  -- that is to be notified of is kept for `receive` to report.
  pub drop_pending-Dropped :
      (t : Turn net wire)
      → Sound net wire t.sock.state
      → (r : NodeState net × List (String × Bool) × List String) × (t' : Turn net wire)
        × (remove_pending net digest t.sock.state ≡ some r)
        × (drop_pending net wire t ≡ some t')
        × Sound net wire t'.sock.state
        × (t'.sent ≡ t.sent ++ map (λ p. (p, stream_drop)) r.2)
        × All (λ p. is_peer_verified net p t'.sock.state ≡ false) r.2
        × All (λ k. find_node net digest k.0 "" t'.sock.state.kbucket ≡ none) r.1
        × All (λ k. k.1 ≡ true → Memᴰ k.0 t'.sock.notify_removed_peers) r.1
  unfolding drop_pending
  drop_pending-Dropped t h =
      let ((s, keys, drops), e, v, node, gone) =
        find_node-remove_pending net digest t.sock.state h.connections h.node in
      let removed = notify keys t.sock.notify_removed_peers in
      let t1 : Turn net wire = record t {
        sock = record (t.sock) { state = s; notify_removed_peers = removed };
      } in
      let d = send_drops-Dropped drops t1 in
      let (b, i, p) = d.kept in
      (
        (s, keys, drops),
        send_drops net wire drops t1,
        e,
        ground (arith, e),
        Sound-kept net wire s (send_drops net wire drops t1).sock.state b i p
            (record { connections = v; node = node }),
        d.sent,
        d.none_verified,
        All-mono keys (λ k f. ap (find_node net digest k.0 "") b ∙ f) gone,
        All-mono keys (λ k f q. subst (Memᴰ k.0) (sym d.removed) (f q))
            (All-notify keys t.sock.notify_removed_peers),
      )
