-- ===== src/Room/Group/Sending.antt =====
-- Whom a GroupRoom sends to (room.ts, `send`): the deliveries of a call, counted for one peer.
use peer_server.Prelude.{
  ℕ, ◌+◌, ◌≡◌, sym, ◌∙◌, refl, ap, inl, inr, Bool, true, false, not, ◌&&◌, none, List, [], ◌∷◌,
  ◌++◌, Text, text_eq, text_eq_iff, if◌then◌else◌, arith, Bool-cases,
}
use peer_server.Dict
use peer_server.Dict.{Dict}
use peer_server.Dict.Laws.{Distinct}
use peer_server.Room.{Effect, direct, relayed, Links}
use peer_server.Room.Group.{GroupRoom, relay_all, send_each, send_to_all, send_open, send}
use peer_server.Room.Group.Members.{IsValid, is_member}

abbrev one_if : Bool → ℕ
one_if b = if b then 1 else 0

-- Whether a direct send to the peer succeeds.
abbrev works : Links → Text → Bool
works ls fp = ls.connected fp && ls.send_ok fp

module _ {D : Type 0} where
  -- How often effects give something to the peer, directly and by relay.
  abbrev pub directs_to : Text → List (Effect D) → ℕ
  directs_to fp [] = 0
  directs_to fp (direct j d ∷ es) = one_if (text_eq j fp) + directs_to fp es
  directs_to fp (_ ∷ es) = directs_to fp es

  abbrev pub relays_to : Text → List (Effect D) → ℕ
  relays_to fp [] = 0
  relays_to fp (relayed j d ∷ es) = one_if (text_eq j fp) + relays_to fp es
  relays_to fp (_ ∷ es) = relays_to fp es

  -- All effects are deliveries of `d`.
  abbrev pub Carry : D → List (Effect D) → Type 0
  Carry d [] = Unit
  Carry d (direct j x ∷ es) = (x ≡ d) × Carry d es
  Carry d (relayed j x ∷ es) = (x ≡ d) × Carry d es
  Carry d (_ ∷ es) = ⊥

  -- What effects do for one peer: how often directly, how often by relay.
  abbrev Given : Text → List (Effect D) → ℕ → ℕ → Type 0
  Given fp es m n = (directs_to fp es ≡ m) × (relays_to fp es ≡ n)

  relay_all-Given :
      (fp : Text) (d : D) (ps : Dict (Unit {0}))
      → Distinct ps
      → Given fp (relay_all ps d) 0 (one_if (Dict.has fp ps))
  unfolding relay_all Dict.has
  relay_all-Given fp d [] h = (refl, refl)
  relay_all-Given fp d ((j, u) ∷ ps) (n, h) =
      let (p, q) = relay_all-Given fp d ps h in (p, ground (arith, q, n, text_eq_iff j fp))

  first-Given :
      (b : Bool) (fp j : Text) (d : D) (es : List (Effect D))
      → Given fp
          ((if b then direct j d else relayed j d) ∷ es)
          (one_if (text_eq j fp && b) + directs_to fp es)
          (one_if (text_eq j fp && not b) + relays_to fp es)
  first-Given true fp j d es = (ground arith, ground arith)
  first-Given false fp j d es = (ground arith, ground arith)

  send_each-Given :
      (ls : Links) (fp : Text) (d : D) (ps : Dict (Unit {0})) (es : List (Effect D))
      → Distinct ps
      → Given fp
          (send_each ls ps d ++ es)
          (one_if (Dict.has fp ps && works ls fp) + directs_to fp es)
          (one_if (Dict.has fp ps && not (works ls fp)) + relays_to fp es)
  unfolding send_each Dict.has
  send_each-Given ls fp d [] es h = (omega arith, omega arith)
  send_each-Given ls fp d ((j, u) ∷ ps) es (n, h) =
      let (p, q) = send_each-Given ls fp d ps es h in
      let (p', q') = first-Given (works ls j) fp j d (send_each ls ps d ++ es) in
      let same : text_eq j fp ≡ true → works ls j ≡ works ls fp =
        λ e. ap (works ls) ((text_eq_iff j fp).0 e) in
      let new : text_eq j fp ≡ true → Dict.has fp ps ≡ false =
        λ e. ap (λ x. Dict.has x ps) (sym ((text_eq_iff j fp).0 e)) ∙ n in
      elim (Bool-cases (text_eq j fp)) [
        | inl e ↦ (p' ∙ ground (arith, p, same e, new e), q' ∙ ground (arith, q, same e, new e))
        | inr e ↦ (p' ∙ ground (arith, p), q' ∙ ground (arith, q))
      ]

  relay_all-Carry : (d : D) (ps : Dict (Unit {0})) → Carry d (relay_all ps d)
  unfolding relay_all
  relay_all-Carry d [] = tt
  relay_all-Carry d ((j, u) ∷ ps) = (refl, relay_all-Carry d ps)

  send_each-Carry :
      (ls : Links) (d : D) (ps : Dict (Unit {0})) (es : List (Effect D))
      → Carry d es
      → Carry d (send_each ls ps d ++ es)
  unfolding send_each
  send_each-Carry ls d [] es h = h
  send_each-Carry ls d ((j, u) ∷ ps) es h = elim (Bool-cases (works ls j)) [
    | inl w ↦ rw w (refl, send_each-Carry ls d ps es h)
    | inr w ↦ rw w (refl, send_each-Carry ls d ps es h)
  ]

  -- `send` with no addressee, in a valid room, makes exactly one delivery to each member while the
  -- room is open, and none to anybody else or after it is closed. It is direct if the member's
  -- connection is there and works, and by relay else, and nothing but the data is delivered.
  pub send-all :
      (ls : Links) (d : D) (fp : Text) (g : GroupRoom)
      → IsValid g
      → Carry d (send ls d none g)
        × (directs_to fp (send ls d none g) + relays_to fp (send ls d none g)
            ≡ one_if (not g.is_closed && is_member fp g))
        × (directs_to fp (send ls d none g)
            ≡ one_if (not g.is_closed && Dict.has fp g.connected_peers && works ls fp))
  unfolding send send_open send_to_all
  send-all ls d fp g v =
      let (p, q) =
        send_each-Given ls fp d g.connected_peers (relay_all g.relay_peers d) v.connected_once in
      let (p', q') = relay_all-Given fp d g.relay_peers v.relayed_once in
      let carried = send_each-Carry ls d g.connected_peers _ (relay_all-Carry d g.relay_peers) in
      elim (Bool-cases g.is_closed) [
        | inl closed ↦ rw closed (tt, refl, refl)
        | inr opened ↦
            rw opened (carried, ground (arith, p, q, p', q', v.one_way fp), ground (arith, p, p'))
      ]
