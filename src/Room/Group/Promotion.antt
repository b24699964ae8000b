-- ===== src/Room/Group/Promotion.antt =====
-- What joining, leaving and promotion do to the membership of a GroupRoom (room.ts).
use peer_server.Prelude.{
  ℕ, zero, suc, ◌+◌, ◌-◌, ◌≡◌, ◌∙◌, refl, sym, ap, subst, ◌⊎◌, inl, inr, Bool, true, false, not,
  ◌&&◌, ◌||◌, Option, List, [], ◌∷◌, Text, text_eq, text_eq_iff, text_eq_refl, leb, length, take,
  arith, Bool-cases, if◌then◌else◌,
}
use peer_server.Dict
use peer_server.Dict.{Dict}
use peer_server.Dict.Laws.{has-put, has-remove, length-put, Distinct}
use peer_server.Room.{Effect, elsewhere}
use peer_server.Room.Group.{
  GroupRoom, relay_threshold, promote, promote_all, promote_relay_peers, forget_peer, on_peer_left,
}
use peer_server.Room.Group.Members.{IsValid, is_member, forget_peer-IsValid, promote-IsValid}

module _ (D : Type 0) where
  promote-member :
      (fp j : Text) (g : GroupRoom)
      → Dict.has fp g.relay_peers ≡ true
      → is_member j (promote fp g) ≡ is_member j g
  unfolding promote
  promote-member fp j g h =
      ground
        (arith, has-put fp j tt g.connected_peers, has-remove fp j g.relay_peers, text_eq_iff fp j)

  forgotten :
      (fp j : Text) (g : GroupRoom)
      → is_member j (forget_peer fp g) ≡ (not (text_eq fp j) && is_member j g)
  unfolding forget_peer
  forgotten fp j g =
      ground (arith, has-remove fp j g.connected_peers, has-remove fp j g.relay_peers)

  absent :
      (fp : Text) (g : GroupRoom)
      → IsValid g
      → Dict.has fp g.relay_peers ≡ true
      → Dict.has fp g.connected_peers ≡ false
  absent fp g v h = elim (Bool-cases (Dict.has fp g.connected_peers)) [
    | inl c ↦ cc (v.one_way fp c)
    | inr n ↦ n
  ]

  remove_absent : (k : Text) (d : Dict (Unit {0})) → Dict.has k d ≡ false → Dict.remove k d ≡ d
  unfolding Dict.has Dict.remove
  remove_absent k [] h = refl
  remove_absent k ((i, u) ∷ d) h = ground (arith, remove_absent k d)

  remove_first :
      (fp : Text) (u : Unit {0}) (d : Dict (Unit {0}))
      → Dict.has fp d ≡ false
      → Dict.remove fp ((fp, u) ∷ d) ≡ d
  unfolding Dict.remove
  remove_first fp u d h = rw (text_eq_refl fp) (remove_absent fp d h)

  has_first : (fp : Text) (u : Unit {0}) (d : Dict (Unit {0})) → Dict.has fp ((fp, u) ∷ d) ≡ true
  unfolding Dict.has
  has_first fp u d = rw (text_eq_refl fp)

  abbrev Refilled : GroupRoom → GroupRoom → Type 0
  Refilled g g' =
      ((length g'.connected_peers ≡ relay_threshold) ⊎ (g'.relay_peers ≡ []))
      × ((j : Text) → is_member j g' ≡ is_member j g)

  -- With n places free, the first n of the relayed peers are connected.
  promote_first :
      (n : ℕ) (r : Dict (Unit {0})) (g : GroupRoom)
      → g.relay_peers ≡ r
      → length g.connected_peers + n ≡ relay_threshold
      → IsValid g
      → Refilled g (promote_all {D = D} (take n (Dict.keys r)) g).0
  unfolding promote_all Dict.keys
  promote_first zero [] g e room v = (inr e, λ j. refl)
  promote_first zero (p ∷ r) g e room v = (inl (omega arith), λ j. refl)
  promote_first (suc n) [] g e room v = (inr e, λ j. refl)
  promote_first (suc n) ((fp, u) ∷ r) g e room v =
      let once : Distinct ((fp, u) ∷ r) = subst (λ d. Distinct d) e v.relayed_once in
      let there : Dict.has fp g.relay_peers ≡ true = ap (Dict.has fp) e ∙ has_first fp u r in
      let e' : (promote fp g).relay_peers ≡ r =
        unfold promote in (ap (Dict.remove fp) e ∙ remove_first fp u r once.0) in
      let grown : length (promote fp g).connected_peers ≡ suc (length g.connected_peers) =
        unfold promote in (length-put fp tt g.connected_peers ∙ rw (absent fp g v there)) in
      let (done, same) =
        promote_first n r (promote fp g) e' (omega arith)
          (promote-IsValid D fp g (omega arith) v) in
      (done, λ j. same j ∙ promote-member fp j g there)

  promote_relay_peers-Refilled :
      (g : GroupRoom) → IsValid g → Refilled g (promote_relay_peers {D = D} g).0
  unfolding promote_relay_peers
  promote_relay_peers-Refilled g v =
      elim (Bool-cases (leb relay_threshold (length g.connected_peers))) [
        | inl full ↦ rw full (inl (ground (arith, v.bounded)), λ j. refl)
        | inr room ↦ rw room (
            promote_first (relay_threshold - length g.connected_peers) g.relay_peers g refl
              (ground (arith, v.bounded)) v)
      ]

  abbrev Outcome : Type 0
  Outcome = GroupRoom × List (Effect D)

  abbrev Left : Text → GroupRoom → GroupRoom → Type 0
  Left fp g g' =
      ((length g'.connected_peers ≡ relay_threshold) ⊎ (g'.relay_peers ≡ []))
      × ((j : Text) → is_member j g' ≡ (not (text_eq fp j) && is_member j g))

  choose_last :
      (x y z : Outcome) (b c d : Bool)
      → b ≡ true
      → c ≡ false
      → d ≡ true
      → (if not b || c then x else if d then y else z).0 ≡ y.0
  choose_last x y z b c d eb ec ed = rw (eb, ec, ed)

  left_room :
      (fp : Text) (ns : Option Text) (g : GroupRoom)
      → g.listening ≡ true
      → elsewhere ns g.room_id ≡ false
      → Dict.has fp g.connected_peers ≡ true
      → (promote_relay_peers {D = D} (forget_peer fp g)).0 ≡ (on_peer_left {D = D} fp ns g).0
  unfolding on_peer_left
  left_room fp ns g l here c = sym (choose_last _ _ _ _ _ _ l here c)

  -- When a connected peer leaves a valid room that listens, exactly that peer is gone from it, and
  -- its place is used: either all 30 connections are taken or nobody is left on relay.
  pub on_peer_left-refills :
      (fp : Text) (ns : Option Text) (g : GroupRoom)
      → IsValid g
      → g.listening ≡ true
      → elsewhere ns g.room_id ≡ false
      → Dict.has fp g.connected_peers ≡ true
      → ((length (on_peer_left {D = D} fp ns g).0.connected_peers ≡ relay_threshold)
          ⊎ ((on_peer_left {D = D} fp ns g).0.relay_peers ≡ []))
        × ((j : Text)
            → is_member j (on_peer_left {D = D} fp ns g).0 ≡ (not (text_eq fp j) && is_member j g))
  on_peer_left-refills fp ns g v l here c =
      let (full, same) =
        promote_relay_peers-Refilled (forget_peer fp g) (forget_peer-IsValid D fp g v) in
      subst (Left fp g) (left_room fp ns g l here c) (full, λ j. same j ∙ forgotten fp j g)
