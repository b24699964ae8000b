-- ===== src/Room/Group/Members.antt =====
-- Who is in a GroupRoom, and how each is reached (room.ts, connectTo, promoteRelayPeers and the
-- listeners for peers that join, leave and disconnect).
use peer_server.Prelude.{
  ℕ, zero, suc, ◌+◌, ◌-◌, ◌≤◌, ◌<◌, ◌≡◌, refl, inl, inr, Bool, true, false, ◌||◌, none, some, List,
  [], ◌∷◌, Text, text_eq, text_eq_iff, leb, length, take, arith, Bool-cases, if◌then◌else◌,
}
use peer_server.Dict
use peer_server.Dict.{Dict}
use peer_server.Dict.Laws.{
  has-put, has-remove, length-put, length-remove-le, Distinct, put-Distinct, remove-Distinct,
}
use peer_server.Room.{Effect}
use peer_server.Room.Group.{
  GroupRoom, relay_threshold, connect_to, connect_all, create, join, on_peer_joined, promote,
  promote_all, promote_relay_peers, forget_peer, on_peer_left, on_disconnected, close, on_kicked,
  Event, create_call, join_call, joined, left, disconnected, kicked, close_call, step, run,
}

-- Nobody stands twice, nobody is reached in two ways, and there are at most 30 connections.
pub record IsValid (g : GroupRoom) : Type 0 where
  pub connected_once : Distinct g.connected_peers
  pub relayed_once : Distinct g.relay_peers
  pub one_way :
      (fp : Text) → Dict.has fp g.connected_peers ≡ true → Dict.has fp g.relay_peers ≡ false
  pub bounded : length g.connected_peers ≤ relay_threshold

abbrev pub is_member : Text → GroupRoom → Bool
is_member fp g = Dict.has fp g.connected_peers || Dict.has fp g.relay_peers

length-put_le : (k : Text) (d : Dict (Unit {0})) → length (Dict.put k tt d) ≤ suc (length d)
length-put_le k d = ground (arith, length-put k tt d)

module _ (D : Type 0) where
  connect_to-IsValid : (fp : Text) (g : GroupRoom) → IsValid g → IsValid (connect_to {D = D} fp g).0
  unfolding connect_to
  connect_to-IsValid fp g v = elim (Bool-cases (is_member fp g)) [
    | inl known ↦ rw known v
    | inr new ↦ elim (Bool-cases (leb relay_threshold (length g.connected_peers))) [
      | inl full ↦
          rw (new, full)
            (record {
              connected_once = v.connected_once;
              relayed_once = put-Distinct fp tt g.relay_peers v.relayed_once;
              one_way = λ j c.
                  ground (arith, has-put fp j tt g.relay_peers, text_eq_iff fp j, v.one_way j);
              bounded = v.bounded;
            })
      | inr room ↦
          rw (new, room)
            (record {
              connected_once = put-Distinct fp tt g.connected_peers v.connected_once;
              relayed_once = v.relayed_once;
              one_way = λ j c.
                  ground (arith, has-put fp j tt g.connected_peers, text_eq_iff fp j, v.one_way j);
              bounded = ground (arith, length-put_le fp g.connected_peers);
            })
    ]
  ]

  pub connect_to-member :
      (fp j : Text) (g : GroupRoom)
      → is_member j (connect_to {D = D} fp g).0 ≡ (text_eq fp j || is_member j g)
  unfolding connect_to
  connect_to-member fp j g =
      ground
        (arith, has-put fp j tt g.relay_peers, has-put fp j tt g.connected_peers, text_eq_iff fp j)

  connect_all-IsValid :
      (fps : List Text) (g : GroupRoom) → IsValid g → IsValid (connect_all {D = D} fps g).0
  unfolding connect_all
  connect_all-IsValid [] g v = v
  connect_all-IsValid (fp ∷ fps) g v = elim (Bool-cases (text_eq fp g.fingerprint)) [
    | inl self ↦ rw self (connect_all-IsValid fps g v)
    | inr other ↦ rw other (connect_all-IsValid fps _ (connect_to-IsValid fp g v))
  ]

  pub promote-IsValid :
      (fp : Text) (g : GroupRoom)
      → length g.connected_peers < relay_threshold
      → IsValid g
      → IsValid (promote fp g)
  unfolding promote
  promote-IsValid fp g room v = record {
    connected_once = put-Distinct fp tt g.connected_peers v.connected_once;
    relayed_once = remove-Distinct fp g.relay_peers v.relayed_once;
    one_way = λ j c. ground (
      arith,
      has-put fp j tt g.connected_peers,
      has-remove fp j g.relay_peers,
      text_eq_iff fp j,
      v.one_way j,
    );
    bounded = ground (arith, length-put_le fp g.connected_peers);
  }

  promote_all-IsValid :
      (fps : List Text) (g : GroupRoom)
      → length g.connected_peers + length fps ≤ relay_threshold
      → IsValid g
      → IsValid (promote_all {D = D} fps g).0
  unfolding promote_all
  promote_all-IsValid [] g room v = v
  promote_all-IsValid (fp ∷ fps) g room v =
      promote_all-IsValid fps (promote fp g)
        (unfold promote in omega (arith, length-put_le fp g.connected_peers))
        (promote-IsValid fp g (omega arith) v)

  take_le : (n : ℕ) (xs : List Text) → length (take n xs) ≤ n
  take_le zero xs = omega arith
  take_le (suc n) [] = omega arith
  take_le (suc n) (x ∷ xs) = omega (arith, take_le n xs)

  promote_relay_peers-IsValid :
      (g : GroupRoom) → IsValid g → IsValid (promote_relay_peers {D = D} g).0
  unfolding promote_relay_peers
  promote_relay_peers-IsValid g v =
      elim (Bool-cases (leb relay_threshold (length g.connected_peers))) [
        | inl full ↦ rw full v
        | inr room ↦ rw room (
            promote_all-IsValid
              (take (relay_threshold - length g.connected_peers) (Dict.keys g.relay_peers)) g
              (omega (
                arith,
                v.bounded,
                take_le (relay_threshold - length g.connected_peers) (Dict.keys g.relay_peers),
              ))
              v)
      ]

  pub forget_peer-IsValid : (fp : Text) (g : GroupRoom) → IsValid g → IsValid (forget_peer fp g)
  unfolding forget_peer
  forget_peer-IsValid fp g v = record {
    connected_once = remove-Distinct fp g.connected_peers v.connected_once;
    relayed_once = remove-Distinct fp g.relay_peers v.relayed_once;
    one_way = λ j c.
        ground
          (arith, has-remove fp j g.connected_peers, has-remove fp j g.relay_peers, v.one_way j);
    bounded = omega (arith, v.bounded, length-remove-le fp g.connected_peers);
  }

  disconnected-IsValid :
      (fp : Text) (g : GroupRoom) → IsValid g → IsValid (on_disconnected {D = D} fp g).0
  unfolding on_disconnected
  disconnected-IsValid fp g v = record {
    connected_once = remove-Distinct fp g.connected_peers v.connected_once;
    relayed_once = put-Distinct fp tt g.relay_peers v.relayed_once;
    one_way = λ j c. ground (
      arith,
      has-remove fp j g.connected_peers,
      has-put fp j tt g.relay_peers,
      text_eq_iff fp j,
      v.one_way j,
    );
    bounded = omega (arith, v.bounded, length-remove-le fp g.connected_peers);
  }

  choose_IsValid :
      (b : Bool) (r r' : GroupRoom × List (Effect D))
      → IsValid r.0
      → IsValid r'.0
      → IsValid (if b then r else r').0
  choose_IsValid true r r' p q = p
  choose_IsValid false r r' p q = q

  close-IsValid : (g : GroupRoom) → IsValid g → IsValid (close {D = D} g).0
  unfolding close Dict.has
  close-IsValid g v = choose_IsValid g.is_closed _ _ v (record {
    connected_once = tt;
    relayed_once = tt;
    one_way = λ j c. refl;
    bounded = omega arith;
  })

  step-IsValid : (e : Event) (g : GroupRoom) → IsValid g → IsValid (step {D = D} e g).0
  unfolding step create join on_peer_joined on_peer_left on_kicked
  step-IsValid (create_call true) g v = record {
    connected_once = v.connected_once;
    relayed_once = v.relayed_once;
    one_way = v.one_way;
    bounded = v.bounded;
  }
  step-IsValid (create_call false) g v = v
  step-IsValid (join_call none) g v = v
  step-IsValid (join_call (some fps)) g v =
      connect_all-IsValid fps (record g { listening = true })
        (record {
          connected_once = v.connected_once;
          relayed_once = v.relayed_once;
          one_way = v.one_way;
          bounded = v.bounded;
        })
  step-IsValid (joined ns fp) g v = choose_IsValid _ _ _ v (connect_to-IsValid fp g v)
  step-IsValid (left fp ns) g v = choose_IsValid _ _ _ v (
      choose_IsValid _ _ _ (promote_relay_peers-IsValid _ (forget_peer-IsValid fp g v))
        (forget_peer-IsValid fp g v))
  step-IsValid (disconnected fp) g v = disconnected-IsValid fp g v
  step-IsValid (kicked room) g v = choose_IsValid _ _ _ (close-IsValid g v) v
  step-IsValid close_call g v = close-IsValid g v

  -- Whatever happens to a valid room, nobody in it stands twice, nobody is both connected and
  -- relayed to, and it has at most 30 connections.
  pub room_run-IsValid : (es : List Event) (g : GroupRoom) → IsValid g → IsValid (run D es g)
  unfolding run
  room_run-IsValid [] g v = v
  room_run-IsValid (e ∷ es) g v = room_run-IsValid es _ (step-IsValid e g v)
