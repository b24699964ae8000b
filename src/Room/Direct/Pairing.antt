-- ===== src/Room/Direct/Pairing.antt =====
-- That a DirectRoom (room.ts) keeps to one remote peer, and whom its `send` reaches.
use peer_server.Prelude.{
  ◌≡◌, refl, sym, ap, Bool, true, false, ◌&&◌, Option, none, some, List, [], ◌∷◌, Text, text_eq,
  is_empty, arith, if◌then◌else◌,
}
use peer_server.Room.{Effect, direct, relayed, Links}
use peer_server.Room.Direct.{
  DirectRoom, find_other, has_remote, forget_remote, connect_remote, create, connect_found, join,
  on_peer_joined, on_peer_left, send, send_via, relay_data, close, on_kicked, Event, create_call,
  join_call, joined, left, relay_came, data_came, link_up, link_down, kicked, close_call, step, run,
}

-- What `remote_peer` and `remote_fingerprint` say of each other.
abbrev pub Agrees : Option Text → Text → Type 0
Agrees none name = name ≡ []
Agrees (some fp) name = fp ≡ name

abbrev pub IsPaired : DirectRoom → Type 0
IsPaired r = Agrees r.remote_peer r.remote_fingerprint

either_way :
    (b : Bool) (r r' : DirectRoom) → IsPaired r → IsPaired r' → IsPaired (if b then r else r')
either_way true r r' p q = p
either_way false r r' p q = q

either_result :
    {A : Type 0} (b : Bool) (x y : DirectRoom × A)
    → IsPaired x.0
    → IsPaired y.0
    → IsPaired (if b then x else y).0
either_result true x y p q = p
either_result false x y p q = q

forget_remote-IsPaired : (r : DirectRoom) → IsPaired (forget_remote r)
unfolding forget_remote
forget_remote-IsPaired r = refl

connect_found-IsPaired :
    (D : Type 0) (o : Option Text) (r : DirectRoom)
    → IsPaired r
    → IsPaired (connect_found {D = D} o r).0
unfolding connect_found connect_remote
connect_found-IsPaired D none r p = p
connect_found-IsPaired D (some fp) r p = refl

close-IsPaired : (D : Type 0) (r : DirectRoom) → IsPaired r → IsPaired (close {D = D} r).0
unfolding close
close-IsPaired D r p = either_result r.is_closed _ _ p p

pub record IsWith (fp : Text) (r : DirectRoom) : Type 0 where
  pub peer : r.remote_peer ≡ some fp
  pub name : r.remote_fingerprint ≡ fp

IsWith-either :
    {A : Type 0} {fp : Text} (b : Bool) (x y : DirectRoom × A)
    → IsWith fp x.0
    → IsWith fp y.0
    → IsWith fp (if b then x else y).0
IsWith-either true x y p q = p
IsWith-either false x y p q = q

IsWith-either_room :
    {fp : Text} (b : Bool) (x y : DirectRoom)
    → IsWith fp x
    → IsWith fp y
    → IsWith fp (if b then x else y)
IsWith-either_room true x y p q = p
IsWith-either_room false x y p q = q

known_joins :
    {A : Type 0} {fp : Text} (o : Option Text) (x y : DirectRoom × A)
    → o ≡ some fp
    → IsWith fp x.0
    → IsWith fp (if has_remote o then x else y).0
known_joins (some other) x y e p = p
known_joins none x y e p = ground arith

other_leaves :
    {A : Type 0} {fp : Text} (other name : Text) (x y : DirectRoom × A)
    → text_eq other fp ≡ false
    → name ≡ fp
    → IsWith fp y.0
    → IsWith fp (if text_eq other name then x else y).0
other_leaves other name x y h e p = rw (e, h) p

close-IsWith :
    (D : Type 0) (fp : Text) (r : DirectRoom) → IsWith fp r → IsWith fp (close {D = D} r).0
unfolding close
close-IsWith D fp r p = IsWith-either r.is_closed _ _ p (record { peer = p.peer; name = p.name })

module _ {D : Type 0} where
  step-IsPaired : (e : Event D) (r : DirectRoom) → IsPaired r → IsPaired (step e r).0
  unfolding step create join on_peer_joined on_peer_left on_kicked connect_remote
  step-IsPaired (create_call answered) r p = either_way answered _ _ p p
  step-IsPaired (join_call none) r p = p
  step-IsPaired (join_call (some fps)) r p =
      connect_found-IsPaired D (find_other r.fingerprint fps) _ p
  step-IsPaired (joined ns fp) r p =
      either_result _ _ _ p (either_result (has_remote r.remote_peer) _ _ p refl)
  step-IsPaired (left fp ns) r p =
      either_result _ _ _ p
        (either_result (text_eq fp r.remote_fingerprint) _ _ (forget_remote-IsPaired r) p)
  step-IsPaired (relay_came from room d) r p = p
  step-IsPaired (data_came fp d) r p = p
  step-IsPaired (link_up fp) r p = p
  step-IsPaired (link_down fp) r p = p
  step-IsPaired (kicked room) r p = either_result _ _ _ (close-IsPaired D r p) p
  step-IsPaired close_call r p = close-IsPaired D r p

  run-IsPaired : (es : List (Event D)) (r : DirectRoom) → IsPaired r → IsPaired (run es r)
  unfolding run
  run-IsPaired [] r p = p
  run-IsPaired (e ∷ es) r p = run-IsPaired es (step e r).0 (step-IsPaired e r p)

  -- Whom one message reaches: the remote peer, directly if the connection works.
  abbrev pub delivery : Links → D → Option Text → List (Effect D)
  delivery ls d none = []
  delivery ls d (some fp) =
      if ls.connected fp && ls.send_ok fp
      then direct fp d ∷ []
      else if is_empty fp
      then []
      else relayed fp d ∷ []

  send_agreed :
      (ls : Links) (d : D) (o : Option Text) (r : DirectRoom)
      → Agrees o r.remote_fingerprint
      → send_via ls d o r ≡ delivery ls d o
  unfolding send_via relay_data
  send_agreed ls d none r p = ap (λ x. if is_empty x then [] else relayed x d ∷ []) p
  send_agreed ls d (some fp) r p =
      ap
        (λ x.
          if ls.connected fp && ls.send_ok fp
          then direct fp d ∷ []
          else if is_empty x
          then []
          else relayed x d ∷ [])
        (sym p)

  -- After any run from a room in which the remote peer and its fingerprint agree, as in a new one,
  -- they agree again, and `send` makes at most one delivery, to the remote peer if there is one:
  -- directly if the connection works, by relay if not and if its fingerprint is not empty. In a
  -- closed room it makes none.
  pub run-send :
      (ls : Links) (d : D) (es : List (Event D)) (r : DirectRoom)
      → IsPaired r
      → IsPaired (run es r)
        × (send ls d (run es r)
            ≡ (if (run es r).is_closed then [] else delivery ls d (run es r).remote_peer))
  unfolding send
  run-send ls d es r p =
      let q = run-IsPaired es r p in
      (
        q,
        ap (λ (xs : List (Effect D)). if (run es r).is_closed then [] else xs)
            (send_agreed ls d (run es r).remote_peer (run es r) q),
      )

  -- Events that do not let go of the peer `fp`: it does not leave, and `join` is not called again.
  abbrev pub Keeps : Text → Event D → Type 0
  Keeps fp (join_call _) = ⊥
  Keeps fp (left other _) = text_eq other fp ≡ false
  Keeps fp _ = Unit

  abbrev pub AllKeep : Text → List (Event D) → Type 0
  AllKeep fp [] = Unit
  AllKeep fp (e ∷ es) = Keeps fp e × AllKeep fp es

  step-IsWith :
      (fp : Text) (e : Event D) (r : DirectRoom) → Keeps fp e → IsWith fp r → IsWith fp (step e r).0
  unfolding step create on_peer_joined on_peer_left on_kicked
  step-IsWith fp (create_call answered) r k p =
      IsWith-either_room answered _ _ (record { peer = p.peer; name = p.name }) p
  step-IsWith fp (join_call fps) r k p = absurd k
  step-IsWith fp (joined ns other) r k p =
      IsWith-either _ _ _ p (known_joins r.remote_peer _ _ p.peer p)
  step-IsWith fp (left other ns) r k p =
      IsWith-either _ _ _ p (other_leaves other r.remote_fingerprint _ _ k p.name p)
  step-IsWith fp (relay_came from room d) r k p = p
  step-IsWith fp (data_came other d) r k p = p
  step-IsWith fp (link_up other) r k p = p
  step-IsWith fp (link_down other) r k p = p
  step-IsWith fp (kicked room) r k p = IsWith-either _ _ _ (close-IsWith D fp r p) p
  step-IsWith fp close_call r k p = close-IsWith D fp r p

  -- A room that is paired with a peer stays with it: until that peer leaves or `join` is called,
  -- whoever else joins, leaves or sends does not take its place.
  pub run-IsWith :
      (fp : Text) (es : List (Event D)) (r : DirectRoom)
      → AllKeep fp es
      → IsWith fp r
      → IsWith fp (run es r)
  unfolding run
  run-IsWith fp [] r k p = p
  run-IsWith fp (e ∷ es) r (k, ks) p = run-IsWith fp es (step e r).0 ks (step-IsWith fp e r k p)
