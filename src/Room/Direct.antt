-- ===== src/Room/Direct.antt =====
-- packages/peer-client/src/room.ts, lines 15-122, class DirectRoom: a room of two. The remote peer
-- goes by its fingerprint, also in `remote_peer`; an empty fingerprint is none. What is emitted
-- after `close` reaches nobody, since `close` removes all listeners; it is still an effect here.
pub mod Pairing
use peer_server.Prelude.{
  ℕ, Bool, true, false, not, ◌&&◌, ◌||◌, Option, none, some, List, [], ◌∷◌, ◌++◌, Text, text_eq,
  is_empty, if◌then◌else◌,
}
use peer_server.Room.{
  Effect, create_room, join_room, connect_to_peer, direct, relayed, close_peer, leave, peer_joined,
  peer_left, peer_connected, received, closed, Links, elsewhere,
}

pub record DirectRoom : Type 0 where
  pub fingerprint : Text
  pub room_id : Text
  pub remote_peer : Option Text
  pub remote_fingerprint : Text
  pub is_closed : Bool
  pub listening : Bool

unfoldable pub create_direct : Text → Text → DirectRoom
create_direct fp room = record {
  fingerprint = fp;
  room_id = room;
  remote_peer = none;
  remote_fingerprint = [];
  is_closed = false;
  listening = false;
}

-- `peers.find((p) => p.fingerprint !== this.client.fingerprint)`
unfoldable pub find_other : Text → List Text → Option Text
find_other own [] = none
find_other own (fp ∷ fps) =
    let rest = find_other own fps in if text_eq fp own then rest else some fp

abbrev pub has_remote : Option Text → Bool
has_remote none = false
has_remote (some fp) = true

-- What `peer_left` does to the room, from the test of the fingerprint on.
unfoldable pub forget_remote : DirectRoom → DirectRoom
forget_remote r = record r { remote_peer = none; remote_fingerprint = [] }

module _ {D : Type 0} where
  unfoldable pub connect_remote : Text → DirectRoom → DirectRoom × List (Effect D)
  connect_remote fp r =
      (record r { remote_peer = some fp; remote_fingerprint = fp }, connect_to_peer fp ∷ [])

  -- `create`; the answer of the server may be a failure.
  unfoldable pub create : Bool → DirectRoom → DirectRoom × List (Effect D)
  create answered r =
      (if answered then record r { listening = true } else r, create_room r.room_id 2 ∷ [])

  unfoldable pub connect_found : Option Text → DirectRoom → DirectRoom × List (Effect D)
  unfolding connect_remote
  connect_found none r = (r, [])
  connect_found (some fp) r = connect_remote fp r

  -- `join`, with the fingerprints that the server's answer lists, if it answers.
  unfoldable pub join : Option (List Text) → DirectRoom → DirectRoom × List (Effect D)
  unfolding connect_found
  join none r = (r, join_room r.room_id ∷ [])
  join (some fps) r =
      let (r', es) = connect_found (find_other r.fingerprint fps) (record r { listening = true }) in
      (r', join_room r.room_id ∷ es)

  unfoldable pub on_peer_joined : Option Text → Text → DirectRoom → DirectRoom × List (Effect D)
  unfolding connect_remote
  on_peer_joined ns fp r =
      let (r', es) = connect_remote fp r in
      if not r.listening || elsewhere ns r.room_id
      then (r, [])
      else if has_remote r.remote_peer
      then (r, peer_joined fp ∷ [])
      else (r', peer_joined fp ∷ es)

  unfoldable pub on_peer_left : Text → Option Text → DirectRoom → DirectRoom × List (Effect D)
  unfolding forget_remote
  on_peer_left fp ns r =
      if not r.listening || elsewhere ns r.room_id
      then (r, [])
      else if text_eq fp r.remote_fingerprint
      then (forget_remote r, peer_left fp ∷ [])
      else (r, [])

  -- A relayed payload, with its `_room` and its data.
  unfoldable pub on_relay : Text → Text → D → DirectRoom → List (Effect D)
  on_relay from room d r =
      if r.listening && text_eq from r.remote_fingerprint && text_eq room r.room_id
      then received d from ∷ []
      else []

  -- The peer's `send`, or the relay where there is no connection or the send throws.
  unfoldable pub relay_data : D → DirectRoom → List (Effect D)
  relay_data d r = if is_empty r.remote_fingerprint then [] else relayed r.remote_fingerprint d ∷ []

  unfoldable pub send_via : Links → D → Option Text → DirectRoom → List (Effect D)
  unfolding relay_data
  send_via ls d none r = relay_data d r
  send_via ls d (some fp) r =
      if ls.connected fp && ls.send_ok fp then direct fp d ∷ [] else relay_data d r

  unfoldable pub send : Links → D → DirectRoom → List (Effect D)
  unfolding send_via
  send ls d r = if r.is_closed then [] else send_via ls d r.remote_peer r

  abbrev close_remote : Option Text → List (Effect D)
  close_remote none = []
  close_remote (some fp) = close_peer fp ∷ []

  unfoldable pub close : DirectRoom → DirectRoom × List (Effect D)
  close r = if r.is_closed then (r, []) else (
    record r { is_closed = true; listening = false },
    close_remote r.remote_peer ++ leave r.room_id ∷ closed ∷ [],
  )

  unfoldable pub on_kicked : Text → DirectRoom → DirectRoom × List (Effect D)
  unfolding close
  on_kicked room r = if r.listening && text_eq room r.room_id then close r else (r, [])

-- The operations and events, with the three listeners that `connectTo` puts on a peer, which stay
-- on it.
pub data Event (D : Type 0) : Type 0 where
  create_call : Bool → Event D
  join_call : Option (List Text) → Event D
  joined : Option Text → Text → Event D
  left : Text → Option Text → Event D
  relay_came : Text → Text → D → Event D
  data_came : Text → D → Event D
  link_up link_down : Text → Event D
  kicked : Text → Event D
  close_call : Event D

module _ {D : Type 0} where
  unfoldable pub step : Event D → DirectRoom → DirectRoom × List (Effect D)
  unfolding create join on_peer_joined on_peer_left on_relay on_kicked close
  step (create_call answered) r = create answered r
  step (join_call fps) r = join fps r
  step (joined ns fp) r = on_peer_joined ns fp r
  step (left fp ns) r = on_peer_left fp ns r
  step (relay_came from room d) r = (r, on_relay from room d r)
  step (data_came fp d) r = (r, received d fp ∷ [])
  step (link_up fp) r = (r, peer_connected fp ∷ [])
  step (link_down fp) r = (r, peer_left fp ∷ [])
  step (kicked room) r = on_kicked room r
  step close_call r = close r

  unfoldable pub run : List (Event D) → DirectRoom → DirectRoom
  unfolding step
  run [] r = r
  run (e ∷ es) r = run es (step e r).0
