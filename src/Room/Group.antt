-- ===== src/Room/Group.antt =====
-- room.ts, class GroupRoom. The peers with a connection of their own and those reached by relay are
-- a map and a set, both kept as maps to the one-element type.
pub mod Members
pub mod Sending
pub mod Promotion
use peer_server.Prelude.{
  ℕ, ◌+◌, ◌-◌, Bool, true, false, not, ◌&&◌, ◌||◌, Option, none, some, List, [], ◌∷◌, ◌++◌, Text,
  text_eq, is_empty, ltb, leb, length, min, take, if◌then◌else◌,
}
use peer_server.Dict
use peer_server.Dict.{Dict}
use peer_server.Room.{
  Effect, create_room, join_room, connect_to_peer, direct, relayed, broadcast, kicked_out,
  close_peer, leave, peer_joined, peer_left, peer_connected, received, closed, Links, elsewhere,
}

-- LIMITS.MAX_GROUP_SIZE and LIMITS.RELAY_THRESHOLD
abbrev pub max_group_size : ℕ
max_group_size = 20

abbrev pub relay_threshold : ℕ
relay_threshold = 30

pub record GroupRoom : Type 0 where
  pub fingerprint : Text
  pub room_id : Text
  pub max_size : ℕ
  pub connected_peers : Dict (Unit {0})
  pub relay_peers : Dict (Unit {0})
  pub is_closed : Bool
  pub listening : Bool

unfoldable pub create_group : Text → Text → ℕ → GroupRoom
create_group fp room size = record {
  fingerprint = fp;
  room_id = room;
  max_size = min size max_group_size;
  connected_peers = [];
  relay_peers = [];
  is_closed = false;
  listening = false;
}

-- One round of the loop of `promoteRelayPeers`.
unfoldable pub promote : Text → GroupRoom → GroupRoom
promote fp g = record g {
  relay_peers = Dict.remove fp g.relay_peers;
  connected_peers = Dict.put fp tt g.connected_peers;
}

unfoldable pub forget_peer : Text → GroupRoom → GroupRoom
forget_peer fp g = record g {
  connected_peers = Dict.remove fp g.connected_peers;
  relay_peers = Dict.remove fp g.relay_peers;
}

unfoldable pub peer_count : GroupRoom → ℕ
peer_count g = length g.connected_peers + length g.relay_peers

module _ {D : Type 0} where
  unfoldable pub connect_to : Text → GroupRoom → GroupRoom × List (Effect D)
  connect_to fp g =
      if Dict.has fp g.connected_peers || Dict.has fp g.relay_peers
      then (g, [])
      else if leb relay_threshold (length g.connected_peers)
      then (record g { relay_peers = Dict.put fp tt g.relay_peers }, [])
      else (
        record g { connected_peers = Dict.put fp tt g.connected_peers },
        connect_to_peer fp ∷ [],
      )

  -- The loop of `join`, over the peers other than oneself.
  unfoldable pub connect_all : List Text → GroupRoom → GroupRoom × List (Effect D)
  unfolding connect_to
  connect_all [] g = (g, [])
  connect_all (fp ∷ fps) g =
      let (g1, es) = if text_eq fp g.fingerprint then (g, []) else connect_to fp g in
      let (g2, fs) = connect_all fps g1 in (g2, es ++ fs)

  -- `create`; the answer of the server may be a failure, which leaves the room as it was.
  unfoldable pub create : Bool → GroupRoom → GroupRoom × List (Effect D)
  create answered g =
      (if answered then record g { listening = true } else g, create_room g.room_id g.max_size ∷ [])

  -- `join`, with the fingerprints that the server's answer lists, if it answers.
  unfoldable pub join : Option (List Text) → GroupRoom → GroupRoom × List (Effect D)
  unfolding connect_all
  join none g = (g, join_room g.room_id ∷ [])
  join (some fps) g =
      let (g', es) = connect_all fps (record g { listening = true }) in
      (g', join_room g.room_id ∷ es)

  unfoldable pub on_peer_joined : Option Text → Text → GroupRoom → GroupRoom × List (Effect D)
  unfolding connect_to
  on_peer_joined ns fp g =
      let (g', es) = connect_to fp g in
      if not g.listening || elsewhere ns g.room_id then (g, []) else (g', peer_joined fp ∷ es)

  unfoldable pub promote_all : List Text → GroupRoom → GroupRoom × List (Effect D)
  unfolding promote
  promote_all [] g = (g, [])
  promote_all (fp ∷ fps) g =
      let (g', es) = promote_all fps (promote fp g) in (g', connect_to_peer fp ∷ es)

  unfoldable pub promote_relay_peers : GroupRoom → GroupRoom × List (Effect D)
  unfolding promote_all
  promote_relay_peers g =
      let available = relay_threshold - length g.connected_peers in
      if leb relay_threshold (length g.connected_peers)
      then (g, [])
      else promote_all (take available (Dict.keys g.relay_peers)) g

  unfoldable pub on_peer_left : Text → Option Text → GroupRoom → GroupRoom × List (Effect D)
  unfolding forget_peer promote_relay_peers
  on_peer_left fp ns g =
      let g1 = forget_peer fp g in
      let (g2, es) = promote_relay_peers g1 in
      if not g.listening || elsewhere ns g.room_id
      then (g, [])
      else if Dict.has fp g.connected_peers
      then (g2, es ++ peer_left fp ∷ [])
      else (g1, peer_left fp ∷ [])

  -- The listener that `connectTo` and `promoteRelayPeers` put on a peer for `disconnected`.
  unfoldable pub on_disconnected : Text → GroupRoom → GroupRoom × List (Effect D)
  on_disconnected fp g = (
    record g {
      connected_peers = Dict.remove fp g.connected_peers;
      relay_peers = Dict.put fp tt g.relay_peers;
    },
    [],
  )

  unfoldable pub relay_all : Dict (Unit {0}) → D → List (Effect D)
  relay_all [] d = []
  relay_all ((fp, u) ∷ ps) d = relayed fp d ∷ relay_all ps d

  unfoldable pub send_each : Links → Dict (Unit {0}) → D → List (Effect D)
  send_each ls [] d = []
  send_each ls ((fp, u) ∷ ps) d =
      (if ls.connected fp && ls.send_ok fp then direct fp d else relayed fp d) ∷ send_each ls ps d

  -- `send`; `to` is the optional argument, and the empty string counts as missing.
  unfoldable pub send_to_all : Links → D → GroupRoom → List (Effect D)
  unfolding relay_all send_each
  send_to_all ls d g = send_each ls g.connected_peers d ++ relay_all g.relay_peers d

  unfoldable pub send_to_one : Links → D → Text → GroupRoom → List (Effect D)
  send_to_one ls d to g =
      if Dict.has to g.connected_peers && ls.connected to && ls.send_ok to
      then direct to d ∷ []
      else relayed to d ∷ []

  unfoldable pub send_open : Links → D → Option Text → GroupRoom → List (Effect D)
  unfolding send_to_all send_to_one
  send_open ls d none g = send_to_all ls d g
  send_open ls d (some to) g = if is_empty to then send_to_all ls d g else send_to_one ls d to g

  unfoldable pub send : Links → D → Option Text → GroupRoom → List (Effect D)
  unfolding send_open
  send ls d to g = if g.is_closed then [] else send_open ls d to g

  -- The listeners for `relay`, with the room of the payload, and for `broadcast`.
  unfoldable pub on_data : Text → Text → D → GroupRoom → List (Effect D)
  on_data from room d g = if g.listening && text_eq room g.room_id then received d from ∷ [] else []

  unfoldable pub close_all : Dict (Unit {0}) → List (Effect D)
  close_all [] = []
  close_all ((fp, u) ∷ ps) = close_peer fp ∷ close_all ps

  unfoldable pub close : GroupRoom → GroupRoom × List (Effect D)
  unfolding close_all
  close g = if g.is_closed then (g, []) else (
    record g { is_closed = true; listening = false; connected_peers = []; relay_peers = [] },
    close_all g.connected_peers ++ leave g.room_id ∷ closed ∷ [],
  )

  unfoldable pub on_kicked : Text → GroupRoom → GroupRoom × List (Effect D)
  unfolding close
  on_kicked room g = if g.listening && text_eq room g.room_id then close g else (g, [])

-- The operations and events that change the room.
pub data Event : Type 0 where
  create_call : Bool → Event
  join_call : Option (List Text) → Event
  joined : Option Text → Text → Event
  left : Text → Option Text → Event
  disconnected : Text → Event
  kicked : Text → Event
  close_call : Event

module _ {D : Type 0} where
  unfoldable pub step : Event → GroupRoom → GroupRoom × List (Effect D)
  unfolding create join on_peer_joined on_peer_left on_disconnected on_kicked close
  step (create_call answered) g = create answered g
  step (join_call answer) g = join answer g
  step (joined ns fp) g = on_peer_joined ns fp g
  step (left fp ns) g = on_peer_left fp ns g
  step (disconnected fp) g = on_disconnected fp g
  step (kicked room) g = on_kicked room g
  step close_call g = close g

unfoldable pub run : (D : Type 0) → List Event → GroupRoom → GroupRoom
unfolding step
run D [] g = g
run D (e ∷ es) g = run D es (step {D = D} e g).0
