-- ===== src/Room.antt =====
-- packages/peer-client/src/room.ts: DirectRoom and GroupRoom, in the two modules below. What both
-- use: the effects on the client and on the listeners. Data that is sent is an arbitrary type `D`.
-- A `Peer` object goes by its fingerprint; its connection is the environment.
pub mod Group
pub mod Direct
use peer_server.Prelude.{ℕ, Bool, Option, none, some, Text, text_eq, false, not}

pub data Effect (D : Type 0) : Type 0 where
  create_room : Text → ℕ → Effect D
  join_room : Text → Effect D
  connect_to_peer : Text → Effect D
  direct : Text → D → Effect D
  relayed : Text → D → Effect D
  broadcast : D → Effect D
  kicked_out : Text → Effect D
  close_peer : Text → Effect D
  leave : Text → Effect D
  peer_joined peer_left peer_connected : Text → Effect D
  received : D → Text → Effect D
  closed : Effect D

-- What the room asks of a peer: whether `connectionState` is `connected`, and whether its `send`
-- returns.
pub record Links : Type 0 where
  pub connected : Text → Bool
  pub send_ok : Text → Bool

-- `info.namespace !== undefined && info.namespace !== this.roomId`
unfoldable pub elsewhere : Option Text → Text → Bool
elsewhere none room = false
elsewhere (some ns) room = not (text_eq ns room)
