-- ===== src/Transfer.antt =====
-- packages/peer-client/src/transfer.ts (packages/peerserver-client/src/transfer.ts is the same
-- text), class FileTransfer: the chunk format, the messages, the records and the state. A byte is a
-- natural number below 256. The percentage and the rate that a progress event also carries are
-- floating-point values for display, and are left out.
pub mod Receive
pub mod Loop
pub mod Send
pub mod Slices
pub mod Sender
pub mod Reassembly
pub mod EndToEnd
pub mod Delivery
pub mod Races
pub mod Receipts
use peer_server.Prelude.{
  ℕ, suc, ◌+◌, ◌-◌, ◌*◌, ◌/◌, ◌%◌, ◌^◌, Bool, true, false, Option, none, some, List, [], ◌∷◌, ◌++◌,
  Text, text, ltb, take, drop, length, min,
}
use peer_server.Dict.{Dict}

abbrev pub Bytes : Type 0
Bytes = List ℕ

-- LIMITS.CHUNK_SIZE, LIMITS.ACK_INTERVAL and LIMITS.TRANSFER_CHANNEL_PREFIX
abbrev pub chunk_size_limit : ℕ
chunk_size_limit = 65536

abbrev pub ack_interval : ℕ
ack_interval = 100

abbrev pub channel_prefix : Text
channel_prefix = text "ft-"

-- `setUint32(0, index, true)`: the index modulo 2^32, the low byte first.
unfoldable pub le32 : ℕ → Bytes
le32 index =
    index % 256 ∷ (index / 256) % 256 ∷ (index / 65536) % 256 ∷ (index / 16777216) % 256 ∷ []

unfoldable pub encode_chunk : ℕ → Bytes → Bytes
unfolding le32
encode_chunk index payload = le32 index ++ payload

-- `getUint32` throws on fewer than four bytes.
unfoldable pub decode_chunk : Bytes → Option (ℕ × Bytes)
decode_chunk (b0 ∷ b1 ∷ b2 ∷ b3 ∷ payload) =
    some (b0 + 256 * b1 + 65536 * b2 + 16777216 * b3, payload)
decode_chunk _ = none

pub record FileMetadata : Type 0 where
  pub id : Text
  pub filename : Text
  pub size : ℕ
  pub mime : Text
  pub total_chunks : ℕ
  pub chunk_size : ℕ

-- TransferControl, by its `type`.
pub data Control : Type 0 where
  offer : FileMetadata → Control
  accept cancel complete : Text → Control
  ack : Text → ℕ → Control
  -- the last index; `none` is -1, from which the transfer starts over
  resume : Text → Option ℕ → Control

pub record ActiveReceive : Type 0 where
  pub id : Text
  pub meta : FileMetadata
  pub chunks : List (Option Bytes)
  pub received : ℕ
  pub from : Text

pub record ActiveSend : Type 0 where
  pub id : Text
  pub file : Bytes
  pub filename : Text
  pub peer : Text
  pub total_chunks : ℕ
  pub chunk_size : ℕ
  pub current_index : ℕ
  pub cancelled : Bool
  pub bytes_sent : ℕ

-- What the class does to the outside: events to its listeners, control messages and chunks to a
-- peer, the settling of a `send` promise, the closing of a transfer channel. `threw` is an
-- exception that leaves the method.
pub data Effect : Type 0 where
  incoming : FileMetadata → Text → Effect
  progress : Text → ℕ → ℕ → Effect
  received_file : Text → Bytes → FileMetadata → Text → Effect
  sent_file cancelled : Text → Effect
  missing_chunk : Text → ℕ → Effect
  control : Text → Control → Effect
  chunk : Text → Bytes → Effect
  resolved rejected : Text → Effect
  closed_channel : Text → Effect
  threw : Effect

-- The ActiveSend objects are shared between the map `sending`, the listeners and the running
-- loops: they stand in `objects`, by their identifiers, for good; `sending` holds the identifiers
-- that are in the map.
pub record FileTransfer : Type 0 where
  pub objects : Dict ActiveSend
  pub sending : Dict (Unit {0})
  pub receiving : Dict ActiveReceive
  pub listeners : Dict (Unit {0})

-- What the class asks of the client and of the peers, which are other components: whether
-- `getPeer` finds a peer, and whether `peer.send` on its data channel succeeds.
pub record Peers : Type 0 where
  pub has_peer : Text → Bool
  pub send_ok : Text → Bool
