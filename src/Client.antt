-- ===== src/Client.antt =====
-- packages/peer-client/src/core/client.ts, class PeerClient: the state, the effects and the
-- requests that wait for an answer of the server. A promise is a number, given out in order; what a
-- promise hands on, besides whether it is resolved or rejected, is left out, and so are aliases and
-- metadata. A `Peer` object is a number too, its place in `made`; `shut` has those that were closed.
-- The listeners that a request puts on the client stand in `requests`, in the order in which they
-- were added, which is the order in which they hear an event.
pub mod Calls
pub mod Peers
pub mod Messages
pub mod Counting
pub mod Settling
pub mod Keeping
pub mod Promises
pub mod Handing
pub mod Roster
pub mod Reconnecting
use peer_server.Prelude.{
  ℕ, suc, ◌+◌, Bool, true, false, ◌&&◌, ◌||◌, ◌==◌, Option, none, some, List, [], ◌∷◌, ◌++◌, Text,
  text_eq, if◌then◌else◌,
}
use peer_server.Dict
use peer_server.Dict.{Dict}

pub data Kind : Type 0 where
  join discover create_room join_room room_info : Kind

pub record Request : Type 0 where
  pub id : ℕ
  pub kind : Kind
  pub name : Text

-- `namespaces`, `_pendingJoins` and `_pendingDiscovers`
pub record Books : Type 0 where
  pub namespaces : Dict (Unit {0})
  pub joins : Dict (Unit {0})
  pub discovers : Dict (Unit {0})

pub record PeerClient : Type 0 where
  pub fingerprint : Text
  pub has_keys : Bool
  pub peers : Dict ℕ
  pub made : List Text
  pub shut : List ℕ
  pub books : Books
  pub requests : List Request
  pub matches : Dict ℕ
  -- the register promise, and whether a reconnection waits for it
  pub register : Option (ℕ × Bool)
  pub next_id : ℕ

-- What goes to the transport, by the message's `type`.
pub data Sent (D : Type 0) : Type 0 where
  send_register : Sent D
  send_join send_leave send_discover send_match send_create send_join_room send_info : Text → Sent D
  send_kick : Text → Text → Sent D
  send_signal send_relay send_broadcast : Text → D → Sent D
  send_metadata : D → Sent D

pub data Effect (D : Type 0) : Type 0 where
  sent : Sent D → Effect D
  resolved rejected : ℕ → Effect D
  create_offer close_peer : ℕ → Effect D
  handle_signal : ℕ → D → Effect D
  close_transport : Effect D
  disconnected reconnected error_event : Effect D
  registered matched room_created room_closed kicked : Text → Effect D
  peer_list : Text → List Text → Effect D
  peer_joined peer_left : Text → Text → Effect D
  relay : Text → D → Effect D
  broadcast : Text → Text → D → Effect D

unfoldable pub new_client : PeerClient
new_client = record {
  fingerprint = [];
  has_keys = false;
  peers = [];
  made = [];
  shut = [];
  books = record { namespaces = []; joins = []; discovers = [] };
  requests = [];
  matches = [];
  register = none;
  next_id = 0;
}

-- What a listener of a request makes of an event: it stays, or takes itself off and settles.
pub data Verdict : Type 0 where
  keeps resolves rejects : Verdict

-- `cleanup` of a request, for what it changes besides the request's own listeners and timer.
unfoldable pub clean : Request → Books → Books
clean r b = elim r.kind [
  | join ↦ record b { joins = Dict.remove r.name b.joins }
  | discover ↦ record b { discovers = Dict.remove r.name b.discovers }
  | create_room ↦ b
  | join_room ↦ b
  | room_info ↦ b
]

unfoldable pub add_namespace : Text → Books → Books
add_namespace ns b = record b { namespaces = Dict.put ns tt b.namespaces }

unfoldable pub delete_namespace : Text → Books → Books
delete_namespace ns b = record b { namespaces = Dict.remove ns b.namespaces }

abbrev wants_list : Kind → Bool
wants_list join = true
wants_list discover = true
wants_list join_room = true
wants_list _ = false

-- The listeners for `peer_list`.
unfoldable pub on_list : Text → Request → Books → Verdict × Books
unfolding clean
on_list ns r b =
    if wants_list r.kind && text_eq ns r.name then (resolves, clean r b) else (keeps, b)

-- The listeners for `error`.
unfoldable pub on_error : Request → Books → Verdict × Books
unfolding clean delete_namespace
on_error r b = elim r.kind [
  | join ↦
      if Dict.has r.name b.joins then (rejects, delete_namespace r.name (clean r b)) else (keeps, b)
  | discover ↦ if Dict.has r.name b.discovers then (rejects, clean r b) else (keeps, b)
  | create_room ↦ (rejects, b)
  | join_room ↦ (rejects, delete_namespace r.name b)
  | room_info ↦ (keeps, b)
]

abbrev is_create : Kind → Bool
is_create create_room = true
is_create _ = false

abbrev is_info : Kind → Bool
is_info room_info = true
is_info _ = false

-- The listener for `room_created`, and the one on the transport for a `room_info` message.
unfoldable pub on_created : Text → Request → Books → Verdict × Books
unfolding add_namespace
on_created room r b =
    if is_create r.kind && text_eq room r.name then (resolves, add_namespace room b) else (keeps, b)

unfoldable pub on_info : Text → Request → Books → Verdict × Books
on_info room r b = if is_info r.kind && text_eq room r.name then (resolves, b) else (keeps, b)

abbrev forget_room : Kind → Text → Books → Books
forget_room join_room name b = delete_namespace name b
forget_room _ name b = b

-- The timer of a request.
unfoldable pub on_timeout : ℕ → Request → Books → Verdict × Books
unfolding clean delete_namespace
on_timeout id r b =
    if r.id == id then (rejects, forget_room r.kind r.name (clean r b)) else (keeps, b)

abbrev pub kept : Verdict → Request → List Request → List Request
kept keeps r rs = r ∷ rs
kept resolves r rs = rs
kept rejects r rs = rs

abbrev pub settlement : {D : Type 0} → Verdict → ℕ → List (Effect D)
settlement keeps id = []
settlement resolves id = resolved id ∷ []
settlement rejects id = rejected id ∷ []

module _ {D : Type 0} where
  -- The requests hear an event one after the other.
  unfoldable pub hear_all :
      (Request → Books → Verdict × Books)
      → List Request
      → Books
      → List Request × Books × List (Effect D)
  hear_all f [] b = ([], b, [])
  hear_all f (r ∷ rs) b =
      let (v, b1) = f r b in
      let (rest, b2, es) = hear_all f rs b1 in (kept v r rest, b2, settlement v r.id ++ es)

  unfoldable pub hear :
      (Request → Books → Verdict × Books) → PeerClient → PeerClient × List (Effect D)
  unfolding hear_all
  hear f c =
      let (rs, b, es) = hear_all f c.requests c.books in (record c { requests = rs; books = b }, es)
