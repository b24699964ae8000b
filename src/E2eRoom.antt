-- ===== src/E2eRoom.antt =====
-- packages/peer-client/src/e2e.room.ts, class E2EDirectRoom: a room for two whose data is encrypted
-- once the two have exchanged keys. The keys and what is done with them are E2E's of crypto.ts: what
-- comes of a derivation, an encryption or a decryption is an argument of the event with which its
-- promise settles. `K` is the type of shared keys, `P` of public keys, `X` of encrypted data and `D`
-- of data. The room's listeners are attached where it has its DirectRoom; a second call of `create` or
-- `join`, which would attach them to another DirectRoom as well, is left out.
pub mod Steps
pub mod Counting
pub mod Quiet
pub mod Sending
pub mod Exchange
pub mod Keys
pub mod Sides
pub mod Acts
pub mod Handshake
use peer_server.Prelude.{
  ℕ, Bool, true, false, ◌&&◌, not, Option, none, some, List, [], ◌∷◌, ◌++◌, Text, text_eq,
  if◌then◌else◌,
}
use peer_server.Dict
use peer_server.Dict.{Dict}

pub data Phase : Type 0 where
  connecting exchanging ready ended : Phase

abbrev pub is_ready : Phase → Bool
is_ready ready = true
is_ready _ = false

abbrev pub is_exchanging : Phase → Bool
is_exchanging exchanging = true
is_exchanging _ = false

abbrev pub is_ended : Phase → Bool
is_ended ended = true
is_ended _ = false

abbrev pub same_phase : Phase → Phase → Bool
same_phase connecting connecting = true
same_phase exchanging exchanging = true
same_phase ready ready = true
same_phase ended ended = true
same_phase _ _ = false

-- What the two rooms send each other; `raw` is data that no such room has sent.
pub data Wire (P X D : Type 0) : Type 0 where
  key_offer key_ack : P → Wire P X D
  encrypted : X → Wire P X D
  plain raw : D → Wire P X D

-- Where an async function waits: for initE2E, deriveKey, encrypt and decrypt.
pub data Job (P X D : Type 0) : Type 0 where
  opening : Job P X D
  deriving_offer deriving_ack : Text → P → Job P X D
  encrypting : D → Job P X D
  decrypting : Text → X → Job P X D

pub record E2eRoom (K P X D : Type 0) : Type 0 where
  pub public_key : P
  pub initialized : Bool
  pub keys : Dict K
  pub remote_fingerprint : Text
  pub phase : Phase
  pub closed : Bool
  pub has_room : Bool
  pub exchange_timer : Bool
  pub jobs : List (Job P X D)

unfoldable pub new_room : {K P X D : Type 0} → P → E2eRoom K P X D
new_room key = record {
  public_key = key;
  initialized = false;
  keys = [];
  remote_fingerprint = [];
  phase = connecting;
  closed = false;
  has_room = false;
  exchange_timer = false;
  jobs = [];
}

pub data Effect (P X D : Type 0) : Type 0 where
  room_send : Wire P X D → Effect P X D
  room_opens room_closes : Effect P X D
  state_changed : Phase → Effect P X D
  error_event closed_event closed_error : Effect P X D
  ready_event decrypt_error peer_joined peer_left : Text → Effect P X D
  data_event : D → Text → Effect P X D
  raw_event : Wire P X D → Text → Effect P X D

module _ {K P X D : Type 0} where
  -- `hasEncryption`
  unfoldable pub has_encryption : E2eRoom K P X D → Bool
  has_encryption r = is_ready r.phase && Dict.has r.remote_fingerprint r.keys

  -- `emit`: a closed room has no listeners.
  abbrev pub emit : Effect P X D → E2eRoom K P X D → List (Effect P X D)
  emit e r = if r.closed then [] else e ∷ []

  unfoldable pub wait : Job P X D → E2eRoom K P X D → E2eRoom K P X D
  wait j r = record r { jobs = j ∷ r.jobs }

  -- What `setState` tells the listeners.
  abbrev pub state_effects : Phase → E2eRoom K P X D → List (Effect P X D)
  state_effects s r = if same_phase r.phase s then [] else emit (state_changed s) r

  -- `create` and `join` up to initE2E, and from there on.
  unfoldable pub begin : E2eRoom K P X D → E2eRoom K P X D × List (Effect P X D)
  unfolding wait
  begin r = if r.closed then (r, closed_error ∷ []) else (wait opening r, [])

  unfoldable pub finish_open : E2eRoom K P X D → E2eRoom K P X D × List (Effect P X D)
  finish_open r = (record r { initialized = true; has_room = true }, room_opens ∷ [])

  -- `startKeyExchange`
  unfoldable pub start_key_exchange : E2eRoom K P X D → E2eRoom K P X D × List (Effect P X D)
  start_key_exchange r =
      if r.closed
      then (r, [])
      else (if r.initialized && r.has_room
          then (
            record r { phase = exchanging; exchange_timer = true },
            state_effects exchanging r ++ room_send (key_offer r.public_key) ∷ [],
          )
          else (
            record r { phase = exchanging; exchange_timer = false },
            state_effects exchanging r ++ error_event ∷ [],
          ))

  -- The timer of the exchange.
  unfoldable pub on_exchange_timeout : E2eRoom K P X D → E2eRoom K P X D × List (Effect P X D)
  on_exchange_timeout r =
      if is_exchanging r.phase
      then (
        record r { phase = connecting; exchange_timer = false },
        emit error_event r ++ emit (state_changed connecting) r,
      )
      else (record r { exchange_timer = false }, [])

  -- The end of an exchange: the timer is cleared and the room is ready.
  unfoldable pub become_ready : Text → E2eRoom K P X D → E2eRoom K P X D × List (Effect P X D)
  become_ready from r = (
    record r { exchange_timer = false; remote_fingerprint = from; phase = ready },
    state_effects ready r ++ emit (ready_event from) r,
  )

  -- `handleKeyExchange`, up to deriveKey and from there on; E2E has the key before it goes on.
  unfoldable pub handle_key_exchange :
      Job P X D → E2eRoom K P X D → E2eRoom K P X D × List (Effect P X D)
  unfolding wait
  handle_key_exchange j r = if r.closed then (r, []) else (wait j r, [])

  unfoldable pub store_key : Text → K → E2eRoom K P X D → E2eRoom K P X D
  store_key from k r = record r { keys = Dict.put from k r.keys }

  unfoldable pub finish_offer : Text → K → E2eRoom K P X D → E2eRoom K P X D × List (Effect P X D)
  unfolding store_key become_ready
  finish_offer from k r =
      let r1 = store_key from k r in
      let (r2, es) = become_ready from r1 in
      if r.has_room then (r2, room_send (key_ack r.public_key) ∷ es) else (r1, emit error_event r)

  unfoldable pub finish_ack : Text → K → E2eRoom K P X D → E2eRoom K P X D × List (Effect P X D)
  unfolding store_key become_ready
  finish_ack from k r = become_ready from (store_key from k r)
