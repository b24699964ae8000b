-- ===== src/Peer.antt =====
-- packages/peer-client/src/core/peer.ts, class Peer: the negotiation of a connection and its
-- channels. What the class asks of the RTCPeerConnection is an effect; what it answers comes with an
-- event: whether a promise is fulfilled and with which description, and the signaling state where
-- the code looks at it. An async function that waits is a job; a channel is a number, its place in
-- the order in which channels came to be. `S` is the type of descriptions, `C` of candidates and `D`
-- of data.
pub mod Jobs
pub mod Steps
pub mod Flushing
pub mod Candidates
pub mod Answers
pub mod Offers
use peer_server.Prelude.{
  ℕ, suc, ◌==◌, ◌||◌, Bool, true, false, not, Option, none, some, List, [], ◌∷◌, ◌++◌, Text,
  if◌then◌else◌,
}
use peer_server.Dict
use peer_server.Dict.{Dict}

-- The signaling states that the code tells apart.
pub data Signaling : Type 0 where
  stable negotiating closed_ : Signaling

abbrev pub is_stable : Signaling → Bool
is_stable stable = true
is_stable _ = false

abbrev pub is_closed_state : Signaling → Bool
is_closed_state closed_ = true
is_closed_state _ = false

-- Where an async function waits; the description is the one that it has set.
pub data Job (S C : Type 0) : Type 0 where
  -- the handler of `negotiationneeded`: for createOffer, for setLocalDescription
  needed : Job S C
  needed_local : S → Job S C
  -- `createOffer`
  offering : Job S C
  offering_local : S → Job S C
  -- `handleSignal` with an offer: for setRemoteDescription, within flushCandidates, for
  -- createAnswer, for setLocalDescription
  remote_offer : Job S C
  flushing_offer : List C → Job S C
  answering : Job S C
  answering_local : S → Job S C
  -- `handleSignal` with an answer, and with a candidate
  remote_answer : Job S C
  flushing_answer : List C → Job S C
  adding : Job S C
  -- `restartIce`
  restarting : Job S C
  restarting_local : S → Job S C

pub record Peer (S C : Type 0) : Type 0 where
  pub making_offer : Bool
  pub remote_desc_set : Bool
  pub pending : List C
  pub closed : Bool
  pub channels : Dict ℕ
  pub next_channel : ℕ
  pub jobs : List (Job S C)

unfoldable pub new_peer : {S C : Type 0} → Peer S C
new_peer = record {
  making_offer = false;
  remote_desc_set = false;
  pending = [];
  closed = false;
  channels = [];
  next_channel = 0;
  jobs = [];
}

-- The payload of a signal; a candidate that is no JSON is none.
pub data Signal (S C : Type 0) : Type 0 where
  offer answer : S → Signal S C
  candidate : Option C → Signal S C

pub data Effect (S C D : Type 0) : Type 0 where
  -- calls of the connection
  ask_offer ask_answer restart_ice close_connection : Effect S C D
  set_local set_remote : S → Effect S C D
  add_candidate : C → Effect S C D
  create_channel : Text → Effect S C D
  close_channel : ℕ → Effect S C D
  -- what goes to the other peer
  send_signal : Signal S C → Effect S C D
  send_data : ℕ → D → Effect S C D
  not_open : Text → Effect S C D
  -- `error`, and the job that it is from
  failed : Job S C → Effect S C D
  error_event connected disconnected : Effect S C D
  channel_created channel_opened : ℕ → Effect S C D
  channel_closed : Text → Effect S C D
  data_event : D → Text → Effect S C D

module _ {S C : Type 0} where
  -- An async function goes on to wait.
  unfoldable pub wait : Job S C → Peer S C → Peer S C
  wait j p = record p { jobs = j ∷ p.jobs }

  -- `setupChannel`
  unfoldable pub setup_channel : Text → Peer S C → Peer S C
  setup_channel label p = record p {
    channels = Dict.put label p.next_channel p.channels;
    next_channel = suc p.next_channel;
  }

module _ {S C D : Type 0} where
  -- `emit`: a closed peer has no listeners.
  abbrev pub emit : Effect S C D → Peer S C → List (Effect S C D)
  emit e p = if p.closed then [] else e ∷ []

  -- `createDataChannel`
  unfoldable pub create_data_channel : Text → Peer S C → Peer S C × List (Effect S C D)
  unfolding setup_channel
  create_data_channel label p = (setup_channel label p, create_channel label ∷ [])

  -- The connection's `datachannel`, and the events of a channel.
  unfoldable pub on_data_channel : Text → Peer S C → Peer S C × List (Effect S C D)
  unfolding setup_channel
  on_data_channel label p = (setup_channel label p, emit (channel_created p.next_channel) p)

  unfoldable pub on_channel_open : ℕ → Peer S C → List (Effect S C D)
  on_channel_open ch p = emit (channel_opened ch) p

  unfoldable pub on_channel_message : D → Text → Peer S C → List (Effect S C D)
  on_channel_message d label p = emit (data_event d label) p

  -- The channel of the map goes, whichever it is.
  unfoldable pub on_channel_close : Text → Peer S C → Peer S C × List (Effect S C D)
  on_channel_close label p =
      (record p { channels = Dict.remove label p.channels }, emit (channel_closed label) p)

  unfoldable pub on_channel_error : Peer S C → List (Effect S C D)
  on_channel_error p = emit error_event p

  abbrev pub sent_over : (ℕ → Bool) → Option ℕ → D → Text → List (Effect S C D)
  sent_over is_open none d label = not_open label ∷ []
  sent_over is_open (some ch) d label =
      if is_open ch then send_data ch d ∷ [] else not_open label ∷ []

  -- `send` and `sendBinary`; a channel that is missing or not open makes an exception.
  unfoldable pub send : (ℕ → Bool) → D → Text → Peer S C → List (Effect S C D)
  send is_open d label p = sent_over is_open (Dict.get label p.channels) d label

  abbrev pub close_channels : List ℕ → List (Effect S C D)
  close_channels [] = []
  close_channels (ch ∷ chs) = close_channel ch ∷ close_channels chs

  unfoldable pub close : Peer S C → Peer S C × List (Effect S C D)
  close p = if p.closed then (p, []) else (
    record p { closed = true; channels = [] },
    close_channels (Dict.values p.channels) ++ close_connection ∷ [],
  )
