-- ===== src/StateSync.antt =====
-- packages/peer-client/src/sync.ts, class StateSync, with the type SyncState of core/types.ts.
-- Values (`any`) are an arbitrary type `V`, and `undefined` is `none`. What the class hands to its
-- listeners and to the client (emit, broadcast, relay) is the list of effects of an operation, in
-- the order of the calls. `now i` is what the i-th call of `Date.now()` within the operation
-- returns. A remote entry that is missing or carries no clock is `none`.
pub mod Remote
pub mod Session
pub mod Induction
pub mod Valid
pub mod Best
pub mod History
pub mod Convergence
pub mod Behaviour
pub mod Handover
use peer_server.Prelude.{
  ℕ, suc, ◌+◌, ◌-◌, Bool, true, false, not, ◌&&◌, Option, none, some, List, [], ◌∷◌, ◌++◌, Text,
  text_eq, ltb, length, if◌then◌else◌,
}
use peer_server.Dict
use peer_server.Dict.{Dict}
use peer_server.Hlc.{Hlc, create_hlc, merge_hlc, is_later}

pub record SyncState (V : Type 0) : Type 0 where
  pub key : Text
  pub value : Option V
  pub hlc : Hlc
  pub from : Text
  pub version : ℕ
  pub deleted : Bool

pub data SyncMode : Type 0 where
  lww operational crdt : SyncMode

-- A payload marked `_sync`, by its `type`; `other` is any type that the handler does not know.
pub data Payload (V : Type 0) : Type 0 where
  full_state : List (Option (SyncState V)) → Payload V
  request_state : Payload V
  delete update : Option (SyncState V) → Payload V
  other : Payload V

pub data Effect (V : Type 0) : Type 0 where
  state_changed : Text → Option V → Text → Effect V
  conflict : Text → Option V → Option V → Option V → Effect V
  synced : Text → Effect V
  crdt_error : Effect V
  broadcast : Text → Payload V → Effect V
  relay : Text → Text → Payload V → Effect V

pub record StateSync (V : Type 0) : Type 0 where
  pub fingerprint : Text
  pub room_id : Text
  pub mode : SyncMode
  pub merge : Option (Option V → Option V → Option V)
  pub state : Dict (SyncState V)
  pub hlc : Hlc
  -- how often the listeners of `start` are there
  pub listeners : ℕ

-- LIMITS.TOMBSTONE_TTL
abbrev pub tombstone_ttl : ℕ
tombstone_ttl = 60000

module _ {V : Type 0} where
  abbrev has_merge : SyncMode → Option (Option V → Option V → Option V) → Bool
  has_merge operational none = false
  has_merge _ m = true

  -- The constructor; `none` is the error that it throws.
  unfoldable pub create :
      Text → Text → SyncMode → Option (Option V → Option V → Option V) → ℕ → Option (StateSync V)
  create fp room mode merge now =
      if has_merge mode merge
      then some (record {
        fingerprint = fp;
        room_id = room;
        mode = mode;
        merge = merge;
        state = [];
        hlc = record { ts = now; counter = 0; node = fp };
        listeners = 0;
      })
      else none

  unfoldable pub tick : ℕ → StateSync V → StateSync V
  tick now s = record s { hlc = create_hlc now s.fingerprint (some s.hlc) }

  -- `this.state.set(entry.key, entry)`
  unfoldable pub store : SyncState V → StateSync V → StateSync V
  store e s = record s { state = Dict.put e.key e s.state }

  -- The entry that a local write makes from the clock after the tick.
  unfoldable pub own_entry : Text → Option V → Bool → StateSync V → SyncState V
  own_entry key value deleted s = record {
    key = key;
    value = value;
    hlc = s.hlc;
    from = s.fingerprint;
    version = s.hlc.counter;
    deleted = deleted;
  }

  unfoldable pub set : ℕ → Text → Option V → StateSync V → StateSync V × List (Effect V)
  unfolding tick store own_entry
  set now key value s =
      let ticked = tick now s in
      let entry = own_entry key value false ticked in
      (
        store entry ticked,
        state_changed key value s.fingerprint ∷ broadcast s.room_id (update (some entry)) ∷ [],
      )

  unfoldable pub delete_key : ℕ → Text → StateSync V → StateSync V × List (Effect V)
  unfolding tick store own_entry
  delete_key now key s =
      let ticked = tick now s in
      let entry = own_entry key none true ticked in
      (
        store entry ticked,
        broadcast s.room_id (delete (some entry)) ∷ state_changed key none s.fingerprint ∷ [],
      )

  abbrev pub visible : Option (SyncState V) → Option V
  visible none = none
  visible (some e) = if e.deleted then none else e.value

  unfoldable pub get : Text → StateSync V → Option V
  get key s = visible (Dict.get key s.state)

  unfoldable pub live_entries : Dict (SyncState V) → Dict (Option V)
  live_entries [] = []
  live_entries ((k, e) ∷ d) =
      let rest = live_entries d in if e.deleted then rest else (k, e.value) ∷ rest

  unfoldable pub get_all : StateSync V → Dict (Option V)
  unfolding live_entries
  get_all s = live_entries s.state

  -- `this.hlc = mergeHLC(this.hlc, remote.hlc, this.client.fingerprint)`
  unfoldable pub observe : ℕ → Hlc → StateSync V → StateSync V
  observe now remote s = record s { hlc = merge_hlc now s.hlc remote s.fingerprint }

  -- `!local || compareHLC(remote.hlc, local.hlc) > 0`
  unfoldable pub wins : Option (SyncState V) → SyncState V → Bool
  wins none remote = true
  wins (some local) remote = is_later remote.hlc local.hlc
