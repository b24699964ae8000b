-- ===== src/Offline.antt =====
-- packages/peer-client/src/offline-sync-room.ts and core/offline-store.ts: a room that keeps its
-- entries in a database of the browser, works without a connection and catches up later. Here: the
-- state, the database's operations, local writes and the application of remote entries. An `await`
-- of the database does not separate a change of the map from its copy: the code asks for the copy
-- before it waits, and the database serves requests in order. The database itself is IndexedDB; its
-- object stores are a map of entries, a map of pending operations and two values.
pub mod Session
pub mod Durable
pub mod Restart
pub mod Merging
pub mod Flushing
use peer_server.Prelude.{
  ℕ, Bool, true, false, not, ◌&&◌, Option, none, some, List, [], ◌∷◌, ◌++◌, Text, is_empty, leb,
  length, if◌then◌else◌,
}
use peer_server.Prelude.Int.{is_zero}
use peer_server.Dict
use peer_server.Dict.{Dict}
use peer_server.Hlc.{Hlc, create_hlc, merge_hlc, compare_hlc}
use peer_server.StateSync.{SyncState, live_entries, visible, wins}

-- OfflineOperation: a write that waits, `none` for a deletion.
pub record Pending (V : Type 0) : Type 0 where
  pub id : Text
  pub deletes : Bool
  pub key : Text
  pub value : Option V
  pub hlc : Hlc
  pub ts : ℕ

pub record OfflineStore (V : Type 0) : Type 0 where
  pub entries : Dict (SyncState V)
  pub pending : Dict (Pending V)
  pub clock : Option Hlc
  pub last_sync : ℕ

-- Where `flushPendingOps` stands: `_syncing` is false only at `idle`.
pub data Flush (V : Type 0) : Type 0 where
  idle reading : Flush V
  sending : List (Pending V) → Flush V

pub record OfflineRoom (V : Type 0) : Type 0 where
  pub room_id : Text
  pub state : Dict (SyncState V)
  pub hlc : Hlc
  pub is_closed : Bool
  pub online : Bool
  pub ready : Bool
  pub flush : Flush V
  pub remote_keys : Dict (Unit {0})
  pub encryption_enabled : Bool
  pub max_pending_ops : ℕ
  pub sync_batch_size : ℕ
  pub merging : Bool
  pub merge : Option (Option V → Option V → Option V)
  pub saved : OfflineStore V

-- What a message carries: a value, or one that was encrypted for its receiver.
pub data Content (V : Type 0) : Type 0 where
  plain sealed : Option V → Content V

-- A payload marked `_osr`. An entry that is missing or has no clock is `none`, and so is a clock
-- that is missing.
pub data Payload (V : Type 0) : Type 0 where
  full_state : List (Option (SyncState V)) → Payload V
  request_state : Payload V
  key_offer key_ack : Payload V
  set_message : Text → Content V → Option Hlc → Payload V
  delete_message : Text → Option Hlc → Payload V

pub data Effect (V : Type 0) : Type 0 where
  ready_event online_event offline_event sync_started sync_complete closed_event error_event :
      Effect V
  state_changed : Text → Option V → Text → Effect V
  conflict : Text → Option V → Option V → Option V → Effect V
  synced peer_joined peer_left : Text → Effect V
  broadcast : Payload V → Effect V
  relay : Text → Payload V → Effect V
  leave_room join_room create_room : Text → Effect V

module _ {V : Type 0} where
  -- The database is taken to be open and to do what it is asked: in the code a call fails once the
  -- database is closed or its disk is full, when the map has the entry already.
  -- `putState`, `setHLC`, `addPendingOp`, `removePendingOp`, `setLastSyncTime`
  unfoldable pub put_state : SyncState V → OfflineRoom V → OfflineRoom V
  put_state e s = record s { saved = record s.saved { entries = Dict.put e.key e s.saved.entries } }

  unfoldable pub set_clock : OfflineRoom V → OfflineRoom V
  set_clock s = record s { saved = record s.saved { clock = some s.hlc } }

  unfoldable pub add_pending_op : Pending V → OfflineRoom V → OfflineRoom V
  add_pending_op op s = record s {
    saved = record s.saved { pending = Dict.put op.id op s.saved.pending };
  }

  unfoldable pub remove_pending_op : Text → OfflineRoom V → OfflineRoom V
  remove_pending_op id s = record s {
    saved = record s.saved { pending = Dict.remove id s.saved.pending };
  }

  unfoldable pub set_last_sync_time : ℕ → OfflineRoom V → OfflineRoom V
  set_last_sync_time now s = record s { saved = record s.saved { last_sync = now } }

  -- `ops.sort((a, b) => a.ts - b.ts)`, which is stable.
  unfoldable pub insert_op : Pending V → List (Pending V) → List (Pending V)
  insert_op op [] = op ∷ []
  insert_op op (x ∷ xs) =
      let rest = insert_op op xs in if leb op.ts x.ts then op ∷ x ∷ xs else x ∷ rest

  unfoldable pub sort_ops : List (Pending V) → List (Pending V)
  unfolding insert_op
  sort_ops [] = []
  sort_ops (op ∷ ops) = insert_op op (sort_ops ops)

  unfoldable pub all_pending_ops : OfflineStore V → List (Pending V)
  unfolding sort_ops
  all_pending_ops st = sort_ops (Dict.values st.pending)

  unfoldable pub tick : ℕ → OfflineRoom V → OfflineRoom V
  tick now s = record s { hlc = create_hlc now s.hlc.node (some s.hlc) }

  -- `this.state.set` and the `putState` after it.
  unfoldable pub keep : SyncState V → OfflineRoom V → OfflineRoom V
  unfolding put_state
  keep e s = put_state e (record s { state = Dict.put e.key e s.state })

  -- The entry of a local write, from the clock after the tick.
  unfoldable pub local_entry : Text → Option V → Bool → OfflineRoom V → SyncState V
  local_entry key value deleted s = record {
    key = key;
    value = value;
    hlc = s.hlc;
    from = s.hlc.node;
    version = s.hlc.counter;
    deleted = deleted;
  }

  -- The part of `set` and `delete` before the operation is sent or queued.
  unfoldable pub write_local : ℕ → Text → Option V → Bool → OfflineRoom V → OfflineRoom V
  unfolding tick keep local_entry set_clock
  write_local now key value deleted s =
      let ticked = tick now s in set_clock (keep (local_entry key value deleted ticked) ticked)

  unfoldable pub queue_operation : Pending V → OfflineRoom V → OfflineRoom V × List (Effect V)
  unfolding add_pending_op
  queue_operation op s =
      if leb s.max_pending_ops (length s.saved.pending)
      then (s, error_event ∷ [])
      else (add_pending_op op s, [])

  unfoldable pub get : Text → OfflineRoom V → Option V
  get key s = visible (Dict.get key s.state)

  unfoldable pub get_all : OfflineRoom V → Dict (Option V)
  get_all s = live_entries s.state

  unfoldable pub has : Text → OfflineRoom V → Bool
  has key s = elim (Dict.get key s.state) [ none ↦ false | some e ↦ not e.deleted ]

  unfoldable pub keys : OfflineRoom V → List Text
  keys s = Dict.keys (live_entries s.state)

  unfoldable pub size : OfflineRoom V → ℕ
  size s = length (live_entries s.state)

  -- `this.hlc = mergeHLC(this.hlc, remote.hlc, this.hlc.node)`
  unfoldable pub observe : ℕ → Hlc → OfflineRoom V → OfflineRoom V
  observe now remote s = record s { hlc = merge_hlc now s.hlc remote s.hlc.node }

  -- The test for the merge of two values, with the function if there is one.
  unfoldable pub merges : OfflineRoom V → Option (SyncState V) → SyncState V → Bool
  merges s none remote = false
  merges s (some local) remote =
      s.merging
      && not local.deleted
      && not remote.deleted
      && not (is_zero (compare_hlc remote.hlc local.hlc))

  unfoldable pub merge_values :
      ℕ
      → Option (Option V → Option V → Option V)
      → Option (SyncState V)
      → SyncState V
      → Text
      → OfflineRoom V
      → Option (OfflineRoom V × List (Effect V))
  unfolding tick keep local_entry
  merge_values now (some f) (some local) remote from s =
      let merged = f local.value remote.value in
      let ticked = tick now s in
      some (
        keep (local_entry remote.key merged false ticked) ticked,
        conflict remote.key local.value remote.value merged
            ∷ state_changed remote.key merged from
            ∷ [],
      )
  merge_values now _ _ remote from s = none

  unfoldable pub store_if_wins : SyncState V → OfflineRoom V → OfflineRoom V
  unfolding keep
  store_if_wins remote s = if wins (Dict.get remote.key s.state) remote then keep remote s else s

  abbrev win_effects : Bool → SyncState V → Text → List (Effect V)
  win_effects b remote from =
      if b
      then state_changed remote.key (if remote.deleted then none else remote.value) from ∷ []
      else []

  -- The second half of `applyRemoteEntry`.
  unfoldable pub apply_by_clock :
      SyncState V → Text → OfflineRoom V → OfflineRoom V × List (Effect V)
  unfolding store_if_wins set_clock
  apply_by_clock remote from s = (
    set_clock (store_if_wins remote s),
    win_effects (wins (Dict.get remote.key s.state) remote) remote from,
  )

  unfoldable pub or_by_clock :
      Option (OfflineRoom V × List (Effect V))
      → OfflineRoom V × List (Effect V)
      → OfflineRoom V × List (Effect V)
  or_by_clock none other = other
  or_by_clock (some merged) other = merged

  unfoldable pub apply_remote_entry :
      (ℕ → ℕ) → Option (SyncState V) → Text → OfflineRoom V → OfflineRoom V × List (Effect V)
  unfolding observe merge_values apply_by_clock or_by_clock merges
  apply_remote_entry now none from s = (s, [])
  apply_remote_entry now (some remote) from s =
      let s1 = observe (now 0) remote.hlc s in
      let local = Dict.get remote.key s1.state in
      let clocked = apply_by_clock remote from s1 in
      let merged = or_by_clock (merge_values (now 1) s1.merge local remote from s1) clocked in
      if is_empty remote.key then (s, []) else if merges s1 local remote then merged else clocked
