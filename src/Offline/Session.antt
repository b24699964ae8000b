-- ===== src/Offline/Session.antt =====
-- offline-sync-room.ts: what an OfflineSyncRoom sends and handles: operations, full states in
-- batches, the flush of the pending operations, the exchange of keys, the listeners, `close`.
-- Encryption and keys are WebCrypto's: what a call of it comes to is an argument.
use peer_server.Prelude.{
  text, ℕ, zero, suc, Bool, true, false, not, ◌&&◌, ◌||◌, Option, none, some, List, [], ◌∷◌, ◌++◌,
  Text, text_eq, is_empty, map, take, drop, length, if◌then◌else◌,
}
use peer_server.Dict
use peer_server.Dict.{Dict}
use peer_server.Hlc.{Hlc, merge_hlc}
use peer_server.StateSync.{SyncState}
use peer_server.Offline.{
  Pending, idle, reading, sending, OfflineRoom, Content, plain, sealed, Payload, full_state,
  request_state, key_offer, key_ack, set_message, delete_message, Effect, ready_event, online_event,
  offline_event, sync_started, sync_complete, closed_event, error_event, state_changed, synced,
  peer_joined, peer_left, broadcast, relay, leave_room, join_room, create_room, set_clock,
  remove_pending_op, set_last_sync_time, all_pending_ops, write_local, queue_operation,
  apply_remote_entry,
}

-- What the calls of E2E come to: `encrypt` for a peer succeeds, the key of a peer is there,
-- `decrypt` of what a peer sent succeeds, `deriveKey` for a peer succeeds; and whether the client
-- is connected.
pub record World : Type 0 where
  pub encrypts : Text → Bool
  pub has_key : Text → Bool
  pub decrypts : Text → Bool
  pub derives : Text → Bool
  pub connected : Bool

abbrev no_targets : List Text → Bool
no_targets [] = true
no_targets (fp ∷ fps) = false

abbrev merge_saved : ℕ → Option Hlc → Hlc → Hlc
merge_saved now none hlc = hlc
merge_saved now (some saved) hlc = merge_hlc now hlc saved hlc.node

-- `ns && ns !== this.roomId`; an undefined `ns` is empty.
abbrev elsewhere : Text → Text → Bool
elsewhere ns room = not (is_empty ns) && not (text_eq ns room)

module _ {V : Type 0} where
  -- To each peer with whom keys were exchanged: encrypted, or in plain text if that throws.
  unfoldable pub send_to_targets : World → Text → Option V → Hlc → List Text → List (Effect V)
  send_to_targets w key value hlc [] = []
  send_to_targets w key value hlc (fp ∷ fps) =
      relay fp (set_message key (if w.encrypts fp then sealed value else plain value) (some hlc))
      ∷ send_to_targets w key value hlc fps

  unfoldable pub send_set : World → Text → Option V → Hlc → OfflineRoom V → List (Effect V)
  unfolding send_to_targets
  send_set w key value hlc s =
      if s.encryption_enabled && not (no_targets (Dict.keys s.remote_keys))
      then send_to_targets w key value hlc (Dict.keys s.remote_keys)
      else broadcast (set_message key (plain value) (some hlc)) ∷ []

  unfoldable pub send_operation :
      World → Bool → Text → Option V → Hlc → OfflineRoom V → List (Effect V)
  unfolding send_set
  send_operation w deletes key value hlc s =
      if deletes then broadcast (delete_message key (some hlc)) ∷ [] else send_set w key value hlc s

  -- `set` and `delete`, with the identifier that `genOpId` makes and the readings of the clock.
  unfoldable pub write :
      World
      → (ℕ → ℕ)
      → Text
      → Bool
      → Text
      → Option V
      → OfflineRoom V
      → OfflineRoom V × List (Effect V)
  unfolding write_local send_operation queue_operation
  write w now id deletes key value s =
      let v = if deletes then none else value in
      let s1 = write_local (now 0) key v deletes s in
      let op : Pending V = record {
        id = id;
        deletes = deletes;
        key = key;
        value = v;
        hlc = s1.hlc;
        ts = now 1;
      } in
      let (s2, es) = queue_operation op s1 in
      if s.is_closed
      then (s, [])
      else if s.online && w.connected
      then (s1, state_changed key v (text "local") ∷ send_operation w deletes key v s1.hlc s1)
      else (s2, state_changed key v (text "local") ∷ es)

  -- Slices of the batch size; `fuel` bounds their number, the length of the list is enough.
  unfoldable pub batches : ℕ → ℕ → List (SyncState V) → List (List (SyncState V))
  batches zero size xs = []
  batches (suc fuel) size [] = []
  batches (suc fuel) size (x ∷ xs) = take size (x ∷ xs) ∷ batches fuel size (drop size (x ∷ xs))

  unfoldable pub broadcast_full_state : OfflineRoom V → List (Effect V)
  unfolding batches
  broadcast_full_state s =
      let entries = Dict.values s.state in
      map (λ batch. broadcast (full_state (map some batch)))
        (batches (length entries) s.sync_batch_size entries)

  -- `flushPendingOps` up to its first wait.
  unfoldable pub start_flush : OfflineRoom V → OfflineRoom V × List (Effect V)
  unfolding broadcast_full_state
  start_flush s = elim s.flush [
    | idle ↦
        if s.online
        then (record s { flush = reading }, sync_started ∷ broadcast_full_state s)
        else (s, [])
    | reading ↦ (s, [])
    | sending ops ↦ (s, [])
  ]

  -- Its next step: the pending operations are read, one is sent and removed, or it ends.
  unfoldable pub continue_flush : World → ℕ → OfflineRoom V → OfflineRoom V × List (Effect V)
  unfolding send_operation remove_pending_op set_last_sync_time all_pending_ops
  continue_flush w now s = elim s.flush [
    | idle ↦ (s, [])
    | reading ↦ (record s { flush = sending (all_pending_ops s.saved) }, [])
    | sending ops ↦ elim ops [
      | [] ↦ (set_last_sync_time now (record s { flush = idle }), sync_complete ∷ [])
      | op ∷ rest ↦ (
        remove_pending_op op.id (record s { flush = sending rest }),
        send_operation w op.deletes op.key op.value op.hlc s,
      )
    ]
  ]

  -- The loop over a full state, if nothing else happens while it waits for the database; what may
  -- happen between two entries is in `step`, where an entry can come by itself.
  unfoldable pub apply_entries :
      (ℕ → ℕ → ℕ)
      → ℕ
      → List (Option (SyncState V))
      → Text
      → OfflineRoom V
      → OfflineRoom V × List (Effect V)
  unfolding apply_remote_entry
  apply_entries now i [] from s = (s, [])
  apply_entries now i (remote ∷ rest) from s =
      let (s1, es) = apply_remote_entry (now i) remote from s in
      let (s2, fs) = apply_entries now (suc i) rest from s1 in (s2, es ++ fs)

  unfoldable pub initiate_key_exchange : Text → OfflineRoom V → List (Effect V)
  initiate_key_exchange fp s =
      if not s.encryption_enabled || Dict.has fp s.remote_keys then [] else relay fp key_offer ∷ []

  -- `handleKeyExchange`; `answers` is whether the payload is an offer.
  unfoldable pub handle_key_exchange :
      World → Bool → Text → OfflineRoom V → OfflineRoom V × List (Effect V)
  handle_key_exchange w answers from s =
      if not s.encryption_enabled
      then (s, [])
      else if w.derives from
      then (
        record s { remote_keys = Dict.put from tt s.remote_keys },
        if answers then relay from key_ack ∷ [] else [],
      )
      else (s, error_event ∷ [])

  abbrev entry_from : Text → Option V → Bool → Option Hlc → Text → Option (SyncState V)
  entry_from key value deleted none from = none
  entry_from key value deleted (some hlc) from = some (record {
    key = key;
    value = value;
    hlc = hlc;
    from = from;
    version = hlc.counter;
    deleted = deleted;
  })

  unfoldable pub apply_message :
      (ℕ → ℕ) → Option (SyncState V) → Text → OfflineRoom V → OfflineRoom V × List (Effect V)
  unfolding apply_remote_entry
  apply_message now remote from s =
      let (s1, es) = apply_remote_entry now remote from s in (s1, es ++ synced from ∷ [])

  -- A value that was encrypted is read if the key is there; without a key, or with encryption off,
  -- the payload has no `value`.
  unfoldable pub handle_set :
      World
      → (ℕ → ℕ)
      → Text
      → Content V
      → Option Hlc
      → Text
      → OfflineRoom V
      → OfflineRoom V × List (Effect V)
  unfolding apply_message
  handle_set w now key (plain v) hlc from s =
      apply_message now (entry_from key v false hlc from) from s
  handle_set w now key (sealed v) hlc from s =
      if s.encryption_enabled && w.has_key from
      then (if w.decrypts from
          then apply_message now (entry_from key v false hlc from) from s
          else (s, error_event ∷ []))
      else apply_message now (entry_from key none false hlc from) from s

  unfoldable pub handle_payload :
      World → (ℕ → ℕ → ℕ) → Payload V → Text → OfflineRoom V → OfflineRoom V × List (Effect V)
  unfolding apply_entries broadcast_full_state handle_key_exchange handle_set apply_message
  handle_payload w now (full_state remotes) from s =
      let (s1, es) = apply_entries now 0 remotes from s in (s1, es ++ synced from ∷ [])
  handle_payload w now request_state from s = (s, broadcast_full_state s)
  handle_payload w now key_offer from s = handle_key_exchange w true from s
  handle_payload w now key_ack from s = handle_key_exchange w false from s
  handle_payload w now (set_message key c hlc) from s = handle_set w (now 0) key c hlc from s
  handle_payload w now (delete_message key hlc) from s =
      apply_message (now 0) (entry_from key none true hlc from) from s

  unfoldable pub handle_remote_update :
      World → (ℕ → ℕ → ℕ) → Payload V → Text → OfflineRoom V → OfflineRoom V × List (Effect V)
  unfolding handle_payload
  handle_remote_update w now p from s =
      if s.is_closed then (s, []) else handle_payload w now p from s

  unfoldable pub on_peer_joined : Text → Text → OfflineRoom V → List (Effect V)
  unfolding initiate_key_exchange
  on_peer_joined fp ns s =
      if elsewhere ns s.room_id then [] else peer_joined fp ∷ initiate_key_exchange fp s

  unfoldable pub on_peer_left : Text → Text → OfflineRoom V → OfflineRoom V × List (Effect V)
  on_peer_left fp ns s =
      if elsewhere ns s.room_id
      then (s, [])
      else (record s { remote_keys = Dict.remove fp s.remote_keys }, peer_left fp ∷ [])

  -- The room has been joined, or the window is online again.
  unfoldable pub go_online : OfflineRoom V → OfflineRoom V × List (Effect V)
  unfolding start_flush
  go_online s = let (s1, es) = start_flush (record s { online = true }) in (s1, online_event ∷ es)

  unfoldable pub join_existing : Bool → OfflineRoom V → OfflineRoom V × List (Effect V)
  unfolding go_online
  join_existing answered s =
      let (s1, es) = go_online s in
      if answered then (s1, join_room s.room_id ∷ es) else (s, join_room s.room_id ∷ [])

  -- `made` is whether the server made the room or answered that it already exists.
  unfoldable pub create_and_join : Bool → Bool → OfflineRoom V → OfflineRoom V × List (Effect V)
  unfolding join_existing
  create_and_join made answered s =
      let (s1, es) = join_existing answered s in
      if made then (s1, create_room s.room_id ∷ es) else (s, create_room s.room_id ∷ [])

  unfoldable pub on_reconnected : OfflineRoom V → OfflineRoom V × List (Effect V)
  on_reconnected s = (record s { online = true }, online_event ∷ join_room s.room_id ∷ [])

  unfoldable pub go_offline : OfflineRoom V → OfflineRoom V × List (Effect V)
  go_offline s = (record s { online = false }, offline_event ∷ [])

  unfoldable pub close : OfflineRoom V → OfflineRoom V × List (Effect V)
  unfolding set_clock
  close s =
      if s.is_closed
      then (s, [])
      else (set_clock (record s { is_closed = true }), leave_room s.room_id ∷ closed_event ∷ [])

  unfoldable pub load_entries : List (SyncState V) → Dict (SyncState V) → Dict (SyncState V)
  load_entries [] d = d
  load_entries (e ∷ es) d = load_entries es (Dict.put e.key e d)

  -- `init`, once the database is open and the keys are there.
  unfoldable pub init : ℕ → OfflineRoom V → OfflineRoom V × List (Effect V)
  unfolding load_entries
  init now s = (
    record s {
      hlc = merge_saved now s.saved.clock s.hlc;
      state = load_entries (Dict.values s.saved.entries) s.state;
      ready = true;
    },
    ready_event ∷ [],
  )

-- The operations, the listeners, and the next steps of what waits. The listeners are there until
-- `close`; the timer that a joined peer starts is not stopped by it. The loop over a full state waits
-- after each entry: `payload_came` is a payload that is handled with nothing in between, and
-- `entry_came` a later turn of a loop in which something else came first.
pub data Event (V : Type 0) : Type 0 where
  write_call : World → (ℕ → ℕ) → Text → Bool → Text → Option V → Event V
  payload_came : World → (ℕ → ℕ → ℕ) → Text → Payload V → Text → Event V
  entry_came : (ℕ → ℕ) → Option (SyncState V) → Text → Event V
  joined left : Text → Text → Event V
  joined_timer : Event V
  create_call : Bool → Bool → Event V
  join_call : Bool → Event V
  reconnected rejoined disconnected : Event V
  window_online : World → Event V
  window_offline : Event V
  flush_step : World → ℕ → Event V
  close_call : Event V

module _ {V : Type 0} where
  abbrev unless_closed :
      OfflineRoom V → OfflineRoom V × List (Effect V) → OfflineRoom V × List (Effect V)
  unless_closed s r = if s.is_closed then (s, []) else r

  unfoldable pub step : Event V → OfflineRoom V → OfflineRoom V × List (Effect V)
  unfolding write handle_remote_update on_peer_joined on_peer_left broadcast_full_state go_online
      apply_remote_entry create_and_join on_reconnected start_flush go_offline continue_flush close
  step (write_call w now id deletes key value) s = write w now id deletes key value s
  step (payload_came w now ns p from) s =
      if text_eq ns s.room_id then handle_remote_update w now p from s else (s, [])
  step (entry_came now remote from) s = apply_remote_entry now remote from s
  step (joined fp ns) s = unless_closed s (s, on_peer_joined fp ns s)
  step (left fp ns) s = unless_closed s (on_peer_left fp ns s)
  step joined_timer s = (s, broadcast_full_state s)
  step (create_call made answered) s = create_and_join made answered s
  step (join_call answered) s = join_existing answered s
  step reconnected s = unless_closed s (on_reconnected s)
  step rejoined s = start_flush s
  step disconnected s = unless_closed s (go_offline s)
  step (window_online w) s = unless_closed s (if w.connected then go_online s else (s, []))
  step window_offline s = unless_closed s (go_offline s)
  step (flush_step w now) s = continue_flush w now s
  step close_call s = close s

  unfoldable pub run : List (Event V) → OfflineRoom V → OfflineRoom V
  unfolding step
  run [] s = s
  run (e ∷ es) s = run es (step e s).0
