-- ===== src/StateSync/Session.antt =====
-- packages/peer-client/src/sync.ts, lines 62-82, 152-161 and 222-296: the listeners of StateSync,
-- the full-state transfer, the purge of tombstones and `destroy`; and all operations as one step
-- function.
use peer_server.Prelude.{
  ℕ, zero, suc, length, ◌+◌, ◌-◌, Bool, ◌&&◌, Option, none, some, List, [], ◌∷◌, ◌++◌, Text,
  text_eq, ltb, map, if◌then◌else◌,
}
use peer_server.Dict
use peer_server.Dict.{Dict}
use peer_server.StateSync.{
  StateSync, SyncState, Payload, full_state, request_state, delete, update, other, Effect, synced,
  broadcast, relay, tombstone_ttl, set, delete_key, observe,
}
use peer_server.StateSync.Remote.{store_if_wins, handle_delete, handle_update, full_state_entry}

module _ {V : Type 0} where
  -- The loop of `handleFullState`; `i` counts the calls of `Date.now()`.
  unfoldable pub merge_full_state :
      (ℕ → ℕ) → ℕ → List (Option (SyncState V)) → Text → StateSync V → StateSync V × List (Effect V)
  merge_full_state now i [] from s = (s, [])
  merge_full_state now i (remote ∷ rest) from s =
      let (s', es) = full_state_entry (now i) remote from s in
      let (s'', fs) = merge_full_state now (suc i) rest from s' in (s'', es ++ fs)

  unfoldable pub handle_full_state :
      (ℕ → ℕ) → List (Option (SyncState V)) → Text → StateSync V → StateSync V × List (Effect V)
  unfolding merge_full_state
  handle_full_state now remotes from s =
      let (s', es) = merge_full_state now 0 remotes from s in (s', es ++ synced from ∷ [])

  -- `loadState`; the entries are those of an earlier `getState`, which all carry a clock.
  unfoldable pub load_state : (ℕ → ℕ) → ℕ → List (SyncState V) → StateSync V → StateSync V
  unfolding store_if_wins observe
  load_state now i [] s = s
  load_state now i (entry ∷ rest) s =
      load_state now (suc i) rest (observe (now i) entry.hlc (store_if_wins entry s))

  abbrev pub full_state_of : List (SyncState V) → Payload V
  full_state_of es = full_state (map some es)

  unfoldable pub broadcast_full_state : StateSync V → List (Effect V)
  broadcast_full_state s = elim (Dict.values s.state) [
    | [] ↦ []
    | e ∷ es ↦ broadcast s.room_id (full_state_of (e ∷ es)) ∷ []
  ]

  unfoldable pub send_state_to : Text → StateSync V → List (Effect V)
  send_state_to fp s = elim (Dict.values s.state) [
    | [] ↦ []
    | e ∷ es ↦ relay fp s.room_id (full_state_of (e ∷ es)) ∷ []
  ]

  unfoldable pub request_full_state : Text → StateSync V → List (Effect V)
  request_full_state fp s = relay fp s.room_id request_state ∷ []

  unfoldable pub handle_remote_update :
      (ℕ → ℕ) → Payload V → Text → StateSync V → StateSync V × List (Effect V)
  unfolding handle_full_state send_state_to handle_delete handle_update
  handle_remote_update now (full_state remotes) from s = handle_full_state now remotes from s
  handle_remote_update now request_state from s = (s, send_state_to from s)
  handle_remote_update now (delete remote) from s = handle_delete (now 0) remote from s
  handle_remote_update now (update remote) from s = handle_update now remote from s
  handle_remote_update now other from s = (s, [])

  -- How many readings of the clock a handler takes at most.
  unfoldable pub readings_of : Payload V → ℕ
  readings_of (full_state remotes) = length remotes
  readings_of (delete remote) = 1
  readings_of (update remote) = 2
  readings_of _ = 0

  -- One message and `n` listeners for it, one after the other.
  unfoldable pub handle_times :
      ℕ → (ℕ → ℕ) → Payload V → Text → StateSync V → StateSync V × List (Effect V)
  unfolding handle_remote_update readings_of
  handle_times zero now payload from s = (s, [])
  handle_times (suc n) now payload from s =
      let (s1, es) = handle_remote_update now payload from s in
      let (s2, fs) = handle_times n (λ i. now (readings_of payload + i)) payload from s1 in
      (s2, es ++ fs)

  unfoldable pub repeat : ℕ → List (Effect V) → List (Effect V)
  repeat zero es = []
  repeat (suc n) es = es ++ repeat n es

  -- The three listeners of `start`, which are there from `start` to `destroy`. A payload that is
  -- not marked `_sync` is `none`.
  unfoldable pub on_broadcast :
      (ℕ → ℕ) → Text → Text → Option (Payload V) → StateSync V → StateSync V × List (Effect V)
  unfolding handle_times
  on_broadcast now from ns none s = (s, [])
  on_broadcast now from ns (some payload) s =
      if text_eq ns s.room_id then handle_times s.listeners now payload from s else (s, [])

  unfoldable pub on_relay :
      (ℕ → ℕ) → Text → Text → Option (Payload V) → StateSync V → StateSync V × List (Effect V)
  unfolding handle_times
  on_relay now from room none s = (s, [])
  on_relay now from room (some payload) s =
      if text_eq room s.room_id then handle_times s.listeners now payload from s else (s, [])

  unfoldable pub on_peer_joined : StateSync V → StateSync V × List (Effect V)
  unfolding broadcast_full_state repeat
  on_peer_joined s = (s, repeat s.listeners (broadcast_full_state s))

  -- A second call puts the listeners on again.
  unfoldable pub start : StateSync V → StateSync V
  start s = record s { listeners = suc s.listeners }

  -- `entry.deleted && now - entry.hlc.ts > TOMBSTONE_TTL`; a negative difference is not above it.
  unfoldable pub is_expired : ℕ → SyncState V → Bool
  is_expired now e = e.deleted && ltb tombstone_ttl (now - e.hlc.ts)

  unfoldable pub without_expired : ℕ → Dict (SyncState V) → Dict (SyncState V)
  unfolding is_expired
  without_expired now [] = []
  without_expired now ((k, e) ∷ d) =
      let rest = without_expired now d in if is_expired now e then rest else (k, e) ∷ rest

  unfoldable pub purge_tombstones : ℕ → StateSync V → StateSync V
  unfolding without_expired
  purge_tombstones now s = record s { state = without_expired now s.state }

  unfoldable pub destroy : StateSync V → StateSync V
  destroy s = record s { state = []; listeners = 0 }

-- The operations, and what the client and the timer call.
pub data Op (V : Type 0) : Type 0 where
  set_op : Text → Option V → Op V
  delete_op : Text → Op V
  broadcast_op : Text → Text → Option (Payload V) → Op V
  relay_op : Text → Text → Option (Payload V) → Op V
  joined_op : Op V
  load_op : List (SyncState V) → Op V
  purge_op : Op V
  start_op : Op V
  destroy_op : Op V

module _ {V : Type 0} where
  unfoldable pub step : (ℕ → ℕ) → Op V → StateSync V → StateSync V × List (Effect V)
  unfolding set delete_key on_broadcast on_relay on_peer_joined load_state purge_tombstones start
      destroy
  step now (set_op k v) s = set (now 0) k v s
  step now (delete_op k) s = delete_key (now 0) k s
  step now (broadcast_op from ns p) s = on_broadcast now from ns p s
  step now (relay_op from room p) s = on_relay now from room p s
  step now joined_op s = on_peer_joined s
  step now (load_op es) s = (load_state now 0 es s, [])
  step now purge_op s = (purge_tombstones (now 0) s, [])
  step now start_op s = (start s, [])
  step now destroy_op s = (destroy s, [])

  -- A run; `clock n` gives the readings of the wall clock in the n-th operation.
  unfoldable pub run : (ℕ → ℕ → ℕ) → ℕ → List (Op V) → StateSync V → StateSync V
  unfolding step
  run clock n [] s = s
  run clock n (op ∷ ops) s = run clock (suc n) ops (step (clock n) op s).0
