-- ===== src/StateSync/Induction.antt =====
-- Induction over the runs of a StateSync (sync.ts, class StateSync).
use peer_server.Prelude.{
  ℕ, zero, ◌+◌, suc, ◌≡◌, inl, inr, Bool, true, false, Option, none, some, List, [], ◌∷◌, Text,
  Bool-cases, if◌then◌else◌,
}
use peer_server.Dict
use peer_server.Dict.{Dict}
use peer_server.Hlc.{Hlc, is_later}
use peer_server.Hlc.Order.{is_later_irrefl, is_later_asymm}
use peer_server.Hlc.Clock.{merge_hlc-Later}
use peer_server.StateSync.{
  StateSync, SyncState, SyncMode, lww, operational, crdt, Payload, full_state, request_state,
  delete, update, other, tick, store, own_entry, set, delete_key, observe, wins,
}
use peer_server.StateSync.Remote.{
  store_if_wins, merge_update, update_operational, update_by_mode, full_state_entry,
}
use peer_server.StateSync.Session.{
  merge_full_state, load_state, handle_remote_update, handle_times, readings_of, on_broadcast,
  on_relay, purge_tombstones, destroy, start, on_peer_joined, Op, set_op, delete_op, broadcast_op,
  relay_op, joined_op, load_op, purge_op, start_op, destroy_op, step, run,
}

module _ {V : Type 0} where
  pub observe-not_later :
      (now : ℕ) (r : Hlc) (s : StateSync V) → is_later r (observe now r s).hlc ≡ false
  unfolding observe
  observe-not_later now r s = is_later_asymm _ r (merge_hlc-Later now s.hlc r s.fingerprint).1

  loaded_eq :
      (now : ℕ) (e : SyncState V) (s : StateSync V)
      → observe now e.hlc (store_if_wins e s) ≡ store_if_wins e (observe now e.hlc s)
  unfolding observe store_if_wins store
  loaded_eq now e s = elim (Bool-cases (wins (Dict.get e.key s.state) e)) [
    | inl w ↦ rw w
    | inr l ↦ rw l
  ]

-- A property of the replica that the primitive changes keep: moving the clock, storing an entry
-- that is not later than the clock, purging, starting and destroying.
module _ {V : Type 0} (P : StateSync V → Type 0)
    (observe_keeps : (now : ℕ) (r : Hlc) (s : StateSync V) → P s → P (observe now r s))
    (tick_keeps : (now : ℕ) (s : StateSync V) → P s → P (tick now s))
    (store_keeps : (e : SyncState V) (s : StateSync V)
      → is_later e.hlc s.hlc ≡ false
      → P s
      → P (store e s))
    (purge_keeps : (now : ℕ) (s : StateSync V) → P s → P (purge_tombstones now s))
    (start_keeps : (s : StateSync V) → P s → P (start s))
    (destroy_keeps : (s : StateSync V) → P s → P (destroy s)) where
  store_if_wins_keeps :
      (e : SyncState V) (s : StateSync V)
      → is_later e.hlc s.hlc ≡ false
      → P s
      → P (store_if_wins e s)
  unfolding store_if_wins
  store_if_wins_keeps e s n h = elim (Bool-cases (wins (Dict.get e.key s.state) e)) [
    | inl w ↦ rw w (store_keeps e s n h)
    | inr l ↦ rw l h
  ]

  own_entry_keeps :
      (k : Text) (v : Option V) (d : Bool) (s : StateSync V) → P s → P (store (own_entry k v d s) s)
  own_entry_keeps k v d s h =
      store_keeps (own_entry k v d s) s (unfold own_entry in is_later_irrefl s.hlc) h

  received_keeps :
      (now : ℕ) (r : SyncState V) (s : StateSync V)
      → P s
      → P (store_if_wins r (observe now r.hlc s))
  received_keeps now r s h =
      store_if_wins_keeps r _ (observe-not_later now r.hlc s) (observe_keeps now r.hlc s h)

  full_state_entry_keeps :
      (now : ℕ) (r : Option (SyncState V)) (from : Text) (s : StateSync V)
      → P s
      → P (full_state_entry now r from s).0
  unfolding full_state_entry
  full_state_entry_keeps now none from s h = h
  full_state_entry_keeps now (some r) from s h = received_keeps now r s h

  merge_full_state_keeps :
      (now : ℕ → ℕ) (i : ℕ) (rs : List (Option (SyncState V))) (from : Text) (s : StateSync V)
      → P s
      → P (merge_full_state now i rs from s).0
  unfolding merge_full_state
  merge_full_state_keeps now i [] from s h = h
  merge_full_state_keeps now i (r ∷ rs) from s h =
      merge_full_state_keeps now (suc i) rs from _ (full_state_entry_keeps (now i) r from s h)

  merge_update_keeps :
      (now : ℕ) (l r : SyncState V) (from : Text) (f : Option (Option V → Option V → Option V))
      (s : StateSync V)
      → P s
      → P (merge_update now l r from f s).0
  unfolding merge_update
  merge_update_keeps now l r from none s h = h
  merge_update_keeps now l r from (some f) s h =
      own_entry_keeps r.key (f l.value r.value) false (tick now s) (tick_keeps now s h)

  update_operational_keeps :
      (now : ℕ) (l : Option (SyncState V)) (r : SyncState V) (from : Text) (s : StateSync V)
      → is_later r.hlc s.hlc ≡ false
      → P s
      → P (update_operational now l r from s).0
  unfolding update_operational
  update_operational_keeps now none r from s n h = store_keeps r s n h
  update_operational_keeps now (some l) r from s n h = elim (Bool-cases l.deleted) [
    | inl d ↦ rw d (store_keeps r s n h)
    | inr d ↦ rw d (merge_update_keeps now l r from s.merge s h)
  ]

  update_by_mode_keeps :
      (m : SyncMode) (now t : ℕ) (r : SyncState V) (from : Text) (s : StateSync V)
      → P s
      → P (update_by_mode m now r from (observe t r.hlc s)).0
  unfolding update_by_mode
  update_by_mode_keeps lww now t r from s h = received_keeps t r s h
  update_by_mode_keeps operational now t r from s h =
      update_operational_keeps now _ r from _ (observe-not_later t r.hlc s)
        (observe_keeps t r.hlc s h)
  update_by_mode_keeps crdt now t r from s h = observe_keeps t r.hlc s h

  pub handle_remote_update_keeps :
      (now : ℕ → ℕ) (p : Payload V) (from : Text) (s : StateSync V)
      → P s
      → P (handle_remote_update now p from s).0
  unfolding handle_remote_update
  handle_remote_update_keeps now (full_state rs) from s h = merge_full_state_keeps now 0 rs from s h
  handle_remote_update_keeps now request_state from s h = h
  handle_remote_update_keeps now (delete none) from s h = h
  handle_remote_update_keeps now (delete (some r)) from s h = received_keeps (now 0) r s h
  handle_remote_update_keeps now (update none) from s h = h
  handle_remote_update_keeps now (update (some r)) from s h =
      update_by_mode_keeps s.mode (now 1) (now 0) r from s h
  handle_remote_update_keeps now other from s h = h

  handle_times_keeps :
      (n : ℕ) (now : ℕ → ℕ) (p : Payload V) (from : Text) (s : StateSync V)
      → P s
      → P (handle_times n now p from s).0
  unfolding handle_times
  handle_times_keeps zero now p from s h = h
  handle_times_keeps (suc n) now p from s h =
      handle_times_keeps n (λ i. now (readings_of p + i)) p from _
        (handle_remote_update_keeps now p from s h)

  guarded_keeps :
      (b : Bool) (n : ℕ) (now : ℕ → ℕ) (p : Payload V) (from : Text) (s : StateSync V)
      → P s
      → P (if b then handle_times n now p from s else (s, [])).0
  guarded_keeps true n now p from s h = handle_times_keeps n now p from s h
  guarded_keeps false n now p from s h = h

  -- `loadState` stores an entry first and moves the clock after it.
  loaded_keeps :
      (now : ℕ) (e : SyncState V) (s : StateSync V)
      → P s
      → P (observe now e.hlc (store_if_wins e s))
  loaded_keeps now e s h = rw (loaded_eq now e s) (received_keeps now e s h)

  load_state_keeps :
      (now : ℕ → ℕ) (i : ℕ) (es : List (SyncState V)) (s : StateSync V)
      → P s
      → P (load_state now i es s)
  unfolding load_state
  load_state_keeps now i [] s h = h
  load_state_keeps now i (e ∷ es) s h =
      load_state_keeps now (suc i) es _ (loaded_keeps (now i) e s h)

  pub step_keeps : (now : ℕ → ℕ) (op : Op V) (s : StateSync V) → P s → P (step now op s).0
  unfolding step on_broadcast on_relay on_peer_joined
  step_keeps now (set_op k v) s h =
      unfold set in own_entry_keeps k v false (tick (now 0) s) (tick_keeps (now 0) s h)
  step_keeps now (delete_op k) s h =
      unfold delete_key in own_entry_keeps k none true (tick (now 0) s) (tick_keeps (now 0) s h)
  step_keeps now (broadcast_op from ns none) s h = h
  step_keeps now (broadcast_op from ns (some p)) s h = guarded_keeps _ s.listeners now p from s h
  step_keeps now (relay_op from room none) s h = h
  step_keeps now (relay_op from room (some p)) s h = guarded_keeps _ s.listeners now p from s h
  step_keeps now joined_op s h = h
  step_keeps now (load_op es) s h = load_state_keeps now 0 es s h
  step_keeps now purge_op s h = purge_keeps (now 0) s h
  step_keeps now start_op s h = start_keeps s h
  step_keeps now destroy_op s h = destroy_keeps s h

  pub run_keeps :
      (clock : ℕ → ℕ → ℕ) (n : ℕ) (ops : List (Op V)) (s : StateSync V)
      → P s
      → P (run clock n ops s)
  unfolding run
  run_keeps clock n [] s h = h
  run_keeps clock n (op ∷ ops) s h = run_keeps clock (suc n) ops _ (step_keeps (clock n) op s h)
