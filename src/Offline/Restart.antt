-- ===== src/Offline/Restart.antt =====
-- Runs of an OfflineSyncRoom (offline-sync-room.ts), and what a room that is opened again has.
use peer_server.Prelude.{
  ℕ, ◌≡◌, refl, ap, ◌∙◌, Bool, true, false, not, ◌&&◌, Option, none, some, List, [], ◌∷◌, Text,
  text_eq, text_eq_iff, is_empty, arith,
}
use peer_server.Dict
use peer_server.Dict.{Dict}
use peer_server.Dict.Laws.{Distinct, get-put, has-eq-get}
use peer_server.Hlc.{Hlc}
use peer_server.StateSync.{SyncState, visible}
use peer_server.Offline.{
  set_clock, OfflineRoom, idle, reading, sending, Payload, full_state, request_state, key_offer,
  key_ack, set_message, delete_message, Content, plain, sealed, remove_pending_op,
  set_last_sync_time, get,
}
use peer_server.Offline.Session.{
  World, start_flush, continue_flush, handle_key_exchange, apply_message, handle_set,
  handle_payload, handle_remote_update, on_peer_left, go_online, on_reconnected, go_offline, close,
  load_entries, init, Event, write_call, payload_came, entry_came, joined, left, joined_timer,
  create_call, join_call, join_existing, create_and_join, reconnected, rejoined, disconnected,
  window_online, window_offline, flush_step, close_call, step, run,
}
use peer_server.Offline.Durable.{
  IsDurable, OwnKeys, if_IsDurable, same_entries, set_clock-IsDurable, write-IsDurable,
  apply_remote_entry-IsDurable, apply_entries-IsDurable,
}

module _ {V : Type 0} where
  apply_message-IsDurable :
      (now : ℕ → ℕ) (r : Option (SyncState V)) (from : Text) (s : OfflineRoom V)
      → IsDurable s
      → IsDurable (apply_message now r from s).0
  unfolding apply_message
  apply_message-IsDurable now r from s h = apply_remote_entry-IsDurable now r from s h

  handle_set-IsDurable :
      (w : World) (now : ℕ → ℕ) (k : Text) (c : Content V) (t : Option Hlc) (from : Text)
      (s : OfflineRoom V)
      → IsDurable s
      → IsDurable (handle_set w now k c t from s).0
  unfolding handle_set
  handle_set-IsDurable w now k (plain v) t from s h = apply_message-IsDurable now _ from s h
  handle_set-IsDurable w now k (sealed v) t from s h =
      if_IsDurable (s.encryption_enabled && w.has_key from) _ _
        (if_IsDurable (w.decrypts from) _ _ (apply_message-IsDurable now _ from s h) h)
        (apply_message-IsDurable now _ from s h)

  handle_key_exchange-IsDurable :
      (w : World) (b : Bool) (from : Text) (s : OfflineRoom V)
      → IsDurable s
      → IsDurable (handle_key_exchange w b from s).0
  unfolding handle_key_exchange
  handle_key_exchange-IsDurable w b from s h =
      if_IsDurable (not s.encryption_enabled) _ _ h
        (if_IsDurable (w.derives from) _ _ (same_entries s _ refl refl h) h)

  handle_payload-IsDurable :
      (w : World) (now : ℕ → ℕ → ℕ) (p : Payload V) (from : Text) (s : OfflineRoom V)
      → IsDurable s
      → IsDurable (handle_payload w now p from s).0
  unfolding handle_payload
  handle_payload-IsDurable w now (full_state rs) from s h =
      apply_entries-IsDurable now 0 rs from s h
  handle_payload-IsDurable w now request_state from s h = h
  handle_payload-IsDurable w now key_offer from s h = handle_key_exchange-IsDurable w true from s h
  handle_payload-IsDurable w now key_ack from s h = handle_key_exchange-IsDurable w false from s h
  handle_payload-IsDurable w now (set_message k c t) from s h =
      handle_set-IsDurable w (now 0) k c t from s h
  handle_payload-IsDurable w now (delete_message k t) from s h =
      apply_message-IsDurable (now 0) _ from s h

  start_flush-IsDurable : (s : OfflineRoom V) → IsDurable s → IsDurable (start_flush s).0
  unfolding start_flush
  start_flush-IsDurable s h =
      elim s.flush as (λ f. IsDurable (start_flush (record s { flush = f })).0) [
        | idle ↦
            if_IsDurable s.online _ _ (same_entries s _ refl refl h) (same_entries s _ refl refl h)
        | reading ↦ same_entries s _ refl refl h
        | sending ops ↦ same_entries s _ refl refl h
      ]

  continue_flush-IsDurable :
      (w : World) (now : ℕ) (s : OfflineRoom V) → IsDurable s → IsDurable (continue_flush w now s).0
  unfolding continue_flush remove_pending_op set_last_sync_time
  continue_flush-IsDurable w now s h =
      elim s.flush as (λ f. IsDurable (continue_flush w now (record s { flush = f })).0) [
        | idle ↦ same_entries s _ refl refl h
        | reading ↦ same_entries s _ refl refl h
        | sending ops ↦
            elim ops as (λ k. IsDurable (continue_flush w now (record s { flush = sending k })).0) [
              | [] ↦ same_entries s _ refl refl h
              | op ∷ rest ↦ same_entries s _ refl refl h
            ]
      ]

  close-IsDurable : (s : OfflineRoom V) → IsDurable s → IsDurable (close s).0
  unfolding close
  close-IsDurable s h = if_IsDurable s.is_closed _ _ h (
      set_clock-IsDurable (record s { is_closed = true })
        (same_entries s (record s { is_closed = true }) refl refl h))

  on_peer_left-IsDurable :
      (fp ns : Text) (s : OfflineRoom V) → IsDurable s → IsDurable (on_peer_left fp ns s).0
  unfolding on_peer_left
  on_peer_left-IsDurable fp ns s h =
      if_IsDurable (not (is_empty ns) && not (text_eq ns s.room_id)) _ _ h
        (same_entries s (record s { remote_keys = Dict.remove fp s.remote_keys }) refl refl h)

  go_online-IsDurable : (s : OfflineRoom V) → IsDurable s → IsDurable (go_online s).0
  unfolding go_online
  go_online-IsDurable s h =
      start_flush-IsDurable (record s { online = true })
        (same_entries s (record s { online = true }) refl refl h)

  join_existing-IsDurable :
      (b : Bool) (s : OfflineRoom V) → IsDurable s → IsDurable (join_existing b s).0
  unfolding join_existing
  join_existing-IsDurable b s h = if_IsDurable b _ _ (go_online-IsDurable s h) h

  create_and_join-IsDurable :
      (b c : Bool) (s : OfflineRoom V) → IsDurable s → IsDurable (create_and_join b c s).0
  unfolding create_and_join
  create_and_join-IsDurable b c s h = if_IsDurable b _ _ (join_existing-IsDurable c s h) h

  step-IsDurable : (e : Event V) (s : OfflineRoom V) → IsDurable s → IsDurable (step e s).0
  unfolding step handle_remote_update on_reconnected go_offline
  step-IsDurable (write_call w now id d k v) s h = write-IsDurable w now id d k v s h
  step-IsDurable (payload_came w now ns p from) s h =
      if_IsDurable _ _ _
        (if_IsDurable s.is_closed _ _ h (handle_payload-IsDurable w now p from s h)) h
  step-IsDurable (entry_came now r from) s h = apply_remote_entry-IsDurable now r from s h
  step-IsDurable (joined fp ns) s h = if_IsDurable s.is_closed _ _ h h
  step-IsDurable (left fp ns) s h =
      if_IsDurable s.is_closed _ _ h (on_peer_left-IsDurable fp ns s h)
  step-IsDurable joined_timer s h = h
  step-IsDurable (create_call made answered) s h = create_and_join-IsDurable made answered s h
  step-IsDurable (join_call answered) s h = join_existing-IsDurable answered s h
  step-IsDurable reconnected s h =
      if_IsDurable s.is_closed _ _ h (same_entries s (record s { online = true }) refl refl h)
  step-IsDurable rejoined s h = start_flush-IsDurable s h
  step-IsDurable disconnected s h =
      if_IsDurable s.is_closed _ _ h (same_entries s (record s { online = false }) refl refl h)
  step-IsDurable (window_online w) s h =
      if_IsDurable s.is_closed _ _ h (if_IsDurable w.connected _ _ (go_online-IsDurable s h) h)
  step-IsDurable window_offline s h =
      if_IsDurable s.is_closed _ _ h (same_entries s (record s { online = false }) refl refl h)
  step-IsDurable (flush_step w now) s h = continue_flush-IsDurable w now s h
  step-IsDurable close_call s h = close-IsDurable s h

  run-IsDurable : (es : List (Event V)) (s : OfflineRoom V) → IsDurable s → IsDurable (run es s)
  unfolding run
  run-IsDurable [] s h = h
  run-IsDurable (e ∷ es) s h = run-IsDurable es (step e s).0 (step-IsDurable e s h)

  abbrev or_else : Option (SyncState V) → Option (SyncState V) → Option (SyncState V)
  or_else none o = o
  or_else (some e) o = some e

  or_nothing : (k : Text) (o : Option (SyncState V)) → or_else o (Dict.get k []) ≡ o
  unfolding Dict.get
  or_nothing k none = refl
  or_nothing k (some e) = refl

  get-load_entries :
      (k : Text) (d acc : Dict (SyncState V))
      → Distinct d
      → OwnKeys d
      → Dict.get k (load_entries (Dict.values d) acc) ≡ or_else (Dict.get k d) (Dict.get k acc)
  unfolding load_entries Dict.get Dict.values
  get-load_entries k [] acc ds q = refl
  get-load_entries k ((i, e) ∷ d) acc (n, ds) (own, q) =
      get-load_entries k d (Dict.put e.key e acc) ds q
      ∙ ground
          (arith, get-put e.key k e acc, text_eq_iff i k, text_eq_iff e.key k, has-eq-get k d, own)

  -- No call of `close`.
  abbrev pub StaysOpen : List (Event V) → Type 0
  StaysOpen [] = Unit
  StaysOpen (close_call ∷ es) = ⊥
  StaysOpen (_ ∷ es) = StaysOpen es

  close_state : (s : OfflineRoom V) → (close s).0.state ≡ s.state
  unfolding close set_clock
  close_state s = ground arith

  -- A room whose database mirrors its entries runs without `close`, then is closed when nothing waits
  -- any more, the database having done all that it was asked, and is opened again. Whatever was
  -- written and received, full states interrupted between two entries included: the new room, with
  -- no entries before `init`, has after it the same entry at every key, and `get` returns the same
  -- value.
  pub run-init :
      (now : ℕ) (es : List (Event V)) (s t : OfflineRoom V) (k : Text)
      → StaysOpen es
      → IsDurable s
      → t.saved ≡ (close (run es s)).0.saved
      → t.state ≡ []
      → (Dict.get k (init now t).0.state ≡ Dict.get k (run es s).state)
        × (get k (init now t).0 ≡ get k (run es s))
  unfolding init get
  run-init now es s t k open_run h same fresh =
      let h' = close-IsDurable (run es s) (run-IsDurable es s h) in
      let d : Dict (SyncState V) = (close (run es s)).0.state in
      let found : Dict.get k (load_entries (Dict.values t.saved.entries) t.state) ≡ Dict.get k d =
        ap (λ x. Dict.get k (load_entries (Dict.values x.entries) t.state)) same
        ∙ ap (λ x. Dict.get k (load_entries (Dict.values x) t.state)) h'.mirror
        ∙ ap (λ x. Dict.get k (load_entries (Dict.values d) x)) fresh
        ∙ get-load_entries k d [] h'.distinct h'.keyed
        ∙ or_nothing k (Dict.get k d) in
      let all = found ∙ ap (Dict.get k) (close_state (run es s)) in (all, ap visible all)
