-- ===== src/Tests/Offline.antt =====
-- An OfflineSyncRoom of offline-sync-room.ts with one entry.
use peer_server.Prelude.{
  Text, ◌++◌, not, ◌&&◌, ℕ, ◌≡◌, ◌∙◌, inl, inr, sym, refl, true, false, some, none, List, [], ◌∷◌,
  text, text_eq,
}
use peer_server.Dict
use peer_server.Hlc.{compare_hlc}
use peer_server.Hlc.Order.{Later}
use peer_server.StateSync.{SyncState}
use peer_server.StateSync.Best.{In, SameMembers, Coherent}
use peer_server.Offline
use peer_server.Offline.{
  Pending, sync_complete, OfflineRoom, OfflineStore, idle, plain, set_message, apply_remote_entry,
  merges,
}
use peer_server.Offline.Session
use peer_server.Offline.Session.{
  World, Event, write_call, payload_came, entry_came, disconnected, close_call, apply_entries, init,
}
use peer_server.Offline.Durable.{IsDurable}
use peer_server.Offline.Restart.{run-init}
use peer_server.Offline.Flushing.{flush_steps, sent, listed, at, flush_steps-sends}
use peer_server.Offline.Merging.{named, apply_remote_entry-merged, apply_entries-converge}

abbrev entry : SyncState ℕ
entry = record {
  key = text "k";
  value = some 1;
  hlc = record { ts = 100; counter = 0; node = text "a" };
  from = text "a";
  version = 0;
  deleted = false;
}

abbrev other : SyncState ℕ
other = record entry { value = some 2; hlc = record { ts = 200; counter = 0; node = text "b" } }

abbrev empty_room : OfflineRoom ℕ
empty_room = record {
  room_id = text "r";
  state = [];
  hlc = record { ts = 5; counter = 0; node = text "a" };
  is_closed = false;
  online = false;
  ready = true;
  flush = idle;
  remote_keys = [];
  encryption_enabled = false;
  max_pending_ops = 10;
  sync_batch_size = 2;
  merging = false;
  merge = none;
  saved = record { entries = []; pending = []; clock = none; last_sync = 0 };
}

empty_room-IsDurable : IsDurable empty_room
empty_room-IsDurable = record { mirror = refl; distinct = tt; keyed = tt }

abbrev world : World
world = record {
  encrypts = λ fp. false;
  has_key = λ fp. false;
  decrypts = λ fp. false;
  derives = λ fp. false;
  connected = true;
}

abbrev day : List (Event ℕ)
day =
    write_call world (λ i. 7) (text "op1") false (text "k") (some 1)
    ∷ payload_came world (λ i j. 9) (text "r")
        (set_message (text "k") (plain (some 2)) (some other.hlc)) (text "b")
    ∷ disconnected
    ∷ entry_came (λ i. 11) (some other) (text "b")
    ∷ []

abbrev reopened : OfflineRoom ℕ
reopened = record empty_room { saved = (Session.close (Session.run day empty_room)).0.saved }

run-init_example :
    (Dict.get (text "k") (init 300 reopened).0.state
      ≡ Dict.get (text "k") (Session.run day empty_room).state)
    × (Offline.get (text "k") (init 300 reopened).0
        ≡ Offline.get (text "k") (Session.run day empty_room))
run-init_example = run-init 300 day empty_room reopened (text "k") tt empty_room-IsDurable refl refl

abbrev merging_room : OfflineRoom ℕ
merging_room = record empty_room {
  state = (text "k", entry) ∷ [];
  merging = true;
  merge = some (λ l r. r);
}

apply_remote_entry-merged_example :
    (e : SyncState ℕ) × (Dict.get
        (text "k")
        (apply_remote_entry (λ i. 9) (some other) (text "b") merging_room).0.state
      ≡ some e)
    × (Dict.get
          (text "k")
          (apply_remote_entry (λ i. 9) (some other) (text "b") merging_room).0.saved.entries
        ≡ some e)
    × (e.value ≡ some 2)
    × Later e.hlc merging_room.hlc
    × Later e.hlc other.hlc
    × ((apply_remote_entry (λ i. 9) (some other) (text "b") merging_room).0.saved.clock ≡ none)
unfolding Dict.get text_eq merges compare_hlc
apply_remote_entry-merged_example =
    apply_remote_entry-merged (λ i. 9) other entry (λ l r. r) (text "b") merging_room refl refl refl
      refl

once : (x : SyncState ℕ) → In x (entry ∷ entry ∷ []) → In x (entry ∷ [])
once x (inl e) = inl e
once x (inr m) = m

repeated-SameMembers : SameMembers (entry ∷ []) (entry ∷ entry ∷ [])
repeated-SameMembers x = (λ m. inr m, once x)

entry-Coherent : Coherent (entry ∷ [])
entry-Coherent x y (inl p) (inl q) k e = sym p ∙ q
entry-Coherent x y (inl p) (inr n) k e = absurd n
entry-Coherent x y (inr n) _ k e = absurd n

apply_entries-converge_example :
    Offline.get (text "k") (apply_entries (λ i j. 9) 0 (some entry ∷ []) (text "b") empty_room).0
    ≡ Offline.get
        (text "k")
        (apply_entries (λ i j. 4) 0 (some entry ∷ some entry ∷ []) (text "c") empty_room).0
unfolding named
apply_entries-converge_example =
    apply_entries-converge (λ i j. 9) (λ i j. 4) (some entry ∷ []) (some entry ∷ some entry ∷ [])
      (text "b") (text "c") empty_room empty_room (text "k") refl refl refl refl
      repeated-SameMembers entry-Coherent

abbrev waiting : Pending ℕ
waiting = record {
  id = text "op1";
  deletes = true;
  key = text "k";
  value = none;
  hlc = entry.hlc;
  ts = 100;
}

abbrev back_online : OfflineRoom ℕ
back_online = record empty_room {
  online = true;
  saved = record {
    entries = [];
    pending = (text "op1", waiting) ∷ [];
    clock = none;
    last_sync = 0;
  };
}

flush_steps-sends_example :
    ((flush_steps world 9 2 (at back_online (waiting ∷ []))).1
      ≡ sent world (waiting ∷ []) back_online ++ sync_complete ∷ [])
    × ((flush_steps world 9 2 (at back_online (waiting ∷ []))).0.flush ≡ idle)
    × ((flush_steps world 9 2 (at back_online (waiting ∷ []))).0.saved.last_sync ≡ 9)
    × ((id : Text)
        → Dict.has id (flush_steps world 9 2 (at back_online (waiting ∷ []))).0.saved.pending
          ≡ (not (listed id (waiting ∷ [])) && Dict.has id back_online.saved.pending))
flush_steps-sends_example = flush_steps-sends world 9 (waiting ∷ []) back_online
