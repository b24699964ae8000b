-- ===== src/StateSync/Convergence.antt =====
-- Replicas of one room in last-writer-wins mode converge (sync.ts, class StateSync).
use peer_server.Prelude.{
  ℕ, zero, ◌+◌, suc, ◌≡◌, ◌∙◌, refl, sym, ap, subst, Bool, true, false, Option, none, some, List,
  [], ◌∷◌, ◌++◌, Text, if◌then◌else◌,
}
use peer_server.Dict
use peer_server.Dict.{Dict}
use peer_server.StateSync.{
  StateSync, SyncState, lww, Payload, full_state, request_state, delete, update, other, tick, store,
  set, delete_key, observe, get, visible,
}
use peer_server.StateSync.Remote.{store_if_wins, full_state_entry, update_by_mode}
use peer_server.StateSync.Session.{
  merge_full_state, handle_remote_update, handle_times, readings_of, load_state, on_broadcast,
  on_relay, on_peer_joined, start, destroy, purge_tombstones, Op, set_op, delete_op, broadcast_op,
  relay_op, joined_op, load_op, purge_op, start_op, destroy_op, step, run,
}
use peer_server.StateSync.Induction.{handle_remote_update_keeps, step_keeps}
use peer_server.StateSync.Valid.{IsValid, step-IsValid}
use peer_server.StateSync.Best.{
  merge_entry, merge_entries, merge_entries-append, get-merge_entries, best, best_same, Coherent,
  SameMembers,
}
use peer_server.StateSync.History.{
  present, delivered, delivered_times, delivered_if, entries_of, history, KeepsAll,
  state-store_if_wins, received_state, local_write_state,
}

module _ {V : Type 0} where
  abbrev pub IsLww : StateSync V → Type 0
  IsLww s = s.mode ≡ lww

  step-IsLww : (now : ℕ → ℕ) (op : Op V) (s : StateSync V) → IsLww s → IsLww (step now op s).0
  unfolding observe tick store purge_tombstones start destroy
  step-IsLww =
      step_keeps IsLww (λ now r s h. h) (λ now s h. h) (λ e s n h. h) (λ now s h. h) (λ s h. h)
        (λ s h. h)

  full_state_entry_state :
      (now : ℕ) (r : Option (SyncState V)) (from : Text) (s : StateSync V)
      → (full_state_entry now r from s).0.state ≡ merge_entries (present (r ∷ [])) s.state
  unfolding full_state_entry present merge_entries
  full_state_entry_state now none from s = refl
  full_state_entry_state now (some r) from s = received_state now r s

  present-cons :
      (r : Option (SyncState V)) (rs : List (Option (SyncState V)))
      → present (r ∷ rs) ≡ present (r ∷ []) ++ present rs
  unfolding present
  present-cons none rs = refl
  present-cons (some r) rs = refl

  merge_full_state_state :
      (now : ℕ → ℕ) (i : ℕ) (rs : List (Option (SyncState V))) (from : Text) (s : StateSync V)
      → (merge_full_state now i rs from s).0.state ≡ merge_entries (present rs) s.state
  unfolding merge_full_state
  merge_full_state_state now i [] from s = unfold present merge_entries in refl
  merge_full_state_state now i (r ∷ rs) from s = rw (
    merge_full_state_state now (suc i) rs from (full_state_entry (now i) r from s).0,
    full_state_entry_state (now i) r from s,
    present-cons r rs,
    merge_entries-append (present (r ∷ [])) (present rs) s.state,
  )

  -- In last-writer-wins mode a message merges the entries that it carries, and nothing else.
  pub handle_remote_update_state :
      (now : ℕ → ℕ) (p : Payload V) (from : Text) (s : StateSync V)
      → IsLww s
      → (handle_remote_update now p from s).0.state ≡ merge_entries (delivered p) s.state
  unfolding handle_remote_update delivered merge_entries
  handle_remote_update_state now (full_state rs) from s m = merge_full_state_state now 0 rs from s
  handle_remote_update_state now request_state from s m = refl
  handle_remote_update_state now (delete none) from s m = refl
  handle_remote_update_state now (delete (some r)) from s m = received_state (now 0) r s
  handle_remote_update_state now (update none) from s m = refl
  handle_remote_update_state now (update (some r)) from s m =
      subst
        (λ mode.
          (update_by_mode mode (now 1) r from (observe (now 0) r.hlc s)).0.state
          ≡ merge_entry r s.state)
        (sym m) (received_state (now 0) r s)
  handle_remote_update_state now other from s m = refl

  handle_remote_update-IsLww :
      (now : ℕ → ℕ) (p : Payload V) (from : Text) (s : StateSync V)
      → IsLww s
      → IsLww (handle_remote_update now p from s).0
  unfolding observe tick store purge_tombstones start destroy
  handle_remote_update-IsLww =
      handle_remote_update_keeps IsLww (λ now r s h. h) (λ now s h. h) (λ e s n h. h) (λ now s h. h)
        (λ s h. h) (λ s h. h)

  handle_times_state :
      (n : ℕ) (now : ℕ → ℕ) (p : Payload V) (from : Text) (s : StateSync V)
      → IsLww s
      → (handle_times n now p from s).0.state ≡ merge_entries (delivered_times n p) s.state
  unfolding handle_times delivered_times
  handle_times_state zero now p from s m = unfold merge_entries in refl
  handle_times_state (suc n) now p from s m =
      let s1 : StateSync V = (handle_remote_update now p from s).0 in
      handle_times_state n (λ i. now (readings_of p + i)) p from s1
        (handle_remote_update-IsLww now p from s m)
      ∙ ap (merge_entries (delivered_times n p)) (handle_remote_update_state now p from s m)
      ∙ sym (merge_entries-append (delivered p) (delivered_times n p) s.state)

  guarded_state :
      (b : Bool) (n : ℕ) (now : ℕ → ℕ) (p : Payload V) (from : Text) (s : StateSync V)
      → IsLww s
      → (if b then handle_times n now p from s else (s, [])).0.state
        ≡ merge_entries (delivered_if b n (some p)) s.state
  unfolding delivered_if
  guarded_state true n now p from s m = handle_times_state n now p from s m
  guarded_state false n now p from s m = unfold merge_entries in refl

  load_state_state :
      (now : ℕ → ℕ) (i : ℕ) (es : List (SyncState V)) (s : StateSync V)
      → (load_state now i es s).state ≡ merge_entries es s.state
  unfolding load_state merge_entries
  load_state_state now i [] s = refl
  load_state_state now i (e ∷ es) s =
      load_state_state now (suc i) es (observe (now i) e.hlc (store_if_wins e s))
      ∙ ap (merge_entries es) (unfold observe in state-store_if_wins e s)

  step_state :
      (now : ℕ → ℕ) (op : Op V) (s : StateSync V)
      → KeepsAll (op ∷ [])
      → IsLww s
      → IsValid s
      → (step now op s).0.state ≡ merge_entries (entries_of now op s) s.state
  unfolding step entries_of on_broadcast on_relay on_peer_joined merge_entries
  step_state now (set_op k v) s a m h = unfold set in local_write_state (now 0) k v false s h
  step_state now (delete_op k) s a m h =
      unfold delete_key in local_write_state (now 0) k none true s h
  step_state now (broadcast_op from ns none) s a m h = refl
  step_state now (broadcast_op from ns (some p)) s a m h =
      guarded_state _ s.listeners now p from s m
  step_state now (relay_op from room none) s a m h = refl
  step_state now (relay_op from room (some p)) s a m h = guarded_state _ s.listeners now p from s m
  step_state now joined_op s a m h = refl
  step_state now (load_op es) s a m h = load_state_state now 0 es s
  step_state now purge_op s a m h = elim a [ ]
  step_state now start_op s a m h = refl
  step_state now destroy_op s a m h = elim a [ ]

  KeepsAll-cons :
      (op : Op V) (ops : List (Op V)) → KeepsAll (op ∷ ops) → KeepsAll (op ∷ []) × KeepsAll ops
  KeepsAll-cons purge_op ops a = elim a [ ]
  KeepsAll-cons destroy_op ops a = elim a [ ]
  KeepsAll-cons (set_op k v) ops a = (tt, a)
  KeepsAll-cons (delete_op k) ops a = (tt, a)
  KeepsAll-cons (broadcast_op f n p) ops a = (tt, a)
  KeepsAll-cons (relay_op f n p) ops a = (tt, a)
  KeepsAll-cons joined_op ops a = (tt, a)
  KeepsAll-cons (load_op es) ops a = (tt, a)
  KeepsAll-cons start_op ops a = (tt, a)

  -- The state after a run that forgets nothing is the merge of the run's history into the state
  -- before it: last-writer-wins replicas store nothing but the latest entry of each key.
  pub run-eq-merge_entries :
      (clock : ℕ → ℕ → ℕ) (n : ℕ) (ops : List (Op V)) (s : StateSync V)
      → KeepsAll ops
      → IsLww s
      → IsValid s
      → (run clock n ops s).state ≡ merge_entries (history clock n ops s) s.state
  unfolding run history
  run-eq-merge_entries clock n [] s a m h = unfold merge_entries in refl
  run-eq-merge_entries clock n (op ∷ ops) s a m h =
      let (a0, a') = KeepsAll-cons op ops a in
      let s' : StateSync V = (step (clock n) op s).0 in
      let rest = history clock (suc n) ops s' in
      run-eq-merge_entries clock (suc n) ops s' a' (step-IsLww (clock n) op s m)
        (step-IsValid (clock n) op s h)
      ∙ ap (merge_entries rest) (step_state (clock n) op s a0 m h)
      ∙ sym (merge_entries-append (entries_of (clock n) op s) rest s.state)

  -- A replica that has done nothing yet, in last-writer-wins mode.
  pub record IsFresh (s : StateSync V) : Type 0 where
    pub empty : s.state ≡ []
    pub lww_mode : s.mode ≡ lww
    pub valid : IsValid s

module _ {V : Type 0} where
  fresh_run :
      (clock : ℕ → ℕ → ℕ) (n : ℕ) (ops : List (Op V)) (s : StateSync V) (k : Text)
      → IsFresh s
      → KeepsAll ops
      → Dict.get k (run clock n ops s).state ≡ best k (history clock n ops s) none
  unfolding Dict.get
  fresh_run clock n ops s k f a =
      ap (Dict.get k) (run-eq-merge_entries clock n ops s a f.lww_mode f.valid)
      ∙ get-merge_entries k (history clock n ops s) s.state
      ∙ ap (λ d. best k (history clock n ops s) (Dict.get k d)) f.empty

  -- Two replicas that start fresh converge. They run whatever operations, each at its own clock and
  -- with its own identity: local writes and deletions, broadcasts, relays, full states, loads; no
  -- purge and no `destroy`. If the entries that the one has made or received are those of the
  -- other, in any order and with any repetitions, and entries for one key with one clock are the
  -- same, then at the end both store the same entry at every key and `get` returns the same value.
  pub replicas_converge :
      (clock clock' : ℕ → ℕ → ℕ) (n n' : ℕ) (ops ops' : List (Op V)) (s s' : StateSync V)
      → IsFresh s
      → IsFresh s'
      → KeepsAll ops
      → KeepsAll ops'
      → SameMembers (history clock n ops s) (history clock' n' ops' s')
      → Coherent (history clock n ops s)
      → (k : Text)
      → (Dict.get k (run clock n ops s).state ≡ Dict.get k (run clock' n' ops' s').state)
        × (get k (run clock n ops s) ≡ get k (run clock' n' ops' s'))
  unfolding get
  replicas_converge clock clock' n n' ops ops' s s' f f' a a' same co k =
      let both =
        fresh_run clock n ops s k f a
        ∙ best_same k (history clock n ops s) (history clock' n' ops' s') same co
        ∙ sym (fresh_run clock' n' ops' s' k f' a') in
      (both, ap visible both)
