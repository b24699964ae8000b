-- ===== src/StateSync/History.antt =====
-- The entries that a run of StateSync in last-writer-wins mode makes or receives (sync.ts, class
-- StateSync), and what the run's state is in terms of them.
use peer_server.Prelude.{
  ℕ, zero, suc, ◌≡◌, inl, inr, Bool, true, false, Option, none, some, List, [], ◌∷◌, ◌++◌, Text,
  text_eq, arith, Option-cases, if◌then◌else◌,
}
use peer_server.Dict
use peer_server.Dict.{Dict}
use peer_server.Hlc.{create_hlc}
use peer_server.Hlc.Order.{Later-trans, is_later_antisymm}
use peer_server.Hlc.Clock.{create_hlc-Later}
use peer_server.StateSync.{
  StateSync, SyncState, Payload, full_state, request_state, delete, update, other, tick, store,
  own_entry, observe, wins,
}
use peer_server.StateSync.Remote.{store_if_wins}
use peer_server.StateSync.Session.{
  Op, set_op, delete_op, broadcast_op, relay_op, load_op, purge_op, destroy_op, step,
}
use peer_server.StateSync.Valid.{IsValid}
use peer_server.StateSync.Best.{merge_entry}

module _ {V : Type 0} where
  unfoldable pub present : List (Option (SyncState V)) → List (SyncState V)
  present [] = []
  present (none ∷ rs) = present rs
  present (some r ∷ rs) = r ∷ present rs

  -- The entries that a payload carries.
  unfoldable pub delivered : Payload V → List (SyncState V)
  unfolding present
  delivered (full_state rs) = present rs
  delivered request_state = []
  delivered (delete r) = present (r ∷ [])
  delivered (update r) = present (r ∷ [])
  delivered other = []

  -- The same for each of the listeners.
  unfoldable pub delivered_times : ℕ → Payload V → List (SyncState V)
  unfolding delivered
  delivered_times zero p = []
  delivered_times (suc n) p = delivered p ++ delivered_times n p

  unfoldable pub delivered_if : Bool → ℕ → Option (Payload V) → List (SyncState V)
  unfolding delivered_times
  delivered_if b n none = []
  delivered_if b n (some p) = if b then delivered_times n p else []

  -- The entries that one operation makes, or takes from a message that is for this room.
  unfoldable pub entries_of : (ℕ → ℕ) → Op V → StateSync V → List (SyncState V)
  unfolding delivered_if
  entries_of now (set_op k v) s = own_entry k v false (tick (now 0) s) ∷ []
  entries_of now (delete_op k) s = own_entry k none true (tick (now 0) s) ∷ []
  entries_of now (broadcast_op from ns p) s = delivered_if (text_eq ns s.room_id) s.listeners p
  entries_of now (relay_op from room p) s = delivered_if (text_eq room s.room_id) s.listeners p
  entries_of now (load_op es) s = es
  entries_of now _ s = []

  -- The same of a run, in order.
  unfoldable pub history : (ℕ → ℕ → ℕ) → ℕ → List (Op V) → StateSync V → List (SyncState V)
  history clock n [] s = []
  history clock n (op ∷ ops) s =
      entries_of (clock n) op s ++ history clock (suc n) ops (step (clock n) op s).0

  -- No purge of tombstones and no `destroy`.
  abbrev pub KeepsAll : List (Op V) → Type 0
  KeepsAll [] = Unit
  KeepsAll (purge_op ∷ ops) = ⊥
  KeepsAll (destroy_op ∷ ops) = ⊥
  KeepsAll (_ ∷ ops) = KeepsAll ops

  pub state-store_if_wins :
      (e : SyncState V) (s : StateSync V) → (store_if_wins e s).state ≡ merge_entry e s.state
  unfolding store_if_wins store merge_entry
  state-store_if_wins e s = ground arith

  pub received_state :
      (now : ℕ) (r : SyncState V) (s : StateSync V)
      → (store_if_wins r (observe now r.hlc s)).state ≡ merge_entry r s.state
  unfolding store_if_wins store merge_entry observe
  received_state now r s = ground arith

  -- A local write is stored over an entry that is no later than it.
  pub own_entry-wins :
      (now : ℕ) (k : Text) (v : Option V) (d : Bool) (s : StateSync V)
      → IsValid s
      → wins (Dict.get k s.state) (own_entry k v d (tick now s)) ≡ true
  unfolding wins own_entry tick
  own_entry-wins now k v d s h = elim (Option-cases (Dict.get k s.state)) [
    | inl p ↦ rw p
    | inr (e, p) ↦ rw p (
        ground (
          arith,
          h.ahead k e p,
          create_hlc-Later now s.fingerprint s.hlc,
          Later-trans (create_hlc now s.fingerprint (some s.hlc)) s.hlc e.hlc,
          is_later_antisymm e.hlc s.hlc,
        ))
  ]

  -- So a local write is the merge of its own entry.
  pub local_write_state :
      (now : ℕ) (k : Text) (v : Option V) (d : Bool) (s : StateSync V)
      → IsValid s
      → (store (own_entry k v d (tick now s)) (tick now s)).state
        ≡ merge_entry (own_entry k v d (tick now s)) s.state
  unfolding merge_entry store own_entry tick
  local_write_state now k v d s h = rw (own_entry-wins now k v d s h)
