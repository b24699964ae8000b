-- ===== src/Offline/Durable.antt =====
-- That the database of an OfflineSyncRoom (offline-sync-room.ts) always holds the entries of the
-- map, so that a room which is opened again on it has them.
use peer_server.Prelude.{
  ℕ, suc, ◌≡◌, refl, sym, ap, ◌∙◌, subst, inl, inr, Bool, true, false, ◌&&◌, Option, none, some,
  List, [], ◌∷◌, Text, text_eq, text_eq_iff, is_empty, Bool-cases, leb, length, if◌then◌else◌,
}
use peer_server.Dict
use peer_server.Dict.{Dict}
use peer_server.Dict.Laws.{Distinct, Every, put-Distinct}
use peer_server.Hlc.{Hlc}
use peer_server.StateSync.{SyncState, wins}
use peer_server.Offline.{
  OfflineRoom, Pending, Effect, keep, put_state, set_clock, tick, write_local, queue_operation,
  add_pending_op, observe, merges, merge_values, store_if_wins, apply_by_clock, or_by_clock,
  apply_remote_entry,
}
use peer_server.Offline.Session.{write, World, apply_entries}

abbrev pub OwnKeys : {V : Type 0} → Dict (SyncState V) → Type 0
OwnKeys d = Every (λ k e. e.key ≡ k) d

-- The database holds the entries of the map; each key stands once, over an entry for it.
pub record IsDurable {V : Type 0} (s : OfflineRoom V) : Type 0 where
  pub mirror : s.saved.entries ≡ s.state
  pub distinct : Distinct s.state
  pub keyed : OwnKeys s.state

module _ {V : Type 0} where
  pub put-OwnKeys :
      (e : SyncState V) (d : Dict (SyncState V)) → OwnKeys d → OwnKeys (Dict.put e.key e d)
  unfolding Dict.put
  put-OwnKeys e [] h = (refl, tt)
  put-OwnKeys e ((i, x) ∷ d) (h, hs) = elim (Bool-cases (text_eq i e.key)) [
    | inl same ↦ rw same (sym ((text_eq_iff i e.key).0 same), hs)
    | inr other ↦ rw other (h, put-OwnKeys e d hs)
  ]

  pub if_IsDurable :
      {A : Type 0} (b : Bool) (x y : OfflineRoom V × A)
      → IsDurable x.0
      → IsDurable y.0
      → IsDurable (if b then x else y).0
  if_IsDurable true x y p q = p
  if_IsDurable false x y p q = q

  pub same_entries :
      (s t : OfflineRoom V)
      → t.saved.entries ≡ s.saved.entries
      → t.state ≡ s.state
      → IsDurable s
      → IsDurable t
  same_entries s t p q h = record {
    mirror = p ∙ h.mirror ∙ sym q;
    distinct = subst (λ d. Distinct d) (sym q) h.distinct;
    keyed = subst (λ d. OwnKeys d) (sym q) h.keyed;
  }

  pub keep-IsDurable : (e : SyncState V) (s : OfflineRoom V) → IsDurable s → IsDurable (keep e s)
  unfolding keep put_state
  keep-IsDurable e s h = record {
    mirror = ap (Dict.put e.key e) h.mirror;
    distinct = put-Distinct e.key e s.state h.distinct;
    keyed = put-OwnKeys e s.state h.keyed;
  }

  pub set_clock-IsDurable : (s : OfflineRoom V) → IsDurable s → IsDurable (set_clock s)
  unfolding set_clock
  set_clock-IsDurable s h = same_entries s _ refl refl h

  pub tick-IsDurable : (now : ℕ) (s : OfflineRoom V) → IsDurable s → IsDurable (tick now s)
  unfolding tick
  tick-IsDurable now s h = same_entries s _ refl refl h

  pub observe-IsDurable :
      (now : ℕ) (r : Hlc) (s : OfflineRoom V) → IsDurable s → IsDurable (observe now r s)
  unfolding observe
  observe-IsDurable now r s h = same_entries s _ refl refl h

  pub write_local-IsDurable :
      (now : ℕ) (k : Text) (v : Option V) (d : Bool) (s : OfflineRoom V)
      → IsDurable s
      → IsDurable (write_local now k v d s)
  unfolding write_local
  write_local-IsDurable now k v d s h =
      set_clock-IsDurable _ (keep-IsDurable _ (tick now s) (tick-IsDurable now s h))

  pub queue_operation-IsDurable :
      (op : Pending V) (s : OfflineRoom V) → IsDurable s → IsDurable (queue_operation op s).0
  unfolding queue_operation add_pending_op
  queue_operation-IsDurable op s h =
      if_IsDurable (leb s.max_pending_ops (length s.saved.pending)) _ _ h
        (same_entries s _ refl refl h)

  pub write-IsDurable :
      (w : World) (now : ℕ → ℕ) (id : Text) (d : Bool) (k : Text) (v : Option V) (s : OfflineRoom V)
      → IsDurable s
      → IsDurable (write w now id d k v s).0
  unfolding write
  write-IsDurable w now id d k v s h =
      let h1 = write_local-IsDurable (now 0) k (if d then none else v) d s h in
      if_IsDurable s.is_closed _ _ h
        (if_IsDurable (s.online && w.connected) _ _ h1 (queue_operation-IsDurable _ _ h1))

  pub store_if_wins-IsDurable :
      (r : SyncState V) (s : OfflineRoom V) → IsDurable s → IsDurable (store_if_wins r s)
  unfolding store_if_wins
  store_if_wins-IsDurable r s h = elim (Bool-cases (wins (Dict.get r.key s.state) r)) [
    | inl won ↦ rw won (keep-IsDurable r s h)
    | inr lost ↦ rw lost h
  ]

  pub apply_by_clock-IsDurable :
      (r : SyncState V) (from : Text) (s : OfflineRoom V)
      → IsDurable s
      → IsDurable (apply_by_clock r from s).0
  unfolding apply_by_clock
  apply_by_clock-IsDurable r from s h = set_clock-IsDurable _ (store_if_wins-IsDurable r s h)

  pub merge_values-IsDurable :
      (now : ℕ) (f : Option (Option V → Option V → Option V)) (l : Option (SyncState V))
      (r : SyncState V) (from : Text) (s : OfflineRoom V) (other : OfflineRoom V × List (Effect V))
      → IsDurable s
      → IsDurable other.0
      → IsDurable (or_by_clock (merge_values now f l r from s) other).0
  unfolding merge_values or_by_clock
  merge_values-IsDurable now none l r from s other h o = o
  merge_values-IsDurable now (some f) none r from s other h o = o
  merge_values-IsDurable now (some f) (some l) r from s other h o =
      keep-IsDurable _ (tick now s) (tick-IsDurable now s h)

  pub apply_remote_entry-IsDurable :
      (now : ℕ → ℕ) (r : Option (SyncState V)) (from : Text) (s : OfflineRoom V)
      → IsDurable s
      → IsDurable (apply_remote_entry now r from s).0
  unfolding apply_remote_entry
  apply_remote_entry-IsDurable now none from s h = h
  apply_remote_entry-IsDurable now (some r) from s h =
      let s1 : OfflineRoom V = observe (now 0) r.hlc s in
      let h1 = observe-IsDurable (now 0) r.hlc s h in
      let c = apply_by_clock-IsDurable r from s1 h1 in
      if_IsDurable (is_empty r.key) _ _ h (
        if_IsDurable (merges s1 (Dict.get r.key s1.state) r) _ _
          (merge_values-IsDurable (now 1) s1.merge (Dict.get r.key s1.state) r from s1
            (apply_by_clock r from s1) h1 c)
          c)

  pub apply_entries-IsDurable :
      (now : ℕ → ℕ → ℕ) (i : ℕ) (rs : List (Option (SyncState V))) (from : Text) (s : OfflineRoom V)
      → IsDurable s
      → IsDurable (apply_entries now i rs from s).0
  unfolding apply_entries
  apply_entries-IsDurable now i [] from s h = h
  apply_entries-IsDurable now i (r ∷ rs) from s h =
      apply_entries-IsDurable now (suc i) rs from _
        (apply_remote_entry-IsDurable (now i) r from s h)
