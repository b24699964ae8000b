-- ===== src/Offline/Merging.antt =====
-- What remote entries do to an OfflineSyncRoom (offline-sync-room.ts, applyRemoteEntry), by the two
-- ways of resolving conflicts.
use peer_server.Prelude.{
  ℕ, suc, ◌≡◌, refl, sym, ap, ◌∙◌, Bool, true, false, Option, none, some, List, [], ◌∷◌, Text,
  text_eq_refl, is_empty, arith, if◌then◌else◌,
}
use peer_server.Dict
use peer_server.Dict.{Dict}
use peer_server.Dict.Laws.{get-put}
use peer_server.Hlc.Order.{Later, Later-trans}
use peer_server.Hlc.Clock.{create_hlc-Later, merge_hlc-Later}
use peer_server.StateSync.{SyncState, visible}
use peer_server.StateSync.Best.{
  merge_entry, merge_entries, SameMembers, Coherent, best, best_same, get-merge_entries,
}
use peer_server.Offline.{
  OfflineRoom, keep, put_state, set_clock, tick, local_entry, observe, merges, merge_values,
  store_if_wins, apply_by_clock, or_by_clock, apply_remote_entry, get,
}
use peer_server.Offline.Session.{apply_entries}

second_of :
    {A : Type 0} (b c : Bool) (x y z : A)
    → b ≡ false
    → c ≡ true
    → (if b then x else if c then y else z) ≡ y
second_of b c x y z p q = rw (p, q)

module _ {V : Type 0} where
  merged_room :
      (now : ℕ → ℕ) (r l : SyncState V) (f : Option V → Option V → Option V) (from : Text)
      (s : OfflineRoom V)
      → is_empty r.key ≡ false
      → s.merge ≡ some f
      → Dict.get r.key s.state ≡ some l
      → merges s (some l) r ≡ true
      → (apply_remote_entry now (some r) from s).0
        ≡ keep
            (local_entry r.key (f l.value r.value) false (tick (now 1) (observe (now 0) r.hlc s)))
            (tick (now 1) (observe (now 0) r.hlc s))
  unfolding apply_remote_entry merge_values or_by_clock observe merges
  merged_room now r l f from s named mf p m =
      let s1 : OfflineRoom V = observe (now 0) r.hlc s in
      let other = apply_by_clock r from s1 in
      ap (λ x. x.0)
        (second_of (is_empty r.key) (merges s1 (Dict.get r.key s.state) r) (s, []) _ other named
          (ap (λ o. merges s1 o r) p ∙ m))
      ∙ ap (λ o. (or_by_clock (merge_values (now 1) s.merge o r from s1) other).0) p
      ∙ ap (λ g. (or_by_clock (merge_values (now 1) g (some l) r from s1) other).0) mf

  -- Where two values are merged: the room and its database hold the merged value, local first,
  -- under a clock later than the room's and than the remote one; but the clock that the database
  -- holds stays the one from before.
  pub apply_remote_entry-merged :
      (now : ℕ → ℕ) (r l : SyncState V) (f : Option V → Option V → Option V) (from : Text)
      (s : OfflineRoom V)
      → is_empty r.key ≡ false
      → s.merge ≡ some f
      → Dict.get r.key s.state ≡ some l
      → merges s (some l) r ≡ true
      → (e : SyncState V) × (Dict.get r.key (apply_remote_entry now (some r) from s).0.state
          ≡ some e)
        × (Dict.get r.key (apply_remote_entry now (some r) from s).0.saved.entries ≡ some e)
        × (e.value ≡ f l.value r.value)
        × Later e.hlc s.hlc
        × Later e.hlc r.hlc
        × ((apply_remote_entry now (some r) from s).0.saved.clock ≡ s.saved.clock)
  unfolding keep put_state tick observe local_entry
  apply_remote_entry-merged now r l f from s named mf p m =
      let s1 : OfflineRoom V = observe (now 0) r.hlc s in
      let e : SyncState V = local_entry r.key (f l.value r.value) false (tick (now 1) s1) in
      let same = merged_room now r l f from s named mf p m in
      let c1 = merge_hlc-Later (now 0) s.hlc r.hlc s.hlc.node in
      let c2 = create_hlc-Later (now 1) s1.hlc.node s1.hlc in
      (
        e,
        ap (λ (u : OfflineRoom V). Dict.get r.key u.state) same
            ∙ get-put r.key r.key e s.state
            ∙ rw (text_eq_refl r.key),
        ap (λ (u : OfflineRoom V). Dict.get r.key u.saved.entries) same
            ∙ get-put r.key r.key e s.saved.entries
            ∙ rw (text_eq_refl r.key),
        refl,
        Later-trans _ s1.hlc s.hlc c2 c1.0,
        Later-trans _ s1.hlc r.hlc c2 c1.1,
        ap (λ (u : OfflineRoom V). u.saved.clock) same,
      )

  -- The entries that `applyRemoteEntry` does not turn away: with a clock and a key.
  unfoldable pub named : List (Option (SyncState V)) → List (SyncState V)
  named [] = []
  named (none ∷ rs) = named rs
  named (some r ∷ rs) = let rest = named rs in if is_empty r.key then rest else r ∷ rest

  apply_lww :
      (now : ℕ → ℕ) (r : SyncState V) (from : Text) (s : OfflineRoom V)
      → s.merging ≡ false
      → (apply_remote_entry now (some r) from s).0.state
        ≡ (if is_empty r.key then s.state else merge_entry r s.state)
  unfolding apply_remote_entry apply_by_clock merges merge_entry store_if_wins keep put_state
      set_clock observe
  apply_lww now r from s m = ground arith

  apply_merging :
      (now : ℕ → ℕ) (r : Option (SyncState V)) (from : Text) (s : OfflineRoom V)
      → (apply_remote_entry now r from s).0.merging ≡ s.merging
  unfolding apply_remote_entry merge_values or_by_clock apply_by_clock store_if_wins keep put_state
      set_clock observe tick
  apply_merging now none from s = refl
  apply_merging now (some r) from s = ground arith

  merge_named :
      (b : Bool) (r : SyncState V) (es : List (SyncState V)) (d : Dict (SyncState V))
      → merge_entries es (if b then d else merge_entry r d)
        ≡ merge_entries (if b then es else r ∷ es) d
  unfolding merge_entries
  merge_named true r es d = refl
  merge_named false r es d = refl

  -- A room that resolves conflicts by the clock and takes a full state in has then the merge of its
  -- entries, each where it is later than the one there: last-writer-wins, as in StateSync.
  pub apply_entries-eq-merge_entries :
      (now : ℕ → ℕ → ℕ) (i : ℕ) (rs : List (Option (SyncState V))) (from : Text) (s : OfflineRoom V)
      → s.merging ≡ false
      → (apply_entries now i rs from s).0.state ≡ merge_entries (named rs) s.state
  unfolding apply_entries named
  apply_entries-eq-merge_entries now i [] from s m = unfold merge_entries in refl
  apply_entries-eq-merge_entries now i (none ∷ rs) from s m =
      unfold apply_remote_entry in apply_entries-eq-merge_entries now (suc i) rs from s m
  apply_entries-eq-merge_entries now i (some r ∷ rs) from s m =
      let s1 : OfflineRoom V = (apply_remote_entry (now i) (some r) from s).0 in
      apply_entries-eq-merge_entries now (suc i) rs from s1
        (apply_merging (now i) (some r) from s ∙ m)
      ∙ ap (merge_entries (named rs)) (apply_lww (now i) r from s m)
      ∙ merge_named (is_empty r.key) r (named rs) s.state

  taken :
      (now : ℕ → ℕ → ℕ) (rs : List (Option (SyncState V))) (from : Text) (s : OfflineRoom V)
      (k : Text)
      → s.merging ≡ false
      → s.state ≡ []
      → Dict.get k (apply_entries now 0 rs from s).0.state ≡ best k (named rs) none
  taken now rs from s k m fresh =
      ap (Dict.get k) (apply_entries-eq-merge_entries now 0 rs from s m)
      ∙ get-merge_entries k (named rs) s.state
      ∙ ap (λ d. best k (named rs) (Dict.get k d)) fresh
      ∙ (unfold Dict.get in refl)

  -- Two rooms that do not merge values (last-writer-wins, no conflict resolution `merge`) and start
  -- without entries take in full states with the same entries, in whatever order, batches and
  -- repetitions, with nothing else in between. If entries for one key with one clock are the same,
  -- the rooms agree on the value of every key.
  pub apply_entries-converge :
      (now now' : ℕ → ℕ → ℕ) (rs rs' : List (Option (SyncState V))) (from from' : Text)
      (s s' : OfflineRoom V) (k : Text)
      → s.merging ≡ false
      → s'.merging ≡ false
      → s.state ≡ []
      → s'.state ≡ []
      → SameMembers (named rs) (named rs')
      → Coherent (named rs)
      → get k (apply_entries now 0 rs from s).0 ≡ get k (apply_entries now' 0 rs' from' s').0
  unfolding get
  apply_entries-converge now now' rs rs' from from' s s' k m m' fresh fresh' same co = ap visible (
      taken now rs from s k m fresh
      ∙ best_same k (named rs) (named rs') same co
      ∙ sym (taken now' rs' from' s' k m' fresh'))
