-- ===== src/StateSync/Behaviour.antt =====
-- What the operations of StateSync do to the values that `get` returns (sync.ts, class StateSync).
use peer_server.Prelude.{
  ◌⊎◌, ◌↔◌, inl, inr, refl, ltb, ◌+◌, ◌-◌, ◌<◌, Bool-cases, ◌&&◌, ℕ, ◌≡◌, ◌∙◌, ap, true, false,
  Option, none, some, List, Text, text_eq, text_eq_iff, arith, if◌then◌else◌,
}
use peer_server.Dict
use peer_server.Dict.Laws.{get-put}
use peer_server.Hlc.{Hlc, is_later}
use peer_server.Hlc.Order.{Later, Later-trans, is_later_antisymm}
use peer_server.Hlc.Clock.{create_hlc-Later, merge_hlc-Later}
use peer_server.StateSync.{
  tombstone_ttl, StateSync, SyncState, operational, tick, store, own_entry, set, delete_key,
  observe, get,
}
use peer_server.StateSync.Remote.{handle_update, update_by_mode, update_operational, merge_update}
use peer_server.StateSync.Session.{is_expired, purge_tombstones, Op, run}
use peer_server.StateSync.Valid.{IsValid, get-without_expired, unless_expired}
use peer_server.StateSync.Best.{get-merge_entries, best, best-Succeeds}
use peer_server.StateSync.History.{history, KeepsAll}
use peer_server.StateSync.Convergence.{IsLww, run-eq-merge_entries}

Later-than_stored : (t h e : Hlc) → Later t h → is_later e h ≡ false → Later t e
Later-than_stored t h e p q = ground (arith, Later-trans t h e, is_later_antisymm e h)

module _ {V : Type 0} where
  -- After `set` the key has the new value, after `delete` it has none, and every other key has the
  -- value that it had.
  pub get-write :
      (now : ℕ) (k j : Text) (v : Option V) (s : StateSync V)
      → (get j (set now k v s).0 ≡ (if text_eq k j then v else get j s))
        × (get j (delete_key now k s).0 ≡ (if text_eq k j then none else get j s))
  unfolding get set delete_key
  get-write now k j v s = (
    ground (arith, get-put k j (own_entry k v false (tick now s)) s.state),
    ground (arith, get-put k j (own_entry k none true (tick now s)) s.state),
  )

  purged_entry :
      (now : ℕ) (e : SyncState V) (o : Option (SyncState V))
      → o ≡ unless_expired now (some e)
      → ((o ≡ none) ↔ ((e.deleted ≡ true) × (60000 + e.hlc.ts < now))) × ((o ≡ none) ⊎ (o ≡ some e))
  unfolding is_expired
  purged_entry now e o p = elim (Bool-cases (e.deleted && ltb tombstone_ttl (now - e.hlc.ts))) [
    | inl x ↦
        let gone : o ≡ none = p ∙ ap (λ c. if c then none else some e) x in
        ((λ _. ground arith, λ _. gone), inl gone)
    | inr x ↦
        let kept : o ≡ some e = p ∙ ap (λ c. if c then none else some e) x in
        ((λ q. cc, λ q. ground arith), inr kept)
  ]

  -- In a valid state, for a key with an entry: the purge leaves what `get` returns, and it drops the
  -- entry exactly if that is a tombstone and the time is more than 60000 ms after its clock's; else
  -- the entry stays as it is.
  pub purge_tombstones-get :
      (now : ℕ) (k : Text) (e : SyncState V) (s : StateSync V)
      → IsValid s
      → Dict.get k s.state ≡ some e
      → (get k (purge_tombstones now s) ≡ get k s)
        × ((Dict.get k (purge_tombstones now s).state ≡ none)
            ↔ ((e.deleted ≡ true) × (60000 + e.hlc.ts < now)))
        × ((Dict.get k (purge_tombstones now s).state ≡ none)
            ⊎ (Dict.get k (purge_tombstones now s).state ≡ some e))
  unfolding get purge_tombstones is_expired
  purge_tombstones-get now k e s h p =
      let found = get-without_expired now k s.state h.distinct in
      let (dropped, kept) = purged_entry now e _ (found ∙ ap (unless_expired now) p) in
      (ground (arith, found), dropped, kept)

  update_operational_state :
      (now : ℕ) (l r : SyncState V) (f : Option V → Option V → Option V) (from : Text)
      (s : StateSync V)
      → l.deleted ≡ false
      → s.merge ≡ some f
      → (update_operational now (some l) r from s).0
        ≡ store (own_entry r.key (f l.value r.value) false (tick now s)) (tick now s)
  unfolding update_operational merge_update
  update_operational_state now l r f from s live mf =
      rw live (ap (λ g. (merge_update now l r from g s).0) mf)

  get_stored :
      (k : Text) (v : Option V) (t : StateSync V)
      → (Dict.get k (store (own_entry k v false t) t).state ≡ some (own_entry k v false t))
        × (get k (store (own_entry k v false t) t) ≡ v)
  unfolding get store own_entry
  get_stored k v t = (
    ground (arith, get-put k k (own_entry k v false t) t.state, text_eq_iff k k),
    ground (arith, get-put k k (own_entry k v false t) t.state, text_eq_iff k k),
  )

  handle_update_merged :
      (now : ℕ → ℕ) (r l : SyncState V) (f : Option V → Option V → Option V) (from : Text)
      (s : StateSync V)
      → s.mode ≡ operational
      → s.merge ≡ some f
      → Dict.get r.key s.state ≡ some l
      → l.deleted ≡ false
      → (handle_update now (some r) from s).0
        ≡ store
            (own_entry r.key (f l.value r.value) false (tick (now 1) (observe (now 0) r.hlc s)))
            (tick (now 1) (observe (now 0) r.hlc s))
  unfolding handle_update observe
  handle_update_merged now r l f from s m mf p live =
      let s1 : StateSync V = observe (now 0) r.hlc s in
      ap (λ mode. (update_by_mode mode (now 1) r from s1).0) m
      ∙ ap (λ o. (update_operational (now 1) o r from s1).0) p
      ∙ update_operational_state (now 1) l r f from s1 live mf

  -- In operational mode, an update for a key with a live local entry stores the merge of the two
  -- values, local first, under a clock that is later than both entries'.
  pub update-operational :
      (now : ℕ → ℕ) (r l : SyncState V) (f : Option V → Option V → Option V) (from : Text)
      (s : StateSync V)
      → IsValid s
      → s.mode ≡ operational
      → s.merge ≡ some f
      → Dict.get r.key s.state ≡ some l
      → l.deleted ≡ false
      → (e : SyncState V) × (Dict.get r.key (handle_update now (some r) from s).0.state ≡ some e)
        × (get r.key (handle_update now (some r) from s).0 ≡ f l.value r.value)
        × Later e.hlc l.hlc
        × Later e.hlc r.hlc
  update-operational now r l f from s h m mf p live =
      let s1 : StateSync V = observe (now 0) r.hlc s in
      let t : StateSync V = tick (now 1) s1 in
      let c1 = merge_hlc-Later (now 0) s.hlc r.hlc s.fingerprint in
      let c2 = create_hlc-Later (now 1) s.fingerprint s1.hlc in
      let e : SyncState V = own_entry r.key (f l.value r.value) false t in
      let stored = get_stored r.key (f l.value r.value) t in
      let same = handle_update_merged now r l f from s m mf p live in
      (
        e,
        ap (λ (u : StateSync V). Dict.get r.key u.state) same ∙ stored.0,
        ap (get r.key) same ∙ stored.1,
        unfold own_entry tick observe in
            Later-than_stored _ s.hlc l.hlc (Later-trans _ _ s.hlc c2 c1.0) (h.ahead r.key l p),
        unfold own_entry tick observe in Later-trans _ _ r.hlc c2 c1.1,
      )

  -- In last-writer-wins mode, in a run without purge and `destroy` from a valid state, an entry that
  -- is stored is never lost and never replaced by one that is not later: after the run its key holds
  -- that entry still, or an entry with a strictly later clock.
  pub run_monotone :
      (clock : ℕ → ℕ → ℕ) (n : ℕ) (ops : List (Op V)) (s : StateSync V) (k : Text) (e : SyncState V)
      → KeepsAll ops
      → IsLww s
      → IsValid s
      → Dict.get k s.state ≡ some e
      → (x : SyncState V) × (Dict.get k (run clock n ops s).state ≡ some x)
        × ((x ≡ e) ⊎ Later x.hlc e.hlc)
  run_monotone clock n ops s k e a m h p =
      let (x, q, l) = best-Succeeds k (history clock n ops s) e e (inl refl) in
      (
        x,
        ap (Dict.get k) (run-eq-merge_entries clock n ops s a m h)
            ∙ get-merge_entries k (history clock n ops s) s.state
            ∙ ap (best k (history clock n ops s)) p
            ∙ q,
        l,
      )
