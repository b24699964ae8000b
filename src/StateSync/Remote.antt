-- ===== src/StateSync/Remote.antt =====
-- packages/peer-client/src/sync.ts, lines 163-233: what StateSync does with one entry that another
-- peer sends, in each mode.
use peer_server.Prelude.{
  ℕ, Bool, false, not, ◌&&◌, Option, none, some, List, [], ◌∷◌, ◌++◌, Text, if◌then◌else◌,
}
use peer_server.Dict
use peer_server.Dict.{Dict}
use peer_server.StateSync.{
  StateSync, SyncState, SyncMode, lww, operational, crdt, Effect, state_changed, conflict, synced,
  crdt_error, tick, store, own_entry, observe, wins,
}

module _ {V : Type 0} where
  -- `!local || compareHLC(remote.hlc, local.hlc) > 0`, then `this.state.set(remote.key, remote)`.
  unfoldable pub store_if_wins : SyncState V → StateSync V → StateSync V
  unfolding wins store
  store_if_wins remote s = if wins (Dict.get remote.key s.state) remote then store remote s else s

  abbrev pub win_effects : Bool → Effect V → List (Effect V)
  win_effects won e = if won then e ∷ [] else []

  -- The branch of `handleRemoteUpdate` for `delete`.
  unfoldable pub handle_delete :
      ℕ → Option (SyncState V) → Text → StateSync V → StateSync V × List (Effect V)
  unfolding observe store_if_wins
  handle_delete now none from s = (s, [])
  handle_delete now (some remote) from s =
      let s' = observe now remote.hlc s in
      (
        store_if_wins remote s',
        win_effects (wins (Dict.get remote.key s'.state) remote)
              (state_changed remote.key none from)
            ++ synced from ∷ [],
      )

  -- The case `lww` of the switch.
  unfoldable pub update_lww : SyncState V → Text → StateSync V → StateSync V × List (Effect V)
  unfolding store_if_wins
  update_lww remote from s = (
    store_if_wins remote s,
    win_effects (wins (Dict.get remote.key s.state) remote)
          (state_changed remote.key remote.value from)
        ++ synced from ∷ [],
  )

  -- The case `operational` where there is a live local entry. Without a merge function, which the
  -- constructor rules out, the call throws.
  unfoldable pub merge_update :
      ℕ
      → SyncState V
      → SyncState V
      → Text
      → Option (Option V → Option V → Option V)
      → StateSync V
      → StateSync V × List (Effect V)
  unfolding tick own_entry store
  merge_update now local remote from none s = (s, [])
  merge_update now local remote from (some f) s =
      let merged = f local.value remote.value in
      let ticked = tick now s in
      (
        store (own_entry remote.key merged false ticked) ticked,
        state_changed remote.key merged from
            ∷ conflict remote.key local.value remote.value merged
            ∷ synced from
            ∷ [],
      )

  unfoldable pub adopt : SyncState V → Text → StateSync V → StateSync V × List (Effect V)
  unfolding store
  adopt remote from s =
      (store remote s, state_changed remote.key remote.value from ∷ synced from ∷ [])

  -- The case `operational`: `!local || local.deleted`, else the merge.
  unfoldable pub update_operational :
      ℕ → Option (SyncState V) → SyncState V → Text → StateSync V → StateSync V × List (Effect V)
  unfolding adopt merge_update
  update_operational now none remote from s = adopt remote from s
  update_operational now (some local) remote from s =
      if local.deleted then adopt remote from s else merge_update now local remote from s.merge s

  unfoldable pub update_by_mode :
      SyncMode → ℕ → SyncState V → Text → StateSync V → StateSync V × List (Effect V)
  unfolding update_lww update_operational
  update_by_mode lww now remote from s = update_lww remote from s
  update_by_mode operational now remote from s =
      update_operational now (Dict.get remote.key s.state) remote from s
  update_by_mode crdt now remote from s = (s, crdt_error ∷ synced from ∷ [])

  -- The branch of `handleRemoteUpdate` for `update`.
  unfoldable pub handle_update :
      (ℕ → ℕ) → Option (SyncState V) → Text → StateSync V → StateSync V × List (Effect V)
  unfolding observe update_by_mode
  handle_update now none from s = (s, [])
  handle_update now (some remote) from s =
      update_by_mode s.mode (now 1) remote from (observe (now 0) remote.hlc s)

  -- One round of the loop of `handleFullState`.
  unfoldable pub full_state_entry :
      ℕ → Option (SyncState V) → Text → StateSync V → StateSync V × List (Effect V)
  unfolding observe store_if_wins
  full_state_entry now none from s = (s, [])
  full_state_entry now (some remote) from s =
      let s' = observe now remote.hlc s in
      (
        store_if_wins remote s',
        win_effects (wins (Dict.get remote.key s'.state) remote && not remote.deleted)
            (state_changed remote.key remote.value from),
      )
