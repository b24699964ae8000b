-- ===== src/Offline/Flushing.antt =====
-- The flush of an OfflineSyncRoom (offline-sync-room.ts, flushPendingOps) from the point where it
-- has read the pending operations.
use peer_server.Prelude.{
  ℕ, zero, suc, ◌≡◌, refl, sym, ap, ◌∙◌, Bool, false, not, ◌&&◌, ◌||◌, List, [], ◌∷◌, ◌++◌, Text,
  text_eq, length, arith,
}
use mathlib.Core.List.{append_assoc}
use peer_server.Dict
use peer_server.Dict.{Dict}
use peer_server.Dict.Laws.{has-remove}
use peer_server.Offline.{
  OfflineRoom, Pending, idle, sending, Effect, sync_complete, remove_pending_op, set_last_sync_time,
}
use peer_server.Offline.Session.{World, send_operation, send_set, continue_flush}

module _ {V : Type 0} where
  -- Several steps of a flush, with nothing between them.
  unfoldable pub flush_steps : World → ℕ → ℕ → OfflineRoom V → OfflineRoom V × List (Effect V)
  flush_steps w now zero s = (s, [])
  flush_steps w now (suc n) s =
      let (s1, es) = continue_flush w now s in
      let (s2, fs) = flush_steps w now n s1 in (s2, es ++ fs)

  -- What the operations are sent as, in order.
  unfoldable pub sent : World → List (Pending V) → OfflineRoom V → List (Effect V)
  sent w [] s = []
  sent w (op ∷ ops) s = send_operation w op.deletes op.key op.value op.hlc s ++ sent w ops s

  abbrev pub listed : Text → List (Pending V) → Bool
  listed id [] = false
  listed id (op ∷ ops) = text_eq op.id id || listed id ops

  abbrev pub at : OfflineRoom V → List (Pending V) → OfflineRoom V
  at s ops = record s { flush = sending ops }

  sent_later :
      (w : World) (id : Text) (ops rest : List (Pending V)) (s : OfflineRoom V)
      → sent w ops (remove_pending_op id (at s rest)) ≡ sent w ops s
  unfolding sent send_operation send_set remove_pending_op
  sent_later w id [] rest s = refl
  sent_later w id (op ∷ ops) rest s =
      ap (λ es. send_operation w op.deletes op.key op.value op.hlc s ++ es)
        (sent_later w id ops rest s)

  one_step :
      (w : World) (now n : ℕ) (op : Pending V) (ops : List (Pending V)) (s : OfflineRoom V)
      → flush_steps w now (suc n) (at s (op ∷ ops)) ≡ (
        (flush_steps w now n (at (remove_pending_op op.id (at s ops)) ops)).0,
        send_operation w op.deletes op.key op.value op.hlc s
            ++ (flush_steps w now n (at (remove_pending_op op.id (at s ops)) ops)).1,
      )
  unfolding flush_steps continue_flush remove_pending_op send_operation send_set
  one_step w now n op ops s = refl

  last_step :
      (w : World) (now : ℕ) (s : OfflineRoom V)
      → flush_steps w now 1 (at s [])
        ≡ (set_last_sync_time now (record s { flush = idle }), sync_complete ∷ [])
  unfolding flush_steps continue_flush
  last_step w now s = refl

  has_kept :
      (id j : Text) (b : Bool) (s : OfflineRoom V) (ops : List (Pending V))
      → (not b && Dict.has id (remove_pending_op j (at s ops)).saved.pending)
        ≡ (not (text_eq j id || b) && Dict.has id s.saved.pending)
  unfolding remove_pending_op
  has_kept id j b s ops = ground (arith, has-remove j id s.saved.pending)

  -- A flush that has read the pending operations, with nothing else happening between its steps,
  -- ends in one step for each and one more. It has sent them all, in order, then reported that it is complete; the database still holds exactly the
  -- operations that were not among them, and the time of the last flush.
  pub flush_steps-sends :
      (w : World) (now : ℕ) (ops : List (Pending V)) (s : OfflineRoom V)
      → ((flush_steps w now (suc (length ops)) (at s ops)).1 ≡ sent w ops s ++ sync_complete ∷ [])
        × ((flush_steps w now (suc (length ops)) (at s ops)).0.flush ≡ idle)
        × ((flush_steps w now (suc (length ops)) (at s ops)).0.saved.last_sync ≡ now)
        × ((id : Text)
            → Dict.has id (flush_steps w now (suc (length ops)) (at s ops)).0.saved.pending
              ≡ (not (listed id ops) && Dict.has id s.saved.pending))
  flush_steps-sends w now [] s =
      let e = last_step w now s in
      (
        unfold sent in ap (λ p. p.1) e,
        ap (λ p. p.0.flush) e ∙ (unfold set_last_sync_time in refl),
        ap (λ p. p.0.saved.last_sync) e ∙ (unfold set_last_sync_time in refl),
        λ id. ap (λ p. Dict.has id p.0.saved.pending) e ∙ (unfold set_last_sync_time in refl),
      )
  flush_steps-sends w now (op ∷ ops) s =
      let s1 : OfflineRoom V = remove_pending_op op.id (at s ops) in
      let (es, done, time, kept) = flush_steps-sends w now ops s1 in
      let e = one_step w now (suc (length ops)) op ops s in
      let first = send_operation w op.deletes op.key op.value op.hlc s in
      (
        ap (λ p. p.1) e
            ∙ ap (λ xs. first ++ xs)
                (es ∙ ap (λ xs. xs ++ sync_complete ∷ []) (sent_later w op.id ops ops s))
            ∙ (unfold sent in sym (append_assoc first (sent w ops s) (sync_complete ∷ []))),
        ap (λ p. p.0.flush) e ∙ done,
        ap (λ p. p.0.saved.last_sync) e ∙ time,
        λ id.
            ap (λ p. Dict.has id p.0.saved.pending) e
            ∙ kept id
            ∙ has_kept id op.id (listed id ops) s ops,
      )
