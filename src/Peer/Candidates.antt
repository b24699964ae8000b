-- ===== src/Peer/Candidates.antt =====
-- The candidates that a peer (peer.ts) receives: none is lost, and none is added too early.
use peer_server.Prelude.{
  ℕ, ◌+◌, ◌≤◌, ◌≡◌, refl, ap, arith, Bool, true, false, ◌||◌, Option, none, some, List, [], ◌∷◌,
  ◌++◌, Text, get_elem?, if◌then◌else◌,
}
use peer_server.Dict
use peer_server.Peer.{
  Signaling, Job, Peer, new_peer, create_data_channel, on_data_channel, on_channel_open,
  on_channel_message, on_channel_close, on_channel_error, setup_channel, Signal, offer, answer,
  candidate, Effect, wait, close_channels, close, send, sent_over, close_connection,
}
use peer_server.Peer.Jobs.{handle_signal, resume, on_negotiation_needed, create_offer, restart}
use peer_server.Peer.Steps.{
  up, down, other, on_connection, Event, signal, job_ends, negotiation_needed, offer_call,
  restart_call, ice_candidate, connection_changes, ice_fails, channel_call, channel_comes,
  channel_opens, message, channel_closes, channel_fails, send_call, close_call, on_job, end_of,
  without_job, step, run,
}
use peer_server.Weights.{weigh, weight_of, weigh-without}
use peer_server.Peer.Flushing.{
  count, is_flush, left, held, added, received, all_received, added-append, early, due, Kept,
  on_offer-Kept, on_answer-Kept, on_candidate-Kept, either_Kept, calm_Kept, fulfil-Kept,
  reject-Kept,
}

module _ (S C D : Type 0) (is : C → Bool) where
  added-close_channels :
      (chs : List ℕ) → added {S = S} {D = D} is (close_channels chs ++ close_connection ∷ []) ≡ 0
  unfolding added
  added-close_channels [] = refl
  added-close_channels (ch ∷ chs) = added-close_channels chs

  added-sent_over :
      (is_open : ℕ → Bool) (o : Option ℕ) (d : D) (label : Text)
      → added {S = S} is (sent_over is_open o d label) ≡ 0
  unfolding added
  added-sent_over is_open none d label = refl
  added-sent_over is_open (some ch) d label = ground arith

module _ {S C D : Type 0} (is : C → Bool) where
  -- A job is taken from its place and goes on.
  end_of-Kept :
      (i : ℕ) (now : Signaling) (o : Option S) (p : Peer S C) (j : Option (Job S C))
      → early p ≡ 0
      → get_elem? p.jobs i ≡ j
      → Kept is 0 p (end_of {D = D} j i now o p)
  unfolding resume
  end_of-Kept i now o p none t e =
      calm_Kept is 0 p _ t refl refl refl refl refl (unfold added in refl)
  end_of-Kept i now o p (some j) t e =
      let p1 : Peer S C = without_job i p in
      let flushes = weigh-without is_flush i p.jobs in
      let lefts = weigh-without (left is) i p.jobs in
      let at_flush = ap (weight_of is_flush) e in
      let at_left = ap (weight_of (left is)) e in
      let t1 : early p1 ≡ 0 = ground (arith, t, flushes) in
      let none_yet : (if p1.remote_desc_set then 0 else is_flush j) ≡ 0 =
        ground (arith, t, flushes, at_flush) in
      let k : Kept is (due is j p1) p1 (resume {D = D} now o j p1) =
        elim o as (λ x. Kept is (due is j p1) p1 (resume {D = D} now x j p1)) [
          | none ↦ reject-Kept is j p1 t1 none_yet
          | some sdp ↦ fulfil-Kept is now sdp j p1 t1 none_yet
        ] in
      record {
        total = unfold held in ground (arith, k.total, lefts, at_left);
        in_time = k.in_time;
        none_early = k.none_early;
        stays = k.stays;
      }

  restart-Kept : (ok : Bool) (p : Peer S C) → early p ≡ 0 → Kept is 0 p (restart {D = D} ok p)
  unfolding restart wait added weigh left is_flush
  restart-Kept ok p t =
      either_Kept is 0 p p.closed _ _ (calm_Kept is 0 p _ t refl refl refl refl refl refl) (
        either_Kept is 0 p ok _ _
          (calm_Kept is 0 p _ t refl refl refl (omega arith) (omega arith) refl)
          (calm_Kept is 0 p _ t refl refl refl refl refl refl))

  guarded_Kept :
      (r : ℕ) (p : Peer S C) (b : Bool) (q : Peer S C × List (Effect S C D))
      → early p ≡ 0
      → Kept is r p q
      → Kept is (if b then 0 else r) p (if b then (p, []) else q)
  guarded_Kept r p true q t k = calm_Kept is 0 p _ t refl refl refl refl refl (unfold added in refl)
  guarded_Kept r p false q t k = k

  guarded_zero :
      (p : Peer S C) (b : Bool) (q : Peer S C × List (Effect S C D))
      → early p ≡ 0
      → Kept is 0 p q
      → Kept is 0 p (if b then (p, []) else q)
  guarded_zero p true q t k = guarded_Kept 0 p true q t k
  guarded_zero p false q t k = k

  handle_signal-Kept :
      (now : Signaling) (s : Signal S C) (p : Peer S C)
      → early p ≡ 0
      → Kept is (received {D = D} is (signal now s) p) p (handle_signal {D = D} now s p)
  unfolding handle_signal received
  handle_signal-Kept now (offer sdp) p t =
      guarded_zero p p.closed _ t (on_offer-Kept is now sdp p t)
  handle_signal-Kept now (answer sdp) p t =
      guarded_zero p p.closed _ t (on_answer-Kept is now sdp p t)
  handle_signal-Kept now (candidate none) p t =
      guarded_zero p p.closed _ t (on_candidate-Kept is none p t)
  handle_signal-Kept now (candidate (some c)) p t =
      guarded_Kept (if is c then 1 else 0) p p.closed _ t (on_candidate-Kept is (some c) p t)

  step-Kept :
      (e : Event S C D) (p : Peer S C) → early p ≡ 0 → Kept is (received is e p) p (step e p)
  unfolding step received added weigh left is_flush
  step-Kept (signal now s) p t = handle_signal-Kept now s p t
  step-Kept (job_ends i now o) p t =
      unfold on_job in end_of-Kept i now o p (get_elem? p.jobs i) t refl
  step-Kept negotiation_needed p t =
      unfold on_negotiation_needed wait in
      either_Kept is 0 p (p.closed || p.making_offer) _ _
        (calm_Kept is 0 p _ t refl refl refl refl refl refl)
        (calm_Kept is 0 p _ t refl refl refl (omega arith) (omega arith) refl)
  step-Kept (offer_call ok label) p t =
      unfold create_offer wait setup_channel in
      either_Kept is 0 p ok _ _
        (calm_Kept is 0 p _ t refl refl refl (omega arith) (omega arith) refl)
        (calm_Kept is 0 p _ t refl refl refl refl refl refl)
  step-Kept (restart_call ok) p t = restart-Kept ok p t
  step-Kept (ice_candidate c) p t = calm_Kept is 0 p _ t refl refl refl refl refl refl
  step-Kept (connection_changes up) p t =
      unfold on_connection in calm_Kept is 0 p _ t refl refl refl refl refl (ground arith)
  step-Kept (connection_changes down) p t =
      unfold on_connection in calm_Kept is 0 p _ t refl refl refl refl refl (ground arith)
  step-Kept (connection_changes other) p t =
      unfold on_connection in calm_Kept is 0 p _ t refl refl refl refl refl refl
  step-Kept (ice_fails ok) p t = restart-Kept ok p t
  step-Kept (channel_call label) p t =
      unfold create_data_channel setup_channel in calm_Kept is 0 p _ t refl refl refl refl refl refl
  step-Kept (channel_comes label) p t =
      unfold on_data_channel setup_channel in
      calm_Kept is 0 p _ t refl refl refl refl refl (ground arith)
  step-Kept (channel_opens ch) p t =
      unfold on_channel_open in calm_Kept is 0 p _ t refl refl refl refl refl (ground arith)
  step-Kept (message d label) p t =
      unfold on_channel_message in calm_Kept is 0 p _ t refl refl refl refl refl (ground arith)
  step-Kept (channel_closes label) p t =
      unfold on_channel_close in calm_Kept is 0 p _ t refl refl refl refl refl (ground arith)
  step-Kept channel_fails p t =
      unfold on_channel_error in calm_Kept is 0 p _ t refl refl refl refl refl (ground arith)
  step-Kept (send_call is_open d label) p t =
      unfold send in
      calm_Kept is 0 p _ t refl refl refl refl refl
        (added-sent_over S C D is is_open (Dict.get label p.channels) d label)
  step-Kept close_call p t =
      unfold close in
      either_Kept is 0 p p.closed _ _ (calm_Kept is 0 p _ t refl refl refl refl refl refl) (
        calm_Kept is 0 p _ t refl refl refl refl refl
          (added-close_channels S C D is (Dict.values p.channels)))

  run-Kept :
      (es : List (Event S C D)) (p : Peer S C)
      → early p ≡ 0
      → Kept is (all_received is es p) p (run es p)
  unfolding run all_received
  run-Kept [] p t = calm_Kept is 0 p _ t refl refl refl refl refl (unfold added in refl)
  run-Kept (e ∷ es) p t =
      let (p1, xs) = step e p in
      let k = step-Kept e p t in
      let m = run-Kept es p1 k.in_time in
      let apart = added-append is xs (run es p1).1 in
      record {
        total = omega (arith, k.total, m.total, apart);
        in_time = m.in_time;
        none_early = ground (arith, k.none_early, m.none_early, m.stays, apart);
        stays = ground (arith, k.stays, m.stays);
      }

  -- Of the candidates that a new peer receives over any run of events and that a test picks out, as
  -- many are given to the connection, or still kept to be given to it, or more: none is lost,
  -- whichever promises are rejected. While the peer has no remote description it gives none to the
  -- connection.
  pub run-keeps_candidates :
      (es : List (Event S C D))
      → (all_received is es new_peer ≤ added is (run es new_peer).1 + held is (run es new_peer).0)
        × ((if (run es new_peer).0.remote_desc_set then 0 else added is (run es new_peer).1) ≡ 0)
  unfolding new_peer weigh held count
  run-keeps_candidates es =
      let k = run-Kept es new_peer refl in (omega (arith, k.total), k.none_early)
