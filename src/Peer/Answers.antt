-- ===== src/Peer/Answers.antt =====
-- The offers of the other side that a peer (peer.ts) takes up: each one comes to its answer.
use peer_server.Prelude.{
  ℕ, suc, ◌+◌, ◌≡◌, refl, ap, arith, Bool, true, not, ◌||◌, Option, none, some, List, [], ◌∷◌, ◌++◌,
  Text, get_elem?, if◌then◌else◌,
}
use peer_server.Dict
use peer_server.Peer.{
  Signaling, is_stable, Job, needed, needed_local, offering, offering_local, remote_offer,
  flushing_offer, answering, answering_local, remote_answer, flushing_answer, adding, restarting,
  restarting_local, Peer, new_peer, create_data_channel, on_data_channel, on_channel_open,
  on_channel_message, on_channel_close, on_channel_error, setup_channel, ask_answer, send_signal,
  offer, answer, candidate, Effect, add_candidate, failed, emit, wait, close_channels, close, send,
  sent_over, close_connection,
}
use peer_server.Peer.Jobs.{
  on_offer, on_answer, on_candidate, handle_signal, flush_offer, flush_answer, fulfil, reject,
  resume, on_negotiation_needed, create_offer, restart,
}
use peer_server.Peer.Steps.{
  up, down, other, on_connection, Event, signal, job_ends, negotiation_needed, offer_call,
  restart_call, ice_candidate, connection_changes, ice_fails, channel_call, channel_comes,
  channel_opens, message, channel_closes, channel_fails, send_call, close_call, on_job, end_of,
  without_job, step, run,
}
use peer_server.Weights.{weigh, weight_of, weigh-without}

-- A job that is to end in an answer.
unfoldable pub underway : {S C : Type 0} → Job S C → ℕ
underway remote_offer = 1
underway (flushing_offer cs) = 1
underway answering = 1
underway (answering_local sdp) = 1
underway _ = 0

-- Whether the answer is off where the promise of a job is rejected.
unfoldable pub fragile : {S C : Type 0} → Job S C → ℕ
fragile remote_offer = 1
fragile answering = 1
fragile (answering_local sdp) = 1
fragile _ = 0

module _ {S C D : Type 0} where
  unfoldable pub answered : List (Effect S C D) → ℕ
  answered [] = 0
  answered (send_signal (answer sdp) ∷ es) = suc (answered es)
  answered (_ ∷ es) = answered es

  -- An offer that comes where the peer is open, makes no offer and has a stable connection.
  unfoldable pub taken : Event S C D → Peer S C → ℕ
  taken (signal now (offer sdp)) p =
      if p.closed then 0 else (if p.making_offer || not (is_stable now) then 0 else 1)
  taken _ p = 0

  -- A rejected promise on the way to an answer.
  unfoldable pub broken : Event S C D → Peer S C → ℕ
  unfolding fragile
  broken (job_ends i now none) p = weight_of fragile (get_elem? p.jobs i)
  broken _ p = 0

  unfoldable pub all_taken : List (Event S C D) → Peer S C → ℕ
  unfolding taken
  all_taken [] p = 0
  all_taken (e ∷ es) p = taken e p + all_taken es (step e p).0

  unfoldable pub all_broken : List (Event S C D) → Peer S C → ℕ
  unfolding broken
  all_broken [] p = 0
  all_broken (e ∷ es) p = broken e p + all_broken es (step e p).0

  answered-append : (es fs : List (Effect S C D)) → answered (es ++ fs) ≡ answered es + answered fs
  unfolding answered
  answered-append [] fs = omega arith
  answered-append (send_signal (answer sdp) ∷ es) fs = omega (arith, answered-append es fs)
  answered-append (send_signal (offer sdp) ∷ es) fs = answered-append es fs
  answered-append (send_signal (candidate c) ∷ es) fs = answered-append es fs
  answered-append (_ ∷ es) fs = answered-append es fs

module _ {S C : Type 0} (D : Type 0) where
  fulfil-answers :
      (now : Signaling) (sdp : S) (j : Job S C) (p : Peer S C)
      → answered (fulfil {D = D} now sdp j p).1 + weigh underway (fulfil {D = D} now sdp j p).0.jobs
        ≡ underway j + weigh underway p.jobs
  unfolding fulfil wait flush_offer flush_answer answered weigh underway
  fulfil-answers now sdp needed p = ground arith
  fulfil-answers now _ (needed_local sdp) p = ground arith
  fulfil-answers now sdp offering p = ground arith
  fulfil-answers now _ (offering_local sdp) p = ground arith
  fulfil-answers now _ remote_offer p = flushing p.pending
    where
      flushing :
          (cs : List C)
          → let q = flush_offer {D = D} cs (record p { remote_desc_set = true }) in
            answered q.1 + weigh underway q.0.jobs ≡ 1 + weigh underway p.jobs
      flushing [] = omega arith
      flushing (c ∷ cs) = omega arith
  fulfil-answers now _ (flushing_offer []) p = omega arith
  fulfil-answers now _ (flushing_offer (c ∷ cs)) p = omega arith
  fulfil-answers now sdp answering p = omega arith
  fulfil-answers now _ (answering_local sdp) p = omega arith
  fulfil-answers now _ remote_answer p = flushing p.pending
    where
      flushing :
          (cs : List C)
          → let q = flush_answer {D = D} cs (record p { remote_desc_set = true }) in
            answered q.1 + weigh underway q.0.jobs ≡ 0 + weigh underway p.jobs
      flushing [] = omega arith
      flushing (c ∷ cs) = omega arith
  fulfil-answers now _ (flushing_answer []) p = omega arith
  fulfil-answers now _ (flushing_answer (c ∷ cs)) p = omega arith
  fulfil-answers now sdp adding p = omega arith
  fulfil-answers now sdp restarting p = ground arith
  fulfil-answers now _ (restarting_local sdp) p = omega arith

  answered_failure :
      (j : Job S C) (p : Peer S C) (es : List (Effect S C D))
      → answered (emit (failed j) p ++ es) ≡ answered es
  answered_failure j p es =
      let none_there : answered {D = D} (emit (failed j) p) ≡ 0 = unfold answered in ground arith in
      omega (arith, answered-append (emit (failed j) p) es, none_there)

  reject-answers :
      (j : Job S C) (p : Peer S C)
      → fragile j + answered (reject {D = D} j p).1 + weigh underway (reject {D = D} j p).0.jobs
        ≡ underway j + weigh underway p.jobs
  unfolding reject wait flush_offer flush_answer answered weigh underway fragile
  reject-answers needed p = ground arith
  reject-answers (needed_local sdp) p = ground arith
  reject-answers offering p = ground arith
  reject-answers (offering_local sdp) p = ground arith
  reject-answers remote_offer p = ground arith
  reject-answers (flushing_offer []) p =
      omega (arith, answered_failure (flushing_offer []) p (ask_answer ∷ []))
  reject-answers (flushing_offer (c ∷ cs)) p =
      omega (arith, answered_failure (flushing_offer (c ∷ cs)) p (add_candidate c ∷ []))
  reject-answers answering p = ground arith
  reject-answers (answering_local sdp) p = ground arith
  reject-answers remote_answer p = ground arith
  reject-answers (flushing_answer []) p =
      omega (arith, answered_failure (flushing_answer []) p ([]))
  reject-answers (flushing_answer (c ∷ cs)) p =
      omega (arith, answered_failure (flushing_answer (c ∷ cs)) p (add_candidate c ∷ []))
  reject-answers adding p = ground arith
  reject-answers restarting p = ground arith
  reject-answers (restarting_local sdp) p = ground arith

  end_of-answers :
      (i : ℕ) (now : Signaling) (o : Option S) (p : Peer S C) (j : Option (Job S C))
      → get_elem? p.jobs i ≡ j
      → broken {D = D} (job_ends i now o) p
          + answered (end_of {D = D} j i now o p).1
          + weigh underway (end_of {D = D} j i now o p).0.jobs
        ≡ weigh underway p.jobs
  unfolding resume broken answered
  end_of-answers i now none p none e = omega (arith, ap (weight_of fragile) e)
  end_of-answers i now (some sdp) p none e = omega arith
  end_of-answers i now none p (some j) e = omega (
    arith,
    weigh-without underway i p.jobs,
    ap (weight_of underway) e,
    ap (weight_of fragile) e,
    reject-answers j (without_job i p),
  )
  end_of-answers i now (some sdp) p (some j) e = omega (
    arith,
    weigh-without underway i p.jobs,
    ap (weight_of underway) e,
    fulfil-answers now sdp j (without_job i p),
  )

module _ (S C D : Type 0) where
  answered-close_channels :
      (chs : List ℕ)
      → answered {S = S} {C = C} {D = D} (close_channels chs ++ close_connection ∷ []) ≡ 0
  unfolding answered
  answered-close_channels [] = refl
  answered-close_channels (ch ∷ chs) = answered-close_channels chs

  answered-sent_over :
      (is_open : ℕ → Bool) (o : Option ℕ) (d : D) (label : Text)
      → answered {S = S} {C = C} (sent_over is_open o d label) ≡ 0
  unfolding answered
  answered-sent_over is_open none d label = refl
  answered-sent_over is_open (some ch) d label = ground arith

module _ {S C D : Type 0} where
  step-answers :
      (e : Event S C D) (p : Peer S C)
      → taken e p + weigh underway p.jobs
        ≡ broken e p + answered (step e p).1 + weigh underway (step e p).0.jobs
  unfolding step taken broken answered weigh underway
  step-answers (signal now (offer sdp)) p = unfold handle_signal on_offer wait in ground arith
  step-answers (signal now (answer sdp)) p = unfold handle_signal on_answer wait in ground arith
  step-answers (signal now (candidate none)) p =
      unfold handle_signal on_candidate wait in ground arith
  step-answers (signal now (candidate (some c))) p =
      unfold handle_signal on_candidate wait in ground arith
  step-answers (job_ends i now none) p =
      unfold on_job in omega (arith, end_of-answers D i now none p (get_elem? p.jobs i) refl)
  step-answers (job_ends i now (some sdp)) p =
      unfold on_job in omega (arith, end_of-answers D i now (some sdp) p (get_elem? p.jobs i) refl)
  step-answers negotiation_needed p = unfold on_negotiation_needed wait in ground arith
  step-answers (offer_call ok label) p = unfold create_offer wait setup_channel in ground arith
  step-answers (restart_call ok) p = unfold restart wait in ground arith
  step-answers (ice_candidate c) p = omega arith
  step-answers (connection_changes up) p = unfold on_connection in ground arith
  step-answers (connection_changes down) p = unfold on_connection in ground arith
  step-answers (connection_changes other) p = unfold on_connection in ground arith
  step-answers (ice_fails ok) p = unfold restart wait in ground arith
  step-answers (channel_call label) p = unfold create_data_channel setup_channel in ground arith
  step-answers (channel_comes label) p = unfold on_data_channel setup_channel in ground arith
  step-answers (channel_opens ch) p = unfold on_channel_open in ground arith
  step-answers (message d label) p = unfold on_channel_message in ground arith
  step-answers (channel_closes label) p = unfold on_channel_close in ground arith
  step-answers channel_fails p = unfold on_channel_error in ground arith
  step-answers (send_call is_open d label) p =
      unfold send in
      omega (arith, answered-sent_over S C D is_open (Dict.get label p.channels) d label)
  step-answers close_call p =
      unfold close in ground (arith, answered-close_channels S C D (Dict.values p.channels))

  run-answers :
      (es : List (Event S C D)) (p : Peer S C)
      → all_taken es p + weigh underway p.jobs
        ≡ all_broken es p + answered (run es p).1 + weigh underway (run es p).0.jobs
  unfolding run all_taken all_broken
  run-answers [] p = unfold answered in omega arith
  run-answers (e ∷ es) p =
      let (p1, xs) = step e p in
      omega (arith, step-answers e p, run-answers es p1, answered-append xs (run es p1).1)

  -- Over any run of a new peer, the offers that it takes up are as many as the answers that it
  -- sends, the promises on the way to one that are rejected, and the jobs that are on the way to
  -- one, taken together.
  pub run-answers_offers :
      (es : List (Event S C D))
      → all_taken es new_peer
        ≡ all_broken es new_peer
          + answered (run es new_peer).1
          + weigh underway (run es new_peer).0.jobs
  unfolding new_peer weigh
  run-answers_offers es = omega (arith, run-answers es new_peer)
