-- ===== src/Peer/Offers.antt =====
-- The flag of a peer (peer.ts) that it makes an offer: it is reset, whatever becomes of the offer.
use peer_server.Prelude.{
  ℕ, ◌+◌, ◌≤◌, ◌≡◌, refl, ap, arith, true, Option, none, some, List, [], ◌∷◌, get_elem?,
  if◌then◌else◌,
}
use peer_server.Peer.{
  Signaling, Job, needed, needed_local, offering, offering_local, remote_offer, flushing_offer,
  answering, answering_local, remote_answer, flushing_answer, adding, restarting, restarting_local,
  Peer, new_peer, create_data_channel, on_data_channel, on_channel_close, setup_channel, offer,
  answer, candidate, wait, close,
}
use peer_server.Peer.Jobs.{
  on_offer, on_answer, on_candidate, handle_signal, flush_offer, flush_answer, fulfil, reject,
  resume, on_negotiation_needed, create_offer, restart,
}
use peer_server.Peer.Steps.{
  Event, signal, job_ends, negotiation_needed, offer_call, restart_call, ice_candidate,
  connection_changes, ice_fails, channel_call, channel_comes, channel_opens, message,
  channel_closes, channel_fails, send_call, close_call, on_job, end_of, without_job, step, run,
}
use peer_server.Weights.{weigh, weight_of, weigh-without}

-- A job that resets the flag at its end.
unfoldable pub resets : {S C : Type 0} → Job S C → ℕ
resets needed = 1
resets (needed_local sdp) = 1
resets offering = 1
resets (offering_local sdp) = 1
resets _ = 0

-- A peer that makes an offer has a job that resets the flag.
Honest : {S C : Type 0} → Peer S C → Type 0
Honest p = (if p.making_offer then 1 else 0) ≤ weigh resets p.jobs

module _ {S C : Type 0} (D : Type 0) where
  flush_offer-Honest : (cs : List C) (p : Peer S C) → Honest p → Honest (flush_offer {D = D} cs p).0
  unfolding flush_offer wait Honest weigh resets
  flush_offer-Honest [] p h = omega (arith, h)
  flush_offer-Honest (c ∷ cs) p h = omega (arith, h)

  flush_answer-Honest :
      (cs : List C) (p : Peer S C) → Honest p → Honest (flush_answer {D = D} cs p).0
  unfolding flush_answer wait Honest weigh resets
  flush_answer-Honest [] p h = omega (arith, h)
  flush_answer-Honest (c ∷ cs) p h = omega (arith, h)

  fulfil-Honest :
      (now : Signaling) (sdp : S) (j : Job S C) (p : Peer S C)
      → (if p.making_offer then 1 else 0) ≤ resets j + weigh resets p.jobs
      → Honest (fulfil {D = D} now sdp j p).0
  unfolding fulfil wait Honest weigh resets
  fulfil-Honest now sdp needed p h = ground (arith, h)
  fulfil-Honest now _ (needed_local sdp) p h = ground (arith, h)
  fulfil-Honest now sdp offering p h = ground (arith, h)
  fulfil-Honest now _ (offering_local sdp) p h = ground (arith, h)
  fulfil-Honest now _ remote_offer p h =
      flush_offer-Honest p.pending (record p { remote_desc_set = true }) (omega (arith, h))
  fulfil-Honest now _ (flushing_offer cs) p h = flush_offer-Honest cs p (omega (arith, h))
  fulfil-Honest now sdp answering p h = ground (arith, h)
  fulfil-Honest now _ (answering_local sdp) p h = ground (arith, h)
  fulfil-Honest now _ remote_answer p h =
      flush_answer-Honest p.pending (record p { remote_desc_set = true }) (omega (arith, h))
  fulfil-Honest now _ (flushing_answer cs) p h = flush_answer-Honest cs p (omega (arith, h))
  fulfil-Honest now sdp adding p h = ground (arith, h)
  fulfil-Honest now sdp restarting p h = ground (arith, h)
  fulfil-Honest now _ (restarting_local sdp) p h = ground (arith, h)

  reject-Honest :
      (j : Job S C) (p : Peer S C)
      → (if p.making_offer then 1 else 0) ≤ resets j + weigh resets p.jobs
      → Honest (reject {D = D} j p).0
  unfolding reject Honest weigh resets
  reject-Honest needed p h = ground (arith, h)
  reject-Honest (needed_local sdp) p h = ground (arith, h)
  reject-Honest offering p h = ground (arith, h)
  reject-Honest (offering_local sdp) p h = ground (arith, h)
  reject-Honest remote_offer p h = ground (arith, h)
  reject-Honest (flushing_offer cs) p h = flush_offer-Honest cs p (omega (arith, h))
  reject-Honest answering p h = ground (arith, h)
  reject-Honest (answering_local sdp) p h = ground (arith, h)
  reject-Honest remote_answer p h = ground (arith, h)
  reject-Honest (flushing_answer cs) p h = flush_answer-Honest cs p (omega (arith, h))
  reject-Honest adding p h = ground (arith, h)
  reject-Honest restarting p h = ground (arith, h)
  reject-Honest (restarting_local sdp) p h = ground (arith, h)

  end_of-Honest :
      (i : ℕ) (now : Signaling) (o : Option S) (p : Peer S C) (j : Option (Job S C))
      → get_elem? p.jobs i ≡ j
      → Honest p
      → Honest (end_of {D = D} j i now o p).0
  unfolding resume Honest
  end_of-Honest i now o p none e h = h
  end_of-Honest i now none p (some j) e h =
      reject-Honest j (without_job i p)
        (omega (arith, h, weigh-without resets i p.jobs, ap (weight_of resets) e))
  end_of-Honest i now (some sdp) p (some j) e h =
      fulfil-Honest now sdp j (without_job i p)
        (omega (arith, h, weigh-without resets i p.jobs, ap (weight_of resets) e))

module _ {S C D : Type 0} where
  step-Honest : (e : Event S C D) (p : Peer S C) → Honest p → Honest (step e p).0
  unfolding step Honest weigh resets
  step-Honest (signal now (offer sdp)) p h = unfold handle_signal on_offer wait in ground (arith, h)
  step-Honest (signal now (answer sdp)) p h =
      unfold handle_signal on_answer wait in ground (arith, h)
  step-Honest (signal now (candidate none)) p h =
      unfold handle_signal on_candidate wait in ground (arith, h)
  step-Honest (signal now (candidate (some c))) p h =
      unfold handle_signal on_candidate wait in ground (arith, h)
  step-Honest (job_ends i now o) p h =
      unfold on_job in end_of-Honest D i now o p (get_elem? p.jobs i) refl h
  step-Honest negotiation_needed p h = unfold on_negotiation_needed wait in ground (arith, h)
  step-Honest (offer_call ok label) p h =
      unfold create_offer wait setup_channel in ground (arith, h)
  step-Honest (restart_call ok) p h = unfold restart wait in ground (arith, h)
  step-Honest (ice_candidate c) p h = h
  step-Honest (connection_changes s) p h = h
  step-Honest (ice_fails ok) p h = unfold restart wait in ground (arith, h)
  step-Honest (channel_call label) p h = unfold create_data_channel setup_channel in h
  step-Honest (channel_comes label) p h = unfold on_data_channel setup_channel in h
  step-Honest (channel_opens ch) p h = h
  step-Honest (message d label) p h = h
  step-Honest (channel_closes label) p h = unfold on_channel_close in h
  step-Honest channel_fails p h = h
  step-Honest (send_call is_open d label) p h = h
  step-Honest close_call p h = unfold close in ground (arith, h)

  run-Honest : (es : List (Event S C D)) (p : Peer S C) → Honest p → Honest (run es p).0
  unfolding run
  run-Honest [] p h = h
  run-Honest (e ∷ es) p h = run-Honest es (step e p).0 (step-Honest e p h)

  -- After any run of a new peer, it counts as making an offer only while a job waits that resets
  -- this at its end, whichever promises were rejected before: where none waits, it does not.
  pub run-making_offer :
      (es : List (Event S C D))
      → (if (run es new_peer).0.making_offer then 1 else 0) ≤ weigh resets (run es new_peer).0.jobs
  unfolding new_peer Honest weigh
  run-making_offer es = run-Honest es new_peer (omega arith)
