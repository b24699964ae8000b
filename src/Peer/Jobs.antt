-- ===== src/Peer/Jobs.antt =====
-- peer.ts: the async functions, up to where they wait and from there on.
use peer_server.Prelude.{
  ◌||◌, Bool, true, false, not, Option, none, some, List, [], ◌∷◌, ◌++◌, Text, if◌then◌else◌,
}
use peer_server.Peer.{
  Signaling, is_stable, is_closed_state, Job, needed, needed_local, offering, offering_local,
  remote_offer, flushing_offer, answering, answering_local, remote_answer, flushing_answer, adding,
  restarting, restarting_local, Peer, Signal, offer, answer, candidate, Effect, ask_offer,
  ask_answer, restart_ice, set_local, set_remote, add_candidate, create_channel, send_signal,
  failed, error_event, emit, wait, setup_channel,
}

-- `finally`
abbrev pub done_offer : {S C : Type 0} → Peer S C → Peer S C
done_offer p = record p { making_offer = false }

module _ {S C D : Type 0} where
  -- The handler of `negotiationneeded`.
  unfoldable pub on_negotiation_needed : Peer S C → Peer S C × List (Effect S C D)
  unfolding wait
  on_negotiation_needed p =
      if p.closed || p.making_offer
      then (p, [])
      else (wait needed (record p { making_offer = true }), ask_offer ∷ [])

  -- `createOffer`; `ok` is whether the connection makes the channel.
  unfoldable pub create_offer : Bool → Text → Peer S C → Peer S C × List (Effect S C D)
  unfolding wait setup_channel
  create_offer ok label p =
      if ok
      then (
        wait offering (setup_channel label (record p { making_offer = true })),
        create_channel label ∷ ask_offer ∷ [],
      )
      else (done_offer p, create_channel label ∷ [])

  -- `restartIce`; `ok` is whether the connection's own restartIce returns.
  unfoldable pub restart : Bool → Peer S C → Peer S C × List (Effect S C D)
  unfolding wait
  restart ok p =
      if p.closed
      then (p, [])
      else (if ok
          then (wait restarting p, restart_ice ∷ ask_offer ∷ [])
          else (p, restart_ice ∷ error_event ∷ []))

  -- `handleSignal` up to where it waits first.
  unfoldable pub on_offer : Signaling → S → Peer S C → Peer S C × List (Effect S C D)
  unfolding wait
  on_offer now sdp p =
      if p.making_offer || not (is_stable now)
      then (p, [])
      else (wait remote_offer p, set_remote sdp ∷ [])

  unfoldable pub on_answer : Signaling → S → Peer S C → Peer S C × List (Effect S C D)
  unfolding wait
  on_answer now sdp p =
      if is_stable now then (p, []) else (wait remote_answer p, set_remote sdp ∷ [])

  unfoldable pub on_candidate : Option C → Peer S C → Peer S C × List (Effect S C D)
  unfolding wait
  on_candidate none p = (p, emit error_event p)
  on_candidate (some c) p =
      if p.remote_desc_set
      then (wait adding p, add_candidate c ∷ [])
      else (record p { pending = p.pending ++ c ∷ [] }, [])

  abbrev pub dispatch : Signaling → Signal S C → Peer S C → Peer S C × List (Effect S C D)
  dispatch now (offer sdp) p = on_offer now sdp p
  dispatch now (answer sdp) p = on_answer now sdp p
  dispatch now (candidate c) p = on_candidate c p

  unfoldable pub handle_signal : Signaling → Signal S C → Peer S C → Peer S C × List (Effect S C D)
  unfolding on_offer on_answer on_candidate
  handle_signal now s p = if p.closed then (p, []) else dispatch now s p

  -- `flushCandidates`, from the candidates that are left, and what follows it.
  unfoldable pub flush_offer : List C → Peer S C → Peer S C × List (Effect S C D)
  unfolding wait
  flush_offer [] p = (wait answering (record p { pending = [] }), ask_answer ∷ [])
  flush_offer (c ∷ cs) p = (wait (flushing_offer cs) p, add_candidate c ∷ [])

  unfoldable pub flush_answer : List C → Peer S C → Peer S C × List (Effect S C D)
  unfolding wait
  flush_answer [] p = (record p { pending = [] }, [])
  flush_answer (c ∷ cs) p = (wait (flushing_answer cs) p, add_candidate c ∷ [])

  -- A job goes on: its promise is fulfilled, with a description where it was for one, or rejected.
  unfoldable pub fulfil : Signaling → S → Job S C → Peer S C → Peer S C × List (Effect S C D)
  unfolding wait flush_offer flush_answer
  fulfil now sdp needed p =
      if is_stable now then (wait (needed_local sdp) p, set_local sdp ∷ []) else (done_offer p, [])
  fulfil now _ (needed_local sdp) p = (done_offer p, send_signal (offer sdp) ∷ [])
  fulfil now sdp offering p =
      if is_closed_state now
      then (done_offer p, [])
      else (wait (offering_local sdp) p, set_local sdp ∷ [])
  fulfil now _ (offering_local sdp) p = (done_offer p, send_signal (offer sdp) ∷ [])
  fulfil now _ remote_offer p = flush_offer p.pending (record p { remote_desc_set = true })
  fulfil now _ (flushing_offer cs) p = flush_offer cs p
  fulfil now sdp answering p = (wait (answering_local sdp) p, set_local sdp ∷ [])
  fulfil now _ (answering_local sdp) p = (p, send_signal (answer sdp) ∷ [])
  fulfil now _ remote_answer p = flush_answer p.pending (record p { remote_desc_set = true })
  fulfil now _ (flushing_answer cs) p = flush_answer cs p
  fulfil now _ adding p = (p, [])
  fulfil now sdp restarting p =
      if p.closed || not (is_stable now)
      then (p, [])
      else (wait (restarting_local sdp) p, set_local sdp ∷ [])
  fulfil now _ (restarting_local sdp) p = (p, send_signal (offer sdp) ∷ [])

  -- A rejection within flushCandidates is caught there; one within `createOffer` goes to its caller.
  unfoldable pub reject : Job S C → Peer S C → Peer S C × List (Effect S C D)
  unfolding flush_offer flush_answer
  reject offering p = (done_offer p, [])
  reject (offering_local sdp) p = (done_offer p, [])
  reject needed p = (done_offer p, emit (failed needed) p)
  reject (needed_local sdp) p = (done_offer p, emit (failed (needed_local sdp)) p)
  reject (flushing_offer cs) p =
      let (p', es) = flush_offer cs p in (p', emit (failed (flushing_offer cs)) p ++ es)
  reject (flushing_answer cs) p =
      let (p', es) = flush_answer cs p in (p', emit (failed (flushing_answer cs)) p ++ es)
  reject j p = (p, emit (failed j) p)

  -- `none` is a rejection.
  unfoldable pub resume : Signaling → Option S → Job S C → Peer S C → Peer S C × List (Effect S C D)
  unfolding fulfil reject
  resume now none j p = reject j p
  resume now (some sdp) j p = fulfil now sdp j p
