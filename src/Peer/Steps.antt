-- ===== src/Peer/Steps.antt =====
-- peer.ts: the events of a peer and of its connection, and runs of them.
use peer_server.Prelude.{
  ℕ, suc, Bool, Option, none, some, List, [], ◌∷◌, ◌++◌, Text, get_elem?, take, drop,
}
use peer_server.Peer.{
  Signaling, Job, Peer, Signal, candidate, Effect, send_signal, connected, disconnected, emit,
  create_data_channel, on_data_channel, on_channel_open, on_channel_message, on_channel_close,
  on_channel_error, send, close,
}
use peer_server.Peer.Jobs.{on_negotiation_needed, create_offer, restart, handle_signal, resume}

-- The connection states that the code tells apart.
pub data Connection : Type 0 where
  up down other : Connection

pub data Event (S C D : Type 0) : Type 0 where
  signal : Signaling → Signal S C → Event S C D
  -- the job at a place, the signaling state then, and the description; none is a rejection
  job_ends : ℕ → Signaling → Option S → Event S C D
  negotiation_needed : Event S C D
  offer_call : Bool → Text → Event S C D
  restart_call : Bool → Event S C D
  ice_candidate : C → Event S C D
  connection_changes : Connection → Event S C D
  ice_fails : Bool → Event S C D
  channel_call channel_comes : Text → Event S C D
  channel_opens : ℕ → Event S C D
  message : D → Text → Event S C D
  channel_closes : Text → Event S C D
  channel_fails : Event S C D
  send_call : (ℕ → Bool) → D → Text → Event S C D
  close_call : Event S C D

abbrev pub without_job : {S C : Type 0} → ℕ → Peer S C → Peer S C
without_job i p = record p { jobs = take i p.jobs ++ drop (suc i) p.jobs }

module _ {S C D : Type 0} where
  -- `onconnectionstatechange`
  unfoldable pub on_connection : Connection → Peer S C → List (Effect S C D)
  on_connection up p = emit connected p
  on_connection down p = emit disconnected p
  on_connection other p = []

  abbrev pub end_of :
      Option (Job S C) → ℕ → Signaling → Option S → Peer S C → Peer S C × List (Effect S C D)
  end_of none i now o p = (p, [])
  end_of (some j) i now o p = resume now o j (without_job i p)

  unfoldable pub on_job : ℕ → Signaling → Option S → Peer S C → Peer S C × List (Effect S C D)
  unfolding resume
  on_job i now o p = end_of (get_elem? p.jobs i) i now o p

  unfoldable pub step : Event S C D → Peer S C → Peer S C × List (Effect S C D)
  unfolding handle_signal on_job on_negotiation_needed create_offer restart on_connection
      create_data_channel on_data_channel on_channel_open on_channel_message on_channel_close
      on_channel_error send close
  step (signal now s) p = handle_signal now s p
  step (job_ends i now o) p = on_job i now o p
  step negotiation_needed p = on_negotiation_needed p
  step (offer_call ok label) p = create_offer ok label p
  step (restart_call ok) p = restart ok p
  step (ice_candidate c) p = (p, send_signal (candidate (some c)) ∷ [])
  step (connection_changes s) p = (p, on_connection s p)
  step (ice_fails ok) p = restart ok p
  step (channel_call label) p = create_data_channel label p
  step (channel_comes label) p = on_data_channel label p
  step (channel_opens ch) p = (p, on_channel_open ch p)
  step (message d label) p = (p, on_channel_message d label p)
  step (channel_closes label) p = on_channel_close label p
  step channel_fails p = (p, on_channel_error p)
  step (send_call is_open d label) p = (p, send is_open d label p)
  step close_call p = close p

  unfoldable pub run : List (Event S C D) → Peer S C → Peer S C × List (Effect S C D)
  unfolding step
  run [] p = (p, [])
  run (e ∷ es) p = let (p1, xs) = step e p in let (p2, ys) = run es p1 in (p2, xs ++ ys)
