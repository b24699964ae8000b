-- ===== src/Tests/Peers.antt =====
-- A peer of peer.ts that answers an offer, with candidates before and after it, and two peers that
-- offer at once.
use peer_server.Prelude.{
  ℕ, ◌+◌, ◌≡◌, ◌≤◌, refl, true, none, some, List, [], ◌∷◌, Text, ltb, if◌then◌else◌,
}
use peer_server.Dict
use peer_server.Peer.{
  new_peer, stable, negotiating, offer, candidate, create_channel, ask_offer, set_local,
  send_signal,
}
use peer_server.Peer.Steps.{Event, signal, job_ends, offer_call, close_call, run}
use peer_server.Weights.{weigh}
use peer_server.Peer.Flushing.{all_received, added, held}
use peer_server.Peer.Candidates.{run-keeps_candidates}
use peer_server.Peer.Answers.{all_taken, all_broken, answered, underway, run-answers_offers}
use peer_server.Peer.Offers.{resets, run-making_offer}

abbrev label : Text
label = 100 ∷ []

-- The candidates are 1, 2 and 3; adding 1 is rejected.
abbrev story : List (Event ℕ ℕ ℕ)
story =
    signal stable (candidate (some 1))
    ∷ signal stable (offer 7)
    ∷ signal stable (candidate (some 2))
    ∷ job_ends 0 negotiating (some 0)
    ∷ signal negotiating (candidate (some 3))
    ∷ job_ends 1 negotiating none
    ∷ job_ends 0 negotiating (some 0)
    ∷ job_ends 0 negotiating (some 8)
    ∷ job_ends 0 stable (some 0)
    ∷ close_call
    ∷ []

run-keeps_candidates_example :
    (all_received (ltb 1) story new_peer
      ≤ added (ltb 1) (run story new_peer).1 + held (ltb 1) (run story new_peer).0)
    × ((if (run story new_peer).0.remote_desc_set then 0 else added (ltb 1) (run story new_peer).1)
        ≡ 0)
run-keeps_candidates_example = run-keeps_candidates (ltb 1) story

-- All three are given to the connection.
story-adds : added (λ c. true) (run story new_peer).1 ≡ 3
unfolding added run new_peer Dict.values
story-adds = refl

run-answers_offers_example :
    all_taken story new_peer
    ≡ all_broken story new_peer
      + answered (run story new_peer).1
      + weigh underway (run story new_peer).0.jobs
run-answers_offers_example = run-answers_offers story

story-answers : answered (run story new_peer).1 ≡ 1
unfolding answered run new_peer Dict.values
story-answers = refl

abbrev offering_story : ℕ → ℕ → List (Event ℕ ℕ ℕ)
offering_story own others =
    offer_call true label
    ∷ job_ends 0 stable (some own)
    ∷ job_ends 0 negotiating (some own)
    ∷ signal negotiating (offer others)
    ∷ []

run-making_offer_example :
    (if (run (offering_story 5 6) new_peer).0.making_offer then 1 else 0)
    ≤ weigh resets (run (offering_story 5 6) new_peer).0.jobs
run-making_offer_example = run-making_offer (offering_story 5 6)

-- Of two peers that offer at once, each sends its offer and then leaves the other's alone: no job
-- waits and no answer is sent.
both-wait :
    ((run (offering_story 5 6) new_peer).0.jobs ≡ [])
    × ((run (offering_story 5 6) new_peer).1
        ≡ create_channel label ∷ ask_offer ∷ set_local 5 ∷ send_signal (offer 5) ∷ [])
unfolding run new_peer
both-wait = (refl, refl)
