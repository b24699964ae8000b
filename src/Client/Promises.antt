-- ===== src/Client/Promises.antt =====
-- Runs of a PeerClient (client.ts), for the promises that it makes.
use peer_server.Prelude.{
  ℕ, ◌+◌, ◌≡◌, refl, ap, Bool, true, false, ltb, Option, none, List, [], ◌∷◌, ◌++◌, Text, is_empty,
  arith, if◌then◌else◌,
}
use peer_server.Dict
use peer_server.Dict.{Dict}
use peer_server.Dict.Laws.{Distinct, remove-Distinct}
use peer_server.Client.{
  PeerClient, new_client, hear, on_list, on_error, on_created, on_info, on_timeout, Effect,
  close_transport, peer_left,
}
use peer_server.Client.Calls.{
  join_namespace, leave, discover_peers, make_room, enter_room, ask_info, on_match_timeout,
  reject_register,
}
use peer_server.Client.Peers.{
  is_shut, on_peer_disconnected, close_of, on_signal, clean_peers, close_all,
}
use peer_server.Client.Messages.{
  Message, is_registered, list_came, joined, left, signal_came, relay_came, match_came,
  broadcast_came, created, closed, kick_came, info_came, error_came, on_registered, on_matched,
  on_error_message, handle_message, on_open, reject_all, disconnect, Event, join_call, leave_call,
  discover_call, create_call, enter_call, info_call, match_call, cancel_call, connect_call,
  close_call, disconnect_call, connected, keys_came, opened, transport_closed, message_came,
  timer_fires, match_timer_fires, peer_shuts, peer_disconnects, step, run,
}
use peer_server.Client.Counting.{
  count_requests, count_matches, count_register, waiting, fresh, settled, settled-append,
  count_matches-remove, settled-rejects,
}
use peer_server.Client.Settling.{
  Balanced, Same, Same-refl, drop_peer-Same, shut_made-Same, fresh_none, settled_register,
  Same-Balanced, ask-Balanced, hear-Balanced, cancel_match-Balanced, find_match-Balanced,
  timed_out-Balanced, either_Balanced, drop_register-Balanced, Balanced-trans, do_register-Balanced,
  on_keys-Balanced,
}
use peer_server.Client.Keeping.{
  make_peer-Same, close_all-Same, close_of-Same, connect_to_peer-Same, clean_peers-Same,
  settled-register_effects, settled-match_effects,
}

module _ {D : Type 0} where
  -- Effects that settle the same.
  as_Balanced :
      (id : ℕ) (c c' : PeerClient) (es fs : List (Effect D))
      → Balanced id c (c', es)
      → settled id fs ≡ settled id es
      → Balanced id c (c', fs)
  as_Balanced id c c' es fs p e = record {
    balance = omega (arith, p.balance, e);
    grows = p.grows;
    tidy = p.tidy;
  }

  quiet_Balanced :
      (id : ℕ) (c : PeerClient) (r : PeerClient × List (Effect D))
      → Distinct c.matches
      → Same c r.0 × (settled id r.1 ≡ 0)
      → Balanced id c r
  quiet_Balanced id c r t (s, z) = Same-Balanced id c r.0 r.1 t s z

  on_registered-Balanced :
      (id : ℕ) (fp : Text) (c : PeerClient)
      → Distinct c.matches
      → Balanced {D = D} id c (on_registered fp c)
  unfolding on_registered
  on_registered-Balanced id fp c t = record {
    balance = omega (
      arith,
      settled-register_effects D id c.register fp c.books.namespaces,
      fresh_none id c.next_id,
    );
    grows = omega arith;
    tidy = t;
  }

  on_matched-Balanced :
      (id : ℕ) (ns : Text) (c : PeerClient)
      → Distinct c.matches
      → Balanced {D = D} id c (on_matched ns c)
  unfolding on_matched
  on_matched-Balanced id ns c t = record {
    balance = omega (
      arith,
      settled-match_effects D id (Dict.get ns c.matches) ns,
      count_matches-remove id ns c.matches t,
      fresh_none id c.next_id,
    );
    grows = omega arith;
    tidy = remove-Distinct ns c.matches t;
  }

  on_error_message-Balanced :
      (id : ℕ) (c : PeerClient) → Distinct c.matches → Balanced {D = D} id c (on_error_message c)
  unfolding on_error_message settled
  on_error_message-Balanced id c t =
      let (c1, es) = hear {D = D} on_error c in
      let heard = hear-Balanced {D = D} id on_error c t in
      as_Balanced id c (record c1 { register = none }) (es ++ reject_register c1.register) _
        (Balanced-trans id c c1 _ es (reject_register c1.register) heard
          (drop_register-Balanced id c1 heard.tidy))
        refl

  -- Every message of the server.
  handle_message-Balanced :
      (id : ℕ) (m : Message D) (c : PeerClient)
      → Distinct c.matches
      → Balanced id c (handle_message m c)
  unfolding handle_message settled
  handle_message-Balanced id (is_registered fp) c t = on_registered-Balanced id fp c t
  handle_message-Balanced id (list_came ns fps) c t =
      as_Balanced id c _ (hear {D = D} (on_list ns) c).1 _ (hear-Balanced id (on_list ns) c t) refl
  handle_message-Balanced id (joined fp ns) c t = Same-Balanced id c c _ t (Same-refl c) refl
  handle_message-Balanced id (left fp ns) c t =
      as_Balanced id c _ (close_of {D = D} fp c).1 _
        (quiet_Balanced id c _ t (close_of-Same D id fp c))
        (omega (arith, settled-append id (close_of {D = D} fp c).1 (peer_left fp ns ∷ [])))
  handle_message-Balanced id (signal_came from d) c t =
      unfold on_signal in Same-Balanced id c _ _ t (make_peer-Same from c) refl
  handle_message-Balanced id (match_came ns) c t = on_matched-Balanced id ns c t
  handle_message-Balanced id (relay_came from d) c t = Same-Balanced id c c _ t (Same-refl c) refl
  handle_message-Balanced id (broadcast_came from ns d) c t =
      Same-Balanced id c c _ t (Same-refl c) refl
  handle_message-Balanced id (created room) c t =
      as_Balanced id c _ (hear {D = D} (on_created room) c).1 _
        (hear-Balanced id (on_created room) c t) refl
  handle_message-Balanced id (closed room) c t =
      Same-Balanced id c _ _ t
        (record { requests = refl; matches = refl; register = refl; next_id = refl }) refl
  handle_message-Balanced id (kick_came room) c t =
      Same-Balanced id c _ _ t
        (record { requests = refl; matches = refl; register = refl; next_id = refl }) refl
  handle_message-Balanced id (info_came room) c t = hear-Balanced id (on_info room) c t
  handle_message-Balanced id error_came c t = on_error_message-Balanced id c t

  on_open-Balanced :
      (id : ℕ) (failed : ℕ → Bool) (c : PeerClient)
      → Distinct c.matches
      → Balanced {D = D} id c (on_open failed c)
  unfolding on_open
  on_open-Balanced id failed c t =
      let (c1, es) = clean_peers {D = D} failed c.peers c in
      let cleaned = quiet_Balanced id c _ t (clean_peers-Same D id failed c.peers c) in
      either_Balanced id c (is_empty c.fingerprint) _ _
        (Same-Balanced id c c [] t (Same-refl c) (unfold settled in refl))
        (Balanced-trans id c c1 _ es _ cleaned (do_register-Balanced id true c1 cleaned.tidy))

  settled_end :
      (id : ℕ) (es : List (Effect D)) (d : Dict ℕ) (o : Option (ℕ × Bool))
      → settled id (es ++ reject_all d ++ reject_register o ++ close_transport ∷ [])
        ≡ settled id es + count_matches id d + count_register id o
  settled_end id es d o =
      let none_last : settled {D = D} id (close_transport ∷ []) ≡ 0 = unfold settled in refl in
      omega (
        arith,
        settled-append id (es ++ reject_all d ++ reject_register o) (close_transport ∷ []),
        settled-append id (es ++ reject_all d) (reject_register o),
        settled-append id es (reject_all d),
        settled-rejects D id d,
        settled_register D id o,
        none_last,
      )

  disconnect-Balanced :
      (id : ℕ) (c : PeerClient) → Distinct c.matches → Balanced {D = D} id c (disconnect c)
  unfolding disconnect count_matches
  disconnect-Balanced id c t =
      let (c1, es) = close_all {D = D} c.peers c in
      let (s, z) = close_all-Same D id c.peers c in
      let both : settled id
              (es ++ reject_all c.matches ++ reject_register c.register ++ close_transport ∷ [])
            + (count_requests id c1.requests + 0 + 0)
          ≡ waiting id c + fresh id c.next_id c1.next_id =
        omega (
          arith,
          z,
          settled_end id es c.matches c.register,
          ap (count_requests id) s.requests,
          ap (λ n. fresh id c.next_id n) s.next_id,
          fresh_none id c.next_id,
        ) in
      record { balance = both; grows = omega (arith, s.next_id); tidy = tt }

  -- The keys come only where no register promise waits: the code does not look for one there.
  unfoldable pub Orderly : Event D → PeerClient → Type 0
  Orderly (keys_came again saved) c = c.register ≡ none
  Orderly _ c = Unit

  step-Balanced :
      (id : ℕ) (e : Event D) (c : PeerClient)
      → Distinct c.matches
      → Orderly e c
      → Balanced id c (step e c)
  unfolding step Orderly settled on_peer_disconnected
  step-Balanced id (join_call ns) c t o = unfold join_namespace in ask-Balanced id _ _ _ _ c t
  step-Balanced id (leave_call ns) c t o =
      unfold leave in
      Same-Balanced id c _ _ t
        (record { requests = refl; matches = refl; register = refl; next_id = refl }) refl
  step-Balanced id (discover_call ns) c t o = unfold discover_peers in ask-Balanced id _ _ _ _ c t
  step-Balanced id (create_call room) c t o = unfold make_room in ask-Balanced id _ _ _ _ c t
  step-Balanced id (enter_call room) c t o = unfold enter_room in ask-Balanced id _ _ _ _ c t
  step-Balanced id (info_call room) c t o = unfold ask_info in ask-Balanced id _ _ _ _ c t
  step-Balanced id (match_call ns) c t o = find_match-Balanced id ns c t
  step-Balanced id (cancel_call ns) c t o = cancel_match-Balanced id ns c t
  step-Balanced id (connect_call fp) c t o =
      quiet_Balanced id c _ t (connect_to_peer-Same D id fp c)
  step-Balanced id (close_call fp) c t o = quiet_Balanced id c _ t (close_of-Same D id fp c)
  step-Balanced id disconnect_call c t o = disconnect-Balanced id c t
  step-Balanced id connected c t o = do_register-Balanced id false c t
  step-Balanced id (keys_came again saved) c t o = on_keys-Balanced id again saved c t o
  step-Balanced id (opened failed) c t o = on_open-Balanced id failed c t
  step-Balanced id transport_closed c t o = Same-Balanced id c c _ t (Same-refl c) refl
  step-Balanced id (message_came m) c t o = handle_message-Balanced id m c t
  step-Balanced id (timer_fires x) c t o = hear-Balanced id (on_timeout x) c t
  step-Balanced id (match_timer_fires ns x) c t o =
      unfold on_match_timeout in timed_out-Balanced id ns x _ c t refl
  step-Balanced id (peer_shuts x) c t o = Same-Balanced id c _ _ t (shut_made-Same x c) refl
  step-Balanced id (peer_disconnects x) c t o = dropping (is_shut x c) refl
    where
      dropping : (b : Bool) → is_shut x c ≡ b → Balanced {D = D} id c (on_peer_disconnected x c, [])
      dropping true e = rw e (Same-Balanced id c c [] t (Same-refl c) refl)
      dropping false e = rw e (Same-Balanced id c _ [] t (drop_peer-Same _ c) refl)

  unfoldable pub AllOrderly : List (Event D) → PeerClient → Type 0
  AllOrderly [] c = Unit
  AllOrderly (e ∷ es) c = Orderly e c × AllOrderly es (step e c).0

  -- Over a run of events in which the keys never come while a register promise waits, and from a
  -- state whose matches have distinct keys, a promise is settled or still waits, in all as often as
  -- it waited before or was made.
  run-Balanced :
      (id : ℕ) (es : List (Event D)) (c : PeerClient)
      → Distinct c.matches
      → AllOrderly es c
      → Balanced id c (run es c)
  unfolding run AllOrderly settled
  run-Balanced id [] c t o = Same-Balanced id c c [] t (Same-refl c) refl
  run-Balanced id (e ∷ es) c t (o, os) =
      let first = step-Balanced id e c t o in
      Balanced-trans id c (step e c).0 (run es (step e c).0).0 (step e c).1 _ first
        (run-Balanced id es (step e c).0 first.tidy os)

  -- A client that starts anew settles no promise twice, and none that it has not made; each one it
  -- has made and not settled still waits. The keys never come while a register promise waits.
  pub run-settled :
      (id : ℕ) (es : List (Event D))
      → AllOrderly es new_client
      → settled id (run es new_client).1 + waiting id (run es new_client).0
        ≡ (if ltb id (run es new_client).0.next_id then 1 else 0)
  unfolding new_client count_requests count_matches
  run-settled id es o = let p = run-Balanced id es new_client tt o in ground (arith, p.balance)
