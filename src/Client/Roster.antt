-- ===== src/Client/Roster.antt =====
-- The map of the peers of a PeerClient (client.ts) over a run.
use peer_server.Prelude.{
  ℕ, ◌≡◌, refl, Bool, true, false, ◌||◌, ◌==◌, Option, none, some, List, [], ◌∷◌, Text, is_empty,
  text_eq_iff, arith, if◌then◌else◌, get_or,
}
use peer_server.Dict
use peer_server.Dict.{Dict}
use peer_server.Dict.Laws.{get-remove}
use peer_server.Client.{handle_signal, PeerClient, new_client}
use peer_server.Client.Calls.{do_register, timed_out, on_match_timeout}
use peer_server.Client.Peers.{
  among, is_shut, live, make_peer, shut_peer, drop_peer, connect_to_peer, offered, close_of,
  closed_peer, on_signal, clean_peers, close_all,
}
use peer_server.Client.Messages.{
  Message, is_registered, list_came, joined, left, signal_came, relay_came, match_came,
  broadcast_came, created, closed, kick_came, info_came, error_came, handle_message, on_open,
  disconnect, Event, join_call, leave_call, discover_call, create_call, enter_call, info_call,
  match_call, cancel_call, connect_call, close_call, disconnect_call, connected, keys_came, opened,
  transport_closed, message_came, timer_fires, match_timer_fires, peer_shuts, peer_disconnects,
  step, run,
}
use peer_server.Client.Handing.{
  Kept, ShutMade, Sound, make_peer-Sound, drop_peer-Sound, shut_peer-Sound, shut_made-Sound,
  Kept-get, make_peer-IsHandedOut, IsHandedOut,
}

either_Sound :
    {E : Type 0} (b : Bool) (x y : PeerClient × E)
    → Sound x.0
    → Sound y.0
    → Sound (if b then x else y).0
either_Sound true x y p q = p
either_Sound false x y p q = q

module _ (D : Type 0) where
  close_all-Sound :
      (d : Dict ℕ) (c : PeerClient) → Kept c.made d → Sound c → Sound (close_all {D = D} d c).0
  unfolding close_all Kept shut_peer
  close_all-Sound [] c q s = s
  close_all-Sound ((fp, o) ∷ d) c (b, e, q) s =
      close_all-Sound d (shut_peer o c) q (shut_peer-Sound o c b s)

  close_of-Sound : (fp : Text) (c : PeerClient) → Sound c → Sound (close_of {D = D} fp c).0
  unfolding close_of Sound
  close_of-Sound fp c s = closing (Dict.get fp c.peers) refl
    where
      closing : (o : Option ℕ) → Dict.get fp c.peers ≡ o → Sound (closed_peer {D = D} o fp c).0
      closing none e = s
      closing (some o) e =
          drop_peer-Sound fp (shut_peer o c)
            (shut_peer-Sound o c (Kept-get c.made fp c.peers o s.1 e).0 s)

  closed_gone : (fp : Text) (c : PeerClient) → Dict.get fp (close_of {D = D} fp c).0.peers ≡ none
  unfolding close_of drop_peer shut_peer
  closed_gone fp c = closing (Dict.get fp c.peers) refl
    where
      closing :
          (o : Option ℕ)
          → Dict.get fp c.peers ≡ o
          → Dict.get fp (closed_peer {D = D} o fp c).0.peers ≡ none
      closing none e = e
      closing (some o) e = ground (arith, get-remove fp fp c.peers, text_eq_iff fp fp)

  connect_to_peer-Sound :
      (fp : Text) (c : PeerClient) → Sound c → Sound (connect_to_peer {D = D} fp c).0
  unfolding connect_to_peer
  connect_to_peer-Sound fp c s = offering (live (Dict.get fp c.peers) c)
    where
      offering : (o : Option ℕ) → Sound (offered {D = D} o fp c).0
      offering none = make_peer-Sound fp c s
      offering (some o) = s

  clean_peers-Sound :
      (failed : ℕ → Bool) (d : Dict ℕ) (c : PeerClient)
      → Kept c.made d
      → Sound c
      → Sound (clean_peers {D = D} failed d c).0
  unfolding clean_peers Kept drop_peer shut_peer
  clean_peers-Sound failed [] c q s = s
  clean_peers-Sound failed ((fp, o) ∷ d) c (b, e, q) s =
      either_Sound (is_shut o c || failed o) _ _
        (clean_peers-Sound failed d (drop_peer fp (shut_peer o c)) q
          (drop_peer-Sound fp (shut_peer o c) (shut_peer-Sound o c b s)))
        (clean_peers-Sound failed d c q s)

  do_register-Sound :
      (again : Bool) (c : PeerClient) → Sound c → Sound (do_register {D = D} again c).0
  unfolding do_register Sound
  do_register-Sound again c s = either_Sound c.has_keys _ _ s s

  timed_out-Sound :
      (ns : Text) (x : ℕ) (o : Option ℕ) (c : PeerClient)
      → Sound c
      → Sound (timed_out {D = D} ns x o c).0
  unfolding Sound
  timed_out-Sound ns x none c s = s
  timed_out-Sound ns x (some y) c s = either_Sound (y == x) _ _ s s

  disconnect-Sound : (c : PeerClient) → Sound c → Sound (disconnect {D = D} c).0
  unfolding disconnect Sound Kept
  disconnect-Sound c s = (tt, tt, (close_all-Sound c.peers c s.1 s).2)

  on_open-Sound :
      (failed : ℕ → Bool) (c : PeerClient) → Sound c → Sound (on_open {D = D} failed c).0
  unfolding on_open
  on_open-Sound failed c s =
      either_Sound (is_empty c.fingerprint) _ _ s
        (do_register-Sound true _ (clean_peers-Sound failed c.peers c (unfold Sound in s.1) s))

module _ {D : Type 0} where
  handle_message-Sound : (m : Message D) (c : PeerClient) → Sound c → Sound (handle_message m c).0
  unfolding handle_message Sound
  handle_message-Sound (is_registered fp) c s = s
  handle_message-Sound (list_came ns fps) c s = s
  handle_message-Sound (joined fp ns) c s = s
  handle_message-Sound (left fp ns) c s = close_of-Sound D fp c s
  handle_message-Sound (signal_came from d) c s = unfold on_signal in make_peer-Sound from c s
  handle_message-Sound (match_came ns) c s = s
  handle_message-Sound (relay_came from d) c s = s
  handle_message-Sound (broadcast_came from ns d) c s = s
  handle_message-Sound (created room) c s = s
  handle_message-Sound (closed room) c s = s
  handle_message-Sound (kick_came room) c s = s
  handle_message-Sound (info_came room) c s = s
  handle_message-Sound error_came c s = s

  step-Sound : (e : Event D) (c : PeerClient) → Sound c → Sound (step e c).0
  unfolding step Sound
  step-Sound (join_call ns) c s = s
  step-Sound (leave_call ns) c s = s
  step-Sound (discover_call ns) c s = s
  step-Sound (create_call room) c s = s
  step-Sound (enter_call room) c s = s
  step-Sound (info_call room) c s = s
  step-Sound (match_call ns) c s = s
  step-Sound (cancel_call ns) c s = s
  step-Sound (connect_call fp) c s = connect_to_peer-Sound D fp c s
  step-Sound (close_call fp) c s = close_of-Sound D fp c s
  step-Sound disconnect_call c s = disconnect-Sound D c s
  step-Sound connected c s = do_register-Sound D false c s
  step-Sound (keys_came again saved) c s = s
  step-Sound (opened failed) c s = on_open-Sound D failed c s
  step-Sound transport_closed c s = s
  step-Sound (message_came m) c s = handle_message-Sound m c s
  step-Sound (timer_fires x) c s = s
  step-Sound (match_timer_fires ns x) c s =
      unfold on_match_timeout in timed_out-Sound D ns x (Dict.get ns c.matches) c s
  step-Sound (peer_shuts x) c s = shut_made-Sound x c s
  step-Sound (peer_disconnects x) c s = dropping (is_shut x c)
    where
      dropping : (b : Bool) → Sound (if b then c else drop_peer (get_or c.made x []) c)
      dropping true = s
      dropping false = drop_peer-Sound _ c s

  run-Sound : (es : List (Event D)) (c : PeerClient) → Sound c → Sound (run es c).0
  unfolding run
  run-Sound [] c s = s
  run-Sound (e ∷ es) c s = run-Sound es (step e c).0 (step-Sound e c s)

  -- After any run, for any fingerprint: the peer that handles its next signal is the one that
  -- `createPeer` hands out. The map then has it for that fingerprint, it is not closed, and it was
  -- made for the fingerprint; it is the peer that was there before, and nothing is changed, unless
  -- that one was missing or closed. And after `closePeer` the map has none for the fingerprint.
  pub run-made :
      (es : List (Event D)) (fp : Text) (d : D)
      → let c = (run es new_client).0 in
        (o : ℕ) × IsHandedOut fp c o (on_signal fp d c).0
        × ((on_signal fp d c).1 ≡ handle_signal o d ∷ [])
        × (Dict.get fp (close_of {D = D} fp c).0.peers ≡ none)
  unfolding new_client Sound Kept ShutMade among on_signal
  run-made es fp d =
      let c : PeerClient = (run es new_client).0 in
      let s = run-Sound es new_client (tt, tt, λ o h. ground arith) in
      ((make_peer fp c).0, make_peer-IsHandedOut fp c s, refl, closed_gone D fp c)
