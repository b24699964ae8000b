-- ===== src/Client/Messages.antt =====
-- client.ts: the handler of the server's messages, the transport's events, `disconnect`, and runs.
use peer_server.Prelude.{
  ℕ, Bool, true, false, Option, none, some, List, [], ◌∷◌, ◌++◌, Text, is_empty, map, if◌then◌else◌,
}
use peer_server.Dict
use peer_server.Dict.{Dict}
use peer_server.Client.{
  Books, PeerClient, hear, on_list, on_error, on_created, on_info, on_timeout, delete_namespace,
  send_join, Effect, sent, resolved, rejected, close_transport, disconnected, reconnected,
  error_event, registered, matched, room_created, room_closed, kicked, peer_list, peer_joined,
  peer_left, relay, broadcast,
}
use peer_server.Client.Calls.{
  join_namespace, leave, discover_peers, make_room, enter_room, ask_info, cancel_match, find_match,
  on_match_timeout, do_register, on_keys, reject_register,
}
use peer_server.Client.Peers.{
  shut_made, on_peer_disconnected, connect_to_peer, close_of, on_signal, clean_peers, close_all,
}

-- ServerMessage, by its `type`, parsed; a room that the payload does not name is empty.
pub data Message (D : Type 0) : Type 0 where
  is_registered : Text → Message D
  list_came : Text → List Text → Message D
  joined left : Text → Text → Message D
  signal_came relay_came : Text → D → Message D
  match_came : Text → Message D
  broadcast_came : Text → Text → D → Message D
  created closed kick_came info_came : Text → Message D
  error_came : Message D

abbrev pub without_room : Text → Books → Books
without_room room b = if is_empty room then b else delete_namespace room b

module _ {D : Type 0} where
  abbrev pub rejoins : Dict (Unit {0}) → List (Effect D)
  rejoins d = map (λ ns. sent (send_join ns)) (Dict.keys d)

  -- What a register promise leads to once it is resolved: after a reconnection, the joins.
  abbrev pub register_effects : Option (ℕ × Bool) → Text → Dict (Unit {0}) → List (Effect D)
  register_effects none fp d = registered fp ∷ []
  register_effects (some (id, false)) fp d = resolved id ∷ registered fp ∷ []
  register_effects (some (id, true)) fp d =
      resolved id ∷ registered fp ∷ rejoins d ++ reconnected ∷ []

  unfoldable pub on_registered : Text → PeerClient → PeerClient × List (Effect D)
  on_registered fp c = (
    record c { fingerprint = fp; register = none },
    register_effects c.register fp c.books.namespaces,
  )

  abbrev pub match_effects : Option ℕ → List (Effect D)
  match_effects none = []
  match_effects (some id) = resolved id ∷ []

  unfoldable pub on_matched : Text → PeerClient → PeerClient × List (Effect D)
  on_matched ns c = (
    record c { matches = Dict.remove ns c.matches },
    match_effects (Dict.get ns c.matches) ++ matched ns ∷ [],
  )

  -- First the listeners of the requests, then the register promise.
  unfoldable pub on_error_message : PeerClient → PeerClient × List (Effect D)
  unfolding hear on_error
  on_error_message c =
      let (c1, es) = hear on_error c in
      (record c1 { register = none }, error_event ∷ es ++ reject_register c1.register)

  unfoldable pub handle_message : Message D → PeerClient → PeerClient × List (Effect D)
  unfolding on_registered on_matched on_error_message hear on_list on_created on_info close_of
      on_signal delete_namespace
  handle_message (is_registered fp) c = on_registered fp c
  handle_message (list_came ns fps) c =
      let (c', es) = hear (on_list ns) c in (c', peer_list ns fps ∷ es)
  handle_message (joined fp ns) c = (c, peer_joined fp ns ∷ [])
  handle_message (left fp ns) c = let (c', es) = close_of fp c in (c', es ++ peer_left fp ns ∷ [])
  handle_message (signal_came from d) c = on_signal from d c
  handle_message (match_came ns) c = on_matched ns c
  handle_message (relay_came from d) c = (c, relay from d ∷ [])
  handle_message (broadcast_came from ns d) c = (c, broadcast from ns d ∷ [])
  handle_message (created room) c =
      let (c', es) = hear (on_created room) c in (c', room_created room ∷ es)
  handle_message (closed room) c =
      (record c { books = without_room room c.books }, room_closed room ∷ [])
  handle_message (kick_came room) c =
      (record c { books = without_room room c.books }, kicked room ∷ [])
  handle_message (info_came room) c = hear (on_info room) c
  handle_message error_came c = on_error_message c

  -- The transport's `open`; without a fingerprint it is the first one, and `connect` registers.
  unfoldable pub on_open : (ℕ → Bool) → PeerClient → PeerClient × List (Effect D)
  unfolding clean_peers do_register
  on_open failed c =
      let (c1, es) = clean_peers failed c.peers c in
      let (c2, fs) = do_register true c1 in
      if is_empty c.fingerprint then (c, []) else (c2, es ++ fs)

  abbrev pub reject_all : Dict ℕ → List (Effect D)
  reject_all d = map rejected (Dict.values d)

  unfoldable pub disconnect : PeerClient → PeerClient × List (Effect D)
  unfolding close_all
  disconnect c =
      let (c1, es) = close_all c.peers c in
      (
        record c1 {
          peers = [];
          books = record c1.books { namespaces = [] };
          matches = [];
          register = none;
        },
        es ++ reject_all c.matches ++ reject_register c.register ++ close_transport ∷ [],
      )

-- The calls, the server's messages, the transport's events, timers, and what becomes of peers.
-- `connected` is the return of the transport's `connect` within `connect`.
pub data Event (D : Type 0) : Type 0 where
  join_call leave_call discover_call create_call enter_call info_call : Text → Event D
  match_call cancel_call : Text → Event D
  connect_call close_call : Text → Event D
  disconnect_call connected : Event D
  keys_came : Bool → Option Text → Event D
  opened : (ℕ → Bool) → Event D
  transport_closed : Event D
  message_came : Message D → Event D
  timer_fires : ℕ → Event D
  match_timer_fires : Text → ℕ → Event D
  peer_shuts peer_disconnects : ℕ → Event D

module _ {D : Type 0} where
  unfoldable pub step : Event D → PeerClient → PeerClient × List (Effect D)
  unfolding join_namespace leave discover_peers make_room enter_room ask_info find_match
      cancel_match connect_to_peer close_of disconnect do_register on_keys on_open handle_message
      hear on_timeout on_match_timeout shut_made on_peer_disconnected
  step (join_call ns) c = join_namespace ns c
  step (leave_call ns) c = leave ns c
  step (discover_call ns) c = discover_peers ns c
  step (create_call room) c = make_room room c
  step (enter_call room) c = enter_room room c
  step (info_call room) c = ask_info room c
  step (match_call ns) c = find_match ns c
  step (cancel_call ns) c = cancel_match ns c
  step (connect_call fp) c = connect_to_peer fp c
  step (close_call fp) c = close_of fp c
  step disconnect_call c = disconnect c
  step connected c = do_register false c
  step (keys_came again saved) c = on_keys again saved c
  step (opened failed) c = on_open failed c
  step transport_closed c = (c, disconnected ∷ [])
  step (message_came m) c = handle_message m c
  step (timer_fires id) c = hear (on_timeout id) c
  step (match_timer_fires ns id) c = on_match_timeout ns id c
  step (peer_shuts o) c = (shut_made o c, [])
  step (peer_disconnects o) c = (on_peer_disconnected o c, [])

  unfoldable pub run : List (Event D) → PeerClient → PeerClient × List (Effect D)
  unfolding step
  run [] c = (c, [])
  run (e ∷ es) c = let (c1, xs) = step e c in let (c2, ys) = run es c1 in (c2, xs ++ ys)
