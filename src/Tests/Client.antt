-- ===== src/Tests/Client.antt =====
-- A client of client.ts that registers, joins, asks for a match and loses its connection.
use peer_server.Prelude.{
  ℕ, ◌+◌, ◌≡◌, refl, true, false, none, List, [], ◌∷◌, Text, text_eq, if◌then◌else◌, ltb,
}
use peer_server.Dict
use peer_server.Client.{handle_signal, PeerClient, new_client}
use peer_server.Client.Calls.{do_register}
use peer_server.Client.Peers.{
  make_peer, connect_to_peer, new_peer, live, is_shut, among, shut_made, shut_peer, drop_peer,
  on_signal, close_of,
}
use peer_server.Client.Messages.{
  handle_message, left, peer_shuts, Event, is_registered, error_came, signal_came, keys_came,
  message_came, join_call, match_call, connect_call, connected, opened, disconnect_call, step, run,
}
use peer_server.Client.Counting.{settled, waiting}
use peer_server.Client.Promises.{Orderly, AllOrderly, run-settled}
use peer_server.Client.Handing.{IsHandedOut}
use peer_server.Client.Roster.{run-made}
use peer_server.Client.Reconnecting.{joins_sent, reopened-rejoins}

abbrev us : Text
us = 97 ∷ []

abbrev them : Text
them = 98 ∷ []

abbrev chess : Text
chess = 99 ∷ []

abbrev story : List (Event ℕ)
story =
    connected
    ∷ keys_came false none
    ∷ message_came (is_registered us)
    ∷ join_call chess
    ∷ match_call chess
    ∷ connect_call them
    ∷ match_call chess
    ∷ message_came (signal_came them 5)
    ∷ message_came error_came
    ∷ opened (λ o. true)
    ∷ disconnect_call
    ∷ []

story-AllOrderly : AllOrderly story new_client
unfolding AllOrderly Orderly step new_client do_register
story-AllOrderly = (tt, (refl, (tt, (tt, (tt, (tt, (tt, (tt, (tt, (tt, (tt, tt)))))))))))

run-settled_example :
    settled 1 (run story new_client).1 + waiting 1 (run story new_client).0
    ≡ (if ltb 1 (run story new_client).0.next_id then 1 else 0)
run-settled_example = run-settled 1 story story-AllOrderly

-- The first promise is the registration's, the second the join's: the error rejects it.
story-settles : settled 1 (run story new_client).1 ≡ 1
unfolding settled run new_client Dict.get Dict.put Dict.remove text_eq Dict.has Dict.values
story-settles = refl

-- A client with two peers, of which one was closed by its connection.
abbrev meeting : List (Event ℕ)
meeting =
    connect_call them
    ∷ message_came (signal_came chess 5)
    ∷ peer_shuts 0
    ∷ message_came (signal_came us 6)
    ∷ message_came (left us chess)
    ∷ []

meeting_peers :
    ((run meeting new_client).0.peers ≡ (them, 0) ∷ (chess, 1) ∷ [])
    × ((run meeting new_client).0.shut ≡ 2 ∷ 0 ∷ [])
unfolding run step new_client connect_to_peer make_peer new_peer live is_shut among shut_made
    shut_peer drop_peer handle_message on_signal close_of text_eq Dict.get Dict.put Dict.remove
meeting_peers = (refl, refl)

run-made_example :
    let c = (run meeting new_client).0 in
    (o : ℕ) × IsHandedOut them c o (on_signal {D = ℕ} them 9 c).0
    × ((on_signal {D = ℕ} them 9 c).1 ≡ handle_signal o 9 ∷ [])
    × (Dict.get them (close_of {D = ℕ} them c).0.peers ≡ none)
run-made_example = run-made meeting them 9

-- A client that is registered, in a namespace and in a room.
abbrev member : PeerClient
member = record {
  fingerprint = us;
  has_keys = true;
  peers = (them, 0) ∷ [];
  made = them ∷ [];
  shut = [];
  books = record { namespaces = (chess, tt) ∷ (us, tt) ∷ []; joins = []; discovers = [] };
  requests = [];
  matches = [];
  register = none;
  next_id = 4;
}

reopened-rejoins_example :
    let (c1, es) = step {D = ℕ} (opened (λ o. false)) member in
    let (c2, fs) = step {D = ℕ} (message_came (is_registered us)) c1 in
    (joins_sent es ≡ [])
    × (joins_sent fs ≡ Dict.keys member.books.namespaces)
    × (c2.books ≡ member.books)
reopened-rejoins_example = reopened-rejoins ℕ (λ o. false) us member refl refl
