-- ===== src/Tests/Rooms.antt =====
-- A group room of room.ts with one connected peer and one that is reached by relay.
use peer_server.Prelude.{
  ◌+◌, ℕ, ◌≡◌, ◌⊎◌, refl, arith, true, false, not, ◌&&◌, none, some, if◌then◌else◌, List, [], ◌∷◌,
  Text, text, text_eq, length,
}
use peer_server.Dict
use peer_server.Room.{Links, elsewhere, direct, relayed}
use peer_server.Room.Direct
use peer_server.Room.Direct.{DirectRoom, link_down}
use peer_server.Room.Direct.Pairing.{IsPaired, IsWith, delivery, run-send, run-IsWith}
use peer_server.Room.Group.{
  GroupRoom, relay_threshold, on_peer_left, send, send_open, send_to_all, send_each, relay_all,
  Event, joined, left, disconnected, run,
}
use peer_server.Room.Group.Members.{IsValid, is_member, room_run-IsValid}
use peer_server.Room.Group.Sending.{Carry, directs_to, relays_to, send-all}
use peer_server.Room.Group.Promotion.{on_peer_left-refills}

abbrev room : GroupRoom
room = record {
  fingerprint = text "me";
  room_id = text "r";
  max_size = 20;
  connected_peers = (text "a", tt) ∷ [];
  relay_peers = (text "b", tt) ∷ [];
  is_closed = false;
  listening = true;
}

room-IsValid : IsValid room
unfolding Dict.has text_eq
room-IsValid = record {
  connected_once = (refl, tt);
  relayed_once = (refl, tt);
  one_way = λ fp h. ground arith;
  bounded = omega arith;
}

abbrev visit : List Event
visit = joined none (text "c") ∷ disconnected (text "a") ∷ left (text "c") none ∷ []

room_run-IsValid_example : IsValid (run ℕ visit room)
room_run-IsValid_example = room_run-IsValid ℕ visit room room-IsValid

abbrev links : Links
links = record { connected = λ fp. text_eq fp (text "a"); send_ok = λ fp. true }

send-all_example :
    Carry 5 (send {D = ℕ} links 5 none room)
    × (directs_to (text "b") (send {D = ℕ} links 5 none room)
          + relays_to (text "b") (send {D = ℕ} links 5 none room)
        ≡ 1)
    × (directs_to (text "b") (send {D = ℕ} links 5 none room) ≡ 0)
unfolding Dict.has text_eq
send-all_example = send-all links 5 (text "b") room room-IsValid

sent : send {D = ℕ} links 5 none room ≡ direct (text "a") 5 ∷ relayed (text "b") 5 ∷ []
unfolding send send_open send_to_all send_each relay_all text_eq
sent = refl

on_peer_left-refills_example :
    ((length (on_peer_left {D = ℕ} (text "a") none room).0.connected_peers ≡ relay_threshold)
      ⊎ ((on_peer_left {D = ℕ} (text "a") none room).0.relay_peers ≡ []))
    × ((j : Text)
        → is_member j (on_peer_left {D = ℕ} (text "a") none room).0
          ≡ (not (text_eq (text "a") j) && is_member j room))
unfolding elsewhere Dict.has text_eq
on_peer_left-refills_example =
    on_peer_left-refills ℕ (text "a") none room room-IsValid refl refl refl

abbrev pair : DirectRoom
pair = record {
  fingerprint = text "me";
  room_id = text "r";
  remote_peer = some (text "a");
  remote_fingerprint = text "a";
  is_closed = false;
  listening = true;
}

abbrev talk : List (Direct.Event ℕ)
talk = Direct.joined none (text "b") ∷ link_down (text "a") ∷ Direct.left (text "b") none ∷ []

run-send_example :
    IsPaired (Direct.run talk pair)
    × (Direct.send {D = ℕ} links 5 (Direct.run talk pair) ≡ (
        if (Direct.run talk pair).is_closed
        then []
        else delivery links 5 (Direct.run talk pair).remote_peer))
run-send_example = run-send links 5 talk pair refl

run-IsWith_example : IsWith (text "a") (Direct.run talk pair)
unfolding text_eq
run-IsWith_example =
    run-IsWith (text "a") talk pair (tt, (tt, (refl, tt))) (record { peer = refl; name = refl })
