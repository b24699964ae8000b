-- ===== src/Client/Peers.antt =====
-- client.ts: the map of the peers. `make_peer` is the method createPeer.
use peer_server.Prelude.{
  ℕ, Bool, false, ◌||◌, ◌==◌, Option, none, some, List, [], ◌∷◌, ◌++◌, Text, get_or, length, ltb,
  if◌then◌else◌,
}
use peer_server.Dict
use peer_server.Dict.{Dict}
use peer_server.Client.{PeerClient, Effect, create_offer, close_peer, handle_signal}

unfoldable pub among : ℕ → List ℕ → Bool
among o [] = false
among o (x ∷ xs) = x == o || among o xs

-- `peer.closed`
unfoldable pub is_shut : ℕ → PeerClient → Bool
unfolding among
is_shut o c = among o c.shut

-- `peer && !peer.closed`, for what the map has.
unfoldable pub live : Option ℕ → PeerClient → Option ℕ
unfolding is_shut
live none c = none
live (some o) c = if is_shut o c then none else some o

-- A closed peer that is there is deleted first, so that the new one stands last.
unfoldable pub new_peer : Text → PeerClient → PeerClient
new_peer fp c = record c {
  peers = Dict.put fp (length c.made) (Dict.remove fp c.peers);
  made = c.made ++ fp ∷ [];
}

abbrev pub made_peer : Option ℕ → Text → PeerClient → ℕ × PeerClient
made_peer (some o) fp c = (o, c)
made_peer none fp c = (length c.made, new_peer fp c)

-- `createPeer`
unfoldable pub make_peer : Text → PeerClient → ℕ × PeerClient
unfolding live new_peer
make_peer fp c = made_peer (live (Dict.get fp c.peers) c) fp c

-- `peer.close()`, which other classes call too; the entry in the map stays.
unfoldable pub shut_peer : ℕ → PeerClient → PeerClient
shut_peer o c = record c { shut = o ∷ c.shut }

-- Another class or the connection closes a peer that this client has made.
unfoldable pub shut_made : ℕ → PeerClient → PeerClient
unfolding shut_peer
shut_made o c = if ltb o (length c.made) then shut_peer o c else c

-- `this.peers.delete(fingerprint)`
unfoldable pub drop_peer : Text → PeerClient → PeerClient
drop_peer fp c = record c { peers = Dict.remove fp c.peers }

-- The listener that `createPeer` puts on a peer for `disconnected`; a closed peer has none.
unfoldable pub on_peer_disconnected : ℕ → PeerClient → PeerClient
unfolding is_shut drop_peer
on_peer_disconnected o c = if is_shut o c then c else drop_peer (get_or c.made o []) c

module _ {D : Type 0} where
  abbrev pub offered : Option ℕ → Text → PeerClient → PeerClient × List (Effect D)
  offered (some o) fp c = (c, [])
  offered none fp c = let (o, c') = make_peer fp c in (c', create_offer o ∷ [])

  unfoldable pub connect_to_peer : Text → PeerClient → PeerClient × List (Effect D)
  unfolding live make_peer
  connect_to_peer fp c = offered (live (Dict.get fp c.peers) c) fp c

  abbrev pub closed_peer : Option ℕ → Text → PeerClient → PeerClient × List (Effect D)
  closed_peer none fp c = (c, [])
  closed_peer (some o) fp c = (drop_peer fp (shut_peer o c), close_peer o ∷ [])

  -- `closePeer`, which is also what `peer_left` does to the map.
  unfoldable pub close_of : Text → PeerClient → PeerClient × List (Effect D)
  unfolding drop_peer shut_peer
  close_of fp c = closed_peer (Dict.get fp c.peers) fp c

  -- `signal`: the peer of the map if it is there and not closed, else a new one.
  unfoldable pub on_signal : Text → D → PeerClient → PeerClient × List (Effect D)
  unfolding make_peer
  on_signal from d c = let (o, c') = make_peer from c in (c', handle_signal o d ∷ [])

  -- `cleanupStalePeers`; `failed` has the peers whose connection is `failed` or `closed`.
  unfoldable pub clean_peers : (ℕ → Bool) → Dict ℕ → PeerClient → PeerClient × List (Effect D)
  unfolding is_shut drop_peer shut_peer
  clean_peers failed [] c = (c, [])
  clean_peers failed ((fp, o) ∷ d) c =
      if is_shut o c || failed o
      then (let (c', es) = clean_peers failed d (drop_peer fp (shut_peer o c)) in
          (c', close_peer o ∷ es))
      else clean_peers failed d c

  -- The closing of all peers in `disconnect`.
  unfoldable pub close_all : Dict ℕ → PeerClient → PeerClient × List (Effect D)
  unfolding shut_peer
  close_all [] c = (c, [])
  close_all ((fp, o) ∷ d) c = let (c', es) = close_all d (shut_peer o c) in (c', close_peer o ∷ es)
