-- ===== src/Client/Calls.antt =====
-- client.ts: the calls that ask the server for something, and the registration.
use peer_server.Prelude.{
  ℕ, suc, Bool, true, ◌==◌, Option, none, some, List, [], ◌∷◌, ◌++◌, Text, if◌then◌else◌,
}
use peer_server.Dict
use peer_server.Dict.{Dict}
use peer_server.Client.{
  Kind, join, discover, create_room, join_room, room_info, Books, add_namespace, delete_namespace,
  PeerClient, Sent, send_register, send_join, send_leave, send_discover, send_match, send_create,
  send_join_room, send_info, send_kick, send_relay, send_broadcast, send_metadata, Effect, sent,
  rejected,
}

abbrev pub restored : Option Text → Text → Text
restored none fp = fp
restored (some fp) _ = fp

module _ {D : Type 0} where
  -- A new promise: the request's listeners and its timer are there, and the message goes out.
  unfoldable pub ask : Kind → Text → Sent D → Books → PeerClient → PeerClient × List (Effect D)
  ask kind name message b c = (
    record c {
      books = b;
      requests = c.requests ++ record { id = c.next_id; kind = kind; name = name } ∷ [];
      next_id = suc c.next_id;
    },
    sent message ∷ [],
  )

  unfoldable pub join_namespace : Text → PeerClient → PeerClient × List (Effect D)
  unfolding ask add_namespace
  join_namespace ns c =
      let b = add_namespace ns c.books in
      ask join ns (send_join ns) (record b { joins = Dict.put ns tt b.joins }) c

  unfoldable pub leave : Text → PeerClient → PeerClient × List (Effect D)
  unfolding delete_namespace
  leave ns c = (record c { books = delete_namespace ns c.books }, sent (send_leave ns) ∷ [])

  unfoldable pub discover_peers : Text → PeerClient → PeerClient × List (Effect D)
  unfolding ask
  discover_peers ns c =
      ask discover ns (send_discover ns)
        (record c.books { discovers = Dict.put ns tt c.books.discovers }) c

  unfoldable pub make_room : Text → PeerClient → PeerClient × List (Effect D)
  unfolding ask
  make_room room c = ask create_room room (send_create room) c.books c

  unfoldable pub enter_room : Text → PeerClient → PeerClient × List (Effect D)
  unfolding ask add_namespace
  enter_room room c = ask join_room room (send_join_room room) (add_namespace room c.books) c

  unfoldable pub ask_info : Text → PeerClient → PeerClient × List (Effect D)
  unfolding ask
  ask_info room c = ask room_info room (send_info room) c.books c

  abbrev pub reject_match : Option ℕ → List (Effect D)
  reject_match none = []
  reject_match (some id) = rejected id ∷ []

  -- `cancelMatch`, which is also the first half of `match`.
  unfoldable pub cancel_match : Text → PeerClient → PeerClient × List (Effect D)
  cancel_match ns c =
      (record c { matches = Dict.remove ns c.matches }, reject_match (Dict.get ns c.matches))

  unfoldable pub find_match : Text → PeerClient → PeerClient × List (Effect D)
  unfolding cancel_match
  find_match ns c =
      let (c1, es) = cancel_match ns c in
      (
        record c1 { matches = Dict.put ns c.next_id c1.matches; next_id = suc c.next_id },
        es ++ sent (send_match ns) ∷ [],
      )

  abbrev pub timed_out : Text → ℕ → Option ℕ → PeerClient → PeerClient × List (Effect D)
  timed_out ns id none c = (c, [])
  timed_out ns id (some id') c =
      if id' == id
      then (record c { matches = Dict.remove ns c.matches }, rejected id ∷ [])
      else (c, [])

  -- The timer of a match, which is cleared where the match is settled.
  unfoldable pub on_match_timeout : Text → ℕ → PeerClient → PeerClient × List (Effect D)
  on_match_timeout ns id c = timed_out ns id (Dict.get ns c.matches) c

  abbrev pub reject_register : Option (ℕ × Bool) → List (Effect D)
  reject_register none = []
  reject_register (some (id, again)) = rejected id ∷ []

  -- `doRegister` from the new promise on; `again` is whether the handler of `open` called it.
  unfoldable pub finish_register : Bool → PeerClient → PeerClient × List (Effect D)
  finish_register again c = (
    record c { register = some (c.next_id, again); next_id = suc c.next_id },
    sent send_register ∷ [],
  )

  -- `doRegister`; without keys it waits for them after its first step.
  unfoldable pub do_register : Bool → PeerClient → PeerClient × List (Effect D)
  unfolding finish_register
  do_register again c =
      let c1 = record c { register = none } in
      let (c2, es) = finish_register again c1 in
      if c.has_keys
      then (c2, reject_register c.register ++ es)
      else (c1, reject_register c.register)

  -- The keys are there: generated, or restored with the fingerprint that they had.
  unfoldable pub on_keys : Bool → Option Text → PeerClient → PeerClient × List (Effect D)
  unfolding finish_register
  on_keys again saved c =
      finish_register again
        (record c { has_keys = true; fingerprint = restored saved c.fingerprint })

  unfoldable pub kick : Text → Text → List (Effect D)
  kick room fp = sent (send_kick room fp) ∷ []

  unfoldable pub relay_to : Text → D → List (Effect D)
  relay_to to d = sent (send_relay to d) ∷ []

  unfoldable pub broadcast_to : Text → D → List (Effect D)
  broadcast_to ns d = sent (send_broadcast ns d) ∷ []

  unfoldable pub update_metadata : D → List (Effect D)
  update_metadata d = sent (send_metadata d) ∷ []
