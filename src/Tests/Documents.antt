-- ===== src/Tests/Documents.antt =====
-- Replicas of sync.ts's CRDTSync over a document that is a number which only grows.
use peer_server.Prelude.{ℕ, some, max, ◌≡◌, refl, arith, List, [], ◌∷◌, Text, text_eq}
use peer_server.CrdtSync.{
  Yjs, CrdtSync, create, start, edit, apply_remote, on_broadcast, on_relay, send_state_to,
  request_full_state, map_doc, Event, edits, broadcast_comes, update, step, run,
}
use peer_server.CrdtSync.Converging.{fetch, deliver, exchanged_states_agree}

abbrev counter : Yjs
counter = record {
  Doc = ℕ;
  Update = ℕ;
  new_doc = 0;
  apply_update = λ u d. max u d;
  encode_state = λ d. d;
  commute = λ u v d. omega arith;
  encode_new = λ d. omega arith;
  encode_applied = λ u d e. omega arith;
}

abbrev room : Text
room = 114 ∷ []

abbrev peer : Text
peer = 98 ∷ []

abbrev me : Text
me = 97 ∷ []

abbrev ours : List (Event counter)
ours = edits 3 ∷ broadcast_comes peer room (update 5) ∷ []

abbrev replica : List (Event counter) → CrdtSync counter
replica es = (run counter es (start counter (create counter room))).0

abbrev others : List (Event counter)
others = edits 4 ∷ []

exchanged_states_agree_example :
    (d : ℕ) × ((fetch counter me peer (replica ours) (replica others)).doc ≡ some d)
    × ((fetch counter peer me (replica others) (replica ours)).doc ≡ some d)
unfolding run start create step edit on_broadcast apply_remote map_doc text_eq
exchanged_states_agree_example =
    exchanged_states_agree counter room me peer ours others (replica ours) (replica others) refl
      refl refl refl

-- Both end with the larger number.
fetched : (fetch counter me peer (replica ours) (replica (edits 9 ∷ []))).doc ≡ some 9
unfolding fetch deliver request_full_state on_relay send_state_to run start create step edit
    on_broadcast apply_remote map_doc text_eq
fetched = refl
