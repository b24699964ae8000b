-- ===== src/CrdtSync.antt =====
-- packages/peer-client/src/sync.ts, class CRDTSync: a Yjs document that replicas keep in step by
-- broadcast and relay. Yjs is a parameter: what the class uses of it, with the laws that Yjs
-- documents for its updates. An update travels as text, which arrayToBase64 and base64ToArray turn
-- it into and back, and is the update itself here.
pub mod Converging
use peer_server.Dict.Laws.{is_some}
use peer_server.Prelude.{
  ℕ, ◌≡◌, Bool, true, false, ◌&&◌, List, [], ◌∷◌, ◌++◌, Text, text_eq, if◌then◌else◌, Option, none,
  some,
}

-- Documents and their updates: an update of a replica's own or another's is applied, and the state
-- of a document is itself an update. Updates commute, and the state of a document brings just
-- what the document has taken in.
pub record Yjs : Type 1 where
  pub Doc : Type 0
  pub Update : Type 0
  pub new_doc : Doc
  pub apply_update : Update → Doc → Doc
  pub encode_state : Doc → Update
  pub commute :
      (u v : Update) (d : Doc)
      → apply_update u (apply_update v d) ≡ apply_update v (apply_update u d)
  pub encode_new : (d : Doc) → apply_update (encode_state new_doc) d ≡ d
  pub encode_applied :
      (u : Update) (d e : Doc)
      → apply_update (encode_state (apply_update u d)) e
        ≡ apply_update u (apply_update (encode_state d) e)

module _ (Y : Yjs) where
  -- The document, which `destroy` sets to null, and whether the listeners of `start` are there. The
  -- class is started once.
  pub record CrdtSync : Type 0 where
    pub room_id : Text
    pub doc : Option Y.Doc
    pub listening : Bool

  -- A payload with `_crdt_sync`, with an update or with a request.
  pub data Payload : Type 0 where
    update : Y.Update → Payload
    request_state : Payload

  pub data Effect : Type 0 where
    broadcast : Text → Payload → Effect
    relay : Text → Text → Payload → Effect
    synced : Text → Effect

  unfoldable pub create : Text → CrdtSync
  create room = record { room_id = room; doc = some Y.new_doc; listening = false }

  unfoldable pub map_doc : (Y.Doc → Y.Doc) → Option Y.Doc → Option Y.Doc
  map_doc f none = none
  map_doc f (some d) = some (f d)

  -- Without a document the call throws before anything is done.
  unfoldable pub start : CrdtSync → CrdtSync
  start s = record s { listening = is_some s.doc }

  -- The application changes the document; the update's origin is not `remote`. A document that is
  -- destroyed has no listeners.
  unfoldable pub edit : Y.Update → CrdtSync → CrdtSync × List Effect
  unfolding map_doc
  edit u s = (
    record s { doc = map_doc (Y.apply_update u) s.doc },
    if s.listening && is_some s.doc then broadcast s.room_id (update u) ∷ [] else [],
  )

  unfoldable pub apply_remote : Y.Update → Text → CrdtSync → CrdtSync × List Effect
  unfolding map_doc
  apply_remote u from s = (
    record s { doc = map_doc (Y.apply_update u) s.doc },
    if is_some s.doc then synced from ∷ [] else [],
  )

  unfoldable pub on_broadcast : Text → Text → Payload → CrdtSync → CrdtSync × List Effect
  unfolding apply_remote
  on_broadcast from ns (update u) s =
      if s.listening && text_eq ns s.room_id then apply_remote u from s else (s, [])
  on_broadcast from ns request_state s = (s, [])

  unfoldable pub send_state_to : Text → CrdtSync → List Effect
  send_state_to fp s = elim s.doc [
    | none ↦ []
    | some d ↦ relay fp s.room_id (update (Y.encode_state d)) ∷ []
  ]

  unfoldable pub on_relay : Text → Text → Payload → CrdtSync → CrdtSync × List Effect
  unfolding apply_remote send_state_to
  on_relay from room (update u) s =
      if s.listening && text_eq room s.room_id then apply_remote u from s else (s, [])
  on_relay from room request_state s =
      if s.listening && text_eq room s.room_id then (s, send_state_to from s) else (s, [])

  unfoldable pub on_peer_joined : Text → CrdtSync → List Effect
  unfolding send_state_to
  on_peer_joined fp s = if s.listening then send_state_to fp s else []

  unfoldable pub request_full_state : Text → CrdtSync → List Effect
  request_full_state fp s = relay fp s.room_id request_state ∷ []

  -- The listeners go, and the document is destroyed.
  unfoldable pub destroy : CrdtSync → CrdtSync
  destroy s = record s { doc = none; listening = false }

  pub data Event : Type 0 where
    edits : Y.Update → Event
    broadcast_comes relay_comes : Text → Text → Payload → Event
    peer_joins : Text → Event
    destroy_call : Event

  unfoldable pub step : Event → CrdtSync → CrdtSync × List Effect
  unfolding edit on_broadcast on_relay on_peer_joined destroy
  step (edits u) s = edit u s
  step (broadcast_comes from ns p) s = on_broadcast from ns p s
  step (relay_comes from room p) s = on_relay from room p s
  step (peer_joins fp) s = (s, on_peer_joined fp s)
  step destroy_call s = (destroy s, [])

  unfoldable pub run : List Event → CrdtSync → CrdtSync × List Effect
  unfolding step
  run [] s = (s, [])
  run (e ∷ es) s = let (s1, xs) = step e s in let (s2, ys) = run es s1 in (s2, xs ++ ys)
