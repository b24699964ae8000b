-- ===== src/Transfer/Send.antt =====
-- transfer.ts, the sending side but for the loop: `send` with its offer timeout, the control
-- messages, cancelSend, and the methods that serve both sides (`cancel`, `handleControl`,
-- `destroy`).
use peer_server.Prelude.{
  ℕ, ◌+◌, ◌-◌, ◌/◌, Bool, true, false, not, ◌&&◌, Option, none, some, List, [], ◌∷◌, ◌++◌, Text,
  text_eq, ◌==◌, length, if◌then◌else◌,
}
use peer_server.Dict
use peer_server.Dict.{Dict}
use peer_server.Transfer.{
  Bytes, chunk_size_limit, Control, offer, accept, cancel, complete, ack, resume, ActiveSend,
  Effect, control, rejected, closed_channel, FileTransfer, Peers,
}
use peer_server.Transfer.Receive.{handle_offer, assemble_file, drop_receipt, cancel_receipt}
use peer_server.Transfer.Loop.{cleanup_send}

-- `Math.ceil(size / chunkSize)`
unfoldable pub ceil_div : ℕ → ℕ → ℕ
ceil_div size chunk_size = (size + chunk_size - 1) / chunk_size

unfoldable pub new_send : Text → Text → Text → Bytes → ActiveSend
unfolding ceil_div
new_send id peer filename file = record {
  id = id;
  file = file;
  filename = filename;
  peer = peer;
  total_chunks = ceil_div (length file) chunk_size_limit;
  chunk_size = chunk_size_limit;
  current_index = 0;
  cancelled = false;
  bytes_sent = 0;
}

abbrev offer_of : Text → Text → ActiveSend → Control
offer_of filename mime a = offer (record {
  id = a.id;
  filename = filename;
  size = length a.file;
  mime = mime;
  total_chunks = a.total_chunks;
  chunk_size = a.chunk_size;
})

-- `send`, with the identifier that `uid` makes; `connected` is `peer.connectionState === 'connected'`.
-- A failing `peer.send` of the offer rejects the promise before the transfer is recorded.
unfoldable pub send_file :
    Peers → Bool → Text → Text → Text → Text → Bytes → FileTransfer → FileTransfer × List Effect
unfolding new_send
send_file ps connected id peer filename mime file s =
    let a = new_send id peer filename file in
    if connected && ps.send_ok peer
    then (
      record s {
        objects = Dict.put id a s.objects;
        sending = Dict.put id tt s.sending;
        listeners = Dict.put id tt s.listeners;
      },
      control peer (offer_of filename mime a) ∷ [],
    )
    else (s, rejected id ∷ [])

unfoldable pub update_object :
    Text → (ActiveSend → ActiveSend) → Option ActiveSend → Dict ActiveSend → Dict ActiveSend
update_object id f none d = d
update_object id f (some a) d = Dict.put id (f a) d

unfoldable pub modify : Text → (ActiveSend → ActiveSend) → FileTransfer → FileTransfer
unfolding update_object
modify id f s = record s { objects = update_object id f (Dict.get id s.objects) s.objects }

-- The timer of `send`, 30 seconds after the offer.
unfoldable pub is_waiting : Option ActiveSend → Bool
is_waiting none = false
is_waiting (some a) = (a.current_index == 0) && not a.cancelled

unfoldable pub offer_timeout : Text → FileTransfer → FileTransfer × List Effect
unfolding is_waiting cleanup_send
offer_timeout id s =
    let (s', es) = cleanup_send id s in
    if Dict.has id s.sending && is_waiting (Dict.get id s.objects)
    then (s', es ++ rejected id ∷ [])
    else (s, [])

unfoldable pub mark_cancelled : ActiveSend → ActiveSend
mark_cancelled a = record a { cancelled = true }

-- To the index after the last one, which is -1 if it is `none`.
unfoldable pub rewind : Option ℕ → ActiveSend → ActiveSend
rewind none a = record a { current_index = 0 }
rewind (some last) a = record a { current_index = last + 1 }

unfoldable pub cancel_send : Text → FileTransfer → FileTransfer × List Effect
unfolding cleanup_send modify mark_cancelled
cancel_send id s =
    let (s', es) = cleanup_send id (modify id mark_cancelled s) in
    if Dict.has id s.sending then (s', es ++ Effect.cancelled id ∷ rejected id ∷ []) else (s, [])

-- What the listener that `send` puts on the peer's data channel does: the new state, its effects,
-- and whether it starts a loop (at `testing`).
unfoldable pub on_peer_control : Text → Control → FileTransfer → FileTransfer × List Effect × Bool
unfolding cancel_send rewind modify
on_peer_control id (accept id') s = (s, [], Dict.has id s.listeners && text_eq id' id)
on_peer_control id (cancel id') s =
    let (s', es) = cancel_send id s in
    if Dict.has id s.listeners && text_eq id' id then (s', es, false) else (s, [], false)
on_peer_control id (resume id' last) s =
    if Dict.has id s.listeners && text_eq id' id
    then (modify id (rewind last) s, [], true)
    else (s, [], false)
on_peer_control id _ s = (s, [], false)

-- `cancel`: the transfer may be one that is sent, one that is received, or both.
unfoldable pub cancel_transfer : Peers → Text → FileTransfer → FileTransfer × List Effect
unfolding cancel_send cancel_receipt
cancel_transfer ps id s =
    let (s1, es) = cancel_send id s in
    let (s2, fs) = cancel_receipt ps id (Dict.get id s1.receiving) s1 in (s2, es ++ fs)

unfoldable pub handle_cancel : Text → FileTransfer → FileTransfer × List Effect
unfolding cancel_send drop_receipt
handle_cancel id s =
    let (s1, es) = cancel_send id s in
    if Dict.has id s1.receiving
    then (drop_receipt id s1, es ++ Effect.cancelled id ∷ [])
    else (s1, es)

unfoldable pub handle_control : Control → Text → FileTransfer → FileTransfer × List Effect
unfolding handle_offer assemble_file handle_cancel
handle_control (offer meta) from s = handle_offer meta from s
handle_control (complete id) from s = assemble_file id s
handle_control (cancel id) from s = handle_cancel id s
handle_control (accept id) from s = (s, [])
handle_control (ack id index) from s = (s, [])
handle_control (resume id last) from s = (s, [])

abbrev closings : Dict (Unit {0}) → List Effect
closings [] = []
closings ((id, u) ∷ d) = closed_channel id ∷ closings d

unfoldable pub cancel_objects : Dict (Unit {0}) → FileTransfer → FileTransfer
unfolding modify mark_cancelled
cancel_objects [] s = s
cancel_objects ((id, u) ∷ d) s = cancel_objects d (modify id mark_cancelled s)

-- The listeners that `cleanupSend` takes off are those of the transfers that are being sent.
unfoldable pub remove_all : Dict (Unit {0}) → Dict (Unit {0}) → Dict (Unit {0})
remove_all [] l = l
remove_all ((id, u) ∷ d) l = remove_all d (Dict.remove id l)

unfoldable pub destroy : FileTransfer → FileTransfer × List Effect
unfolding remove_all cancel_objects
destroy s = (
  record {
    objects = (cancel_objects s.sending s).objects;
    sending = [];
    receiving = [];
    listeners = remove_all s.sending s.listeners;
  },
  closings s.sending,
)
