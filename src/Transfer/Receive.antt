-- ===== src/Transfer/Receive.antt =====
-- transfer.ts, the receiving side: accept, reject, cancel of a receipt, requestResume,
-- handleControl, handleBinaryChunk and assembleFile.
use peer_server.Prelude.{
  ℕ, suc, ◌+◌, ◌%◌, Bool, true, false, ◌&&◌, Option, none, some, List, [], ◌∷◌, ◌++◌, Text, text_eq,
  starts_with, ltb, leb, ◌==◌, drop, length, replicate, set, get_elem?, if◌then◌else◌,
}
use peer_server.Dict
use peer_server.Transfer.{
  Bytes, ack_interval, channel_prefix, decode_chunk, FileMetadata, accept, cancel, ack, resume,
  ActiveReceive, Effect, incoming, progress, received_file, missing_chunk, control, threw,
  FileTransfer, Peers,
}

-- `peer.send(control, 'data')` outside a try block, then the rest.
abbrev pub or_throw : Bool → FileTransfer → FileTransfer × List Effect → FileTransfer × List Effect
or_throw true s done = done
or_throw false s done = (s, threw ∷ [])

unfoldable pub accept_from :
    Peers → Text → Option ActiveReceive → FileTransfer → FileTransfer × List Effect
accept_from ps id none s = (s, [])
accept_from ps id (some recv) s =
    if ps.has_peer recv.from
    then or_throw (ps.send_ok recv.from) s (s, control recv.from (accept id) ∷ [])
    else (s, [])

unfoldable pub accept_transfer : Peers → Text → FileTransfer → FileTransfer × List Effect
unfolding accept_from
accept_transfer ps id s = accept_from ps id (Dict.get id s.receiving) s

-- `this.receiving.delete(id)`
unfoldable pub drop_receipt : Text → FileTransfer → FileTransfer
drop_receipt id s = record s { receiving = Dict.remove id s.receiving }

unfoldable pub reject_from :
    Peers → Text → Option ActiveReceive → FileTransfer → FileTransfer × List Effect
unfolding drop_receipt
reject_from ps id none s = (s, [])
reject_from ps id (some recv) s =
    if ps.has_peer recv.from
    then or_throw (ps.send_ok recv.from) s (drop_receipt id s, control recv.from (cancel id) ∷ [])
    else (drop_receipt id s, [])

unfoldable pub reject_transfer : Peers → Text → FileTransfer → FileTransfer × List Effect
unfolding reject_from
reject_transfer ps id s = reject_from ps id (Dict.get id s.receiving) s

-- The second half of `cancel`: here the `send` stands in a try block.
unfoldable pub cancel_receipt :
    Peers → Text → Option ActiveReceive → FileTransfer → FileTransfer × List Effect
unfolding drop_receipt
cancel_receipt ps id none s = (s, [])
cancel_receipt ps id (some recv) s = (
  drop_receipt id s,
  (if ps.has_peer recv.from && ps.send_ok recv.from then control recv.from (cancel id) ∷ [] else [])
      ++ Effect.cancelled id ∷ [],
)

unfoldable pub resume_from :
    Peers → Text → Option ℕ → Option ActiveReceive → FileTransfer → FileTransfer × List Effect
resume_from ps id last none s = (s, [])
resume_from ps id last (some recv) s =
    if ps.has_peer recv.from
    then or_throw (ps.send_ok recv.from) s (s, control recv.from (resume id last) ∷ [])
    else (s, [])

unfoldable pub request_resume : Peers → Text → Option ℕ → FileTransfer → FileTransfer × List Effect
unfolding resume_from
request_resume ps id last s = resume_from ps id last (Dict.get id s.receiving) s

-- `sent` and `total` of `getReceiveProgress`.
unfoldable pub receive_progress : Text → FileTransfer → Option (ℕ × ℕ)
receive_progress id s = elim (Dict.get id s.receiving) [
  | none ↦ none
  | some recv ↦ some (recv.received, recv.meta.total_chunks)
]

-- The branch `offer` of `handleControl`.
unfoldable pub new_receive : FileMetadata → Text → ActiveReceive
new_receive meta from = record {
  id = meta.id;
  meta = meta;
  chunks = replicate meta.total_chunks none;
  received = 0;
  from = from;
}

unfoldable pub handle_offer : FileMetadata → Text → FileTransfer → FileTransfer × List Effect
unfolding new_receive
handle_offer meta from s = (
  record s { receiving = Dict.put meta.id (new_receive meta from) s.receiving },
  incoming meta from ∷ [],
)

-- `recv.chunks[index] === null`, at an index below the length of the array.
abbrev pub is_vacant : Option (Option Bytes) → Bool
is_vacant (some none) = true
is_vacant (some (some c)) = false
is_vacant none = false

-- The store of a chunk, where its place is vacant.
unfoldable pub store_chunk : ℕ → Bytes → ActiveReceive → ActiveReceive
store_chunk index payload recv =
    if is_vacant (get_elem? recv.chunks index)
    then record recv { chunks = set recv.chunks index (some payload); received = recv.received + 1 }
    else recv

unfoldable pub ack_effects : Peers → ℕ → ActiveReceive → Text → List Effect
ack_effects ps index recv id =
    if (recv.received % ack_interval == 0) && ps.has_peer recv.from && ps.send_ok recv.from
    then control recv.from (ack id index) ∷ []
    else []

-- A decoded chunk, from `index >= totalChunks` on.
unfoldable pub place_chunk :
    Peers → Text → Option (ℕ × Bytes) → ActiveReceive → FileTransfer → FileTransfer × List Effect
unfolding store_chunk ack_effects
place_chunk ps id none recv s = (s, threw ∷ [])
place_chunk ps id (some (index, payload)) recv s =
    if leb recv.meta.total_chunks index
    then (s, [])
    else let recv' = store_chunk index payload recv in
      (
        record s { receiving = Dict.put id recv' s.receiving },
        progress id recv'.received recv'.meta.total_chunks ∷ ack_effects ps index recv' id,
      )

unfoldable pub chunk_for :
    Peers → Bytes → Text → Text → Option ActiveReceive → FileTransfer → FileTransfer × List Effect
unfolding place_chunk
chunk_for ps buffer from id none s = (s, [])
chunk_for ps buffer from id (some recv) s =
    if text_eq recv.from from then place_chunk ps id (decode_chunk buffer) recv s else (s, [])

unfoldable pub handle_binary_chunk :
    Peers → Bytes → Text → Text → FileTransfer → FileTransfer × List Effect
unfolding chunk_for
handle_binary_chunk ps buffer from channel s =
    let id = drop (length channel_prefix) channel in
    if starts_with channel channel_prefix
    then chunk_for ps buffer from id (Dict.get id s.receiving) s
    else (s, [])

-- `recv.chunks.findIndex((c) => c === null)`; `none` is -1.
unfoldable pub find_missing : List (Option Bytes) → Option ℕ
find_missing [] = none
find_missing (none ∷ cs) = some 0
find_missing (some c ∷ cs) = elim (find_missing cs) [ none ↦ none | some i ↦ some (suc i) ]

-- The blob of the chunks that are there, in order.
unfoldable pub join_chunks : List (Option Bytes) → Bytes
join_chunks [] = []
join_chunks (none ∷ cs) = join_chunks cs
join_chunks (some c ∷ cs) = c ++ join_chunks cs

abbrev pub is_below : Option ℕ → ℕ → Bool
is_below none n = false
is_below (some i) n = ltb i n

abbrev or_zero : Option ℕ → ℕ
or_zero none = 0
or_zero (some i) = i

unfoldable pub assemble_from :
    Text → Option ActiveReceive → FileTransfer → FileTransfer × List Effect
unfolding drop_receipt
assemble_from id none s = (s, [])
assemble_from id (some recv) s =
    let missing = find_missing recv.chunks in
    if is_below missing recv.meta.total_chunks
    then (s, missing_chunk id (or_zero missing) ∷ [])
    else (drop_receipt id s, received_file id (join_chunks recv.chunks) recv.meta recv.from ∷ [])

unfoldable pub assemble_file : Text → FileTransfer → FileTransfer × List Effect
unfolding assemble_from
assemble_file id s = assemble_from id (Dict.get id s.receiving) s
