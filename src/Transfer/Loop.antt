-- ===== src/Transfer/Loop.antt =====
-- transfer.ts, the loop of `startSending` and cleanupSend. A loop stops at each `await`; a step is
-- what it does from one to the next. Loops of one transfer share its ActiveSend, which is why that
-- stands in the state and not in the loop. The waits for an open channel, for a low buffer and
-- after 50 chunks only delay a step.
use peer_server.Prelude.{
  ℕ, zero, suc, ◌+◌, ◌-◌, ◌*◌, Bool, true, false, not, ◌&&◌, Option, none, some, List, [], ◌∷◌,
  ◌++◌, Text, ltb, leb, min, take, drop, length, if◌then◌else◌,
}
use peer_server.Dict
use peer_server.Dict.{Dict}
use peer_server.Transfer.{
  Bytes, encode_chunk, complete, ActiveSend, Effect, progress, sent_file, control, chunk, resolved,
  rejected, closed_channel, FileTransfer,
}

-- `cleanupSend`: closing a channel never throws out of it.
unfoldable pub cleanup_send : Text → FileTransfer → FileTransfer × List Effect
cleanup_send id s = (
  record s { sending = Dict.remove id s.sending; listeners = Dict.remove id s.listeners },
  if Dict.has id s.sending then closed_channel id ∷ [] else [],
)

-- Where a loop stands: before the test of the `while`; with a slice of the file read and not yet
-- sent; waiting for the buffer to drain after the last chunk; or ended.
pub data Loop : Type 0 where
  testing : Loop
  read : Bytes → Loop
  draining : Loop
  ended : Loop

-- `active.file.slice(start, end)` for the current index.
unfoldable pub slice_at : ActiveSend → Bytes
slice_at a =
    let start = a.current_index * a.chunk_size in
    let end = min (start + a.chunk_size) (length a.file) in take (end - start) (drop start a.file)

-- The `while` test, and the `if` after the loop.
unfoldable pub test_loop : ActiveSend → Loop
unfolding slice_at
test_loop a =
    if ltb a.current_index a.total_chunks && not a.cancelled
    then read (slice_at a)
    else if not a.cancelled && leb a.total_chunks a.current_index
    then draining
    else ended

unfoldable pub sent_chunk : Bytes → ActiveSend → ActiveSend
sent_chunk buffer a = record a {
  current_index = a.current_index + 1;
  bytes_sent = a.bytes_sent + length buffer;
}

-- What a step does: where the loop then stands, its object, the effects before the call of
-- `cleanupSend`, whether there is such a call, and the effects after it.
pub record Outcome : Type 0 where
  pub loop : Loop
  pub active : ActiveSend
  pub before : List Effect
  pub cleans : Bool
  pub after : List Effect

-- One step of one loop on its object; `sends` says whether `channel.send`, or at the end the send to
-- the peer, succeeds. That the latter fails is swallowed.
unfoldable pub loop_outcome : Bool → Loop → ActiveSend → Outcome
unfolding test_loop sent_chunk
loop_outcome sends testing a = record {
  loop = test_loop a;
  active = a;
  before = [];
  cleans = false;
  after = [];
}
loop_outcome true (read buffer) a = record {
  loop = testing;
  active = sent_chunk buffer a;
  before =
      chunk a.id (encode_chunk a.current_index buffer)
      ∷ progress a.id (a.current_index + 1) a.total_chunks
      ∷ [];
  cleans = false;
  after = [];
}
loop_outcome false (read buffer) a = record {
  loop = ended;
  active = a;
  before = [];
  cleans = true;
  after = rejected a.id ∷ [];
}
loop_outcome sends draining a = record {
  loop = ended;
  active = a;
  before = (if sends then control a.peer (complete a.id) ∷ [] else []) ++ sent_file a.id ∷ [];
  cleans = true;
  after = resolved a.id ∷ [];
}
loop_outcome sends ended a = record {
  loop = ended;
  active = a;
  before = [];
  cleans = false;
  after = [];
}

unfoldable pub apply_outcome : Text → Outcome → FileTransfer → Loop × FileTransfer × List Effect
unfolding cleanup_send
apply_outcome id o s =
    let s' = record s { objects = Dict.put id o.active s.objects } in
    let (s'', es) = cleanup_send id s' in
    if o.cleans then (o.loop, s'', o.before ++ es ++ o.after) else (o.loop, s', o.before ++ o.after)

unfoldable pub step_object :
    Bool → Loop → Text → Option ActiveSend → FileTransfer → Loop × FileTransfer × List Effect
unfolding apply_outcome loop_outcome
step_object sends l id none s = (ended, s, [])
step_object sends l id (some a) s = apply_outcome id (loop_outcome sends l a) s

-- One step of one loop of the transfer `id`.
unfoldable pub loop_step : Bool → Loop → Text → FileTransfer → Loop × FileTransfer × List Effect
unfolding step_object
loop_step sends l id s = step_object sends l id (Dict.get id s.objects) s

-- Several steps of a loop that runs alone, over a channel that takes every chunk.
unfoldable pub run_loop : ℕ → Loop → Text → FileTransfer → Loop × FileTransfer × List Effect
unfolding loop_step
run_loop zero l id s = (l, s, [])
run_loop (suc n) l id s =
    let (l', s', es) = loop_step true l id s in
    let (l'', s'', fs) = run_loop n l' id s' in (l'', s'', es ++ fs)
