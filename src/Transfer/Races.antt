-- ===== src/Transfer/Races.antt =====
-- Loops of one transfer that run at the same time, and a cancellation while a loop drains
-- (transfer.ts, startSending and the listener of `send`).
use peer_server.Prelude.{
  ℕ, ◌+◌, ◌<◌, ◌≡◌, ◌∙◌, refl, ap, true, false, some, List, [], ◌∷◌, ◌++◌, Text, text_eq_refl,
  arith,
}
use peer_server.Dict
use peer_server.Dict.Laws.{get-put, has-remove}
use peer_server.Transfer.{
  Bytes, encode_chunk, complete, ActiveSend, Effect, progress, sent_file, control, chunk, resolved,
  rejected, closed_channel, FileTransfer,
}
use peer_server.Transfer.Loop.{
  Loop, testing, draining, slice_at, sent_chunk, loop_step, loop_outcome, apply_outcome,
  cleanup_send,
}
use peer_server.Transfer.Send.{cancel_send, modify, mark_cancelled}
use peer_server.Transfer.Slices.{slice_of, slice_at-eq-slice_of}
use peer_server.Transfer.Sender.{
  IsSending, with_object, get-with_object, test_step, read_step, step_at, with_object-IsSending,
}

-- Two loops of the transfer `id`, both at their test: the first reads its slice, the second reads
-- its own, the first sends, the second sends. The effects of the two sends.
unfoldable pub overlap : Text → FileTransfer → List Effect
overlap id s =
    let (l1, s1, _) = loop_step true testing id s in
    let (l2, s2, _) = loop_step true testing id s1 in
    let (_, s3, es) = loop_step true l1 id s2 in
    let (_, s4, fs) = loop_step true l2 id s3 in es ++ fs

overlap_from :
    (id : Text) (s s1 s2 s3 s4 : FileTransfer) (l1 l2 l3 l4 : Loop) (xs ys es fs : List Effect)
    → loop_step true testing id s ≡ (l1, s1, xs)
    → loop_step true testing id s1 ≡ (l2, s2, ys)
    → loop_step true l1 id s2 ≡ (l3, s3, es)
    → loop_step true l2 id s3 ≡ (l4, s4, fs)
    → overlap id s ≡ es ++ fs
unfolding overlap
overlap_from id s s1 s2 s3 s4 l1 l2 l3 l4 xs ys es fs p q u v = rw (p, q, u, v)

named_chunks :
    (id name : Text) (i total : ℕ) (b c : Bytes)
    → name ≡ id
    → b ≡ c
    → chunk name (encode_chunk i b)
        ∷ progress name (i + 1) total
        ∷ chunk name (encode_chunk (i + 1) b)
        ∷ progress name (i + 1 + 1) total
        ∷ []
      ≡ chunk id (encode_chunk i c)
        ∷ progress id (i + 1) total
        ∷ chunk id (encode_chunk (i + 1) c)
        ∷ progress id (i + 1 + 1) total
        ∷ []
named_chunks id name i total b c p q = rw (p, q)

-- A second loop on a live transfer with two chunks left corrupts the file: both loops read the
-- slice of the current index, and the second sends that same slice under the next index.
pub overlap-resends_slice :
    (id : Text) (a : ActiveSend) (s : FileTransfer)
    → IsSending id a s
    → a.current_index + 1 < a.total_chunks
    → overlap id s
      ≡ chunk id (encode_chunk a.current_index (slice_of a.chunk_size a.file a.current_index))
        ∷ progress id (a.current_index + 1) a.total_chunks
        ∷ chunk id
            (encode_chunk (a.current_index + 1) (slice_of a.chunk_size a.file a.current_index))
        ∷ progress id (a.current_index + 1 + 1) a.total_chunks
        ∷ []
overlap-resends_slice id a s h more =
    let b = slice_at a in
    let a' : ActiveSend = sent_chunk b a in
    let s1 = with_object id a s in
    let s2 = with_object id a s1 in
    let s3 = with_object id a' s2 in
    let h1 = with_object-IsSending id a a s h refl refl in
    overlap_from id s s1 s2 s3 _ _ _ _ _ _ _ _ _ (test_step id a s h.stored h.live (omega arith))
      (test_step id a s1 h1.stored h.live (omega arith))
      (read_step id a s2 (get-with_object id a s1) b)
      (read_step id a' s3 (get-with_object id a' s2) b)
    ∙ (unfold sent_chunk in
        named_chunks id a.id a.current_index a.total_chunks b _ h.named (slice_at-eq-slice_of a))

cancelled_object :
    (id : Text) (a : ActiveSend) (s : FileTransfer)
    → IsSending id a s
    → Dict.get id (cancel_send id s).0.objects ≡ some (mark_cancelled a)
unfolding cancel_send modify cleanup_send
cancelled_object id a s h =
    rw (h.listed, h.stored) (get-put id id (mark_cancelled a) s.objects ∙ rw (text_eq_refl id))

cancelled_listed :
    (id : Text) (a : ActiveSend) (s : FileTransfer)
    → IsSending id a s
    → Dict.has id (cancel_send id s).0.sending ≡ false
unfolding cancel_send cleanup_send modify
cancelled_listed id a s h = rw h.listed (has-remove id id s.sending ∙ rw (text_eq_refl id))

cancelled_effects :
    (id : Text) (a : ActiveSend) (s : FileTransfer)
    → IsSending id a s
    → (cancel_send id s).1 ≡ closed_channel id ∷ Effect.cancelled id ∷ rejected id ∷ []
unfolding cancel_send cleanup_send modify
cancelled_effects id a s h = rw h.listed

drain_unlisted :
    (id : Text) (a : ActiveSend) (s : FileTransfer)
    → a.id ≡ id
    → Dict.has id s.sending ≡ false
    → (apply_outcome id (loop_outcome true draining a) s).2
      ≡ control a.peer (complete id) ∷ sent_file id ∷ resolved id ∷ []
unfolding apply_outcome loop_outcome cleanup_send
drain_unlisted id a s named gone = ground arith

-- A transfer that is cancelled while its loop waits for the buffer to drain is reported cancelled
-- and its promise rejected; the loop then still sends `complete` and reports the file as sent.
pub cancel_send-while_draining :
    (id : Text) (a : ActiveSend) (s : FileTransfer)
    → IsSending id a s
    → ((cancel_send id s).1 ≡ closed_channel id ∷ Effect.cancelled id ∷ rejected id ∷ [])
      × ((loop_step true draining id (cancel_send id s).0).2
          ≡ control a.peer (complete id) ∷ sent_file id ∷ resolved id ∷ [])
cancel_send-while_draining id a s h =
    let s1 : FileTransfer = (cancel_send id s).0 in
    let m : ActiveSend = mark_cancelled a in
    (
      cancelled_effects id a s h,
      ap (λ (o : Loop × FileTransfer × List Effect). o.2)
            (step_at id m s1 (cancelled_object id a s h) draining)
          ∙ drain_unlisted id m s1 (unfold mark_cancelled in h.named) (cancelled_listed id a s h)
          ∙ (unfold mark_cancelled in refl),
    )
