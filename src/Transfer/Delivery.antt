-- ===== src/Transfer/Delivery.antt =====
-- A sent file arrives (transfer.ts): the sender's chunks and messages, delivered in order, through
-- the receiving side.
use peer_server.Prelude.{
  ℕ, zero, suc, ◌+◌, ◌≤◌, ◌<◌, ◌≡◌, ◌∙◌, refl, sym, ap, true, List, [], ◌∷◌, ◌++◌, Text, arith,
}
use mathlib.Core.List.{append_assoc, append-nil}
use peer_server.Transfer.{
  Bytes, channel_prefix, encode_chunk, FileMetadata, ActiveSend, Effect, control, chunk,
  received_file, FileTransfer, Peers,
}
use peer_server.Transfer.Receive.{handle_offer, handle_binary_chunk, assemble_file}
use peer_server.Transfer.Loop.{testing, run_loop}
use peer_server.Transfer.Send.{handle_control}
use peer_server.Transfer.Slices.{slice_of}
use peer_server.Transfer.EndToEnd.{arrived, AllBelow, feed, Describes, file_received}
use peer_server.Transfer.Sender.{rounds, closing, steps_for, IsSending, run_loop-sends_file}

-- What the receiver does with one effect of the sender: a chunk comes in on the transfer's channel,
-- a control message on the data channel; the rest stays with the sender.
unfoldable pub deliver : Peers → Text → Effect → FileTransfer → FileTransfer × List Effect
unfolding handle_binary_chunk handle_control
deliver ps from (chunk id b) s = handle_binary_chunk ps b from (channel_prefix ++ id) s
deliver ps from (control to m) s = handle_control m from s
deliver ps from _ s = (s, [])

unfoldable pub deliver_all : Peers → Text → List Effect → FileTransfer → FileTransfer × List Effect
unfolding deliver
deliver_all ps from [] s = (s, [])
deliver_all ps from (e ∷ es) s =
    let (s', xs) = deliver ps from e s in
    let (s'', ys) = deliver_all ps from es s' in (s'', xs ++ ys)

-- The indices i, …, i + n - 1.
unfoldable pub range : ℕ → ℕ → List ℕ
range i zero = []
range i (suc n) = i ∷ range (i + 1) n

deliver_all-append_state :
    (ps : Peers) (from : Text) (es fs : List Effect) (s : FileTransfer)
    → (deliver_all ps from (es ++ fs) s).0 ≡ (deliver_all ps from fs (deliver_all ps from es s).0).0
unfolding deliver_all
deliver_all-append_state ps from [] fs s = refl
deliver_all-append_state ps from (e ∷ es) fs s =
    deliver_all-append_state ps from es fs (deliver ps from e s).0

deliver_all-append_effects :
    (ps : Peers) (from : Text) (es fs : List Effect) (s : FileTransfer)
    → (deliver_all ps from (es ++ fs) s).1
      ≡ (deliver_all ps from es s).1 ++ (deliver_all ps from fs (deliver_all ps from es s).0).1
unfolding deliver_all
deliver_all-append_effects ps from [] fs s = refl
deliver_all-append_effects ps from (e ∷ es) fs s =
    ap (λ ys. (deliver ps from e s).1 ++ ys)
      (deliver_all-append_effects ps from es fs (deliver ps from e s).0)
    ∙ sym (append_assoc (deliver ps from e s).1 _ _)

deliver_rounds :
    (ps : Peers) (from id : Text) (size : ℕ) (file : Bytes) (total i n : ℕ) (s : FileTransfer)
    → (deliver_all ps from (rounds id size file total i n) s).0
      ≡ feed ps size file id from (range i n) s
unfolding deliver_all rounds feed range
deliver_rounds ps from id size file total i zero s = refl
deliver_rounds ps from id size file total i (suc n) s =
    deliver_rounds ps from id size file total (i + 1) n
      (handle_binary_chunk ps (encode_chunk i (slice_of size file i)) from (channel_prefix ++ id)
        s).0

range-AllBelow : (i n m : ℕ) → i + n ≤ m → AllBelow m (range i n)
unfolding range
range-AllBelow i zero m h = tt
range-AllBelow i (suc n) m h = (omega arith, range-AllBelow (i + 1) n m (omega arith))

arrived-range : (i n j : ℕ) → i ≤ j → j < i + n → arrived j (range i n) ≡ true
unfolding arrived range
arrived-range i zero j h k = absurd (omega arith)
arrived-range i (suc n) j h k = ground (arith, arrived-range (i + 1) n j)

deliver_closing :
    (ps : Peers) (from id peer : Text) (s : FileTransfer)
    → ((deliver_all ps from (closing id peer) s).0 ≡ (assemble_file id s).0)
      × ((deliver_all ps from (closing id peer) s).1 ≡ (assemble_file id s).1)
unfolding deliver_all
deliver_closing ps from id peer s = (refl, append-nil _)

module _ (ps : Peers) (meta : FileMetadata) (from : Text) (a : ActiveSend) (s t : FileTransfer)
    (d : Describes meta a.file) (sends : IsSending meta.id a s) (fresh : a.current_index ≡ 0)
    (same_total : a.total_chunks ≡ meta.total_chunks)
    (same_size : a.chunk_size ≡ meta.chunk_size) where
  abbrev sender_effects : List Effect
  sender_effects = (run_loop (steps_for meta.total_chunks) testing meta.id s).2

  sender_effects-eq :
      sender_effects
      ≡ rounds meta.id meta.chunk_size a.file meta.total_chunks 0 meta.total_chunks
        ++ closing meta.id a.peer
  sender_effects-eq =
      (run_loop-sends_file meta.total_chunks meta.id a s sends (omega (arith, fresh, same_total))).2
      ∙ ap
          (λ k.
            rounds meta.id k a.file a.total_chunks a.current_index meta.total_chunks
            ++ closing meta.id a.peer)
          same_size
      ∙ ap
          (λ k.
            rounds meta.id meta.chunk_size a.file k a.current_index meta.total_chunks
            ++ closing meta.id a.peer)
          same_total
      ∙ ap
          (λ k.
            rounds meta.id meta.chunk_size a.file meta.total_chunks k meta.total_chunks
            ++ closing meta.id a.peer)
          fresh

  -- A transfer from end to end. The receiver has handled the offer, the sender's loop runs over a
  -- channel that takes every chunk, and what it sends is delivered in order. Then the last thing
  -- that the receiver tells its listeners is that exactly the sender's file has come.
  pub sent_file_arrives :
      (es : List Effect) × ((deliver_all ps from sender_effects (handle_offer meta from t).0).1
        ≡ es ++ received_file meta.id a.file meta from ∷ [])
  sent_file_arrives =
      let t0 : FileTransfer = (handle_offer meta from t).0 in
      let es = rounds meta.id meta.chunk_size a.file meta.total_chunks 0 meta.total_chunks in
      let is = range 0 meta.total_chunks in
      let got =
        file_received ps meta a.file from is t d
          (range-AllBelow 0 meta.total_chunks _ (omega arith))
          (λ j h. arrived-range 0 meta.total_chunks j (omega arith) (omega arith)) in
      (
        (deliver_all ps from es t0).1,
        ap (λ xs. (deliver_all ps from xs t0).1) sender_effects-eq
            ∙ deliver_all-append_effects ps from es (closing meta.id a.peer) t0
            ∙ ap (λ ys. (deliver_all ps from es t0).1 ++ ys)
                ((deliver_closing ps from meta.id a.peer _).1
                  ∙ ap (λ u. (assemble_file meta.id u).1)
                      (deliver_rounds ps from meta.id meta.chunk_size a.file meta.total_chunks 0
                        meta.total_chunks t0)
                  ∙ got.0),
      )
