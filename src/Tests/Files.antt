-- ===== src/Tests/Files.antt =====
-- A file of five bytes in three chunks of two, through the classes of transfer.ts.
use peer_server.Prelude.{
  starts_with, ℕ, ◌<◌, ◌≡◌, refl, arith, true, false, none, some, List, [], ◌∷◌, ◌++◌, text,
  text_eq,
}
use peer_server.Dict
use peer_server.Transfer.{
  Bytes, offer, decode_chunk, le32, encode_chunk, FileMetadata, ActiveSend, FileTransfer, Peers,
  Effect, received_file, missing_chunk, resolved, rejected, closed_channel, control, complete,
  chunk, progress, sent_file,
}
use peer_server.Transfer.Receive.{
  new_receive, receive_progress, assemble_from, find_missing, chunk_for, place_chunk, store_chunk,
  handle_offer, assemble_file, handle_binary_chunk,
}
use peer_server.Transfer.Loop.{testing, draining, run_loop, loop_step}
use peer_server.Transfer.Send.{ceil_div, cancel_send, handle_control}
use peer_server.Transfer.Slices.{slice_of}
use peer_server.Transfer.Sender.{IsSending, steps_for}
use peer_server.Transfer.EndToEnd.{
  arrived, after_chunks, Describes, file_received, missing_chunk_reported,
}
use peer_server.Transfer.Delivery.{deliver_all, sent_file_arrives}
use peer_server.Transfer.Races.{overlap, overlap-resends_slice, cancel_send-while_draining}
use peer_server.Transfer.Receipts.{AllReceiving, handle_control-AllReceiving, receipts_stay_valid}

abbrev bytes : Bytes
bytes = 11 ∷ 12 ∷ 13 ∷ 14 ∷ 15 ∷ []

abbrev meta : FileMetadata
meta = record {
  id = text "t";
  filename = text "f";
  size = 5;
  mime = text "m";
  total_chunks = 3;
  chunk_size = 2;
}

abbrev peers : Peers
peers = record { has_peer = λ fp. true; send_ok = λ fp. true }

abbrev idle : FileTransfer
idle = record { objects = []; sending = []; receiving = []; listeners = [] }

abbrev active : ActiveSend
active = record {
  id = text "t";
  file = bytes;
  filename = text "f";
  peer = text "b";
  total_chunks = 3;
  chunk_size = 2;
  current_index = 0;
  cancelled = false;
  bytes_sent = 0;
}

abbrev busy : FileTransfer
busy = record {
  objects = (text "t", active) ∷ [];
  sending = (text "t", tt) ∷ [];
  receiving = [];
  listeners = (text "t", tt) ∷ [];
}

abbrev all_sent : ActiveSend
all_sent = record active { current_index = 3; bytes_sent = 5 }

abbrev sent_all : FileTransfer
sent_all = record busy { objects = (text "t", all_sent) ∷ [] }

sent_all-IsSending : IsSending (text "t") all_sent sent_all
unfolding Dict.get Dict.has text_eq
sent_all-IsSending = record { stored = refl; named = refl; live = refl; listed = refl }

meta-Describes : Describes meta bytes
unfolding ceil_div
meta-Describes = record { positive = omega arith; total = refl; indexed = omega arith }

busy-IsSending : IsSending (text "t") active busy
unfolding Dict.get Dict.has text_eq
busy-IsSending = record { stored = refl; named = refl; live = refl; listed = refl }

idle-AllReceiving : AllReceiving idle
unfolding Dict.get
idle-AllReceiving = record { each = λ id r p. ground arith }

all_three : (j : ℕ) → j < 3 → arrived j (2 ∷ 0 ∷ 2 ∷ 1 ∷ []) ≡ true
unfolding arrived
all_three j h = ground arith

sent_file_arrives_example :
    (es : List Effect) × ((deliver_all peers
        (text "a")
        (run_loop (steps_for 3) testing (text "t") busy).2
        (handle_offer meta (text "a") idle).0).1
      ≡ es ++ received_file (text "t") bytes meta (text "a") ∷ [])
sent_file_arrives_example =
    sent_file_arrives peers meta (text "a") active busy idle meta-Describes busy-IsSending refl refl
      refl

file_received_example :
    ((assemble_file
        (text "t")
        (after_chunks peers meta bytes (text "a") (2 ∷ 0 ∷ 2 ∷ 1 ∷ []) idle)).1
      ≡ received_file (text "t") bytes meta (text "a") ∷ [])
    × (Dict.get
          (text "t")
          (assemble_file
            (text "t")
            (after_chunks peers meta bytes (text "a") (2 ∷ 0 ∷ 2 ∷ 1 ∷ []) idle)).0.receiving
        ≡ none)
file_received_example =
    file_received peers meta bytes (text "a") (2 ∷ 0 ∷ 2 ∷ 1 ∷ []) idle meta-Describes
      (omega arith, (omega arith, (omega arith, (omega arith, tt)))) all_three

missing_chunk_reported_example :
    (k : ℕ) × ((assemble_file
        (text "t")
        (after_chunks peers meta bytes (text "a") (2 ∷ 0 ∷ []) idle)).1
      ≡ missing_chunk (text "t") k ∷ [])
    × ((assemble_file (text "t") (after_chunks peers meta bytes (text "a") (2 ∷ 0 ∷ []) idle)).0
        ≡ after_chunks peers meta bytes (text "a") (2 ∷ 0 ∷ []) idle)
    × (k < 3)
    × (arrived k (2 ∷ 0 ∷ []) ≡ false)
unfolding arrived
missing_chunk_reported_example =
    missing_chunk_reported peers meta bytes (text "a") (2 ∷ 0 ∷ []) idle meta-Describes
      (omega arith, (omega arith, tt)) 1 (omega arith) refl

-- A transfer that has been offered, and its first chunk.
abbrev offered : FileTransfer
offered = record idle { receiving = (text "t", new_receive meta (text "a")) ∷ [] }

offered-AllReceiving : AllReceiving offered
unfolding handle_control handle_offer Dict.put
offered-AllReceiving = handle_control-AllReceiving (offer meta) (text "a") idle idle-AllReceiving

abbrev first_chunk : Bytes
first_chunk = encode_chunk 0 (11 ∷ 12 ∷ [])

receipts_stay_valid_example :
    AllReceiving (handle_binary_chunk peers first_chunk (text "a") (text "ft-t") offered).0
    × AllReceiving (handle_control (complete (text "t")) (text "a") offered).0
receipts_stay_valid_example =
    receipts_stay_valid peers first_chunk (text "a") (text "ft-t") (complete (text "t")) offered
      offered-AllReceiving

-- The chunk is stored, and the message `complete` finds the receipt with all three chunks missing.
first_chunk-stored :
    (Dict.keys (handle_binary_chunk peers first_chunk (text "a") (text "ft-t") offered).0.receiving
      ≡ text "t" ∷ [])
    × (receive_progress
          (text "t")
          (handle_binary_chunk peers first_chunk (text "a") (text "ft-t") offered).0
        ≡ some (1, 3))
    × ((handle_control (complete (text "t")) (text "a") offered).1
        ≡ missing_chunk (text "t") 0 ∷ [])
unfolding handle_control assemble_file assemble_from find_missing handle_binary_chunk chunk_for
    place_chunk store_chunk receive_progress new_receive encode_chunk decode_chunk le32 Dict.get
    Dict.put text_eq Dict.keys starts_with
first_chunk-stored = (refl, refl, refl)

overlap-resends_slice_example :
    overlap (text "t") busy
    ≡ chunk (text "t") (encode_chunk 0 (slice_of 2 bytes 0))
      ∷ progress (text "t") 1 3
      ∷ chunk (text "t") (encode_chunk 1 (slice_of 2 bytes 0))
      ∷ progress (text "t") 2 3
      ∷ []
overlap-resends_slice_example =
    overlap-resends_slice (text "t") active busy busy-IsSending (omega arith)

cancel_send-while_draining_example :
    ((cancel_send (text "t") sent_all).1
      ≡ closed_channel (text "t") ∷ Effect.cancelled (text "t") ∷ rejected (text "t") ∷ [])
    × ((loop_step true draining (text "t") (cancel_send (text "t") sent_all).0).2
        ≡ control (text "b") (complete (text "t"))
          ∷ sent_file (text "t")
          ∷ resolved (text "t")
          ∷ [])
cancel_send-while_draining_example =
    cancel_send-while_draining (text "t") all_sent sent_all sent_all-IsSending
