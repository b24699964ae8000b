-- ===== src/Transfer/Receipts.antt =====
-- The receiving side against any peer (transfer.ts, handleControl and handleBinaryChunk): whatever
-- messages and chunks come, from whomever, the receipts stay well formed.
use peer_server.Prelude.{
  ℕ, ◌≡◌, ◌∙◌, refl, sym, ap, subst, inl, inr, Option, none, some, Text, text_eq, starts_with, leb,
  drop, length, arith, Bool-cases,
}
use peer_server.Dict
use peer_server.Dict.Laws.{get-put, get-remove}
use peer_server.Transfer.{
  Bytes, channel_prefix, decode_chunk, Control, offer, accept, cancel, complete, ack, resume,
  ActiveReceive, FileTransfer, Peers,
}
use peer_server.Transfer.Receive.{
  new_receive, handle_offer, store_chunk, place_chunk, chunk_for, handle_binary_chunk, drop_receipt,
  assemble_from, assemble_file, find_missing, is_below,
}
use peer_server.Transfer.Loop.{cleanup_send}
use peer_server.Transfer.Send.{cancel_send, handle_cancel, handle_control, modify}
use peer_server.Transfer.Reassembly.{IsReceiving, new_receive-IsReceiving, store_chunk-IsReceiving}

pub record AllReceiving (s : FileTransfer) : Type 0 where
  pub each : (id : Text) (r : ActiveReceive) → Dict.get id s.receiving ≡ some r → IsReceiving r

same_receiving : (s t : FileTransfer) → t.receiving ≡ s.receiving → AllReceiving s → AllReceiving t
same_receiving s t e h = record { each = λ id r p. h.each id r (ap (Dict.get id) (sym e) ∙ p) }

drop_receipt-AllReceiving :
    (id : Text) (s : FileTransfer) → AllReceiving s → AllReceiving (drop_receipt id s)
unfolding drop_receipt
drop_receipt-AllReceiving id s h = record {
  each = λ j r p. ground (arith, get-remove id j s.receiving, h.each j r);
}

store-AllReceiving :
    (id : Text) (r : ActiveReceive) (s : FileTransfer)
    → IsReceiving r
    → AllReceiving s
    → AllReceiving (record s { receiving = Dict.put id r s.receiving })
store-AllReceiving id r s v h = record {
  each = λ j x p. elim (Bool-cases (text_eq id j)) [
    | inl same ↦ subst IsReceiving (ground (arith, get-put id j r s.receiving)) v
    | inr other ↦ h.each j x (ground (arith, get-put id j r s.receiving))
  ];
}

place_chunk-AllReceiving :
    (ps : Peers) (id : Text) (c : Option (ℕ × Bytes)) (r : ActiveReceive) (s : FileTransfer)
    → IsReceiving r
    → AllReceiving s
    → AllReceiving (place_chunk ps id c r s).0
unfolding place_chunk
place_chunk-AllReceiving ps id none r s v h = h
place_chunk-AllReceiving ps id (some (i, c)) r s v h =
    elim (Bool-cases (leb r.meta.total_chunks i)) [
      | inl out ↦ rw out h
      | inr fits ↦
          rw fits (store-AllReceiving id (store_chunk i c r) s (store_chunk-IsReceiving i c r v) h)
    ]

chunk_for-AllReceiving :
    (ps : Peers) (b : Bytes) (from id : Text) (o : Option ActiveReceive) (s : FileTransfer)
    → Dict.get id s.receiving ≡ o
    → AllReceiving s
    → AllReceiving (chunk_for ps b from id o s).0
unfolding chunk_for
chunk_for-AllReceiving ps b from id none s e h = h
chunk_for-AllReceiving ps b from id (some r) s e h = elim (Bool-cases (text_eq r.from from)) [
  | inl same ↦ rw same (place_chunk-AllReceiving ps id (decode_chunk b) r s (h.each id r e) h)
  | inr other ↦ rw other h
]

cancel_send_receiving :
    (id : Text) (s : FileTransfer) → (cancel_send id s).0.receiving ≡ s.receiving
unfolding cancel_send cleanup_send modify
cancel_send_receiving id s = ground arith

handle_cancel-AllReceiving :
    (id : Text) (s : FileTransfer) → AllReceiving s → AllReceiving (handle_cancel id s).0
unfolding handle_cancel
handle_cancel-AllReceiving id s h =
    let s1 : FileTransfer = (cancel_send id s).0 in
    let h1 = same_receiving s s1 (cancel_send_receiving id s) h in
    elim (Bool-cases (Dict.has id s1.receiving)) [
      | inl there ↦ rw there (drop_receipt-AllReceiving id s1 h1)
      | inr gone ↦ rw gone h1
    ]

assemble_from-AllReceiving :
    (id : Text) (o : Option ActiveReceive) (s : FileTransfer)
    → AllReceiving s
    → AllReceiving (assemble_from id o s).0
unfolding assemble_from
assemble_from-AllReceiving id none s h = h
assemble_from-AllReceiving id (some r) s h =
    elim (Bool-cases (is_below (find_missing r.chunks) r.meta.total_chunks)) [
      | inl missing ↦ rw missing h
      | inr whole ↦ rw whole (drop_receipt-AllReceiving id s h)
    ]

pub handle_control-AllReceiving :
    (m : Control) (from : Text) (s : FileTransfer)
    → AllReceiving s
    → AllReceiving (handle_control m from s).0
unfolding handle_control handle_offer assemble_file
handle_control-AllReceiving (offer meta) from s h =
    store-AllReceiving meta.id (new_receive meta from) s (new_receive-IsReceiving meta from) h
handle_control-AllReceiving (complete id) from s h = assemble_from-AllReceiving id _ s h
handle_control-AllReceiving (cancel id) from s h = handle_cancel-AllReceiving id s h
handle_control-AllReceiving (accept id) from s h = h
handle_control-AllReceiving (ack id i) from s h = h
handle_control-AllReceiving (resume id i) from s h = h

handle_binary_chunk-AllReceiving :
    (ps : Peers) (b : Bytes) (from channel : Text) (s : FileTransfer)
    → AllReceiving s
    → AllReceiving (handle_binary_chunk ps b from channel s).0
unfolding handle_binary_chunk
handle_binary_chunk-AllReceiving ps b from channel s h =
    elim (Bool-cases (starts_with channel channel_prefix)) [
      | inl ours ↦
          rw ours
            (chunk_for-AllReceiving ps b from (drop (length channel_prefix) channel) _ s refl h)
      | inr other ↦ rw other h
    ]

-- Any chunk, from any peer on any channel, and any control message from any peer keep the receipts
-- well formed: a place for each chunk of the offer, and a count that is the number of the filled
-- places.
pub receipts_stay_valid :
    (ps : Peers) (b : Bytes) (from channel : Text) (m : Control) (s : FileTransfer)
    → AllReceiving s
    → AllReceiving (handle_binary_chunk ps b from channel s).0
      × AllReceiving (handle_control m from s).0
receipts_stay_valid ps b from channel m s h =
    (handle_binary_chunk-AllReceiving ps b from channel s h, handle_control-AllReceiving m from s h)
