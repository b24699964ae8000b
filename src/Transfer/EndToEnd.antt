-- ===== src/Transfer/EndToEnd.antt =====
-- A file through the receiving side (transfer.ts, handleControl, handleBinaryChunk, assembleFile):
-- whatever the order of its chunks, and however often each arrives.
use peer_server.Prelude.{
  ℕ, zero, suc, ◌%◌, ◌^◌, ◌≤◌, ◌<◌, ◌≡◌, ◌∙◌, refl, sym, ap, subst, inl, inr, Bool, true, false,
  not, ◌&&◌, ◌||◌, Option, none, some, List, [], ◌∷◌, ◌++◌, Text, text_eq_refl, starts_with_self,
  ltb, ◌==◌, length, get_elem?, arith, Option-cases,
}
use peer_server.Dict
use peer_server.Dict.Laws.{get-put, get-remove}
use peer_server.Transfer.{
  Bytes, channel_prefix, encode_chunk, FileMetadata, ActiveReceive, received_file, missing_chunk,
  FileTransfer, Peers,
}
use peer_server.Transfer.Receive.{
  is_vacant, store_chunk, find_missing, join_chunks, new_receive, handle_offer, place_chunk,
  chunk_for, handle_binary_chunk, assemble_from, assemble_file,
}
use peer_server.Transfer.Send.{ceil_div}
use peer_server.Transfer.Slices.{slice_of, join_slices, join_slices-all, decode_chunk-encode_chunk}
use peer_server.Transfer.Reassembly.{
  Genuine, Genuine-replicate, IsReceiving, new_receive-IsReceiving, store_chunk-IsReceiving,
  store_chunk-Genuine, vacant-store_chunk, vacant-replicate, find_missing-none, find_missing-some,
  join_chunks-Genuine,
}

-- Is `j` one of the indices?
unfoldable pub arrived : ℕ → List ℕ → Bool
arrived j [] = false
arrived j (i ∷ is) = (i == j) || arrived j is

abbrev pub AllBelow : ℕ → List ℕ → Type 0
AllBelow n [] = Unit
AllBelow n (i ∷ is) = (i < n) × AllBelow n is

-- The chunks of the file with these indices come in on the transfer's channel, in this order.
unfoldable pub feed : Peers → ℕ → Bytes → Text → Text → List ℕ → FileTransfer → FileTransfer
feed ps size file id from [] s = s
feed ps size file id from (i ∷ is) s =
    feed ps size file id from is
      (handle_binary_chunk ps (encode_chunk i (slice_of size file i)) from (channel_prefix ++ id)
        s).0

store_all : ℕ → Bytes → List ℕ → ActiveReceive → ActiveReceive
store_all size file [] r = r
store_all size file (i ∷ is) r = store_all size file is (store_chunk i (slice_of size file i) r)

meta-store_chunk : (i : ℕ) (c : Bytes) (r : ActiveReceive) → (store_chunk i c r).meta ≡ r.meta
unfolding store_chunk
meta-store_chunk i c r = ground arith

from-store_chunk : (i : ℕ) (c : Bytes) (r : ActiveReceive) → (store_chunk i c r).from ≡ r.from
unfolding store_chunk
from-store_chunk i c r = ground arith

small_mod : (i n : ℕ) → i < n → n ≤ 2 ^ 32 → i % 2 ^ 32 ≡ i
small_mod i n h k = omega arith

-- A chunk of the transfer, from its sender, with an index in range, is stored.
place_chunk-get :
    (ps : Peers) (id : Text) (i : ℕ) (c : Bytes) (r : ActiveReceive) (s : FileTransfer)
    → i < r.meta.total_chunks
    → Dict.get id (place_chunk ps id (some (i, c)) r s).0.receiving ≡ some (store_chunk i c r)
unfolding place_chunk
place_chunk-get ps id i c r s h =
    ground (arith, get-put id id (store_chunk i c r) s.receiving, text_eq_refl id)

binary_chunk_get :
    (ps : Peers) (id : Text) (i : ℕ) (c : Bytes) (r : ActiveReceive) (s : FileTransfer)
    → Dict.get id s.receiving ≡ some r
    → i < r.meta.total_chunks
    → r.meta.total_chunks ≤ 2 ^ 32
    → Dict.get id
        (handle_binary_chunk ps (encode_chunk i c) r.from (channel_prefix ++ id) s).0.receiving
      ≡ some (store_chunk i c r)
unfolding handle_binary_chunk chunk_for
binary_chunk_get ps id i c r s g h k =
    rw
      (
        starts_with_self channel_prefix id,
        g,
        chunk_for,
        text_eq_refl r.from,
        decode_chunk-encode_chunk i c,
        small_mod i _ h k,
      )
      (place_chunk-get ps id i c r s h)

feed-get :
    (ps : Peers) (size : ℕ) (file : Bytes) (id from : Text) (is : List ℕ) (r : ActiveReceive)
    (s : FileTransfer)
    → Dict.get id s.receiving ≡ some r
    → r.from ≡ from
    → AllBelow r.meta.total_chunks is
    → r.meta.total_chunks ≤ 2 ^ 32
    → Dict.get id (feed ps size file id from is s).receiving ≡ some (store_all size file is r)
unfolding feed store_all
feed-get ps size file id from [] r s g f b k = g
feed-get ps size file id from (i ∷ is) r s g f (h, b) k =
    let c = slice_of size file i in
    let m = meta-store_chunk i c r in
    feed-get ps size file id from is (store_chunk i c r) _
      (subst
        (λ sender.
          Dict.get id
            (handle_binary_chunk ps (encode_chunk i c) sender (channel_prefix ++ id) s).0.receiving
          ≡ some (store_chunk i c r))
        f (binary_chunk_get ps id i c r s g h k))
      (from-store_chunk i c r ∙ f) (subst (λ x. AllBelow x.total_chunks is) (sym m) b)
      (subst (λ x. x.total_chunks ≤ 2 ^ 32) (sym m) k)

store_all-IsReceiving :
    (size : ℕ) (file : Bytes) (is : List ℕ) (r : ActiveReceive)
    → IsReceiving r
    → IsReceiving (store_all size file is r)
unfolding store_all
store_all-IsReceiving size file [] r h = h
store_all-IsReceiving size file (i ∷ is) r h =
    store_all-IsReceiving size file is _ (store_chunk-IsReceiving i (slice_of size file i) r h)

store_all-Genuine :
    (size : ℕ) (file : Bytes) (is : List ℕ) (r : ActiveReceive)
    → Genuine size file 0 r.chunks
    → Genuine size file 0 (store_all size file is r).chunks
unfolding store_all
store_all-Genuine size file [] r h = h
store_all-Genuine size file (i ∷ is) r h =
    store_all-Genuine size file is _ (store_chunk-Genuine size file i r h)

meta-store_all :
    (size : ℕ) (file : Bytes) (is : List ℕ) (r : ActiveReceive)
    → (store_all size file is r).meta ≡ r.meta
unfolding store_all
meta-store_all size file [] r = refl
meta-store_all size file (i ∷ is) r =
    meta-store_all size file is _ ∙ meta-store_chunk i (slice_of size file i) r

from-store_all :
    (size : ℕ) (file : Bytes) (is : List ℕ) (r : ActiveReceive)
    → (store_all size file is r).from ≡ r.from
unfolding store_all
from-store_all size file [] r = refl
from-store_all size file (i ∷ is) r =
    from-store_all size file is _ ∙ from-store_chunk i (slice_of size file i) r

vacant-store_all :
    (size : ℕ) (file : Bytes) (is : List ℕ) (r : ActiveReceive) (j : ℕ)
    → is_vacant (get_elem? (store_all size file is r).chunks j)
      ≡ (is_vacant (get_elem? r.chunks j) && not (arrived j is))
unfolding store_all arrived
vacant-store_all size file [] r j = ground arith
vacant-store_all size file (i ∷ is) r j =
    vacant-store_all size file is _ j
    ∙ ground (arith, vacant-store_chunk i j (slice_of size file i) r)

assembled :
    (id : Text) (r : ActiveReceive) (s : FileTransfer)
    → find_missing r.chunks ≡ none
    → ((assemble_from id (some r) s).1 ≡ received_file id (join_chunks r.chunks) r.meta r.from ∷ [])
      × (Dict.get id (assemble_from id (some r) s).0.receiving ≡ none)
unfolding assemble_from
assembled id r s h = rw h (refl, get-remove id id s.receiving ∙ rw (text_eq_refl id))

reported :
    (id : Text) (r : ActiveReceive) (s : FileTransfer) (k : ℕ)
    → find_missing r.chunks ≡ some k
    → k < r.meta.total_chunks
    → ((assemble_from id (some r) s).1 ≡ missing_chunk id k ∷ [])
      × ((assemble_from id (some r) s).0 ≡ s)
unfolding assemble_from
reported id r s k h below = rw h (ground arith)

find_missing-ne-none :
    (cs : List (Option Bytes)) (j : ℕ)
    → is_vacant (get_elem? cs j) ≡ true
    → find_missing cs ≡ none
    → ⊥
unfolding find_missing
find_missing-ne-none [] j v h = cc
find_missing-ne-none (none ∷ cs) j v h = cc
find_missing-ne-none (some c ∷ cs) zero v h = cc
find_missing-ne-none (some c ∷ cs) (suc j) v h = find_missing-ne-none cs j v (ground arith)

-- An offer of the file, then its chunks in some order.
abbrev pub after_chunks : Peers → FileMetadata → Bytes → Text → List ℕ → FileTransfer → FileTransfer
after_chunks ps meta file from is s =
    feed ps meta.chunk_size file meta.id from is (handle_offer meta from s).0

-- The offer describes the file.
pub record Describes (meta : FileMetadata) (file : Bytes) : Type 0 where
  pub positive : 0 < meta.chunk_size
  pub total : meta.total_chunks ≡ ceil_div (length file) meta.chunk_size
  pub indexed : meta.total_chunks ≤ 2 ^ 32

module _ (ps : Peers) (meta : FileMetadata) (file : Bytes) (from : Text) (is : List ℕ)
    (s : FileTransfer) (d : Describes meta file) (b : AllBelow meta.total_chunks is) where
  abbrev receipt : ActiveReceive
  receipt = store_all meta.chunk_size file is (new_receive meta from)

  receipt_stored : Dict.get meta.id (after_chunks ps meta file from is s).receiving ≡ some receipt
  receipt_stored =
      feed-get ps meta.chunk_size file meta.id from is (new_receive meta from) _
        (unfold handle_offer in
          get-put meta.id meta.id (new_receive meta from) s.receiving ∙ rw (text_eq_refl meta.id))
        (unfold new_receive in refl) (unfold new_receive in b) (unfold new_receive in d.indexed)

  receipt_vacant :
      (j : ℕ)
      → is_vacant (get_elem? receipt.chunks j) ≡ (ltb j meta.total_chunks && not (arrived j is))
  receipt_vacant j =
      vacant-store_all meta.chunk_size file is (new_receive meta from) j
      ∙ ap (λ v. v && not (arrived j is))
          (unfold new_receive in vacant-replicate meta.total_chunks j)

  receipt_meta : receipt.meta ≡ meta
  receipt_meta = meta-store_all meta.chunk_size file is _ ∙ (unfold new_receive in refl)

  receipt_from : receipt.from ≡ from
  receipt_from = from-store_all meta.chunk_size file is _ ∙ (unfold new_receive in refl)

  receipt_length : length receipt.chunks ≡ meta.total_chunks
  receipt_length =
      (store_all-IsReceiving meta.chunk_size file is _ (new_receive-IsReceiving meta from)).places
      ∙ ap (λ m. m.total_chunks) receipt_meta

  receipt_join : find_missing receipt.chunks ≡ none → join_chunks receipt.chunks ≡ file
  receipt_join h =
      join_chunks-Genuine meta.chunk_size file 0 receipt.chunks h (
        store_all-Genuine meta.chunk_size file is _
          (unfold new_receive in Genuine-replicate meta.chunk_size file 0 meta.total_chunks))
      ∙ ap (join_slices meta.chunk_size file 0) (receipt_length ∙ d.total)
      ∙ join_slices-all meta.chunk_size file d.positive

  no_vacancy :
      ((j : ℕ) → j < meta.total_chunks → arrived j is ≡ true)
      → (j : ℕ) → is_vacant (get_elem? receipt.chunks j) ≡ false
  no_vacancy h j = receipt_vacant j ∙ ground (arith, h j)

  assemble_stored :
      assemble_file meta.id (after_chunks ps meta file from is s)
      ≡ assemble_from meta.id (some receipt) (after_chunks ps meta file from is s)
  unfolding assemble_file
  assemble_stored =
      ap (λ o. assemble_from meta.id o (after_chunks ps meta file from is s)) receipt_stored

  -- An offer that describes a file, then chunks of the file in any order, with any repetitions,
  -- each index among them at least once: on `complete` the receiver hands its listeners exactly
  -- the file, with the offer's description and its sender, and forgets the transfer.
  pub file_received :
      ((j : ℕ) → j < meta.total_chunks → arrived j is ≡ true)
      → ((assemble_file meta.id (after_chunks ps meta file from is s)).1
          ≡ received_file meta.id file meta from ∷ [])
        × (Dict.get meta.id
              (assemble_file meta.id (after_chunks ps meta file from is s)).0.receiving
            ≡ none)
  file_received h =
      let none_missing : find_missing receipt.chunks ≡ none =
        find_missing-none receipt.chunks (no_vacancy h) in
      let out = assembled meta.id receipt (after_chunks ps meta file from is s) none_missing in
      (
        ap (λ p. p.1) assemble_stored
            ∙ out.0
            ∙ ap (λ x. received_file meta.id x receipt.meta receipt.from ∷ [])
                (receipt_join none_missing)
            ∙ ap (λ m. received_file meta.id file m receipt.from ∷ []) receipt_meta
            ∙ ap (λ f. received_file meta.id file meta f ∷ []) receipt_from,
        ap (λ p. Dict.get meta.id p.0.receiving) assemble_stored ∙ out.1,
      )

  -- If the chunk with the index `j` never arrived, `complete` makes an error that names an index
  -- in range of a chunk that never arrived, and the transfer stays as it was.
  pub missing_chunk_reported :
      (j : ℕ)
      → j < meta.total_chunks
      → arrived j is ≡ false
      → (k : ℕ) × ((assemble_file meta.id (after_chunks ps meta file from is s)).1
          ≡ missing_chunk meta.id k ∷ [])
        × ((assemble_file meta.id (after_chunks ps meta file from is s)).0
            ≡ after_chunks ps meta file from is s)
        × (k < meta.total_chunks)
        × (arrived k is ≡ false)
  missing_chunk_reported j h a = elim (Option-cases (find_missing receipt.chunks)) [
    | inl e ↦ absurd (find_missing-ne-none receipt.chunks j (receipt_vacant j ∙ ground arith) e)
    | inr (k, e) ↦
        let found = find_missing-some receipt.chunks k e in
        let below : k < meta.total_chunks = omega (arith, found.1, receipt_length) in
        let out =
          reported meta.id receipt (after_chunks ps meta file from is s) k e
            (subst (λ m. k < m.total_chunks) (sym receipt_meta) below) in
        (
          k,
          ap (λ p. p.1) assemble_stored ∙ out.0,
          ap (λ p. p.0) assemble_stored ∙ out.1,
          below,
          ground (arith, found.0, receipt_vacant k),
        )
  ]
