-- ===== src/Transfer/Slices.antt =====
-- The chunk format and the cutting of a file into chunks (transfer.ts, encodeChunk, decodeChunk and
-- the slices of `startSending`).
use peer_server.Prelude.{
  ℕ, zero, suc, ◌+◌, ◌-◌, ◌*◌, ◌%◌, ◌^◌, ◌≤◌, ◌<◌, min, ◌≡◌, ◌∙◌, refl, sym, ap, ◌⊎◌, inl, inr,
  some, [], ◌∷◌, ◌++◌, take, drop, length, length-drop, arith,
}
use peer_server.Transfer.{Bytes, encode_chunk, decode_chunk, ActiveSend}
use peer_server.Transfer.Loop.{slice_at}
use peer_server.Transfer.Send.{ceil_div}

-- Decoding an encoded chunk gives the index modulo 2^32 and the payload.
pub decode_chunk-encode_chunk :
    (index : ℕ) (payload : Bytes)
    → decode_chunk (encode_chunk index payload) ≡ some (index % 2 ^ 32, payload)
unfolding decode_chunk encode_chunk
decode_chunk-encode_chunk index payload = ap (λ i. some (i, payload)) (omega arith)

-- The i-th chunk of a file.
unfoldable pub slice_of : ℕ → Bytes → ℕ → Bytes
slice_of size file i = take size (drop (i * size) file)

take_all : (n : ℕ) (xs : Bytes) → length xs ≤ n → take n xs ≡ xs
take_all zero [] h = refl
take_all (suc n) [] h = refl
take_all zero (x ∷ xs) h = absurd (omega arith)
take_all (suc n) (x ∷ xs) h = ap (λ ys. x ∷ ys) (take_all n xs (omega arith))

take_min :
    (n m : ℕ) (xs : Bytes) → (n ≡ m) ⊎ ((length xs ≤ n) × (length xs ≤ m)) → take n xs ≡ take m xs
take_min n m xs (inl e) = ap (λ k. take k xs) e
take_min n m xs (inr (p, q)) = take_all n xs p ∙ sym (take_all m xs q)

min_cases :
    (x c l r : ℕ) → r ≡ l - x → (min (x + c) l - x ≡ c) ⊎ ((r ≤ min (x + c) l - x) × (r ≤ c))
min_cases x c l r e = omega arith

-- What the loop reads is the slice at the current index.
pub slice_at-eq-slice_of :
    (a : ActiveSend) → slice_at a ≡ slice_of a.chunk_size a.file a.current_index
unfolding slice_at slice_of
slice_at-eq-slice_of a = take_min _ a.chunk_size _ (
    min_cases (a.current_index * a.chunk_size) a.chunk_size (length a.file) _
      (length-drop (a.current_index * a.chunk_size) a.file))

-- The chunks i, …, i + n - 1 one after the other.
unfoldable pub join_slices : ℕ → Bytes → ℕ → ℕ → Bytes
join_slices size file i zero = []
join_slices size file i (suc n) = slice_of size file i ++ join_slices size file (suc i) n

zero_add : (n : ℕ) → 0 + n ≡ n
zero_add n = omega arith

suc_add : (m n : ℕ) → suc m + n ≡ suc (m + n)
suc_add m n = omega arith

drop-nil : (n : ℕ) → drop {A = ℕ} n [] ≡ []
drop-nil zero = refl
drop-nil (suc n) = refl

take-nil : (n : ℕ) → take {A = ℕ} n [] ≡ []
take-nil zero = refl
take-nil (suc n) = refl

drop-add : (m n : ℕ) (xs : Bytes) → drop (m + n) xs ≡ drop n (drop m xs)
drop-add zero n xs = ap (λ k. drop k xs) (zero_add n)
drop-add (suc m) n [] = drop-nil (suc m + n) ∙ sym (drop-nil n)
drop-add (suc m) n (x ∷ xs) = ap (λ k. drop k (x ∷ xs)) (suc_add m n) ∙ drop-add m n xs

take-add : (m n : ℕ) (xs : Bytes) → take (m + n) xs ≡ take m xs ++ take n (drop m xs)
take-add zero n xs = ap (λ k. take k xs) (zero_add n)
take-add (suc m) n [] = take-nil (suc m + n) ∙ sym (take-nil n)
take-add (suc m) n (x ∷ xs) =
    ap (λ k. take k (x ∷ xs)) (suc_add m n) ∙ ap (λ ys. x ∷ ys) (take-add m n xs)

zero_times : (k : ℕ) → 0 ≡ 0 * k
zero_times k = omega arith

suc_times : (n k : ℕ) → k + n * k ≡ suc n * k
suc_times n k = grind arith

times_suc : (i k : ℕ) → suc i * k ≡ i * k + k
times_suc i k = grind arith

pub join_slices-eq-take :
    (size : ℕ) (file : Bytes) (i n : ℕ)
    → join_slices size file i n ≡ take (n * size) (drop (i * size) file)
unfolding join_slices slice_of
join_slices-eq-take size file i zero = ap (λ k. take k (drop (i * size) file)) (zero_times size)
join_slices-eq-take size file i (suc n) =
    let here = drop (i * size) file in
    ap (λ ys. take size here ++ ys)
      (join_slices-eq-take size file (suc i) n
        ∙ ap (λ k. take (n * size) (drop k file)) (times_suc i size)
        ∙ ap (take (n * size)) (drop-add (i * size) size file))
    ∙ sym (take-add size (n * size) here)
    ∙ ap (λ k. take k here) (suc_times n size)

ceil_div-covers : (n size : ℕ) → 0 < size → n ≤ ceil_div n size * size
unfolding ceil_div
ceil_div-covers n size h = grind arith

-- The chunks of a file, one after the other, are the file.
pub join_slices-all :
    (size : ℕ) (file : Bytes)
    → 0 < size
    → join_slices size file 0 (ceil_div (length file) size) ≡ file
join_slices-all size file h =
    join_slices-eq-take size file 0 (ceil_div (length file) size)
    ∙ ap (λ k. take (ceil_div (length file) size * size) (drop k file)) (sym (zero_times size))
    ∙ take_all _ file (ceil_div-covers (length file) size h)
