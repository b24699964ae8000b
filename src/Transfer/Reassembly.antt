-- ===== src/Transfer/Reassembly.antt =====
-- Storing chunks on the receiving side (transfer.ts, handleBinaryChunk and assembleFile): which
-- places are filled, with what, and what the chunks make when none is missing.
use peer_server.Prelude.{
  Text, ℕ, zero, suc, ◌+◌, ◌≤◌, ◌<◌, ◌≡◌, ◌∙◌, refl, sym, ap, subst, inl, inr, true, false, not,
  ◌&&◌, Option, none, some, List, [], ◌∷◌, ◌++◌, ltb, ◌==◌, length, replicate, set, get_elem?,
  length-set, length-replicate, arith, Bool-cases,
}
use peer_server.Transfer.{Bytes, FileMetadata, ActiveReceive}
use peer_server.Transfer.Receive.{is_vacant, store_chunk, find_missing, join_chunks, new_receive}
use peer_server.Transfer.Slices.{slice_of, join_slices}

-- How many places are filled.
unfoldable pub filled : List (Option Bytes) → ℕ
filled [] = 0
filled (none ∷ cs) = filled cs
filled (some c ∷ cs) = suc (filled cs)

-- Each chunk that is there is the slice of the file for its place; the first place is `i`.
abbrev pub Genuine : ℕ → Bytes → ℕ → List (Option Bytes) → Type 0
Genuine size file i [] = Unit
Genuine size file i (none ∷ cs) = Genuine size file (suc i) cs
Genuine size file i (some c ∷ cs) = (c ≡ slice_of size file i) × Genuine size file (suc i) cs

pub filled-replicate : (n : ℕ) → filled (replicate n none) ≡ 0
unfolding filled
filled-replicate zero = refl
filled-replicate (suc n) = filled-replicate n

pub Genuine-replicate : (size : ℕ) (file : Bytes) (i n : ℕ) → Genuine size file i (replicate n none)
Genuine-replicate size file i zero = tt
Genuine-replicate size file i (suc n) = Genuine-replicate size file (suc i) n

pub filled-le-length : (cs : List (Option Bytes)) → filled cs ≤ length cs
unfolding filled
filled-le-length [] = omega arith
filled-le-length (none ∷ cs) = omega (arith, filled-le-length cs)
filled-le-length (some c ∷ cs) = omega (arith, filled-le-length cs)

add_shift : (i j : ℕ) → suc i + j ≡ i + suc j
add_shift i j = omega arith

zero_add : (i : ℕ) → 0 + i ≡ i
zero_add i = omega arith

at_first : (i : ℕ) → i + 0 ≡ i
at_first i = omega arith

ltb-suc : (j n : ℕ) → ltb j n ≡ ltb (suc j) (suc n)
ltb-suc j n = ground arith

vacant-set :
    (cs : List (Option Bytes)) (i j : ℕ) (c : Bytes)
    → is_vacant (get_elem? (set cs i (some c)) j) ≡ (is_vacant (get_elem? cs j) && not (i == j))
vacant-set [] i j c = refl
vacant-set (d ∷ cs) zero zero c = ground arith
vacant-set (d ∷ cs) zero (suc j) c = ground arith
vacant-set (d ∷ cs) (suc i) zero c = ground arith
vacant-set (d ∷ cs) (suc i) (suc j) c = ground (arith, vacant-set cs i j c)

vacant-same :
    (cs : List (Option Bytes)) (i j : ℕ)
    → is_vacant (get_elem? cs i) ≡ false
    → is_vacant (get_elem? cs j) ≡ (is_vacant (get_elem? cs j) && not (i == j))
vacant-same cs i j h = ground arith

filled-set :
    (cs : List (Option Bytes)) (j : ℕ) (c : Bytes)
    → is_vacant (get_elem? cs j) ≡ true
    → filled (set cs j (some c)) ≡ filled cs + 1
unfolding filled
filled-set [] j c h = cc
filled-set (none ∷ cs) zero c h = omega arith
filled-set (some d ∷ cs) zero c h = cc
filled-set (none ∷ cs) (suc j) c h = filled-set cs j c h
filled-set (some d ∷ cs) (suc j) c h = omega (arith, filled-set cs j c h)

Genuine-shift :
    (size : ℕ) (file : Bytes) (i : ℕ) (cs : List (Option Bytes)) (j : ℕ)
    → Genuine size file (suc i) (set cs j (some (slice_of size file (suc i + j))))
    → Genuine size file (suc i) (set cs j (some (slice_of size file (i + suc j))))
Genuine-shift size file i cs j =
    subst (λ k. Genuine size file (suc i) (set cs j (some (slice_of size file k)))) (add_shift i j)

Genuine-set :
    (size : ℕ) (file : Bytes) (i : ℕ) (cs : List (Option Bytes)) (j : ℕ)
    → Genuine size file i cs
    → Genuine size file i (set cs j (some (slice_of size file (i + j))))
Genuine-set size file i [] j g = tt
Genuine-set size file i (none ∷ cs) zero g = (ap (slice_of size file) (at_first i), g)
Genuine-set size file i (some c ∷ cs) zero (_, g) = (ap (slice_of size file) (at_first i), g)
Genuine-set size file i (none ∷ cs) (suc j) g =
    Genuine-shift size file i cs j (Genuine-set size file (suc i) cs j g)
Genuine-set size file i (some c ∷ cs) (suc j) (e, g) =
    (e, Genuine-shift size file i cs j (Genuine-set size file (suc i) cs j g))

-- One place less is vacant after a store, and no other changes.
pub vacant-store_chunk :
    (i j : ℕ) (c : Bytes) (r : ActiveReceive)
    → is_vacant (get_elem? (store_chunk i c r).chunks j)
      ≡ (is_vacant (get_elem? r.chunks j) && not (i == j))
unfolding store_chunk
vacant-store_chunk i j c r = elim (Bool-cases (is_vacant (get_elem? r.chunks i))) [
  | inl v ↦ rw v (vacant-set r.chunks i j c)
  | inr f ↦ rw f (vacant-same r.chunks i j f)
]

pub vacant-replicate : (n j : ℕ) → is_vacant (get_elem? (replicate n none) j) ≡ ltb j n
vacant-replicate zero j = ground arith
vacant-replicate (suc n) zero = ground arith
vacant-replicate (suc n) (suc j) = vacant-replicate n j ∙ ltb-suc j n

pub find_missing-none :
    (cs : List (Option Bytes))
    → ((j : ℕ) → is_vacant (get_elem? cs j) ≡ false)
    → find_missing cs ≡ none
unfolding find_missing
find_missing-none [] h = refl
find_missing-none (none ∷ cs) h = cc (h 0)
find_missing-none (some c ∷ cs) h = rw (find_missing-none cs (λ j. h (suc j)))

-- What `findIndex` finds is vacant, and nothing before it is.
pub find_missing-some :
    (cs : List (Option Bytes)) (k : ℕ)
    → find_missing cs ≡ some k
    → (is_vacant (get_elem? cs k) ≡ true) × (k < length cs)
unfolding find_missing
find_missing-some [] k h = cc
find_missing-some (none ∷ cs) zero h = (refl, omega arith)
find_missing-some (none ∷ cs) (suc k) h = absurd (ground arith)
find_missing-some (some c ∷ cs) zero h = absurd (ground arith)
find_missing-some (some c ∷ cs) (suc k) h = ground (arith, find_missing-some cs k)

pub join_chunks-Genuine :
    (size : ℕ) (file : Bytes) (i : ℕ) (cs : List (Option Bytes))
    → find_missing cs ≡ none
    → Genuine size file i cs
    → join_chunks cs ≡ join_slices size file i (length cs)
unfolding find_missing join_chunks join_slices
join_chunks-Genuine size file i [] h g = refl
join_chunks-Genuine size file i (none ∷ cs) h g = cc
join_chunks-Genuine size file i (some c ∷ cs) h (e, g) =
    ap (λ ys. c ++ ys) (join_chunks-Genuine size file (suc i) cs (ground arith) g)
    ∙ ap (λ d. d ++ join_slices size file (suc i) (length cs)) e

-- What holds of every receipt: a place for each chunk, and `received` counts those that are filled.
pub record IsReceiving (r : ActiveReceive) : Type 0 where
  pub places : length r.chunks ≡ r.meta.total_chunks
  pub counted : r.received ≡ filled r.chunks

pub new_receive-IsReceiving :
    (meta : FileMetadata) (from : Text) → IsReceiving (new_receive meta from)
unfolding new_receive
new_receive-IsReceiving meta from = record {
  places = length-replicate meta.total_chunks none;
  counted = sym (filled-replicate meta.total_chunks);
}

pub store_chunk-IsReceiving :
    (i : ℕ) (c : Bytes) (r : ActiveReceive) → IsReceiving r → IsReceiving (store_chunk i c r)
unfolding store_chunk
store_chunk-IsReceiving i c r h = elim (Bool-cases (is_vacant (get_elem? r.chunks i))) [
  | inl v ↦ rw v (record {
    places = length-set r.chunks i (some c) ∙ h.places;
    counted = omega (arith, h.counted, filled-set r.chunks i c v);
  })
  | inr f ↦ rw f h
]

pub store_chunk-Genuine :
    (size : ℕ) (file : Bytes) (i : ℕ) (r : ActiveReceive)
    → Genuine size file 0 r.chunks
    → Genuine size file 0 (store_chunk i (slice_of size file i) r).chunks
unfolding store_chunk
store_chunk-Genuine size file i r g = elim (Bool-cases (is_vacant (get_elem? r.chunks i))) [
  | inl v ↦ rw v (
      subst (λ k. Genuine size file 0 (set r.chunks i (some (slice_of size file k)))) (zero_add i)
        (Genuine-set size file 0 r.chunks i g))
  | inr f ↦ rw f g
]
