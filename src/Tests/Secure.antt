-- ===== src/Tests/Secure.antt =====
-- An encrypted room of e2e.room.ts that sends in plain, exchanges keys and then sends encrypted.
use peer_server.Prelude.{
  ℕ, ◌+◌, ◌*◌, ◌≡◌, ◌≤◌, refl, true, false, List, [], ◌∷◌, Text, text_eq, if◌then◌else◌,
}
use peer_server.Dict
use peer_server.Weights.{weigh}
use peer_server.E2eRoom.{E2eRoom, new_room, has_encryption, is_exchanging, key_offer}
use peer_server.E2eRoom.Steps.{
  Event, open_call, send_call, data_comes, connects, job_ends, exchange_timeout, rejected,
  initialised, derived, with_cipher, step, run,
}
use peer_server.E2eRoom.Counting.{
  plain_sent, encrypted_sent, plain_call, encrypted_call, failure, too_late, total, encrypts,
}
use peer_server.E2eRoom.Sending.{run-accounts}
use peer_server.E2eRoom.Exchange.{run-exchanging}
use peer_server.E2eRoom.Keys.{deliver, settles, fires, meets}
use peer_server.E2eRoom.Handshake.{
  Pair, Move, by_a, by_b, moves, start, meetings, all_moved, handshake_completes, handshake_ends,
}

abbrev other : Text
other = 98 ∷ []

-- The first datum goes out in plain, the second encrypted; to encrypt the third one fails.
abbrev story : List (Event ℕ ℕ ℕ ℕ)
story =
    open_call
    ∷ job_ends 0 initialised
    ∷ connects other
    ∷ send_call 1
    ∷ data_comes (key_offer 5) other
    ∷ job_ends 0 (derived 9)
    ∷ send_call 2
    ∷ send_call 3
    ∷ job_ends 1 (with_cipher 22)
    ∷ job_ends 0 rejected
    ∷ []

run-accounts_example :
    let r : E2eRoom ℕ ℕ ℕ ℕ = new_room 4 in
    (plain_sent (run story r).1 ≡ total plain_call story r + total failure story r)
    × (total encrypted_call story r
        ≡ encrypted_sent (run story r).1
          + total failure story r
          + total too_late story r
          + weigh encrypts (run story r).0.jobs)
run-accounts_example = run-accounts story 4

story-sends :
    let r : E2eRoom ℕ ℕ ℕ ℕ = new_room 4 in
    (plain_sent (run story r).1 ≡ 2) × (encrypted_sent (run story r).1 ≡ 1)
unfolding plain_sent encrypted_sent run new_room Dict.has Dict.put text_eq
story-sends = (refl, refl)

run-exchanging_example :
    let r : E2eRoom ℕ ℕ ℕ ℕ = (run story (new_room 4)).0 in
    ((if is_exchanging r.phase then 1 else 0) ≤ (if r.exchange_timer then 1 else 0))
    × (is_exchanging (step exchange_timeout r).0.phase ≡ false)
run-exchanging_example = run-exchanging story 4

-- Two rooms that learn of each other and offer at once; the timer of one fires in between.
abbrev exchange : List Move
exchange =
    by_a meets
    ∷ by_b meets
    ∷ by_b deliver
    ∷ by_a fires
    ∷ by_a deliver
    ∷ by_a (settles 0)
    ∷ by_b (settles 0)
    ∷ by_b deliver
    ∷ by_a deliver
    ∷ by_a (settles 0)
    ∷ by_b (settles 0)
    ∷ []

abbrev us : Text
us = 97 ∷ []

abbrev after : Pair ℕ ℕ ℕ ℕ
after = moves (λ s p. s * p) 2 3 us other exchange (start 2 3)

handshake_completes_example :
    (has_encryption after.a ≡ true)
    × (has_encryption after.b ≡ true)
    × (Dict.get other after.a.keys ≡ Dict.get us after.b.keys)
unfolding moves start text_eq Dict.put step run new_room
handshake_completes_example =
    handshake_completes (λ s p. s * p) 2 3 us other 2 3 refl exchange after refl refl refl refl refl
      refl refl

handshake_ends_example :
    all_moved (λ s p. s * p) 2 3 us other 2 3 exchange (start {X = ℕ} {D = ℕ} 2 3)
    ≤ 4 * meetings exchange
handshake_ends_example = handshake_ends ℕ ℕ (λ s p. s * p) 2 3 us other 2 3 exchange
