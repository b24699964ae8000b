-- ===== src/E2eRoom/Exchange.antt =====
-- The exchange of keys of an E2EDirectRoom (e2e.room.ts): it does not hang.
use peer_server.Prelude.{
  ℕ, ◌≤◌, ◌≡◌, refl, ap, arith, Bool, true, false, ◌||◌, Option, none, some, List, [], ◌∷◌, Text,
  get_elem?, if◌then◌else◌,
}
use peer_server.Weights.{weigh, weight_of, weigh-without}
use peer_server.E2eRoom.{
  is_exchanging, Wire, key_offer, key_ack, encrypted, plain, raw, Job, opening, deriving_offer,
  deriving_ack, encrypting, decrypting, E2eRoom, new_room, Effect, wait, begin, finish_open,
  start_key_exchange, on_exchange_timeout, handle_key_exchange, store_key, become_ready,
  finish_offer, finish_ack,
}
use peer_server.E2eRoom.Steps.{
  Outcome, rejected, initialised, derived, with_cipher, with_data, Event, open_call, close_call,
  send_call, data_comes, joins, connects, leaves, room_is_closed, room_fails, exchange_timeout,
  job_ends, handle_data, on_decrypt_error, send, without_job, settle, end_of, on_job,
  on_peer_joined, on_peer_connected, on_peer_left, close, heard, step, run,
}

-- A job that decrypts; where it fails, it starts an exchange.
unfoldable decrypts : {P X D : Type 0} → Job P X D → ℕ
decrypts (decrypting from x) = 1
decrypts _ = 0

module _ {K P X D : Type 0} where
  -- Where the room is exchanging its timer is set; it has its DirectRoom only with a key of its own;
  -- and nothing is decrypted before it has the DirectRoom.
  record Timely (r : E2eRoom K P X D) : Type 0 where
    timed : (if is_exchanging r.phase then 1 else 0) ≤ (if r.exchange_timer then 1 else 0)
    keyed : (if r.has_room then 1 else 0) ≤ (if r.initialized then 1 else 0)
    early : (if r.closed || r.has_room then 0 else weigh decrypts r.jobs) ≡ 0

  either_Timely :
      (b : Bool) (x y : E2eRoom K P X D × List (Effect P X D))
      → Timely x.0
      → Timely y.0
      → Timely (if b then x else y).0
  either_Timely true x y h k = h
  either_Timely false x y h k = k

  -- What does not change what the invariant looks at.
  start_key_exchange-Timely :
      (r : E2eRoom K P X D)
      → (r.closed || r.has_room) ≡ true
      → Timely r
      → Timely (start_key_exchange r).0
  unfolding start_key_exchange
  start_key_exchange-Timely r there g = record {
    timed = ground (arith, there, g.timed, g.keyed);
    keyed = ground (arith, g.keyed);
    early = ground (arith, g.early);
  }

  finish_open-Timely : (r : E2eRoom K P X D) → Timely r → Timely (finish_open r).0
  unfolding finish_open
  finish_open-Timely r g = record { timed = g.timed; keyed = ground arith; early = ground arith }

  become_ready-Timely :
      (from : Text) (r : E2eRoom K P X D) → Timely r → Timely (become_ready from r).0
  unfolding become_ready
  become_ready-Timely from r g = record { timed = ground arith; keyed = g.keyed; early = g.early }

  finish_offer-Timely :
      (from : Text) (k : K) (r : E2eRoom K P X D) → Timely r → Timely (finish_offer from k r).0
  unfolding finish_offer store_key
  finish_offer-Timely from k r g =
      let stored : Timely (store_key from k r) = record {
        timed = g.timed;
        keyed = g.keyed;
        early = g.early;
      } in
      either_Timely r.has_room _ _ (become_ready-Timely from (store_key from k r) stored) stored

  settle-Timely :
      (j : Job P X D) (o : Outcome K X D) (r : E2eRoom K P X D)
      → (if r.closed || r.has_room then 0 else decrypts j) ≡ 0
      → Timely r
      → Timely (settle j o r).0
  unfolding settle decrypts
  settle-Timely opening rejected r h g = g
  settle-Timely opening initialised r h g = finish_open-Timely r g
  settle-Timely opening (derived k) r h g = g
  settle-Timely opening (with_cipher y) r h g = g
  settle-Timely opening (with_data e) r h g = g
  settle-Timely (deriving_offer from key) rejected r h g = g
  settle-Timely (deriving_offer from key) initialised r h g = g
  settle-Timely (deriving_offer from key) (derived k) r h g = finish_offer-Timely from k r g
  settle-Timely (deriving_offer from key) (with_cipher y) r h g = g
  settle-Timely (deriving_offer from key) (with_data e) r h g = g
  settle-Timely (deriving_ack from key) rejected r h g = g
  settle-Timely (deriving_ack from key) initialised r h g = g
  settle-Timely (deriving_ack from key) (derived k) r h g =
      unfold finish_ack store_key in
      become_ready-Timely from (store_key from k r)
        (record { timed = g.timed; keyed = g.keyed; early = g.early })
  settle-Timely (deriving_ack from key) (with_cipher y) r h g = g
  settle-Timely (deriving_ack from key) (with_data e) r h g = g
  settle-Timely (decrypting from x) rejected r h g =
      unfold on_decrypt_error in start_key_exchange-Timely r (ground (arith, h)) g
  settle-Timely (decrypting from x) initialised r h g =
      unfold on_decrypt_error in start_key_exchange-Timely r (ground (arith, h)) g
  settle-Timely (decrypting from x) (derived k) r h g =
      unfold on_decrypt_error in start_key_exchange-Timely r (ground (arith, h)) g
  settle-Timely (decrypting from x) (with_cipher y) r h g =
      unfold on_decrypt_error in start_key_exchange-Timely r (ground (arith, h)) g
  settle-Timely (decrypting from x) (with_data e) r h g = g
  settle-Timely (encrypting d) rejected r h g = g
  settle-Timely (encrypting d) initialised r h g = g
  settle-Timely (encrypting d) (derived k) r h g = g
  settle-Timely (encrypting d) (with_cipher y) r h g = g
  settle-Timely (encrypting d) (with_data e) r h g = g

  end_of-Timely :
      (i : ℕ) (o : Outcome K X D) (r : E2eRoom K P X D) (j : Option (Job P X D))
      → get_elem? r.jobs i ≡ j
      → Timely r
      → Timely (end_of j i o r).0
  end_of-Timely i o r none e g = g
  end_of-Timely i o r (some j) e g =
      let here : weight_of decrypts (get_elem? r.jobs i) ≡ decrypts j = ap (weight_of decrypts) e in
      settle-Timely j o (without_job i r)
        (ground (arith, g.early, here, weigh-without decrypts i r.jobs))
        (record {
          timed = g.timed;
          keyed = g.keyed;
          early = ground (arith, g.early, weigh-without decrypts i r.jobs);
        })

  heard_data-Timely :
      (w : Wire P X D) (from : Text) (r : E2eRoom K P X D)
      → Timely r
      → Timely (heard r (handle_data w from r)).0
  unfolding handle_data handle_key_exchange wait weigh decrypts
  heard_data-Timely (key_offer key) from r g = record {
    timed = ground (arith, g.timed);
    keyed = ground (arith, g.keyed);
    early = ground (arith, g.early);
  }
  heard_data-Timely (key_ack key) from r g = record {
    timed = ground (arith, g.timed);
    keyed = ground (arith, g.keyed);
    early = ground (arith, g.early);
  }
  heard_data-Timely (encrypted x) from r g = record {
    timed = ground (arith, g.timed);
    keyed = ground (arith, g.keyed);
    early = ground (arith, g.early);
  }
  heard_data-Timely (plain d) from r g = either_Timely r.has_room _ _ g g
  heard_data-Timely (raw d) from r g = either_Timely r.has_room _ _ g g

  close-Timely : (r : E2eRoom K P X D) → Timely r → Timely (close r).0
  unfolding close
  close-Timely r g =
      either_Timely r.closed _ _ g
        (record { timed = omega arith; keyed = ground arith; early = refl })

  step-Timely : (e : Event K P X D) (r : E2eRoom K P X D) → Timely r → Timely (step e r).0
  unfolding step
  step-Timely open_call r g =
      unfold begin wait weigh decrypts in
      either_Timely r.closed _ _ g
        (record { timed = g.timed; keyed = g.keyed; early = ground (arith, g.early) })
  step-Timely close_call r g = close-Timely r g
  step-Timely (send_call d) r g =
      unfold send wait weigh decrypts in
      record {
        timed = ground (arith, g.timed);
        keyed = ground (arith, g.keyed);
        early = ground (arith, g.early);
      }
  step-Timely (data_comes w from) r g = heard_data-Timely w from r g
  step-Timely (joins fp) r g =
      unfold on_peer_joined in
      either_Timely r.has_room _ _ (record { timed = g.timed; keyed = g.keyed; early = g.early }) g
  step-Timely (connects fp) r g = connecting_peer r.has_room refl
    where
      connecting_peer :
          (b : Bool) → r.has_room ≡ b → Timely (if b then on_peer_connected fp r else (r, [])).0
      connecting_peer true e =
          unfold on_peer_connected in
          start_key_exchange-Timely (record r { remote_fingerprint = fp }) (ground (arith, e))
            (record { timed = g.timed; keyed = g.keyed; early = g.early })
      connecting_peer false e = g
  step-Timely (leaves fp) r g =
      unfold on_peer_left in
      record {
        timed = ground (arith, g.timed);
        keyed = ground (arith, g.keyed);
        early = ground (arith, g.early);
      }
  step-Timely room_is_closed r g = either_Timely r.has_room _ _ (close-Timely r g) g
  step-Timely room_fails r g = either_Timely r.has_room _ _ g g
  step-Timely exchange_timeout r g =
      unfold on_exchange_timeout in
      record {
        timed = ground (arith, g.timed);
        keyed = ground (arith, g.keyed);
        early = ground (arith, g.early);
      }
  step-Timely (job_ends i o) r g = unfold on_job in end_of-Timely i o r (get_elem? r.jobs i) refl g

  run-Timely : (es : List (Event K P X D)) (r : E2eRoom K P X D) → Timely r → Timely (run es r).0
  unfolding run
  run-Timely [] r g = g
  run-Timely (e ∷ es) r g = run-Timely es (step e r).0 (step-Timely e r g)

  -- After any run of a new room, it is exchanging keys only while its timer is set, and where the
  -- timer then fires it is exchanging no more: an exchange that gets no answer comes to an end.
  pub run-exchanging :
      (es : List (Event K P X D)) (key : P)
      → let r : E2eRoom K P X D = (run es (new_room key)).0 in
        ((if is_exchanging r.phase then 1 else 0) ≤ (if r.exchange_timer then 1 else 0))
        × (is_exchanging (step exchange_timeout r).0.phase ≡ false)
  unfolding new_room weigh step on_exchange_timeout
  run-exchanging es key =
      let g =
        run-Timely es (new_room key)
          (record { timed = omega arith; keyed = omega arith; early = refl }) in
      (g.timed, ground (arith, g.timed))
