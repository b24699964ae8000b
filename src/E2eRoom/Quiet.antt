-- ===== src/E2eRoom/Quiet.antt =====
-- What an E2EDirectRoom (e2e.room.ts) does that sends no data, and what comes of an encryption.
use peer_server.Prelude.{
  ℕ, ◌+◌, ◌≡◌, ◌∙◌, refl, ap, arith, false, Option, none, some, List, [], ◌∷◌, ◌++◌, Text, text_eq,
  get_elem?, if◌then◌else◌,
}
use peer_server.Dict
use peer_server.Weights.{weigh, weight_of, weigh-without}
use peer_server.E2eRoom.{
  connecting, ended, is_ended, is_exchanging, Wire, key_offer, key_ack, encrypted, plain, raw, Job,
  opening, deriving_offer, deriving_ack, encrypting, decrypting, E2eRoom, Effect, room_closes,
  state_changed, error_event, decrypt_error, emit, wait, state_effects, finish_open,
  on_exchange_timeout, handle_key_exchange, store_key, finish_offer, finish_ack,
}
use peer_server.E2eRoom.Steps.{
  Outcome, rejected, initialised, derived, with_cipher, with_data, job_ends, handle_data,
  on_decrypt_error, finish_encrypt, fail_encrypt, without_job, settle, end_of, on_peer_left, close,
  heard,
}
use peer_server.E2eRoom.Counting.{
  encrypts, plain_sent, encrypted_sent, failed, failure, too_late, Accounted, Quiet, Quiet-either,
  Quiet-nothing, Quiet-append, Quiet-state_effects, start_key_exchange-Quiet, become_ready-Quiet,
}

module _ {K P X D : Type 0} where
  finish_offer-Quiet : (from : Text) (k : K) (r : E2eRoom K P X D) → Quiet r (finish_offer from k r)
  unfolding finish_offer store_key plain_sent encrypted_sent
  finish_offer-Quiet from k r =
      let b = become_ready-Quiet from (store_key from k r) in
      Quiet-either r r.has_room _ _
        (record { no_plain = b.no_plain; no_encrypted = b.no_encrypted; same_jobs = b.same_jobs })
        (record { no_plain = ground arith; no_encrypted = ground arith; same_jobs = refl })

  finish_ack-Quiet : (from : Text) (k : K) (r : E2eRoom K P X D) → Quiet r (finish_ack from k r)
  unfolding finish_ack store_key
  finish_ack-Quiet from k r =
      let b = become_ready-Quiet from (store_key from k r) in
      record { no_plain = b.no_plain; no_encrypted = b.no_encrypted; same_jobs = b.same_jobs }

  on_decrypt_error-Quiet : (from : Text) (r : E2eRoom K P X D) → Quiet r (on_decrypt_error from r)
  unfolding on_decrypt_error plain_sent encrypted_sent
  on_decrypt_error-Quiet from r =
      Quiet-append r _ (emit (decrypt_error from) r) _
        (record { no_plain = ground arith; no_encrypted = ground arith; same_jobs = refl })
        (start_key_exchange-Quiet r)

  -- A job that is no encryption.
  settle-Quiet :
      (j : Job P X D) (o : Outcome K X D) (r : E2eRoom K P X D)
      → encrypts j ≡ 0
      → Quiet r (settle j o r)
  unfolding settle encrypts plain_sent encrypted_sent
  settle-Quiet opening rejected r h = Quiet-nothing r
  settle-Quiet opening initialised r h =
      unfold finish_open in record { no_plain = refl; no_encrypted = refl; same_jobs = refl }
  settle-Quiet opening (derived k) r h = Quiet-nothing r
  settle-Quiet opening (with_cipher y) r h = Quiet-nothing r
  settle-Quiet opening (with_data e) r h = Quiet-nothing r
  settle-Quiet (deriving_offer from key) rejected r h = record {
    no_plain = ground arith;
    no_encrypted = ground arith;
    same_jobs = refl;
  }
  settle-Quiet (deriving_offer from key) initialised r h = record {
    no_plain = ground arith;
    no_encrypted = ground arith;
    same_jobs = refl;
  }
  settle-Quiet (deriving_offer from key) (derived k) r h = finish_offer-Quiet from k r
  settle-Quiet (deriving_offer from key) (with_cipher y) r h = record {
    no_plain = ground arith;
    no_encrypted = ground arith;
    same_jobs = refl;
  }
  settle-Quiet (deriving_offer from key) (with_data e) r h = record {
    no_plain = ground arith;
    no_encrypted = ground arith;
    same_jobs = refl;
  }
  settle-Quiet (deriving_ack from key) rejected r h = record {
    no_plain = ground arith;
    no_encrypted = ground arith;
    same_jobs = refl;
  }
  settle-Quiet (deriving_ack from key) initialised r h = record {
    no_plain = ground arith;
    no_encrypted = ground arith;
    same_jobs = refl;
  }
  settle-Quiet (deriving_ack from key) (derived k) r h = finish_ack-Quiet from k r
  settle-Quiet (deriving_ack from key) (with_cipher y) r h = record {
    no_plain = ground arith;
    no_encrypted = ground arith;
    same_jobs = refl;
  }
  settle-Quiet (deriving_ack from key) (with_data e) r h = record {
    no_plain = ground arith;
    no_encrypted = ground arith;
    same_jobs = refl;
  }
  settle-Quiet (decrypting from x) rejected r h = on_decrypt_error-Quiet from r
  settle-Quiet (decrypting from x) initialised r h = on_decrypt_error-Quiet from r
  settle-Quiet (decrypting from x) (derived k) r h = on_decrypt_error-Quiet from r
  settle-Quiet (decrypting from x) (with_cipher y) r h = on_decrypt_error-Quiet from r
  settle-Quiet (decrypting from x) (with_data e) r h = record {
    no_plain = ground arith;
    no_encrypted = ground arith;
    same_jobs = refl;
  }
  settle-Quiet (encrypting d) o r h = ground arith

  -- The promise of an encryption settles.
  pub encrypted_out :
      (d : D) (o : Outcome K X D) (r : E2eRoom K P X D)
      → (plain_sent (settle (encrypting d) o r).1
          ≡ (if r.has_room then failed {P = P} o (some (encrypting d)) else 0))
        × (1
            ≡ encrypted_sent (settle (encrypting d) o r).1
              + (if r.has_room then failed {P = P} o (some (encrypting d)) else 0)
              + (if r.has_room then 0 else 1))
        × (weigh encrypts (settle (encrypting d) o r).0.jobs ≡ weigh encrypts r.jobs)
  unfolding settle finish_encrypt fail_encrypt plain_sent encrypted_sent encrypts
  encrypted_out d rejected r = (ground arith, ground arith, refl)
  encrypted_out d initialised r = (ground arith, ground arith, refl)
  encrypted_out d (derived k) r = (ground arith, ground arith, refl)
  encrypted_out d (with_cipher y) r = (ground arith, ground arith, refl)
  encrypted_out d (with_data e) r = (ground arith, ground arith, refl)

  no_fail : (o : Outcome K X D) (x : Option (Job P X D)) → weight_of encrypts x ≡ 0 → failed o x ≡ 0
  no_fail (with_cipher y) x h = refl
  no_fail rejected x h = h
  no_fail initialised x h = h
  no_fail (derived k) x h = h
  no_fail (with_data d) x h = h

  quiet_job :
      (i : ℕ) (j : Job P X D) (o : Outcome K X D) (r : E2eRoom K P X D)
      → get_elem? r.jobs i ≡ some j
      → encrypts j ≡ 0
      → Accounted 0 0
          (failure (job_ends i o) r)
          (too_late (job_ends i o) r)
          r
          (settle j o (without_job i r))
  unfolding failure too_late
  quiet_job i j o r e z =
      let q = settle-Quiet j o (without_job i r) z in
      let none_there : weight_of encrypts (get_elem? r.jobs i) ≡ 0 =
        ap (weight_of encrypts) e ∙ z in
      let no_failure = no_fail o (get_elem? r.jobs i) none_there in
      record {
        plain_out = ground (arith, q.no_plain, no_failure);
        encrypted_out = ground (
          arith,
          q.no_encrypted,
          q.same_jobs,
          none_there,
          no_failure,
          weigh-without encrypts i r.jobs,
        );
      }

  pub end_of-Accounted :
      (i : ℕ) (o : Outcome K X D) (r : E2eRoom K P X D) (j : Option (Job P X D))
      → get_elem? r.jobs i ≡ j
      → Accounted 0 0 (failure (job_ends i o) r) (too_late (job_ends i o) r) r (end_of j i o r)
  unfolding failure too_late encrypts
  end_of-Accounted i o r none e =
      let none_there : weight_of encrypts (get_elem? r.jobs i) ≡ 0 = ap (weight_of encrypts) e in
      let no_failure = no_fail o (get_elem? r.jobs i) none_there in
      record {
        plain_out = unfold plain_sent in ground (arith, no_failure);
        encrypted_out = unfold encrypted_sent in ground (arith, none_there, no_failure);
      }
  end_of-Accounted i o r (some opening) e = quiet_job i opening o r e refl
  end_of-Accounted i o r (some (deriving_offer from key)) e =
      quiet_job i (deriving_offer from key) o r e refl
  end_of-Accounted i o r (some (deriving_ack from key)) e =
      quiet_job i (deriving_ack from key) o r e refl
  end_of-Accounted i o r (some (decrypting from x)) e = quiet_job i (decrypting from x) o r e refl
  end_of-Accounted i o r (some (encrypting d)) e =
      let (plain_now, encrypted_now, same) = encrypted_out d o (without_job i r) in
      let one : weight_of encrypts (get_elem? r.jobs i) ≡ 1 = ap (weight_of encrypts) e in
      let failing : failed o (get_elem? r.jobs i) ≡ failed o (some (encrypting d)) =
        ap (failed o) e in
      record {
        plain_out = ground (arith, plain_now, failing);
        encrypted_out =
            ground (arith, encrypted_now, same, one, failing, weigh-without encrypts i r.jobs);
      }

  handle_key_exchange-Quiet :
      (j : Job P X D) (r : E2eRoom K P X D) → encrypts j ≡ 0 → Quiet r (handle_key_exchange j r)
  unfolding handle_key_exchange wait plain_sent encrypted_sent weigh
  handle_key_exchange-Quiet j r z =
      Quiet-either r r.closed _ _ (Quiet-nothing r)
        (record { no_plain = refl; no_encrypted = refl; same_jobs = omega (arith, z) })

  pub handle_data-Quiet :
      (w : Wire P X D) (from : Text) (r : E2eRoom K P X D) → Quiet r (handle_data w from r)
  unfolding handle_data wait plain_sent encrypted_sent weigh encrypts
  handle_data-Quiet (key_offer key) from r =
      handle_key_exchange-Quiet (deriving_offer from key) r refl
  handle_data-Quiet (key_ack key) from r = handle_key_exchange-Quiet (deriving_ack from key) r refl
  handle_data-Quiet (encrypted x) from r =
      Quiet-either r (Dict.has from r.keys) _ _
        (record { no_plain = refl; no_encrypted = refl; same_jobs = omega arith })
        (record { no_plain = ground arith; no_encrypted = ground arith; same_jobs = refl })
  handle_data-Quiet (plain d) from r = record {
    no_plain = ground arith;
    no_encrypted = ground arith;
    same_jobs = refl;
  }
  handle_data-Quiet (raw d) from r = record {
    no_plain = ground arith;
    no_encrypted = ground arith;
    same_jobs = refl;
  }

  pub on_peer_left-Quiet : (fp : Text) (r : E2eRoom K P X D) → Quiet r (on_peer_left fp r)
  unfolding on_peer_left plain_sent encrypted_sent
  on_peer_left-Quiet fp r =
      Quiet-either r (text_eq fp r.remote_fingerprint) _ _
        (Quiet-either r (is_ended r.phase) _ _
          (record { no_plain = ground arith; no_encrypted = ground arith; same_jobs = refl })
          (Quiet-append r _ (state_effects connecting r) _ (Quiet-state_effects connecting r)
            (record { no_plain = ground arith; no_encrypted = ground arith; same_jobs = refl })))
        (record { no_plain = ground arith; no_encrypted = ground arith; same_jobs = refl })

  pub close-Quiet : (r : E2eRoom K P X D) → Quiet r (close r)
  unfolding close plain_sent encrypted_sent
  close-Quiet r = Quiet-either r r.closed _ _ (Quiet-nothing r) (
      Quiet-append r _ (state_effects ended r ++ (if r.has_room then room_closes ∷ [] else [])) _
        (Quiet-append r _ (state_effects ended r) _ (Quiet-state_effects ended r)
          (record { no_plain = ground arith; no_encrypted = ground arith; same_jobs = refl }))
        (record { no_plain = refl; no_encrypted = refl; same_jobs = refl }))

  pub heard-Quiet :
      (r : E2eRoom K P X D) (q : E2eRoom K P X D × List (Effect P X D))
      → Quiet r q
      → Quiet r (heard r q)
  heard-Quiet r q h = Quiet-either r r.has_room q (r, []) h (Quiet-nothing r)

  pub on_exchange_timeout-Quiet : (r : E2eRoom K P X D) → Quiet r (on_exchange_timeout r)
  unfolding on_exchange_timeout plain_sent encrypted_sent
  on_exchange_timeout-Quiet r =
      let r1 : E2eRoom K P X D = record r { phase = connecting; exchange_timer = false } in
      Quiet-either r (is_exchanging r.phase) _ _
        (Quiet-append r r1 (emit error_event r) (emit (state_changed connecting) r)
          (record { no_plain = ground arith; no_encrypted = ground arith; same_jobs = refl })
          (record { no_plain = ground arith; no_encrypted = ground arith; same_jobs = refl }))
        (record { no_plain = refl; no_encrypted = refl; same_jobs = refl })
