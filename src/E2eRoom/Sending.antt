-- ===== src/E2eRoom/Sending.antt =====
-- What becomes of the data that an E2EDirectRoom (e2e.room.ts) is given to send.
use peer_server.Prelude.{◌+◌, ◌≡◌, refl, arith, List, [], ◌∷◌, get_elem?}
use peer_server.Weights.{weigh}
use peer_server.E2eRoom.{E2eRoom, new_room, wait, begin}
use peer_server.E2eRoom.Steps.{
  Event, open_call, close_call, send_call, data_comes, joins, connects, leaves, room_is_closed,
  room_fails, exchange_timeout, job_ends, send, on_job, on_peer_joined, on_peer_connected, step,
  run,
}
use peer_server.E2eRoom.Counting.{
  encrypts, plain_sent, encrypted_sent, plain_call, encrypted_call, failure, too_late, total,
  Accounted, sent-append, Quiet-Accounted, Quiet-either, Quiet-nothing, start_key_exchange-Quiet,
}
use peer_server.E2eRoom.Quiet.{
  end_of-Accounted, handle_data-Quiet, on_peer_left-Quiet, close-Quiet, heard-Quiet,
  on_exchange_timeout-Quiet,
}

module _ {K P X D : Type 0} where
  step-Accounted :
      (e : Event K P X D) (r : E2eRoom K P X D)
      → Accounted (plain_call e r) (encrypted_call e r) (failure e r) (too_late e r) r (step e r)
  unfolding step plain_call encrypted_call failure too_late plain_sent encrypted_sent weigh encrypts
  step-Accounted open_call r =
      unfold begin wait in
      Quiet-Accounted r _ (
        Quiet-either r r.closed _ _
          (record { no_plain = refl; no_encrypted = refl; same_jobs = refl })
          (record { no_plain = refl; no_encrypted = refl; same_jobs = omega arith }))
  step-Accounted close_call r = Quiet-Accounted r _ (close-Quiet r)
  step-Accounted (send_call d) r =
      unfold send wait in record { plain_out = ground arith; encrypted_out = ground arith }
  step-Accounted (data_comes w from) r =
      Quiet-Accounted r _ (heard-Quiet r _ (handle_data-Quiet w from r))
  step-Accounted (joins fp) r =
      unfold on_peer_joined in
      Quiet-Accounted r _ (
        heard-Quiet r _
          (record { no_plain = ground arith; no_encrypted = ground arith; same_jobs = refl }))
  step-Accounted (connects fp) r =
      unfold on_peer_connected in
      let q = start_key_exchange-Quiet (record r { remote_fingerprint = fp }) in
      Quiet-Accounted r _ (
        heard-Quiet r _ (record {
          no_plain = q.no_plain;
          no_encrypted = q.no_encrypted;
          same_jobs = q.same_jobs;
        }))
  step-Accounted (leaves fp) r = Quiet-Accounted r _ (heard-Quiet r _ (on_peer_left-Quiet fp r))
  step-Accounted room_is_closed r = Quiet-Accounted r _ (heard-Quiet r _ (close-Quiet r))
  step-Accounted room_fails r = Quiet-Accounted r _ (
      heard-Quiet r _
        (record { no_plain = ground arith; no_encrypted = ground arith; same_jobs = refl }))
  step-Accounted exchange_timeout r =
      Quiet-Accounted r _
        (Quiet-either r r.exchange_timer _ _ (on_exchange_timeout-Quiet r) (Quiet-nothing r))
  step-Accounted (job_ends i o) r =
      unfold on_job in end_of-Accounted i o r (get_elem? r.jobs i) refl

  run-Accounted :
      (es : List (Event K P X D)) (r : E2eRoom K P X D)
      → Accounted
          (total plain_call es r)
          (total encrypted_call es r)
          (total failure es r)
          (total too_late es r)
          r
          (run es r)
  unfolding run total
  run-Accounted [] r = record {
    plain_out = unfold plain_sent in refl;
    encrypted_out = unfold encrypted_sent in omega arith;
  }
  run-Accounted (e ∷ es) r =
      let (r1, xs) = step e r in
      let a = step-Accounted e r in
      let b = run-Accounted es r1 in
      let (plain_both, encrypted_both) = sent-append xs (run es r1).1 in
      record {
        plain_out = omega (arith, a.plain_out, b.plain_out, plain_both);
        encrypted_out = omega (arith, a.encrypted_out, b.encrypted_out, encrypted_both);
      }

  -- Over any run of a new room: data goes out in plain as often as `send` was called while there was
  -- no encryption, or an encryption failed while the room was open; and the calls with encryption
  -- are as many as what went out encrypted, the encryptions that failed, those that ended after the
  -- room was closed, and those that still wait, taken together.
  pub run-accounts :
      (es : List (Event K P X D)) (key : P)
      → let r : E2eRoom K P X D = new_room key in
        (plain_sent (run es r).1 ≡ total plain_call es r + total failure es r)
        × (total encrypted_call es r
            ≡ encrypted_sent (run es r).1
              + total failure es r
              + total too_late es r
              + weigh encrypts (run es r).0.jobs)
  unfolding new_room weigh
  run-accounts es key =
      let a = run-Accounted es (new_room key) in (a.plain_out, omega (arith, a.encrypted_out))
