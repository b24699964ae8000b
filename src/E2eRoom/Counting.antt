-- ===== src/E2eRoom/Counting.antt =====
-- The data that an E2EDirectRoom (e2e.room.ts) is given to send, counted.
use peer_server.Prelude.{
  ℕ, suc, ◌+◌, ◌≡◌, refl, arith, Bool, true, false, ◌&&◌, ◌||◌, not, Option, List, [], ◌∷◌, ◌++◌,
  Text, get_elem?, if◌then◌else◌,
}
use peer_server.Weights.{weigh, weight_of}
use peer_server.E2eRoom.{
  Phase, ready, exchanging, key_offer, key_ack, encrypted, plain, raw, Job, encrypting, E2eRoom,
  Effect, room_send, has_encryption, state_effects, start_key_exchange, become_ready,
}
use peer_server.E2eRoom.Steps.{
  Outcome, rejected, initialised, derived, with_cipher, with_data, Event, send_call, job_ends, step,
}

-- A job that encrypts data.
unfoldable pub encrypts : {P X D : Type 0} → Job P X D → ℕ
encrypts (encrypting d) = 1
encrypts _ = 0

module _ {P X D : Type 0} where
  -- The data that goes out, plain and encrypted.
  unfoldable pub plain_sent : List (Effect P X D) → ℕ
  plain_sent [] = 0
  plain_sent (room_send (plain d) ∷ es) = suc (plain_sent es)
  plain_sent (_ ∷ es) = plain_sent es

  unfoldable pub encrypted_sent : List (Effect P X D) → ℕ
  encrypted_sent [] = 0
  encrypted_sent (room_send (encrypted x) ∷ es) = suc (encrypted_sent es)
  encrypted_sent (_ ∷ es) = encrypted_sent es

-- Whether a job is an encryption that fails: its promise is not fulfilled with encrypted data.
abbrev pub failed : {K P X D : Type 0} → Outcome K X D → Option (Job P X D) → ℕ
failed (with_cipher x) j = 0
failed rejected j = weight_of encrypts j
failed initialised j = weight_of encrypts j
failed (derived k) j = weight_of encrypts j
failed (with_data d) j = weight_of encrypts j

module _ {K P X D : Type 0} where
  -- A call of `send` in an open room, without and with encryption.
  unfoldable pub plain_call : Event K P X D → E2eRoom K P X D → ℕ
  plain_call (send_call d) r =
      if r.closed || not r.has_room then 0 else (if has_encryption r then 0 else 1)
  plain_call _ r = 0

  unfoldable pub encrypted_call : Event K P X D → E2eRoom K P X D → ℕ
  encrypted_call (send_call d) r =
      if r.closed || not r.has_room then 0 else (if has_encryption r then 1 else 0)
  encrypted_call _ r = 0

  -- An encryption that fails, and one that ends in a room that is closed.
  unfoldable pub failure : Event K P X D → E2eRoom K P X D → ℕ
  unfolding encrypts
  failure (job_ends i o) r = if r.has_room then failed o (get_elem? r.jobs i) else 0
  failure _ r = 0

  unfoldable pub too_late : Event K P X D → E2eRoom K P X D → ℕ
  unfolding encrypts
  too_late (job_ends i o) r = if r.has_room then 0 else weight_of encrypts (get_elem? r.jobs i)
  too_late _ r = 0

  -- Summed over a run.
  unfoldable pub total :
      (Event K P X D → E2eRoom K P X D → ℕ) → List (Event K P X D) → E2eRoom K P X D → ℕ
  total f [] r = 0
  total f (e ∷ es) r = f e r + total f es (step e r).0

  -- One step, or a run: what is called, sent, failed and waits.
  pub record Accounted (pc ec f l : ℕ) (r : E2eRoom K P X D)
      (q : E2eRoom K P X D × List (Effect P X D)) : Type 0 where
    pub plain_out : plain_sent q.1 ≡ pc + f
    pub encrypted_out :
        ec + weigh encrypts r.jobs ≡ encrypted_sent q.1 + f + l + weigh encrypts q.0.jobs

module _ {P X D : Type 0} where
  pub sent-append :
      (es fs : List (Effect P X D))
      → (plain_sent (es ++ fs) ≡ plain_sent es + plain_sent fs)
        × (encrypted_sent (es ++ fs) ≡ encrypted_sent es + encrypted_sent fs)
  unfolding plain_sent encrypted_sent
  sent-append [] fs = (omega arith, omega arith)
  sent-append (room_send (plain d) ∷ es) fs =
      let (a, b) = sent-append es fs in (omega (arith, a), b)
  sent-append (room_send (encrypted x) ∷ es) fs =
      let (a, b) = sent-append es fs in (a, omega (arith, b))
  sent-append (room_send (key_offer k) ∷ es) fs = sent-append es fs
  sent-append (room_send (key_ack k) ∷ es) fs = sent-append es fs
  sent-append (room_send (raw d) ∷ es) fs = sent-append es fs
  sent-append (_ ∷ es) fs = sent-append es fs

module _ {K P X D : Type 0} where
  -- Nothing of what is counted goes on.
  pub record Quiet (r : E2eRoom K P X D) (q : E2eRoom K P X D × List (Effect P X D)) : Type 0 where
    pub no_plain : plain_sent q.1 ≡ 0
    pub no_encrypted : encrypted_sent q.1 ≡ 0
    pub same_jobs : weigh encrypts q.0.jobs ≡ weigh encrypts r.jobs

  pub Quiet-Accounted :
      (r : E2eRoom K P X D) (q : E2eRoom K P X D × List (Effect P X D))
      → Quiet r q
      → Accounted 0 0 0 0 r q
  Quiet-Accounted r q a = record {
    plain_out = omega (arith, a.no_plain);
    encrypted_out = omega (arith, a.no_encrypted, a.same_jobs);
  }

  pub Quiet-either :
      (r : E2eRoom K P X D) (b : Bool) (x y : E2eRoom K P X D × List (Effect P X D))
      → Quiet r x
      → Quiet r y
      → Quiet r (if b then x else y)
  Quiet-either r true x y h k = h
  Quiet-either r false x y h k = k

  pub Quiet-nothing : (r : E2eRoom K P X D) → Quiet r (r, [])
  unfolding plain_sent encrypted_sent
  Quiet-nothing r = record { no_plain = refl; no_encrypted = refl; same_jobs = refl }

  pub Quiet-append :
      (r : E2eRoom K P X D) (r' : E2eRoom K P X D) (es fs : List (Effect P X D))
      → Quiet r (r, es)
      → Quiet r (r', fs)
      → Quiet r (r', es ++ fs)
  Quiet-append r r' es fs a b = record {
    no_plain = omega (arith, a.no_plain, b.no_plain, (sent-append es fs).0);
    no_encrypted = omega (arith, a.no_encrypted, b.no_encrypted, (sent-append es fs).1);
    same_jobs = b.same_jobs;
  }

  pub Quiet-state_effects : (s : Phase) (r : E2eRoom K P X D) → Quiet r (r, state_effects s r)
  unfolding plain_sent encrypted_sent
  Quiet-state_effects s r = record {
    no_plain = ground arith;
    no_encrypted = ground arith;
    same_jobs = refl;
  }

  pub start_key_exchange-Quiet : (r : E2eRoom K P X D) → Quiet r (start_key_exchange r)
  unfolding start_key_exchange plain_sent encrypted_sent
  start_key_exchange-Quiet r = Quiet-either r r.closed _ _ (Quiet-nothing r) (
      Quiet-either r (r.initialized && r.has_room) _ _
        (Quiet-append r _ (state_effects exchanging r) _ (Quiet-state_effects exchanging r)
          (record { no_plain = refl; no_encrypted = refl; same_jobs = refl }))
        (Quiet-append r _ (state_effects exchanging r) _ (Quiet-state_effects exchanging r)
          (record { no_plain = refl; no_encrypted = refl; same_jobs = refl })))

  pub become_ready-Quiet : (from : Text) (r : E2eRoom K P X D) → Quiet r (become_ready from r)
  unfolding become_ready plain_sent encrypted_sent
  become_ready-Quiet from r =
      Quiet-append r _ (state_effects ready r) _ (Quiet-state_effects ready r)
        (record { no_plain = ground arith; no_encrypted = ground arith; same_jobs = refl })
