-- ===== src/E2eRoom/Steps.antt =====
-- e2e.room.ts: data, the listeners on the DirectRoom, the calls, and runs of them.
use peer_server.Prelude.{
  ℕ, suc, true, false, ◌||◌, not, Option, none, some, List, [], ◌∷◌, ◌++◌, Text, text_eq, get_elem?,
  take, drop, if◌then◌else◌,
}
use peer_server.Dict
use peer_server.Dict.{Dict}
use peer_server.E2eRoom.{
  connecting, ended, is_ended, Wire, key_offer, key_ack, encrypted, plain, raw, Job, opening,
  deriving_offer, deriving_ack, encrypting, decrypting, E2eRoom, Effect, room_send, room_closes,
  error_event, closed_event, decrypt_error, peer_joined, peer_left, data_event, raw_event,
  has_encryption, emit, wait, state_effects, begin, finish_open, start_key_exchange,
  on_exchange_timeout, handle_key_exchange, finish_offer, finish_ack,
}

-- How the promise of a job settles.
pub data Outcome (K X D : Type 0) : Type 0 where
  rejected initialised : Outcome K X D
  derived : K → Outcome K X D
  with_cipher : X → Outcome K X D
  with_data : D → Outcome K X D

pub data Event (K P X D : Type 0) : Type 0 where
  open_call close_call : Event K P X D
  send_call : D → Event K P X D
  data_comes : Wire P X D → Text → Event K P X D
  joins connects leaves : Text → Event K P X D
  room_is_closed room_fails : Event K P X D
  exchange_timeout : Event K P X D
  job_ends : ℕ → Outcome K X D → Event K P X D

module _ {K P X D : Type 0} where
  -- `handleData`; without a key, encrypted data is handed on as it is.
  unfoldable pub handle_data :
      Wire P X D → Text → E2eRoom K P X D → E2eRoom K P X D × List (Effect P X D)
  unfolding handle_key_exchange wait
  handle_data (key_offer key) from r = handle_key_exchange (deriving_offer from key) r
  handle_data (key_ack key) from r = handle_key_exchange (deriving_ack from key) r
  handle_data (encrypted x) from r =
      if Dict.has from r.keys
      then (wait (decrypting from x) r, [])
      else (r, emit (raw_event (encrypted x) from) r)
  handle_data (plain d) from r = (r, emit (data_event d from) r)
  handle_data (raw d) from r = (r, emit (raw_event (raw d) from) r)

  unfoldable pub on_decrypt_error : Text → E2eRoom K P X D → E2eRoom K P X D × List (Effect P X D)
  unfolding start_key_exchange
  on_decrypt_error from r =
      let (r', es) = start_key_exchange r in (r', emit (decrypt_error from) r ++ es)

  -- `send` up to encrypt, and `encryptAndSend` from there on.
  unfoldable pub send : D → E2eRoom K P X D → E2eRoom K P X D × List (Effect P X D)
  unfolding has_encryption wait
  send d r =
      if r.closed || not r.has_room
      then (r, [])
      else (if has_encryption r then (wait (encrypting d) r, []) else (r, room_send (plain d) ∷ []))

  unfoldable pub finish_encrypt : X → E2eRoom K P X D → List (Effect P X D)
  finish_encrypt x r = if r.has_room then room_send (encrypted x) ∷ [] else emit error_event r

  unfoldable pub fail_encrypt : D → E2eRoom K P X D → List (Effect P X D)
  fail_encrypt d r = emit error_event r ++ (if r.has_room then room_send (plain d) ∷ [] else [])

  abbrev pub without_job : ℕ → E2eRoom K P X D → E2eRoom K P X D
  without_job i r = record r { jobs = take i r.jobs ++ drop (suc i) r.jobs }

  -- The promise of a job settles; an outcome of another kind than the job's is a rejection.
  unfoldable pub settle :
      Job P X D → Outcome K X D → E2eRoom K P X D → E2eRoom K P X D × List (Effect P X D)
  unfolding finish_open finish_offer finish_ack finish_encrypt fail_encrypt on_decrypt_error
  settle opening initialised r = finish_open r
  settle opening _ r = (r, [])
  settle (deriving_offer from key) (derived k) r = finish_offer from k r
  settle (deriving_offer from key) _ r = (r, emit error_event r)
  settle (deriving_ack from key) (derived k) r = finish_ack from k r
  settle (deriving_ack from key) _ r = (r, emit error_event r)
  settle (encrypting d) (with_cipher x) r = (r, finish_encrypt x r)
  settle (encrypting d) _ r = (r, fail_encrypt d r)
  settle (decrypting from x) (with_data d) r = (r, emit (data_event d from) r)
  settle (decrypting from x) _ r = on_decrypt_error from r

  abbrev pub end_of :
      Option (Job P X D)
      → ℕ
      → Outcome K X D
      → E2eRoom K P X D
      → E2eRoom K P X D × List (Effect P X D)
  end_of none i o r = (r, [])
  end_of (some j) i o r = settle j o (without_job i r)

  unfoldable pub on_job :
      ℕ → Outcome K X D → E2eRoom K P X D → E2eRoom K P X D × List (Effect P X D)
  unfolding settle
  on_job i o r = end_of (get_elem? r.jobs i) i o r

  -- The listeners on the DirectRoom.
  unfoldable pub on_peer_joined : Text → E2eRoom K P X D → E2eRoom K P X D × List (Effect P X D)
  on_peer_joined fp r = (record r { remote_fingerprint = fp }, emit (peer_joined fp) r)

  unfoldable pub on_peer_connected : Text → E2eRoom K P X D → E2eRoom K P X D × List (Effect P X D)
  unfolding start_key_exchange
  on_peer_connected fp r = start_key_exchange (record r { remote_fingerprint = fp })

  unfoldable pub on_peer_left : Text → E2eRoom K P X D → E2eRoom K P X D × List (Effect P X D)
  on_peer_left fp r =
      let r1 = record r { keys = Dict.remove fp r.keys; remote_fingerprint = [] } in
      if text_eq fp r.remote_fingerprint
      then (if is_ended r.phase then (r1, emit (peer_left fp) r) else (
        record r1 { phase = connecting },
        state_effects connecting r ++ emit (peer_left fp) r,
      ))
      else (r, emit (peer_left fp) r)

  unfoldable pub close : E2eRoom K P X D → E2eRoom K P X D × List (Effect P X D)
  close r = if r.closed then (r, []) else (
    record r { closed = true; phase = ended; exchange_timer = false; has_room = false },
    state_effects ended r ++ (if r.has_room then room_closes ∷ [] else []) ++ closed_event ∷ [],
  )

  -- A listener that is there while the room has its DirectRoom.
  abbrev pub heard :
      E2eRoom K P X D
      → E2eRoom K P X D × List (Effect P X D)
      → E2eRoom K P X D × List (Effect P X D)
  heard r q = if r.has_room then q else (r, [])

  unfoldable pub step : Event K P X D → E2eRoom K P X D → E2eRoom K P X D × List (Effect P X D)
  unfolding begin close send handle_data on_peer_joined on_peer_connected on_peer_left
      on_exchange_timeout on_job
  step open_call r = begin r
  step close_call r = close r
  step (send_call d) r = send d r
  step (data_comes w from) r = heard r (handle_data w from r)
  step (joins fp) r = heard r (on_peer_joined fp r)
  step (connects fp) r = heard r (on_peer_connected fp r)
  step (leaves fp) r = heard r (on_peer_left fp r)
  step room_is_closed r = heard r (close r)
  step room_fails r = heard r (r, emit error_event r)
  step exchange_timeout r = if r.exchange_timer then on_exchange_timeout r else (r, [])
  step (job_ends i o) r = on_job i o r

  unfoldable pub run :
      List (Event K P X D) → E2eRoom K P X D → E2eRoom K P X D × List (Effect P X D)
  unfolding step
  run [] r = (r, [])
  run (e ∷ es) r = let (r1, xs) = step e r in let (r2, ys) = run es r1 in (r2, xs ++ ys)
