-- ===== src/Transport/Reconnect.antt =====
-- Reconnection (transport.ts, scheduleReconnect, close, schedulePongCheck): its delays and its
-- number.
use peer_server.Prelude.{
  ℕ, suc, set, take, drop, get_elem?, ◌+◌, ◌-◌, ◌*◌, ◌^◌, ◌≤◌, ◌<◌, ◌≡◌, refl, sym, ap, subst, inl,
  inr, Bool, true, false, not, ◌&&◌, Option, none, some, List, [], ◌∷◌, ◌++◌, ltb, length, min,
  arith, Bool-cases, if◌then◌else◌,
}
use peer_server.Transport.{
  open_, closed, Config, Transport, Effect, wire, wire_ping, wire_pong, opened, closed_event,
  queue_max, reconnecting, resolved, socket_close, is_open, can_send, send, flush_loop, flush_queue,
  at_limit, delay_of, start_ping, stop_ping, schedule_reconnect, maybe_reconnect, reject,
  connect_as, on_open, on_close, cleanup, Frame, pong, ping, content, garbage, on_message, close,
  ping_fires, pong_check, clear_queue, send_raw, Event, connect_call, send_call, close_call,
  clear_call, socket_opens, socket_closing, socket_closes, frame, ping_timer_fires,
  pong_timer_fires, reconnect_timer_fires, step, run, is_connecting, is_present, is_due, Old,
  Signal, opens, begins_closing, closes, fails, brings, on_old, old, socket_fails, handle_open,
  handle_close, error_event,
}

abbrev pub Within : ℕ → Option ℕ → Type 0
Within n none = Unit
Within n (some m) = n ≤ m

-- A report of a reconnection: the n-th attempt, n at least 1 and within the limit, after the delay
-- that doubles from one attempt to the next up to its maximum.
abbrev pub IsPolite : {M : Type 0} → Config → Effect M → Type 0
IsPolite c (reconnecting n d) =
    (0 < n)
    × Within n c.max_attempts
    × (d ≡ min (c.reconnect_delay * 2 ^ (n - 1)) c.reconnect_max_delay)
IsPolite c _ = Unit

abbrev pub AllPolite : {M : Type 0} → Config → List (Effect M) → Type 0
AllPolite c [] = Unit
AllPolite c (e ∷ es) = IsPolite c e × AllPolite c es

Within-next : (n : ℕ) (o : Option ℕ) → at_limit n o ≡ false → Within (n + 1) o
Within-next n none h = tt
Within-next n (some m) h = ground arith

Within-zero : (o : Option ℕ) → Within 0 o
Within-zero none = tt
Within-zero (some m) = omega arith

pred_next : (n : ℕ) → n ≡ n + 1 - 1
pred_next n = omega arith

module _ {M : Type 0} (c : Config) where
  AllPolite-append :
      (es fs : List (Effect M)) → AllPolite c es → AllPolite c fs → AllPolite c (es ++ fs)
  AllPolite-append [] fs p q = q
  AllPolite-append (e ∷ es) fs (p, ps) q = (p, AllPolite-append es fs ps q)

  -- A step's result: the attempts stay within the limit, and its reports are polite.
  abbrev IsGood : Transport M × List (Effect M) → Type 0
  IsGood r = Within r.0.attempts c.max_attempts × AllPolite c r.1

  if_IsGood :
      (b : Bool) (r r' : Transport M × List (Effect M))
      → IsGood r
      → IsGood r'
      → IsGood (if b then r else r')
  if_IsGood true r r' p q = p
  if_IsGood false r r' p q = q

  schedule-IsGood :
      (t : Transport M) → Within t.attempts c.max_attempts → IsGood (schedule_reconnect c t)
  unfolding schedule_reconnect delay_of
  schedule-IsGood t w = elim (Bool-cases (at_limit t.attempts c.max_attempts)) [
    | inl done ↦ rw done (w, tt)
    | inr more ↦ rw more (
      Within-next t.attempts c.max_attempts more,
      (
        (
          omega arith,
          Within-next t.attempts c.max_attempts more,
          ap (λ k. min (c.reconnect_delay * 2 ^ k) c.reconnect_max_delay) (pred_next t.attempts),
        ),
        tt,
      ),
    )
  ]

  maybe-IsGood : (t : Transport M) → Within t.attempts c.max_attempts → IsGood (maybe_reconnect c t)
  unfolding maybe_reconnect
  maybe-IsGood t w = elim (Bool-cases (not t.intentional_close && c.auto_reconnect)) [
    | inl again ↦ rw again (schedule-IsGood t w)
    | inr stop ↦ rw stop (w, tt)
  ]

  reject-IsGood :
      (retrying : Bool) (t : Transport M)
      → Within t.attempts c.max_attempts
      → IsGood (reject c retrying t)
  unfolding reject
  reject-IsGood true t w = maybe-IsGood t w
  reject-IsGood false t w = (w, (tt, tt))

  connect-IsGood :
      (retrying made : Bool) (t : Transport M)
      → Within t.attempts c.max_attempts
      → IsGood (connect_as c retrying made t)
  unfolding connect_as
  connect-IsGood retrying true t w = (w, tt)
  connect-IsGood retrying false t w =
      reject-IsGood retrying (record t { intentional_close = false }) w

  flush_polite :
      (ms : List M) (t : Transport M)
      → ((flush_loop ms t).0.attempts ≡ t.attempts) × AllPolite c (flush_loop ms t).1
  unfolding flush_loop
  flush_polite [] t = (refl, tt)
  flush_polite (m ∷ ms) t = elim (Bool-cases (can_send t)) [
    | inl sends ↦ rw sends ((flush_polite ms t).0, (tt, (flush_polite ms t).1))
    | inr shut ↦ rw shut (refl, tt)
  ]

  flush-IsGood : (t : Transport M) → Within t.attempts c.max_attempts → IsGood (flush_queue t)
  unfolding flush_queue
  flush-IsGood t w =
      let t1 : Transport M = record t { flushing = true; queue = [] } in
      let out : Transport M × List (Effect M) = flush_loop t.queue t1 in
      let (same, polite) = flush_polite t.queue t1 in
      if_IsGood t.flushing (t, []) (record (out.0) { flushing = false }, out.1) (w, tt)
        (subst (λ n. Within n c.max_attempts) (sym same) w, polite)

  open-IsGood : (now : ℕ) (t : Transport M) → IsGood (handle_open now t)
  open-IsGood now t =
      let t1 : Transport M =
        start_ping (record t { connected = true; attempts = 0; last_pong = now }) in
      let (w, polite) =
        flush-IsGood t1 (unfold start_ping stop_ping in Within-zero c.max_attempts) in
      unfold handle_open in
      (w, AllPolite-append (flush_queue t1).1 (opened ∷ resolved ∷ []) polite (tt, (tt, tt)))

  close-IsGood :
      (settled retrying : Bool) (t : Transport M)
      → Within t.attempts c.max_attempts
      → IsGood (handle_close c settled retrying t)
  unfolding handle_close
  close-IsGood settled retrying t w =
      let t1 : Transport M = cleanup (record t { connected = false }) in
      let w1 : Within t1.attempts c.max_attempts = unfold cleanup in w in
      let (w2, polite) = maybe-IsGood t1 w1 in
      if_IsGood settled ((maybe_reconnect c t1).0, closed_event ∷ (maybe_reconnect c t1).1)
        (reject c retrying t1) (w2, (tt, polite)) (reject-IsGood retrying t1 w1)

  raw_polite : (b : Bool) (e : Effect M) → IsPolite c e → AllPolite c (if b then e ∷ [] else [])
  raw_polite true e p = (p, tt)
  raw_polite false e p = tt

  message-IsGood :
      (now : ℕ) (f : Frame M) (t : Transport M)
      → Within t.attempts c.max_attempts
      → IsGood (on_message now f t)
  unfolding on_message
  message-IsGood now pong t w = (w, tt)
  message-IsGood now ping t w = (w, unfold send_raw in raw_polite (is_open t.ws) wire_pong tt)
  message-IsGood now (content m) t w = (w, (tt, tt))
  message-IsGood now garbage t w = (w, (tt, tt))

  ping-IsGood :
      (now : ℕ) (t : Transport M) → Within t.attempts c.max_attempts → IsGood (ping_fires c now t)
  unfolding ping_fires
  ping-IsGood now t w = (w, unfold send_raw in raw_polite (is_open t.ws) wire_ping tt)

  pong-IsGood :
      (now : ℕ) (t : Transport M) → Within t.attempts c.max_attempts → IsGood (pong_check c now t)
  unfolding pong_check
  pong-IsGood now t w = if_IsGood _ _ _ (w, raw_polite (is_present t.ws) socket_close tt) (w, tt)

  old-IsGood :
      (e : Signal M) (i : ℕ) (o : Option Old) (t : Transport M)
      → Within t.attempts c.max_attempts
      → IsGood (on_old c e i o t)
  unfolding on_old
  old-IsGood e i none t w = (w, tt)
  old-IsGood (opens now) i (some o) t w =
      let t1 : Transport M = record t {
        replaced = set t.replaced i (record o { ready = open_; settled = true });
      } in
      if_IsGood (is_connecting (some o.ready)) (handle_open now t1) (t, []) (open-IsGood now t1)
        (w, tt)
  old-IsGood begins_closing i (some o) t w = (w, tt)
  old-IsGood closes i (some o) t w =
      let t1 : Transport M = record t { replaced = take i t.replaced ++ drop (suc i) t.replaced } in
      close-IsGood o.settled o.retrying t1 w
  old-IsGood fails i (some o) t w = (w, (tt, tt))
  old-IsGood (brings now f) i (some o) t w = message-IsGood now f t w

  step-IsGood :
      (e : Event M) (t : Transport M) → Within t.attempts c.max_attempts → IsGood (step c e t)
  unfolding step
  step-IsGood (connect_call made) t w = connect-IsGood false made t w
  step-IsGood (send_call m) t w =
      unfold send in
      if_IsGood (can_send t) (t, wire m ∷ [])
        (if ltb (length t.queue) queue_max
          then (record t { queue = t.queue ++ m ∷ [] }, [])
          else (t, []))
        (w, (tt, tt))
        (if_IsGood (ltb (length t.queue) queue_max) (record t { queue = t.queue ++ m ∷ [] }, [])
          (t, []) (w, tt) (w, tt))
  step-IsGood close_call t w =
      unfold close cleanup in (w, raw_polite (is_present t.ws) socket_close tt)
  step-IsGood clear_call t w = unfold clear_queue in (w, tt)
  step-IsGood (socket_opens now) t w =
      let t1 : Transport M = record t { ws = some open_; settled = true } in
      unfold on_open in
      if_IsGood (is_connecting t.ws) (handle_open now t1) (t, []) (open-IsGood now t1) (w, tt)
  step-IsGood socket_closing t w = (w, tt)
  step-IsGood socket_closes t w =
      let t1 : Transport M = record t { ws = some closed; settled = true } in
      unfold on_close in
      if_IsGood (is_present t.ws) (handle_close c t.settled t.retrying t1) (t, [])
        (close-IsGood t.settled t.retrying t1 w) (w, tt)
  step-IsGood (frame now f) t w =
      if_IsGood (is_present t.ws) (on_message now f t) (t, []) (message-IsGood now f t w) (w, tt)
  step-IsGood socket_fails t w =
      if_IsGood (is_present t.ws) (t, error_event ∷ []) (t, []) (w, (tt, tt)) (w, tt)
  step-IsGood (old i e) t w = old-IsGood e i (get_elem? t.replaced i) t w
  step-IsGood (ping_timer_fires now) t w =
      if_IsGood t.ping_timer (ping_fires c now t) (t, []) (ping-IsGood now t w) (w, tt)
  step-IsGood (pong_timer_fires now) t w =
      if_IsGood (is_due now t.pong_timer) (pong_check c now t) (t, []) (pong-IsGood now t w) (w, tt)
  step-IsGood (reconnect_timer_fires made) t w =
      if_IsGood t.reconnect_timer (connect_as c true made (record t { reconnect_timer = false }))
        (t, []) (connect-IsGood true made (record t { reconnect_timer = false }) w) (w, tt)

  -- Over any run, every attempt to reconnect is reported with a number from 1 up to the limit and
  -- is made after the base delay doubled once for each attempt before it, capped at the maximum.
  pub run_polite :
      (es : List (Event M)) (t : Transport M)
      → Within t.attempts c.max_attempts
      → AllPolite c (run c es t).1
  unfolding run
  run_polite [] t w = tt
  run_polite (e ∷ es) t w =
      let (w', polite) = step-IsGood e t w in
      AllPolite-append (step c e t).1 (run c es (step c e t).0).1 polite
        (run_polite es (step c e t).0 w')
