-- ===== src/Transport/Flushing.antt =====
-- The flush of the queue (transport.ts, flushQueue), by the handlers of any socket: what it cannot
-- send waits again, in its place.
use peer_server.Prelude.{
  Bool, Option, none, suc, set, take, drop, ℕ, ◌≡◌, ◌∙◌, refl, sym, ap, subst, inl, inr, true,
  false, some, List, [], ◌∷◌, ◌++◌, arith, Bool-cases, if◌then◌else◌,
}
use mathlib.Core.List.{append-nil}
use peer_server.Transport.{
  open_, Config, Transport, Effect, wire, can_send, flush_loop, flush_queue, start_ping,
  schedule_reconnect, maybe_reconnect, reject, cleanup, pong, ping, content, garbage, on_message,
  send_raw, is_connecting, Frame, Old, Signal, opens, begins_closing, closes, fails, brings, on_old,
  handle_open, handle_close,
}

module _ {M : Type 0} where
  -- The messages that went onto the wire.
  unfoldable pub wired : List (Effect M) → List M
  wired [] = []
  wired (wire m ∷ es) = m ∷ wired es
  wired (_ ∷ es) = wired es

  pub wired-append : (es fs : List (Effect M)) → wired (es ++ fs) ≡ wired es ++ wired fs
  unfolding wired
  wired-append [] fs = refl
  wired-append (wire m ∷ es) fs = ap (λ xs. m ∷ xs) (wired-append es fs)
  wired-append (_ ∷ es) fs = wired-append es fs

  -- Over a connection that can send, the whole queue goes out in order.
  flush_loop-open :
      (ms : List M) (t : Transport M)
      → can_send t ≡ true
      → ((flush_loop ms t).0 ≡ t) × (wired (flush_loop ms t).1 ≡ ms)
  unfolding flush_loop wired
  flush_loop-open [] t h = (refl, refl)
  flush_loop-open (m ∷ ms) t h = ground (arith, flush_loop-open ms t h)

  flush_queue-open :
      (t : Transport M)
      → can_send t ≡ true
      → t.flushing ≡ false
      → ((flush_queue t).0 ≡ record t { flushing = false; queue = [] })
        × (wired (flush_queue t).1 ≡ t.queue)
  unfolding flush_queue
  flush_queue-open t h f =
      let (a, b) = flush_loop-open t.queue (record t { flushing = true; queue = [] }) h in
      (rw f (ap (λ (u : Transport M). record u { flushing = false }) a), rw f b)

  -- A flush loses nothing: what it cannot send waits again, in its place.
  flush_loop-shut :
      (ms : List M) (t : Transport M)
      → can_send t ≡ false
      → ((flush_loop ms t).0 ≡ record t { queue = ms ++ t.queue })
        × (wired (flush_loop ms t).1 ≡ [])
  unfolding flush_loop wired
  flush_loop-shut [] t h = (refl, refl)
  flush_loop-shut (m ∷ ms) t h = ground arith

  flush_queue-shut :
      (t : Transport M)
      → can_send t ≡ false
      → t.flushing ≡ false
      → ((flush_queue t).0 ≡ record t { flushing = false; queue = t.queue ++ [] })
        × (wired (flush_queue t).1 ≡ [])
  unfolding flush_queue
  flush_queue-shut t h f =
      let (a, b) = flush_loop-shut t.queue (record t { flushing = true; queue = [] }) h in
      (rw f (ap (λ (u : Transport M). record u { flushing = false }) a), rw f b)

  -- A state after a flush, with the messages that went out in it.
  pub record IsFlushed (q ms : List M) (t : Transport M) : Type 0 where
    pub sent_first : ms ++ t.queue ≡ q
    pub done : t.flushing ≡ false
    pub emptied : can_send t ≡ true → t.queue ≡ []

  pub flush_queue-IsFlushed :
      (t : Transport M)
      → t.flushing ≡ false
      → IsFlushed t.queue (wired (flush_queue t).1) (flush_queue t).0
  flush_queue-IsFlushed t f = elim (Bool-cases (can_send t)) [
    | inl sends ↦
        let (a, b) = flush_queue-open t sends f in
        rw (a, b) (record { sent_first = append-nil t.queue; done = refl; emptied = λ _. refl })
    | inr shut ↦
        let (a, b) = flush_queue-shut t shut f in
        rw (a, b)
          (record { sent_first = append-nil t.queue; done = refl; emptied = λ o. ground arith })
  ]

  pub handle_open-IsFlushed :
      (now : ℕ) (t : Transport M)
      → t.flushing ≡ false
      → IsFlushed t.queue (wired (handle_open now t).1) (handle_open now t).0
  unfolding handle_open start_ping wired
  handle_open-IsFlushed now t f =
      let t1 : Transport M = record t {
        connected = true;
        attempts = 0;
        last_pong = now;
        ping_timer = true;
        pong_timer = none;
      } in
      subst (λ ms. IsFlushed t.queue ms (flush_queue t1).0)
        (sym (wired-append (flush_queue t1).1 _ ∙ append-nil _)) (flush_queue-IsFlushed t1 f)

  -- A result in which nothing goes onto the wire but messages that waited before, in order.
  abbrev pub Conserves : Transport M → Transport M × List (Effect M) → Type 0
  Conserves t r = wired r.1 ++ r.0.queue ≡ t.queue

  pub if_Conserves :
      (b : Bool) (t : Transport M) (x y : Transport M × List (Effect M))
      → Conserves t x
      → Conserves t y
      → Conserves t (if b then x else y)
  if_Conserves true t x y p q = p
  if_Conserves false t x y p q = q

  pub handle_open-Conserves :
      (now : ℕ) (t : Transport M) → t.flushing ≡ false → Conserves t (handle_open now t)
  handle_open-Conserves now t i = (handle_open-IsFlushed now t i).sent_first

  pub handle_close-Conserves :
      (c : Config) (b r : Bool) (t : Transport M) → Conserves t (handle_close c b r t)
  unfolding handle_close reject maybe_reconnect schedule_reconnect cleanup wired
  handle_close-Conserves c b r t = ground arith

  pub on_message-Conserves :
      (now : ℕ) (f : Frame M) (t : Transport M) → Conserves t (on_message now f t)
  unfolding on_message send_raw wired
  on_message-Conserves now pong t = refl
  on_message-Conserves now ping t = ground arith
  on_message-Conserves now (content m) t = refl
  on_message-Conserves now garbage t = refl

  pub on_old-Conserves :
      (c : Config) (e : Signal M) (i : ℕ) (o : Option Old) (t : Transport M)
      → t.flushing ≡ false
      → Conserves t (on_old c e i o t)
  unfolding on_old wired
  on_old-Conserves c e i none t h = refl
  on_old-Conserves c (opens now) i (some o) t h =
      let t1 : Transport M = record t {
        replaced = set t.replaced i (record o { ready = open_; settled = true });
      } in
      if_Conserves (is_connecting (some o.ready)) t (handle_open now t1) (t, [])
        (handle_open-Conserves now t1 h) refl
  on_old-Conserves c begins_closing i (some o) t h = refl
  on_old-Conserves c closes i (some o) t h =
      let t1 : Transport M = record t { replaced = take i t.replaced ++ drop (suc i) t.replaced } in
      handle_close-Conserves c o.settled o.retrying t1
  on_old-Conserves c fails i (some o) t h = refl
  on_old-Conserves c (brings now f) i (some o) t h = on_message-Conserves now f t
