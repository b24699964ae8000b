-- ===== src/Transport/Queue.antt =====
-- The outgoing queue of the transport (transport.ts, send, flushQueue): its bound and its order.
use peer_server.Prelude.{
  Bool, Option, none, suc, set, take, drop, get_elem?, ℕ, ◌≤◌, ◌≡◌, ◌∙◌, refl, sym, ap, inl, inr,
  true, false, ◌||◌, some, List, [], ◌∷◌, ◌++◌, ltb, length, length-append, arith, Bool-cases,
  if◌then◌else◌,
}
use mathlib.Core.List.{append_assoc, append-nil}
use peer_server.Transport.{
  open_, Config, Transport, Effect, queue_max, can_send, send, schedule_reconnect, maybe_reconnect,
  reject, connect_as, on_open, on_close, cleanup, pong, ping, content, garbage, on_message, close,
  ping_fires, pong_check, clear_queue, send_raw, Event, connect_call, send_call, close_call,
  clear_call, socket_opens, socket_closing, socket_closes, frame, ping_timer_fires,
  pong_timer_fires, reconnect_timer_fires, step, run, is_connecting, is_present, Frame, Old, Signal,
  opens, begins_closing, closes, fails, brings, on_old, old, socket_fails, handle_open,
  handle_close, error_event, closed,
}
use peer_server.Transport.Flushing.{
  wired, wired-append, handle_open-IsFlushed, if_Conserves, handle_open-Conserves,
  handle_close-Conserves, on_message-Conserves, on_old-Conserves,
}

module _ {M : Type 0} where
  -- The queue is bounded, nothing is being flushed between events, and nothing waits while the
  -- connection can send.
  pub record IsQueueing (t : Transport M) : Type 0 where
    pub bounded : length t.queue ≤ queue_max
    pub idle : t.flushing ≡ false
    pub drained : can_send t ≡ true → t.queue ≡ []

  -- What a step takes in: a message that is sent or fits into the queue.
  unfoldable pub accepted : Event M → Transport M → List M
  accepted (send_call m) t = if can_send t || ltb (length t.queue) queue_max then m ∷ [] else []
  accepted _ t = []

  unfoldable pub all_accepted : Config → List (Event M) → Transport M → List M
  unfolding accepted
  all_accepted c [] t = []
  all_accepted c (e ∷ es) t = accepted e t ++ all_accepted c es (step c e t).0

  -- No call that throws the queue away.
  abbrev pub KeepsQueue : Event M → Type 0
  KeepsQueue close_call = ⊥
  KeepsQueue clear_call = ⊥
  KeepsQueue _ = Unit

  abbrev pub AllKeepQueue : List (Event M) → Type 0
  AllKeepQueue [] = Unit
  AllKeepQueue (e ∷ es) = KeepsQueue e × AllKeepQueue es

  handle_open-IsQueueing :
      (now : ℕ) (t : Transport M)
      → t.flushing ≡ false
      → length t.queue ≤ queue_max
      → IsQueueing (handle_open now t).0
  handle_open-IsQueueing now t i b =
      let f = handle_open-IsFlushed now t i in
      let ms = wired (handle_open now t).1 in
      record {
        bounded = omega (
          arith,
          length-append ms (handle_open now t).0.queue,
          ap (λ q. length q) f.sent_first,
          b,
        );
        idle = f.done;
        drained = f.emptied;
      }

  if_IsQueueing :
      (b : Bool) (x y : Transport M × List (Effect M))
      → IsQueueing x.0
      → IsQueueing y.0
      → IsQueueing (if b then x else y).0
  if_IsQueueing true x y p q = p
  if_IsQueueing false x y p q = q

  handle_close-IsQueueing :
      (c : Config) (b r : Bool) (t : Transport M)
      → length t.queue ≤ queue_max
      → t.flushing ≡ false
      → IsQueueing (handle_close c b r t).0
  unfolding handle_close reject maybe_reconnect schedule_reconnect cleanup
  handle_close-IsQueueing c b r t l i = ground arith

  on_message-IsQueueing :
      (now : ℕ) (f : Frame M) (t : Transport M) → IsQueueing t → IsQueueing (on_message now f t).0
  unfolding on_message
  on_message-IsQueueing now pong t h = ground arith
  on_message-IsQueueing now ping t h = h
  on_message-IsQueueing now (content m) t h = h
  on_message-IsQueueing now garbage t h = h

  on_old-IsQueueing :
      (c : Config) (e : Signal M) (i : ℕ) (o : Option Old) (t : Transport M)
      → IsQueueing t
      → IsQueueing (on_old c e i o t).0
  unfolding on_old
  on_old-IsQueueing c e i none t h = h
  on_old-IsQueueing c (opens now) i (some o) t h =
      let t1 : Transport M = record t {
        replaced = set t.replaced i (record o { ready = open_; settled = true });
      } in
      if_IsQueueing (is_connecting (some o.ready)) (handle_open now t1) (t, [])
        (handle_open-IsQueueing now t1 h.idle h.bounded) h
  on_old-IsQueueing c begins_closing i (some o) t h = ground arith
  on_old-IsQueueing c closes i (some o) t h =
      let t1 : Transport M = record t { replaced = take i t.replaced ++ drop (suc i) t.replaced } in
      handle_close-IsQueueing c o.settled o.retrying t1 h.bounded h.idle
  on_old-IsQueueing c fails i (some o) t h = h
  on_old-IsQueueing c (brings now f) i (some o) t h = on_message-IsQueueing now f t h

  send-IsQueueing : (m : M) (t : Transport M) → IsQueueing t → IsQueueing (send m t).0
  unfolding send
  send-IsQueueing m t h = elim (Bool-cases (can_send t)) [
    | inl sends ↦ rw sends h
    | inr shut ↦ elim (Bool-cases (ltb (length t.queue) queue_max)) [
      | inl room ↦
          rw (shut, room)
            (record {
              bounded = rw (length-append t.queue (m ∷ [])) (ground arith);
              idle = h.idle;
              drained = λ o. ground arith;
            })
      | inr full ↦ rw (shut, full) h
    ]
  ]

  pub step-IsQueueing :
      (c : Config) (e : Event M) (t : Transport M) → IsQueueing t → IsQueueing (step c e t).0
  unfolding step
  step-IsQueueing c (connect_call made) t h =
      unfold connect_as reject maybe_reconnect schedule_reconnect in ground arith
  step-IsQueueing c (send_call m) t h = send-IsQueueing m t h
  step-IsQueueing c close_call t h = unfold close cleanup in ground arith
  step-IsQueueing c clear_call t h = unfold clear_queue in ground arith
  step-IsQueueing c (socket_opens now) t h =
      let t1 : Transport M = record t { ws = some open_; settled = true } in
      unfold on_open in
      if_IsQueueing (is_connecting t.ws) (handle_open now t1) (t, [])
        (handle_open-IsQueueing now t1 h.idle h.bounded) h
  step-IsQueueing c socket_closing t h = ground arith
  step-IsQueueing c socket_closes t h =
      let t1 : Transport M = record t { ws = some closed; settled = true } in
      unfold on_close in
      if_IsQueueing (is_present t.ws) (handle_close c t.settled t.retrying t1) (t, [])
        (handle_close-IsQueueing c t.settled t.retrying t1 h.bounded h.idle) h
  step-IsQueueing c socket_fails t h =
      if_IsQueueing (is_present t.ws) (t, error_event ∷ []) (t, []) h h
  step-IsQueueing c (frame now f) t h =
      if_IsQueueing (is_present t.ws) (on_message now f t) (t, []) (on_message-IsQueueing now f t h)
        h
  step-IsQueueing c (old i e) t h = on_old-IsQueueing c e i (get_elem? t.replaced i) t h
  step-IsQueueing c (ping_timer_fires now) t h = unfold ping_fires in ground arith
  step-IsQueueing c (pong_timer_fires now) t h = unfold pong_check in ground arith
  step-IsQueueing c (reconnect_timer_fires made) t h =
      unfold connect_as reject maybe_reconnect schedule_reconnect in ground arith

  front : (m : M) (q : List M) → q ≡ [] → m ∷ q ≡ q ++ m ∷ []
  front m q e = rw e

  send-wired :
      (m : M) (t : Transport M)
      → IsQueueing t
      → wired (send m t).1 ++ (send m t).0.queue ≡ t.queue ++ accepted (send_call m) t
  unfolding send accepted wired
  send-wired m t h = elim (Bool-cases (can_send t)) [
    | inl sends ↦ rw sends (front m t.queue (h.drained sends))
    | inr shut ↦ elim (Bool-cases (ltb (length t.queue) queue_max)) [
      | inl room ↦ rw (shut, room)
      | inr full ↦ rw (shut, full) (sym (append-nil t.queue))
    ]
  ]

  -- One step: what goes onto the wire and what then waits are what waited before and what the step
  -- takes in, in this order.
  step-wired :
      (c : Config) (e : Event M) (t : Transport M)
      → KeepsQueue e
      → IsQueueing t
      → wired (step c e t).1 ++ (step c e t).0.queue ≡ t.queue ++ accepted e t
  unfolding step accepted wired
  step-wired c (connect_call made) t k h =
      unfold connect_as reject maybe_reconnect schedule_reconnect in
      ground (arith, append-nil t.queue)
  step-wired c (send_call m) t k h = send-wired m t h
  step-wired c close_call t k h = elim k [ ]
  step-wired c clear_call t k h = elim k [ ]
  step-wired c (socket_opens now) t k h =
      let t1 : Transport M = record t { ws = some open_; settled = true } in
      unfold on_open in
      if_Conserves (is_connecting t.ws) t (handle_open now t1) (t, [])
        (handle_open-Conserves now t1 h.idle) refl
      ∙ sym (append-nil t.queue)
  step-wired c socket_closing t k h = sym (append-nil t.queue)
  step-wired c socket_closes t k h =
      let t1 : Transport M = record t { ws = some closed; settled = true } in
      unfold on_close in
      if_Conserves (is_present t.ws) t (handle_close c t.settled t.retrying t1) (t, [])
        (handle_close-Conserves c t.settled t.retrying t1) refl
      ∙ sym (append-nil t.queue)
  step-wired c socket_fails t k h = ground (arith, append-nil t.queue)
  step-wired c (frame now f) t k h =
      if_Conserves (is_present t.ws) t (on_message now f t) (t, []) (on_message-Conserves now f t)
        refl
      ∙ sym (append-nil t.queue)
  step-wired c (old i e) t k h =
      on_old-Conserves c e i (get_elem? t.replaced i) t h.idle ∙ sym (append-nil t.queue)
  step-wired c (ping_timer_fires now) t k h =
      unfold ping_fires send_raw in ground (arith, append-nil t.queue)
  step-wired c (pong_timer_fires now) t k h =
      unfold pong_check in ground (arith, append-nil t.queue)
  step-wired c (reconnect_timer_fires made) t k h =
      unfold connect_as reject maybe_reconnect schedule_reconnect in
      ground (arith, append-nil t.queue)

  -- Over any run in which the queue is not thrown away, nothing is lost, repeated or overtaken:
  -- the messages on the wire, then those that still wait, are those that waited at the start, then
  -- those that `send` took in, in order. The queue never holds more than 500.
  pub run_fifo :
      (c : Config) (es : List (Event M)) (t : Transport M)
      → AllKeepQueue es
      → IsQueueing t
      → (wired (run c es t).1 ++ (run c es t).0.queue ≡ t.queue ++ all_accepted c es t)
        × (length (run c es t).0.queue ≤ queue_max)
  unfolding run all_accepted
  run_fifo c [] t k h = (unfold wired in sym (append-nil t.queue), h.bounded)
  run_fifo c (e ∷ es) t (k, ks) h =
      let t' : Transport M = (step c e t).0 in
      let (fifo, bound) = run_fifo c es t' ks (step-IsQueueing c e t h) in
      (
        ap (λ xs. xs ++ (run c es t').0.queue) (wired-append (step c e t).1 (run c es t').1)
            ∙ append_assoc (wired (step c e t).1) (wired (run c es t').1) _
            ∙ ap (λ xs. wired (step c e t).1 ++ xs) fifo
            ∙ sym (append_assoc (wired (step c e t).1) t'.queue (all_accepted c es t'))
            ∙ ap (λ xs. xs ++ all_accepted c es t') (step-wired c e t k h)
            ∙ append_assoc t.queue (accepted e t) (all_accepted c es t'),
        bound,
      )
