-- ===== src/Transport.antt =====
-- packages/peer-client/src/core/transport.ts: the connection to the signalling server, its queue,
-- its timers and its reconnection. Messages are an arbitrary type `M`, and JSON is left out: a
-- frame that does not parse is `garbage`. The WebSocket is the environment: the state keeps its
-- `readyState` (`none` is a null `ws`), and its events are operations; a socket that a second
-- `connect` replaces keeps its handlers and stays in a list of its own. A timer is kept as whether
-- it is pending, the pong timer with the time at which it is due; the time of day is an argument.
pub mod Flushing
pub mod Queue
pub mod Reconnect
pub mod Shutdown
use peer_server.Prelude.{
  ℕ, zero, suc, ◌+◌, ◌-◌, ◌*◌, ◌^◌, ◌<◌, Bool, true, false, not, ◌&&◌, Option, none, some, List, [],
  ◌∷◌, ◌++◌, ltb, leb, length, min, get_elem?, set, take, drop, if◌then◌else◌,
}

pub data Ready : Type 0 where
  connecting open_ closing closed : Ready

pub record Config : Type 0 where
  pub auto_reconnect : Bool
  pub reconnect_delay : ℕ
  pub reconnect_max_delay : ℕ
  -- `none` is Infinity
  pub max_attempts : Option ℕ
  pub ping_interval : ℕ

-- A socket that is no longer `this.ws`, with what the promise of its `connect` closes over.
pub record Old : Type 0 where
  pub ready : Ready
  pub settled : Bool
  pub retrying : Bool

pub record Transport (M : Type 0) : Type 0 where
  pub ws : Option Ready
  -- the promise behind `ws` has been settled; it was made by the reconnect timer
  pub settled : Bool
  pub retrying : Bool
  pub ping_timer : Bool
  -- twice the time at which the check is due
  pub pong_timer : Option ℕ
  pub reconnect_timer : Bool
  pub attempts : ℕ
  pub intentional_close : Bool
  pub last_pong : ℕ
  pub queue : List M
  pub connected : Bool
  pub flushing : Bool
  pub replaced : List Old

pub data Effect (M : Type 0) : Type 0 where
  wire : M → Effect M
  wire_ping wire_pong : Effect M
  opened : Effect M
  closed_event : Effect M
  message : M → Effect M
  error_event : Effect M
  reconnecting : ℕ → ℕ → Effect M
  resolved rejected : Effect M
  socket_close : Effect M

-- LIMITS.MESSAGE_QUEUE_MAX
abbrev pub queue_max : ℕ
queue_max = 500

abbrev pub is_open : Option Ready → Bool
is_open (some open_) = true
is_open _ = false

abbrev pub is_present : Option Ready → Bool
is_present none = false
is_present (some r) = true

-- `readyState` after `ws.close()`.
abbrev pub closing_of : Option Ready → Option Ready
closing_of (some connecting) = some closing
closing_of (some open_) = some closing
closing_of r = r

abbrev pub at_limit : ℕ → Option ℕ → Bool
at_limit n none = false
at_limit n (some m) = leb m n

abbrev pub is_due : ℕ → Option ℕ → Bool
is_due now none = false
is_due now (some time) = leb time (2 * now)

unfoldable pub delay_of : Config → ℕ → ℕ
delay_of c attempts = min (c.reconnect_delay * 2 ^ attempts) c.reconnect_max_delay

-- A frame, as `JSON.parse` and the tests of `type` see it.
pub data Frame (M : Type 0) : Type 0 where
  pong ping : Frame M
  content : M → Frame M
  garbage : Frame M

module _ {M : Type 0} where
  -- `this._connected && this.ws?.readyState === WebSocket.OPEN`
  abbrev pub can_send : Transport M → Bool
  can_send t = t.connected && is_open t.ws

  unfoldable pub send : M → Transport M → Transport M × List (Effect M)
  send m t =
      if can_send t
      then (t, wire m ∷ [])
      else if ltb (length t.queue) queue_max
      then (record t { queue = t.queue ++ m ∷ [] }, [])
      else (t, [])

  unfoldable pub send_raw : Effect M → Transport M → List (Effect M)
  send_raw e t = if is_open t.ws then e ∷ [] else []

  unfoldable pub stop_ping : Transport M → Transport M
  stop_ping t = record t { ping_timer = false; pong_timer = none }

  unfoldable pub cleanup : Transport M → Transport M
  unfolding stop_ping
  cleanup t = record (stop_ping t) { reconnect_timer = false }

  -- The loop of `flushQueue` over the spliced queue; what cannot be sent goes back to the front.
  unfoldable pub flush_loop : List M → Transport M → Transport M × List (Effect M)
  flush_loop [] t = (t, [])
  flush_loop (m ∷ ms) t =
      let rest = flush_loop ms t in
      if can_send t
      then (rest.0, wire m ∷ rest.1)
      else (record t { queue = (m ∷ ms) ++ t.queue }, [])

  unfoldable pub flush_queue : Transport M → Transport M × List (Effect M)
  unfolding flush_loop
  flush_queue t =
      let (t', es) = flush_loop t.queue (record t { flushing = true; queue = [] }) in
      if t.flushing then (t, []) else (record t' { flushing = false }, es)

  unfoldable pub start_ping : Transport M → Transport M
  unfolding stop_ping
  start_ping t = record (stop_ping t) { ping_timer = true }

  unfoldable pub schedule_reconnect : Config → Transport M → Transport M × List (Effect M)
  unfolding delay_of
  schedule_reconnect c t = if at_limit t.attempts c.max_attempts then (t, []) else (
    record t { attempts = t.attempts + 1; reconnect_timer = true },
    reconnecting (t.attempts + 1) (delay_of c t.attempts) ∷ [],
  )

  -- `if (!this.intentionalClose && this.autoReconnect) this.scheduleReconnect()`
  unfoldable pub maybe_reconnect : Config → Transport M → Transport M × List (Effect M)
  unfolding schedule_reconnect
  maybe_reconnect c t =
      if not t.intentional_close && c.auto_reconnect then schedule_reconnect c t else (t, [])

  -- The rejection of the promise of `connect`: the reconnect timer catches its own.
  unfoldable pub reject : Config → Bool → Transport M → Transport M × List (Effect M)
  unfolding maybe_reconnect
  reject c retrying t = if retrying then maybe_reconnect c t else (t, rejected ∷ [])

  -- The socket that `connect` is about to replace, unless it has closed.
  unfoldable pub left_over : Option Ready → Transport M → List Old
  left_over none t = []
  left_over (some closed) t = []
  left_over (some r) t = record { ready = r; settled = t.settled; retrying = t.retrying } ∷ []

  -- `connect`; `made` says whether the constructor of WebSocket returns.
  unfoldable pub connect_as : Config → Bool → Bool → Transport M → Transport M × List (Effect M)
  unfolding reject left_over
  connect_as c retrying made t =
      if made
      then (
        record t {
          intentional_close = false;
          ws = some connecting;
          settled = false;
          retrying = retrying;
          replaced = left_over t.ws t ++ t.replaced;
        },
        [],
      )
      else reject c retrying (record t { intentional_close = false })

  -- The `onopen` handler of any socket.
  unfoldable pub handle_open : ℕ → Transport M → Transport M × List (Effect M)
  unfolding start_ping flush_queue
  handle_open now t =
      let (t', es) =
        flush_queue (start_ping (record t { connected = true; attempts = 0; last_pong = now })) in
      (t', es ++ opened ∷ resolved ∷ [])

  unfoldable pub on_open : ℕ → Transport M → Transport M × List (Effect M)
  unfolding handle_open
  on_open now t = handle_open now (record t { ws = some open_; settled = true })

  -- The `onclose` handler of a socket, of which it knows whether its promise was settled.
  unfoldable pub handle_close : Config → Bool → Bool → Transport M → Transport M × List (Effect M)
  unfolding cleanup reject maybe_reconnect
  handle_close c settled retrying t =
      let t1 = cleanup (record t { connected = false }) in
      let (t2, es) = maybe_reconnect c t1 in
      if settled then (t2, closed_event ∷ es) else reject c retrying t1

  unfoldable pub on_close : Config → Transport M → Transport M × List (Effect M)
  unfolding handle_close
  on_close c t = handle_close c t.settled t.retrying (record t { ws = some closed; settled = true })

  unfoldable pub on_message : ℕ → Frame M → Transport M → Transport M × List (Effect M)
  unfolding send_raw
  on_message now pong t = (record t { last_pong = now }, [])
  on_message now ping t = (t, send_raw wire_pong t)
  on_message now (content m) t = (t, message m ∷ [])
  on_message now garbage t = (t, error_event ∷ [])

  unfoldable pub close : Transport M → Transport M × List (Effect M)
  unfolding cleanup
  close t = (
    record (cleanup t) { intentional_close = true; connected = false; queue = []; ws = none },
    if is_present t.ws then socket_close ∷ [] else [],
  )

  -- The interval of `startPing` fires: the pong timer is cleared and set again, to two and a half
  -- intervals from now.
  unfoldable pub ping_fires : Config → ℕ → Transport M → Transport M × List (Effect M)
  unfolding send_raw
  ping_fires c now t =
      (record t { pong_timer = some (2 * now + 5 * c.ping_interval) }, send_raw wire_ping t)

  -- The timeout of `schedulePongCheck` fires. `elapsed > pingInterval * 2.5` is doubled, to stay
  -- within the natural numbers.
  unfoldable pub pong_check : Config → ℕ → Transport M → Transport M × List (Effect M)
  pong_check c now t =
      if ltb (5 * c.ping_interval) (2 * (now - t.last_pong))
      then (
        record t { pong_timer = none; connected = false; ws = closing_of t.ws },
        if is_present t.ws then socket_close ∷ [] else [],
      )
      else (record t { pong_timer = none }, [])

  unfoldable pub clear_queue : Transport M → Transport M
  clear_queue t = record t { queue = [] }

-- What a replaced socket does.
pub data Signal (M : Type 0) : Type 0 where
  opens : ℕ → Signal M
  begins_closing closes fails : Signal M
  brings : ℕ → Frame M → Signal M

-- What can happen: calls of the public methods, events of the socket and of those it replaced, and
-- timers. A timer fires only while it is pending; the reconnect timer calls `connect`.
pub data Event (M : Type 0) : Type 0 where
  connect_call : Bool → Event M
  send_call : M → Event M
  close_call clear_call : Event M
  socket_opens : ℕ → Event M
  socket_closing socket_closes socket_fails : Event M
  frame : ℕ → Frame M → Event M
  old : ℕ → Signal M → Event M
  ping_timer_fires : ℕ → Event M
  pong_timer_fires : ℕ → Event M
  reconnect_timer_fires : Bool → Event M

abbrev pub is_connecting : Option Ready → Bool
is_connecting (some connecting) = true
is_connecting _ = false

module _ {M : Type 0} where
  abbrev when : Bool → Transport M → Transport M × List (Effect M) → Transport M × List (Effect M)
  when b t r = if b then r else (t, [])

  -- The handlers of the replaced socket at `i`; that it sends goes over `this.ws`.
  unfoldable pub on_old :
      Config → Signal M → ℕ → Option Old → Transport M → Transport M × List (Effect M)
  unfolding handle_open handle_close on_message
  on_old c e i none t = (t, [])
  on_old c (opens now) i (some o) t = when (is_connecting (some o.ready)) t (
      handle_open now
        (record t { replaced = set t.replaced i (record o { ready = open_; settled = true }) }))
  on_old c begins_closing i (some o) t =
      (record t { replaced = set t.replaced i (record o { ready = closing }) }, [])
  on_old c closes i (some o) t =
      handle_close c o.settled o.retrying
        (record t { replaced = take i t.replaced ++ drop (suc i) t.replaced })
  on_old c fails i (some o) t = (t, error_event ∷ [])
  on_old c (brings now f) i (some o) t = on_message now f t

  -- Socket events reach the handlers only while `ws` is there: `close` takes them off.
  unfoldable pub step : Config → Event M → Transport M → Transport M × List (Effect M)
  unfolding send close connect_as clear_queue on_open on_close on_message on_old ping_fires
      pong_check
  step c (connect_call made) t = connect_as c false made t
  step c (send_call m) t = send m t
  step c close_call t = close t
  step c clear_call t = (clear_queue t, [])
  step c (socket_opens now) t = when (is_connecting t.ws) t (on_open now t)
  step c socket_closing t = (record t { ws = closing_of t.ws }, [])
  step c socket_closes t = when (is_present t.ws) t (on_close c t)
  step c socket_fails t = when (is_present t.ws) t (t, error_event ∷ [])
  step c (frame now f) t = when (is_present t.ws) t (on_message now f t)
  step c (old i e) t = on_old c e i (get_elem? t.replaced i) t
  step c (ping_timer_fires now) t = when t.ping_timer t (ping_fires c now t)
  step c (pong_timer_fires now) t = when (is_due now t.pong_timer) t (pong_check c now t)
  step c (reconnect_timer_fires made) t =
      when t.reconnect_timer t (connect_as c true made (record t { reconnect_timer = false }))

  unfoldable pub run : Config → List (Event M) → Transport M → Transport M × List (Effect M)
  unfolding step
  run c [] t = (t, [])
  run c (e ∷ es) t = let (t', xs) = step c e t in let (t'', ys) = run c es t' in (t'', xs ++ ys)

  abbrev pub initial : Transport M
  initial = record {
    ws = none;
    settled = false;
    retrying = false;
    ping_timer = false;
    pong_timer = none;
    reconnect_timer = false;
    attempts = 0;
    intentional_close = false;
    last_pong = 0;
    queue = [];
    connected = false;
    flushing = false;
    replaced = [];
  }
