-- ===== src/Tests/Sockets.antt =====
-- The transport of transport.ts with two messages that are sent before the socket opens.
use peer_server.Prelude.{ℕ, ◌≡◌, ◌≤◌, refl, arith, true, some, List, [], ◌∷◌, ◌++◌, length}
use peer_server.Transport.{
  step, connect_as, left_over, send, on_open, handle_open, start_ping, stop_ping, flush_queue,
  flush_loop, on_close, handle_close, cleanup, maybe_reconnect, schedule_reconnect, on_old,
  on_message, old, brings, content, opened, resolved, message, close_call, ping_timer_fires,
  ping_fires, send_raw, open_, Config, Transport, socket_close, queue_max, initial, run, close,
  Event, send_call, connect_call, socket_opens, socket_closes, pong_timer_fires,
  reconnect_timer_fires,
}
use peer_server.Transport.Flushing.{wired}
use peer_server.Transport.Queue.{IsQueueing, all_accepted, run_fifo}
use peer_server.Transport.Reconnect.{AllPolite, run_polite}
use peer_server.Transport.Shutdown.{IsQuiet, close_final}

abbrev config : Config
config = record {
  auto_reconnect = true;
  reconnect_delay = 1000;
  reconnect_max_delay = 30000;
  max_attempts = some 3;
  ping_interval = 25000;
}

abbrev story : List (Event ℕ)
story =
    connect_call true
    ∷ send_call 7
    ∷ send_call 8
    ∷ socket_opens 5
    ∷ socket_closes
    ∷ reconnect_timer_fires true
    ∷ send_call 9
    ∷ []

initial-IsQueueing : IsQueueing (initial {M = ℕ})
initial-IsQueueing = record { bounded = omega arith; idle = refl; drained = λ h. refl }

run_fifo_example :
    (wired (run config story initial).1 ++ (run config story initial).0.queue
      ≡ all_accepted config story initial)
    × (length (run config story initial).0.queue ≤ queue_max)
run_fifo_example =
    run_fifo config story initial (tt, (tt, (tt, (tt, (tt, (tt, (tt, tt))))))) initial-IsQueueing

run_polite_example : AllPolite config (run config story initial).1
run_polite_example = run_polite config story initial (omega arith)

abbrev late_events : List (Event ℕ)
late_events = socket_closes ∷ reconnect_timer_fires true ∷ send_call 3 ∷ []

close_final_example :
    IsQuiet (run config late_events (close (run config story initial).0).0).0
    × ((run config late_events (close (run config story initial).0).0).1 ≡ [])
unfolding run step connect_as left_over send on_open handle_open start_ping flush_queue flush_loop
    on_close handle_close cleanup maybe_reconnect schedule_reconnect
close_final_example =
    close_final config late_events (run config story initial).0 refl (tt, (tt, (tt, tt)))

-- A second `connect` leaves the first socket with its handlers, which `close` does not take off.
abbrev twice : List (Event ℕ)
twice = connect_call true ∷ socket_opens 5 ∷ connect_call true ∷ close_call ∷ []

still_heard :
    (run config (twice ++ old 0 (brings 6 (content 4)) ∷ []) initial).1
    ≡ opened ∷ resolved ∷ socket_close ∷ message 4 ∷ []
unfolding run step connect_as left_over on_open handle_open start_ping stop_ping flush_queue
    flush_loop close cleanup on_old on_message
still_heard = refl

-- A connection that never answers: each ping moves the check two and a half intervals on, so the
-- next ping comes before it is due.
abbrev silence : List (Event ℕ)
silence =
    ping_timer_fires 25000
    ∷ pong_timer_fires 50000
    ∷ ping_timer_fires 50000
    ∷ pong_timer_fires 75000
    ∷ ping_timer_fires 75000
    ∷ pong_timer_fires 100000
    ∷ ping_timer_fires 100000
    ∷ []

abbrev silent : Transport ℕ
silent = record initial { ws = some open_; settled = true; connected = true; ping_timer = true }

still_open : (run config silence silent).0.ws ≡ some open_
unfolding run step ping_fires send_raw
still_open = refl
