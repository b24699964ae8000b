-- ===== src/Transport/Shutdown.antt =====
-- `close` (transport.ts): a closed transport does nothing until it is told to connect again, if no
-- socket was replaced while it was in use.
use peer_server.Prelude.{
  subst, sym, get_elem?, ◌≡◌, ◌∙◌, refl, ap, false, none, List, [], ◌∷◌, ◌++◌, arith,
}
use peer_server.Transport.{
  Config, Transport, send, cleanup, close, clear_queue, Event, connect_call, send_call, close_call,
  clear_call, socket_opens, socket_closing, socket_closes, socket_fails, on_old, old, frame,
  ping_timer_fires, pong_timer_fires, reconnect_timer_fires, step, run,
}

module _ {M : Type 0} where
  -- No socket, none that was replaced, and no timer.
  pub record IsQuiet (t : Transport M) : Type 0 where
    pub no_socket : t.ws ≡ none
    pub none_replaced : t.replaced ≡ []
    pub no_ping : t.ping_timer ≡ false
    pub no_pong : t.pong_timer ≡ none
    pub no_reconnect : t.reconnect_timer ≡ false

  -- Any event but a call of `connect`.
  abbrev pub IsPassive : Event M → Type 0
  IsPassive (connect_call made) = ⊥
  IsPassive _ = Unit

  abbrev pub AllPassive : List (Event M) → Type 0
  AllPassive [] = Unit
  AllPassive (e ∷ es) = IsPassive e × AllPassive es

  close-IsQuiet : (t : Transport M) → t.replaced ≡ [] → IsQuiet (close t).0
  unfolding close cleanup
  close-IsQuiet t n = record {
    none_replaced = n;
    no_socket = refl;
    no_ping = refl;
    no_pong = refl;
    no_reconnect = refl;
  }

  IsQuiet-step :
      (c : Config) (e : Event M) (t : Transport M)
      → IsPassive e
      → IsQuiet t
      → IsQuiet (step c e t).0 × ((step c e t).1 ≡ [])
  unfolding step
  IsQuiet-step c (connect_call made) t p q = elim p [ ]
  IsQuiet-step c (send_call m) t p q = unfold send in ground arith
  IsQuiet-step c close_call t p q = unfold close cleanup in ground arith
  IsQuiet-step c clear_call t p q = unfold clear_queue in ground arith
  IsQuiet-step c (socket_opens now) t p q = ground arith
  IsQuiet-step c socket_closing t p q = ground arith
  IsQuiet-step c socket_fails t p q = ground arith
  IsQuiet-step c (old i e) t p q =
      subst (λ o. IsQuiet (on_old c e i o t).0 × ((on_old c e i o t).1 ≡ []))
        (sym (ap (λ os. get_elem? os i) q.none_replaced)) (unfold on_old in (q, refl))
  IsQuiet-step c socket_closes t p q = ground arith
  IsQuiet-step c (frame now f) t p q = ground arith
  IsQuiet-step c (ping_timer_fires now) t p q = ground arith
  IsQuiet-step c (pong_timer_fires now) t p q = ground arith
  IsQuiet-step c (reconnect_timer_fires made) t p q = ground arith

  IsQuiet-run :
      (c : Config) (es : List (Event M)) (t : Transport M)
      → AllPassive es
      → IsQuiet t
      → IsQuiet (run c es t).0 × ((run c es t).1 ≡ [])
  unfolding run
  IsQuiet-run c [] t p q = (q, refl)
  IsQuiet-run c (e ∷ es) t (p, ps) q =
      let (q', none_now) = IsQuiet-step c e t p q in
      let (q'', none_later) = IsQuiet-run c es (step c e t).0 ps q' in
      (q'', ap (λ xs. xs ++ (run c es (step c e t).0).1) none_now ∙ none_later)

  -- From a state in which no live socket was replaced by a second `connect`: after `close`, whatever
  -- else happens short of a new call of `connect`, the transport sends nothing, reports nothing and
  -- starts no reconnection, and has no socket and no timer.
  pub close_final :
      (c : Config) (es : List (Event M)) (t : Transport M)
      → t.replaced ≡ []
      → AllPassive es
      → IsQuiet (run c es (close t).0).0 × ((run c es (close t).0).1 ≡ [])
  close_final c es t n p = IsQuiet-run c es (close t).0 p (close-IsQuiet t n)
