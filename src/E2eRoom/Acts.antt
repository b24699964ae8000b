-- ===== src/E2eRoom/Acts.antt =====
-- What one act of a room of e2e.room.ts comes to while it exchanges keys with another.
use peer_server.Prelude.{
  ℕ, ◌+◌, ◌≤◌, ◌≡◌, refl, ap, sym, subst, arith, Bool, true, false, leb, ◌&&◌, Option, none, some,
  List, [], ◌∷◌, Text, get_elem?, if◌then◌else◌,
}
use peer_server.Dict
use peer_server.Weights.{weigh, weight_of, weigh-without}
use peer_server.E2eRoom.{
  ready, exchanging, is_exchanging, Wire, key_offer, key_ack, encrypted, plain, raw, Job, opening,
  deriving_offer, deriving_ack, encrypting, decrypting, E2eRoom, Effect, wait, start_key_exchange,
  on_exchange_timeout, handle_key_exchange, store_key, become_ready, finish_offer, finish_ack,
}
use peer_server.E2eRoom.Steps.{
  handle_data, without_job, settle, end_of, on_peer_connected, heard, step,
}
use peer_server.E2eRoom.Keys.{
  outgoing, deliver, fires, meets, result, act, IsKey, AllKeys, IsDeriving, AllDeriving, offers,
  answers, one, AllDeriving-get, AllDeriving-without, freight, labour,
}
use peer_server.E2eRoom.Sides.{
  Side, done, need, owes, load, present, effort, Advance, not_both, key_there, outgoing-errors,
  outgoing-ready, outgoing-start,
}

module _ {S K P X D : Type 0} (derive : S → P → K) (s : S) (fp : Text) (own theirs : P) where
  pub still :
      (r : E2eRoom K P X D) (ws : List (Wire P X D))
      → Side derive s fp own theirs r ws
      → Advance derive s fp own theirs (0, 0) r ws (r, ws, [])
  unfolding AllKeys offers freight
  still r ws d = record {
    side = d;
    sends = tt;
    goes_on = ground arith;
    started = omega arith;
    answered = omega arith;
    spends = omega arith;
  }

  -- What a room sends on an event, next to what is on the way to it.
  abbrev pub emerge :
      List (Wire P X D)
      → E2eRoom K P X D × List (Effect P X D)
      → E2eRoom K P X D × List (Wire P X D) × List (Wire P X D)
  emerge ws q = (q.0, ws, outgoing q.1)

  unfoldable pub Adv :
      ℕ × ℕ
      → E2eRoom K P X D
      → List (Wire P X D)
      → E2eRoom K P X D × List (Wire P X D) × List (Wire P X D)
      → Type 0
  Adv c r ws q = Advance derive s fp own theirs c r ws q

  pub branch :
      (c : ℕ × ℕ) (r : E2eRoom K P X D) (ws vs : List (Wire P X D)) (b : Bool)
      (x y : E2eRoom K P X D × List (Effect P X D))
      → (b ≡ true → Adv c r ws (emerge vs x))
      → (b ≡ false → Adv c r ws (emerge vs y))
      → Adv c r ws (emerge vs (if b then x else y))
  branch c r ws vs true x y f g = f refl
  branch c r ws vs false x y f g = g refl

  pub first :
      (c : ℕ × ℕ) (r : E2eRoom K P X D) (ws vs : List (Wire P X D)) (b : Bool)
      (x y : E2eRoom K P X D × List (Effect P X D))
      → b ≡ true
      → Adv c r ws (emerge vs x)
      → Adv c r ws (emerge vs (if b then x else y))
  first c r ws vs true x y e a = a
  first c r ws vs false x y e a = ground (arith, e)

  pub second :
      (c : ℕ × ℕ) (r : E2eRoom K P X D) (ws vs : List (Wire P X D)) (b : Bool)
      (x y : E2eRoom K P X D × List (Effect P X D))
      → b ≡ false
      → Adv c r ws (emerge vs y)
      → Adv c r ws (emerge vs (if b then x else y))
  second c r ws vs false x y e a = a
  second c r ws vs true x y e a = ground (arith, e)

  -- An act that sends nothing.
  pub silent :
      (e : ℕ) (r r' : E2eRoom K P X D) (ws vs out : List (Wire P X D))
      → Side derive s fp own theirs r' vs
      → out ≡ []
      → (if leb 1 (done r + need r ws) then 1 else 0) ≤ done r' + need r' vs
      → owes r ws ≤ owes r' vs
      → e + load r' vs ≤ load r ws
      → Adv (0, e) r ws (r', vs, out)
  unfolding Adv AllKeys offers freight
  silent n r r' ws vs out d e h k l =
      subst (λ o. Adv (0, n) r ws (r', vs, o)) (sym e)
        (record {
          side = d;
          sends = tt;
          goes_on = omega (arith, h);
          started = omega arith;
          answered = omega (arith, k);
          spends = omega (arith, l);
        })

  pub fires-Advance :
      (r : E2eRoom K P X D) (ws : List (Wire P X D))
      → Side derive s fp own theirs r ws
      → Adv (0, 0) r ws (act derive s fp fires r ws)
  unfolding act step on_exchange_timeout
  fires-Advance r ws d =
      branch (0, 0) r ws ws r.exchange_timer _ (r, [])
        (λ e.
          branch (0, 0) r ws ws (is_exchanging r.phase) _ _
            (λ x.
              let unready = not_both r.phase x in
              silent 0 r _ ws ws _
                (record {
                  is_open = d.is_open;
                  attached = d.attached;
                  keyed = d.keyed;
                  mine = d.mine;
                  comes = d.comes;
                  waits = d.waits;
                  got = λ y. ground (arith, y);
                })
                (outgoing-errors P X D r.closed) (ground (arith, unready)) (omega arith)
                (omega arith))
            (λ x.
              silent 0 r _ ws ws _
                (record {
                  is_open = d.is_open;
                  attached = d.attached;
                  keyed = d.keyed;
                  mine = d.mine;
                  comes = d.comes;
                  waits = d.waits;
                  got = d.got;
                })
                (unfold outgoing in refl) (ground arith) (omega arith) (omega arith)))
        (λ e.
          silent 0 r r ws ws _ d (unfold outgoing in refl) (ground arith) (omega arith)
            (omega arith))

  -- A key comes, and its derivation begins.
  pub derives :
      (r : E2eRoom K P X D) (w : Wire P X D) (ws : List (Wire P X D)) (j : Job P X D)
      → Side derive s fp own theirs r (w ∷ ws)
      → IsDeriving fp theirs j
      → offers (w ∷ ws) ≡ answers j + offers ws
      → freight (w ∷ ws) ≡ 1 + labour j + freight ws
      → Adv (0, 1) r (w ∷ ws) (emerge ws (heard r (handle_key_exchange j r)))
  unfolding handle_key_exchange wait outgoing weigh one AllKeys AllDeriving
  derives r w ws j d h o l =
      first (0, 1) r (w ∷ ws) ws r.has_room _ _ d.attached
        (second (0, 1) r (w ∷ ws) ws r.closed _ _ d.is_open
          (silent 1 r _ (w ∷ ws) ws []
            (record {
              is_open = d.is_open;
              attached = d.attached;
              keyed = d.keyed;
              mine = d.mine;
              comes = d.comes.1;
              waits = (h, d.waits);
              got = d.got;
            })
            refl (ground arith) (omega (arith, o)) (omega (arith, l))))

  pub deliver-Advance :
      (r : E2eRoom K P X D) (ws : List (Wire P X D))
      → Side derive s fp own theirs r ws
      → Adv (0, effort deliver r ws) r ws (act derive s fp deliver r ws)
  unfolding Adv act step handle_data AllKeys IsKey IsDeriving offers answers freight labour
  deliver-Advance r [] d = still r [] d
  deliver-Advance r (key_offer k ∷ ws) d =
      derives r (key_offer k) ws (deriving_offer fp k) d (refl, d.comes.0) (omega arith)
        (omega arith)
  deliver-Advance r (key_ack k ∷ ws) d =
      derives r (key_ack k) ws (deriving_ack fp k) d (refl, d.comes.0) (omega arith) (omega arith)
  deliver-Advance r (encrypted x ∷ ws) d = absurd d.comes.0
  deliver-Advance r (plain x ∷ ws) d = absurd d.comes.0
  deliver-Advance r (raw x ∷ ws) d = absurd d.comes.0

  pub settled-Advance :
      (i : ℕ) (r : E2eRoom K P X D) (ws : List (Wire P X D)) (o : Option (Job P X D))
      → Side derive s fp own theirs r ws
      → get_elem? r.jobs i ≡ o
      → Adv (0, present o) r ws (emerge ws (end_of o i (result derive s o) r))
  unfolding Adv settle result outgoing IsKey IsDeriving AllKeys offers answers finish_offer
      finish_ack store_key become_ready one freight labour
  settled-Advance i r ws none d e = still r ws d
  settled-Advance i r ws (some (deriving_offer from k)) d e =
      let (same, key) = AllDeriving-get fp theirs r.jobs i _ d.waits e in
      let before = weigh-without answers i r.jobs in
      let here = ap (weight_of answers) e in
      let labours = weigh-without labour i r.jobs in
      let its = ap (weight_of labour) e in
      let r1 : E2eRoom K P X D = record (without_job i r) {
        keys = Dict.put from (derive s k) r.keys;
        exchange_timer = false;
        remote_fingerprint = from;
        phase = ready;
      } in
      first (0, 1) r ws ws r.has_room _ _ d.attached
        (subst (λ o. Adv (0, 1) r ws (r1, ws, key_ack r.public_key ∷ o))
          (sym (outgoing-ready P X D r.phase r.closed from))
          (record {
            side = record {
              is_open = d.is_open;
              attached = d.attached;
              keyed = d.keyed;
              mine = d.mine;
              comes = d.comes;
              waits = AllDeriving-without fp theirs r.jobs i d.waits;
              got = λ y. (same, key_there derive s fp from theirs k r.keys same key);
            };
            sends = (d.mine, tt);
            goes_on = ground arith;
            started = omega arith;
            answered = omega (arith, before, here);
            spends = omega (arith, labours, its);
          }))
  settled-Advance i r ws (some (deriving_ack from k)) d e =
      let (same, key) = AllDeriving-get fp theirs r.jobs i _ d.waits e in
      let before = weigh-without answers i r.jobs in
      let here = ap (weight_of answers) e in
      let labours = weigh-without labour i r.jobs in
      let its = ap (weight_of labour) e in
      silent 1 r _ ws ws _
        (record {
          is_open = d.is_open;
          attached = d.attached;
          keyed = d.keyed;
          mine = d.mine;
          comes = d.comes;
          waits = AllDeriving-without fp theirs r.jobs i d.waits;
          got = λ y. (same, key_there derive s fp from theirs k r.keys same key);
        })
        (outgoing-ready P X D r.phase r.closed from) (ground arith) (omega (arith, before, here))
        (omega (arith, labours, its))
  settled-Advance i r ws (some opening) d e =
      absurd (AllDeriving-get fp theirs r.jobs i _ d.waits e)
  settled-Advance i r ws (some (encrypting x)) d e =
      absurd (AllDeriving-get fp theirs r.jobs i _ d.waits e)
  settled-Advance i r ws (some (decrypting from x)) d e =
      absurd (AllDeriving-get fp theirs r.jobs i _ d.waits e)

  pub meets-Advance :
      (r : E2eRoom K P X D) (ws : List (Wire P X D))
      → Side derive s fp own theirs r ws
      → Adv (1, 0) r ws (act derive s fp meets r ws)
  unfolding Adv act step on_peer_connected start_key_exchange AllKeys IsKey offers freight
  meets-Advance r ws d =
      let r1 : E2eRoom K P X D = record r {
        remote_fingerprint = fp;
        phase = exchanging;
        exchange_timer = true;
      } in
      first (1, 0) r ws ws r.has_room _ _ d.attached
        (second (1, 0) r ws ws r.closed _ _ d.is_open
          (first (1, 0) r ws ws (r.initialized && r.has_room) _ _
            (ground (arith, d.keyed, d.attached))
            (subst (λ o. Adv (1, 0) r ws (r1, ws, o))
              (sym (outgoing-start P X D r.phase r.closed r.public_key))
              (record {
                side = record {
                  is_open = d.is_open;
                  attached = d.attached;
                  keyed = d.keyed;
                  mine = d.mine;
                  comes = d.comes;
                  waits = d.waits;
                  got = λ y. ground (arith, y);
                };
                sends = (d.mine, tt);
                goes_on = ground arith;
                started = omega arith;
                answered = omega arith;
                spends = omega arith;
              }))))
