-- ===== src/E2eRoom/Handshake.antt =====
-- Two rooms of e2e.room.ts that exchange keys: what each sends reaches the other, in order.
use peer_server.Prelude.{
  ℕ, ◌+◌, ◌*◌, ◌≤◌, ◌≡◌, ◌∙◌, refl, ap, sym, subst, arith, true, leb, some, max, List, [], ◌∷◌,
  ◌++◌, Text, get_elem?, length, length-append, if◌then◌else◌,
}
use peer_server.Dict
use peer_server.Dict.Laws.{has-eq-get, is_some}
use peer_server.Weights.{weigh}
use peer_server.E2eRoom.{
  is_ready, Wire, E2eRoom, new_room, begin, finish_open, has_encryption, wait,
}
use peer_server.E2eRoom.Steps.{open_call, initialised, run, job_ends, settle, on_job, step}
use peer_server.E2eRoom.Keys.{
  Act, deliver, settles, fires, meets, act, AllKeys, AllDeriving, offers, answers, one,
  AllKeys-append, offers-append, freight, freight-append,
}
use peer_server.E2eRoom.Sides.{Side, done, need, owes, begins, load, effort, Advance}
use peer_server.E2eRoom.Acts.{Adv, deliver-Advance, settled-Advance, fires-Advance, meets-Advance}

module _ {S K P X D : Type 0} (derive : S → P → K) (s : S) (fp : Text) (own theirs : P) where
  act-Advance :
      (a : Act) (r : E2eRoom K P X D) (ws : List (Wire P X D))
      → Side derive s fp own theirs r ws
      → Advance derive s fp own theirs (begins a, effort a r ws) r ws (act derive s fp a r ws)
  unfolding Adv
  act-Advance deliver r ws d = deliver-Advance derive s fp own theirs r ws d
  act-Advance (settles i) r ws d =
      unfold act step on_job in
      settled-Advance derive s fp own theirs i r ws (get_elem? r.jobs i) d refl
  act-Advance fires r ws d = fires-Advance derive s fp own theirs r ws d
  act-Advance meets r ws d = meets-Advance derive s fp own theirs r ws d

-- The two rooms, what is on the way to each, and whether each has been told that the other is there.
pub record Pair (K P X D : Type 0) : Type 0 where
  pub a : E2eRoom K P X D
  pub b : E2eRoom K P X D
  pub to_a : List (Wire P X D)
  pub to_b : List (Wire P X D)
  pub met_a : ℕ
  pub met_b : ℕ

pub data Move : Type 0 where
  by_a by_b : Act → Move

module _ {S K P X D : Type 0} (derive : S → P → K) (sa sb : S) (fa fb : Text) where
  unfoldable pub move : Move → Pair K P X D → Pair K P X D
  unfolding act
  move (by_a x) p =
      let (r, ws, out) = act derive sa fb x p.a p.to_a in
      record p { a = r; to_a = ws; to_b = p.to_b ++ out; met_a = max p.met_a (begins x) }
  move (by_b x) p =
      let (r, ws, out) = act derive sb fa x p.b p.to_b in
      record p { b = r; to_b = ws; to_a = p.to_a ++ out; met_b = max p.met_b (begins x) }

  unfoldable pub moves : List Move → Pair K P X D → Pair K P X D
  unfolding move
  moves [] p = p
  moves (m ∷ ms) p = moves ms (move m p)

  -- What holds of the two all along: each is sound, and one that has met the other is ready, or has
  -- something to come by which it gets ready, or the other one has an offer of it to answer.
  record Fine (pa pb : P) (p : Pair K P X D) : Type 0 where
    side_a : Side derive sa fb pa pb p.a p.to_a
    side_b : Side derive sb fa pb pa p.b p.to_b
    debt_a : (if leb 1 p.met_a then 1 else 0) ≤ done p.a + need p.a p.to_a + owes p.b p.to_b
    debt_b : (if leb 1 p.met_b then 1 else 0) ≤ done p.b + need p.b p.to_b + owes p.a p.to_a

module _ {S K P X D : Type 0} (derive : S → P → K) (s : S) (fp : Text) (own theirs : P) where
  -- More comes.
  Side-append :
      (r : E2eRoom K P X D) (ws vs : List (Wire P X D))
      → Side derive s fp own theirs r ws
      → AllKeys theirs vs
      → Side derive s fp own theirs r (ws ++ vs)
  Side-append r ws vs d a = record {
    is_open = d.is_open;
    attached = d.attached;
    keyed = d.keyed;
    mine = d.mine;
    comes = AllKeys-append theirs ws vs d.comes a;
    waits = d.waits;
    got = d.got;
  }

module _ {S K P X D : Type 0} (derive : S → P → K) (sa sb : S) (fa fb : Text) (pa pb : P) where
  move-Fine :
      (m : Move) (p : Pair K P X D)
      → Fine derive sa sb fa fb pa pb p
      → Fine derive sa sb fa fb pa pb (move derive sa sb fa fb m p)
  unfolding move
  move-Fine (by_a x) p f =
      let q = act derive sa fb x p.a p.to_a in
      let v = act-Advance derive sa fb pa pb x p.a p.to_a f.side_a in
      record {
        side_a = v.side;
        side_b = Side-append derive sb fa pb pa p.b p.to_b q.2 f.side_b v.sends;
        debt_a = ground (arith, f.debt_a, v.goes_on, v.started, offers-append p.to_b q.2);
        debt_b = omega (arith, f.debt_b, v.answered, length-append p.to_b q.2);
      }
  move-Fine (by_b x) p f =
      let q = act derive sb fa x p.b p.to_b in
      let v = act-Advance derive sb fa pb pa x p.b p.to_b f.side_b in
      record {
        side_b = v.side;
        side_a = Side-append derive sa fb pa pb p.a p.to_a q.2 f.side_a v.sends;
        debt_b = ground (arith, f.debt_b, v.goes_on, v.started, offers-append p.to_a q.2);
        debt_a = omega (arith, f.debt_a, v.answered, length-append p.to_a q.2);
      }

  moves-Fine :
      (ms : List Move) (p : Pair K P X D)
      → Fine derive sa sb fa fb pa pb p
      → Fine derive sa sb fa fb pa pb (moves derive sa sb fa fb ms p)
  unfolding moves
  moves-Fine [] p f = f
  moves-Fine (m ∷ ms) p f = moves-Fine ms _ (move-Fine m p f)

-- A room that has been created or joined.
unfoldable pub opened_room : {K P X D : Type 0} → P → E2eRoom K P X D
opened_room key = (run (open_call ∷ job_ends 0 initialised ∷ []) (new_room key)).0

unfoldable pub start : {K P X D : Type 0} → P → P → Pair K P X D
unfolding opened_room
start pa pb = record {
  a = opened_room pa;
  b = opened_room pb;
  to_a = [];
  to_b = [];
  met_a = 0;
  met_b = 0;
}

module _ {S K P X D : Type 0} (derive : S → P → K) (s : S) (fp : Text) (own theirs : P) where
  opened_room-Side : Side {X = X} {D = D} derive s fp own theirs (opened_room own) []
  unfolding opened_room run step begin wait settle finish_open new_room AllKeys AllDeriving
  opened_room-Side = record {
    is_open = refl;
    attached = refl;
    keyed = refl;
    mine = refl;
    comes = tt;
    waits = tt;
    got = λ y. ground (arith, y);
  }

  -- A room that is done has its key.
  done-encrypts :
      (r : E2eRoom K P X D) (ws : List (Wire P X D))
      → Side derive s fp own theirs r ws
      → is_ready r.phase ≡ true
      → has_encryption r ≡ true
  unfolding has_encryption
  done-encrypts r ws d e =
      let (here, key) = d.got e in
      let there : Dict.has r.remote_fingerprint r.keys ≡ true =
        ap (λ f. Dict.has f r.keys) here ∙ has-eq-get fp r.keys ∙ ap is_some key in
      ground (arith, e, there)

module _ {S K P X D : Type 0} (derive : S → P → K) (sa sb : S) (fa fb : Text) (pa pb : P) where
  start-Fine : Fine {X = X} {D = D} derive sa sb fa fb pa pb (start pa pb)
  unfolding start
  start-Fine = record {
    side_a = opened_room-Side derive sa fb pa pb;
    side_b = opened_room-Side derive sb fa pb pa;
    debt_a = omega arith;
    debt_b = omega arith;
  }

  -- Two rooms that have been opened exchange keys: whatever the order in which they learn of each
  -- other, messages come, derivations end and timers fire, where nothing is on the way, nothing
  -- waits and each has learnt of the other, both are ready and encrypt, with the same key, provided
  -- that the derivation gives both sides the same one, as Diffie-Hellman does.
  pub handshake_completes :
      derive sa pb ≡ derive sb pa
      → (ms : List Move) (p : Pair K P X D) → moves derive sa sb fa fb ms (start pa pb) ≡ p
      → p.to_a ≡ []
      → p.to_b ≡ []
      → p.a.jobs ≡ []
      → p.b.jobs ≡ []
      → p.met_a ≡ 1
      → p.met_b ≡ 1
      → (has_encryption p.a ≡ true)
        × (has_encryption p.b ≡ true)
        × (Dict.get fb p.a.keys ≡ Dict.get fa p.b.keys)
  handshake_completes agree ms p after none_a none_b idle_a idle_b met_a met_b =
      let f : Fine derive sa sb fa fb pa pb p =
        subst (λ x. Fine derive sa sb fa fb pa pb x) after
          (moves-Fine derive sa sb fa fb pa pb ms (start pa pb) start-Fine) in
      let offers_a : offers p.to_a ≡ 0 = ap offers none_a ∙ (unfold offers in refl) in
      let offers_b : offers p.to_b ≡ 0 = ap offers none_b ∙ (unfold offers in refl) in
      let jobs_a : weigh one p.a.jobs ≡ 0 = ap (weigh one) idle_a ∙ (unfold weigh in refl) in
      let jobs_b : weigh one p.b.jobs ≡ 0 = ap (weigh one) idle_b ∙ (unfold weigh in refl) in
      let answers_a : weigh answers p.a.jobs ≡ 0 =
        ap (weigh answers) idle_a ∙ (unfold weigh in refl) in
      let answers_b : weigh answers p.b.jobs ≡ 0 =
        ap (weigh answers) idle_b ∙ (unfold weigh in refl) in
      let ready_a : is_ready p.a.phase ≡ true =
        ground (arith, f.debt_a, ap length none_a, offers_b, jobs_a, answers_b, met_a) in
      let ready_b : is_ready p.b.phase ≡ true =
        ground (arith, f.debt_b, ap length none_b, offers_a, jobs_b, answers_a, met_b) in
      (
        done-encrypts derive sa fb pa pb p.a p.to_a f.side_a ready_a,
        done-encrypts derive sb fa pb pa p.b p.to_b f.side_b ready_b,
        (f.side_a.got ready_a).1 ∙ ap some agree ∙ sym (f.side_b.got ready_b).1,
      )

-- Whether a move delivers a message that is there or ends a job that is there.
unfoldable pub moved : {K P X D : Type 0} → Move → Pair K P X D → ℕ
moved (by_a x) p = effort x p.a p.to_a
moved (by_b x) p = effort x p.b p.to_b

-- How often a room is told that the other one is there.
unfoldable pub meetings : List Move → ℕ
meetings [] = 0
meetings (by_a x ∷ ms) = begins x + meetings ms
meetings (by_b x ∷ ms) = begins x + meetings ms

module _ {S K P X D : Type 0} (derive : S → P → K) (sa sb : S) (fa fb : Text) (pa pb : P) where
  unfoldable pub all_moved : List Move → Pair K P X D → ℕ
  unfolding moved
  all_moved [] p = 0
  all_moved (m ∷ ms) p = moved m p + all_moved ms (move derive sa sb fa fb m p)

  abbrev whole : Pair K P X D → ℕ
  whole p = load p.a p.to_a + load p.b p.to_b

  moves-spend :
      (ms : List Move) (p : Pair K P X D)
      → Fine derive sa sb fa fb pa pb p
      → all_moved ms p + whole (moves derive sa sb fa fb ms p) ≤ whole p + 4 * meetings ms
  unfolding all_moved moved moves meetings move
  moves-spend [] p f = omega arith
  moves-spend (by_a x ∷ ms) p f =
      let q = act derive sa fb x p.a p.to_a in
      let v = act-Advance derive sa fb pa pb x p.a p.to_a f.side_a in
      omega (
        arith,
        v.spends,
        freight-append p.to_b q.2,
        moves-spend ms (move derive sa sb fa fb (by_a x) p)
            (move-Fine derive sa sb fa fb pa pb (by_a x) p f),
      )
  moves-spend (by_b x ∷ ms) p f =
      let q = act derive sb fa x p.b p.to_b in
      let v = act-Advance derive sb fa pb pa x p.b p.to_b f.side_b in
      omega (
        arith,
        v.spends,
        freight-append p.to_a q.2,
        moves-spend ms (move derive sa sb fa fb (by_b x) p)
            (move-Fine derive sa sb fa fb pa pb (by_b x) p f),
      )

module _ (X D : Type 0) {S K P : Type 0} (derive : S → P → K) (sa sb : S) (fa fb : Text)
    (pa pb : P) where
  -- Two rooms that have been opened come to an end of their exchange: however the events interleave,
  -- they deliver messages and end derivations four times at most for each time that one of them is
  -- told that the other is there.
  pub handshake_ends :
      (ms : List Move)
      → all_moved derive sa sb fa fb pa pb ms (start {X = X} {D = D} pa pb) ≤ 4 * meetings ms
  unfolding start opened_room run step begin wait settle finish_open new_room freight weigh
  handshake_ends ms = omega (
    arith,
    moves-spend derive sa sb fa fb pa pb ms (start {X = X} {D = D} pa pb)
        (start-Fine derive sa sb fa fb pa pb),
  )
