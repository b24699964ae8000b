-- ===== src/Client/Settling.antt =====
-- That every promise of a PeerClient (client.ts) waits until it is settled, and is settled once.
use peer_server.Prelude.{
  ltb, length, ℕ, suc, ◌+◌, ◌≤◌, ◌≡◌, refl, sym, ap, ◌∙◌, subst, inl, inr, Bool, true, false, ◌==◌,
  Option, none, some, List, [], ◌∷◌, ◌++◌, Text, text_eq_refl, arith, Bool-cases, if◌then◌else◌,
}
use peer_server.Dict
use peer_server.Dict.{Dict}
use peer_server.Dict.Laws.{Distinct, remove-Distinct, put-Distinct, has-remove}
use peer_server.Client.{Kind, Request, Books, PeerClient, Verdict, hear, Sent, Effect, sent}
use peer_server.Client.Calls.{
  ask, cancel_match, find_match, finish_register, do_register, on_keys, reject_register,
  reject_match, timed_out,
}
use peer_server.Client.Peers.{shut_made, shut_peer, drop_peer}
use peer_server.Client.Messages.{}
use peer_server.Client.Counting.{
  hits, count_requests, count_matches, count_register, count_match, waiting, fresh, settled,
  settled-append, count_requests-append, count_matches-remove, count_matches-put, hear_all-count,
}

-- What one event, or a run, does to the promise `id`: it is settled or it waits, as often as it
-- waited before or was made.
pub record Balanced {D : Type 0} (id : ℕ) (c : PeerClient) (r : PeerClient × List (Effect D))
    : Type 0 where
  pub balance : settled id r.1 + waiting id r.0 ≡ waiting id c + fresh id c.next_id r.0.next_id
  pub grows : c.next_id ≤ r.0.next_id
  pub tidy : Distinct r.0.matches

-- What the counting looks at is the same.
pub record Same (c c' : PeerClient) : Type 0 where
  pub requests : c'.requests ≡ c.requests
  pub matches : c'.matches ≡ c.matches
  pub register : c'.register ≡ c.register
  pub next_id : c'.next_id ≡ c.next_id

Same-waiting : (id : ℕ) (c c' : PeerClient) → Same c c' → waiting id c' ≡ waiting id c
Same-waiting id c c' s = omega (
  arith,
  ap (count_requests id) s.requests,
  ap (count_matches id) s.matches,
  ap (count_register id) s.register,
)

pub Same-trans : (c c' c'' : PeerClient) → Same c c' → Same c' c'' → Same c c''
Same-trans c c' c'' s t = record {
  requests = t.requests ∙ s.requests;
  matches = t.matches ∙ s.matches;
  register = t.register ∙ s.register;
  next_id = t.next_id ∙ s.next_id;
}

pub Same-refl : (c : PeerClient) → Same c c
Same-refl c = record { requests = refl; matches = refl; register = refl; next_id = refl }

pub drop_peer-Same : (fp : Text) (c : PeerClient) → Same c (drop_peer fp c)
unfolding drop_peer
drop_peer-Same fp c = record { requests = refl; matches = refl; register = refl; next_id = refl }

pub shut_peer-Same : (o : ℕ) (c : PeerClient) → Same c (shut_peer o c)
unfolding shut_peer
shut_peer-Same o c = record { requests = refl; matches = refl; register = refl; next_id = refl }

pub shut_made-Same : (o : ℕ) (c : PeerClient) → Same c (shut_made o c)
unfolding shut_made
shut_made-Same o c =
    elim (ltb o (length c.made)) as (λ b. Same c (if b then shut_peer o c else c)) [
      | true ↦ shut_peer-Same o c
      | false ↦ Same-refl c
    ]

hit : (y x id : ℕ) → (y == x) ≡ true → hits id x ≡ hits id y
hit y x id e = ground arith

pub fresh_none : (id n : ℕ) → fresh id n n ≡ 0
fresh_none id n = ground arith

fresh_one : (id n : ℕ) → fresh id n (suc n) ≡ hits id n
fresh_one id n = ground arith

fresh-add : (id n m k : ℕ) → n ≤ m → m ≤ k → fresh id n k ≡ fresh id n m + fresh id m k
fresh-add id n m k h g = ground arith

settled_match :
    (D : Type 0) (id : ℕ) (o : Option ℕ) → settled {D = D} id (reject_match o) ≡ count_match id o
unfolding settled
settled_match D id none = refl
settled_match D id (some x) = omega arith

pub settled_register :
    (D : Type 0) (id : ℕ) (o : Option (ℕ × Bool))
    → settled {D = D} id (reject_register o) ≡ count_register id o
unfolding settled
settled_register D id none = refl
settled_register D id (some (x, again)) = omega arith

module _ {D : Type 0} where
  pub Same-Balanced :
      (id : ℕ) (c c' : PeerClient) (es : List (Effect D))
      → Distinct c.matches
      → Same c c'
      → settled id es ≡ 0
      → Balanced id c (c', es)
  Same-Balanced id c c' es t s z = record {
    balance = omega (
      arith,
      z,
      Same-waiting id c c' s,
      fresh_none id c.next_id,
      ap (λ n. fresh id c.next_id n) s.next_id,
    );
    grows = omega (arith, s.next_id);
    tidy = subst (λ d. Distinct d) (sym s.matches) t;
  }

  pub ask-Balanced :
      (id : ℕ) (k : Kind) (name : Text) (m : Sent D) (b : Books) (c : PeerClient)
      → Distinct c.matches
      → Balanced id c (ask k name m b c)
  unfolding ask settled count_requests
  ask-Balanced id k name m b c t = record {
    balance = omega (
      arith,
      count_requests-append id c.requests (record { id = c.next_id; kind = k; name = name } ∷ []),
      fresh_one id c.next_id,
    );
    grows = omega arith;
    tidy = t;
  }

  pub hear-Balanced :
      (id : ℕ) (f : Request → Books → Verdict × Books) (c : PeerClient)
      → Distinct c.matches
      → Balanced {D = D} id c (hear f c)
  unfolding hear
  hear-Balanced id f c t = record {
    balance = omega (arith, hear_all-count D id f c.requests c.books, fresh_none id c.next_id);
    grows = omega arith;
    tidy = t;
  }

  pub cancel_match-Balanced :
      (id : ℕ) (ns : Text) (c : PeerClient)
      → Distinct c.matches
      → Balanced {D = D} id c (cancel_match ns c)
  unfolding cancel_match
  cancel_match-Balanced id ns c t = record {
    balance = omega (
      arith,
      settled_match D id (Dict.get ns c.matches),
      count_matches-remove id ns c.matches t,
      fresh_none id c.next_id,
    );
    grows = omega arith;
    tidy = remove-Distinct ns c.matches t;
  }

  pub find_match-Balanced :
      (id : ℕ) (ns : Text) (c : PeerClient)
      → Distinct c.matches
      → Balanced {D = D} id c (find_match ns c)
  unfolding find_match cancel_match settled
  find_match-Balanced id ns c t =
      let gone : Dict.has ns (Dict.remove ns c.matches) ≡ false =
        has-remove ns ns c.matches ∙ rw (text_eq_refl ns) in
      record {
        balance = omega (
          arith,
          settled-append id (reject_match {D = D} (Dict.get ns c.matches))
              (sent (Sent.send_match ns) ∷ []),
          settled_match D id (Dict.get ns c.matches),
          count_matches-remove id ns c.matches t,
          count_matches-put id ns c.next_id (Dict.remove ns c.matches) gone,
          fresh_one id c.next_id,
        );
        grows = omega arith;
        tidy = put-Distinct ns c.next_id _ (remove-Distinct ns c.matches t);
      }

  pub timed_out-Balanced :
      (id : ℕ) (ns : Text) (x : ℕ) (o : Option ℕ) (c : PeerClient)
      → Distinct c.matches
      → Dict.get ns c.matches ≡ o
      → Balanced {D = D} id c (timed_out ns x o c)
  timed_out-Balanced id ns x none c t e =
      Same-Balanced id c c [] t (Same-refl c) (unfold settled in refl)
  timed_out-Balanced id ns x (some y) c t e = elim (Bool-cases (y == x)) [
    | inl same ↦ rw same (record {
      balance =
          unfold settled in
          omega (
            arith,
            count_matches-remove id ns c.matches t,
            ap (count_match id) e,
            hit y x id same,
            fresh_none id c.next_id,
          );
      grows = omega arith;
      tidy = remove-Distinct ns c.matches t;
    })
    | inr other ↦ rw other (Same-Balanced id c c [] t (Same-refl c) (unfold settled in refl))
  ]

  pub either_Balanced :
      (id : ℕ) (c : PeerClient) (b : Bool) (x y : PeerClient × List (Effect D))
      → Balanced id c x
      → Balanced id c y
      → Balanced id c (if b then x else y)
  either_Balanced id c true x y p q = p
  either_Balanced id c false x y p q = q

  -- The register promise that was there is rejected.
  pub drop_register-Balanced :
      (id : ℕ) (c : PeerClient)
      → Distinct c.matches
      → Balanced {D = D} id c (record c { register = none }, reject_register c.register)
  drop_register-Balanced id c t = record {
    balance = omega (arith, settled_register D id c.register, fresh_none id c.next_id);
    grows = omega arith;
    tidy = t;
  }

  finish_register-Balanced :
      (id : ℕ) (again : Bool) (c : PeerClient)
      → Distinct c.matches
      → c.register ≡ none
      → Balanced {D = D} id c (finish_register again c)
  unfolding finish_register settled
  finish_register-Balanced id again c t none_yet = record {
    balance = omega (arith, ap (count_register id) none_yet, fresh_one id c.next_id);
    grows = omega arith;
    tidy = t;
  }

  -- One thing after another.
  pub Balanced-trans :
      (id : ℕ) (c c1 c2 : PeerClient) (es fs : List (Effect D))
      → Balanced id c (c1, es)
      → Balanced id c1 (c2, fs)
      → Balanced id c (c2, es ++ fs)
  Balanced-trans id c c1 c2 es fs p q = record {
    balance = omega (
      arith,
      settled-append id es fs,
      p.balance,
      q.balance,
      fresh-add id c.next_id c1.next_id c2.next_id p.grows q.grows,
    );
    grows = omega (arith, p.grows, q.grows);
    tidy = q.tidy;
  }

  pub do_register-Balanced :
      (id : ℕ) (again : Bool) (c : PeerClient)
      → Distinct c.matches
      → Balanced {D = D} id c (do_register again c)
  unfolding do_register
  do_register-Balanced id again c t =
      let c1 : PeerClient = record c { register = none } in
      either_Balanced id c c.has_keys _ _
        (Balanced-trans id c c1 _ (reject_register c.register) (finish_register again c1).1
          (drop_register-Balanced id c t) (finish_register-Balanced id again c1 t refl))
        (drop_register-Balanced id c t)

  pub on_keys-Balanced :
      (id : ℕ) (again : Bool) (saved : Option Text) (c : PeerClient)
      → Distinct c.matches
      → c.register ≡ none
      → Balanced {D = D} id c (on_keys again saved c)
  unfolding on_keys finish_register settled
  on_keys-Balanced id again saved c t none_yet = record {
    balance = omega (arith, ap (count_register id) none_yet, fresh_one id c.next_id);
    grows = omega arith;
    tidy = t;
  }
