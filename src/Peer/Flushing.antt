-- ===== src/Peer/Flushing.antt =====
-- The candidates of a peer (peer.ts), counted, and what a job does to them.
use peer_server.Prelude.{
  ℕ, ◌+◌, ◌≤◌, ◌≡◌, refl, ap, arith, Bool, true, false, not, ◌||◌, Option, none, some, List, [],
  ◌∷◌, ◌++◌, if◌then◌else◌,
}
use peer_server.Peer.{
  Signaling, is_stable, is_closed_state, Job, needed, needed_local, offering, offering_local,
  remote_offer, flushing_offer, answering, answering_local, remote_answer, flushing_answer, adding,
  restarting, restarting_local, Peer, candidate, Effect, add_candidate, failed, emit, wait,
}
use peer_server.Peer.Jobs.{
  on_offer, on_answer, on_candidate, flush_offer, flush_answer, fulfil, reject,
}
use peer_server.Peer.Steps.{Event, signal, step}
use peer_server.Weights.{weigh}

module _ {C : Type 0} (is : C → Bool) where
  unfoldable pub count : List C → ℕ
  count [] = 0
  count (c ∷ cs) = (if is c then 1 else 0) + count cs

  count-append : (cs ds : List C) → count (cs ++ ds) ≡ count cs + count ds
  unfolding count
  count-append [] ds = omega arith
  count-append (c ∷ cs) ds = omega (arith, count-append cs ds)

-- Whether a job is in flushCandidates.
unfoldable pub is_flush : {S C : Type 0} → Job S C → ℕ
is_flush (flushing_offer cs) = 1
is_flush (flushing_answer cs) = 1
is_flush _ = 0

module _ {S C : Type 0} (is : C → Bool) where
  -- What a job has still to add.
  unfoldable pub left : Job S C → ℕ
  unfolding count
  left (flushing_offer cs) = count is cs
  left (flushing_answer cs) = count is cs
  left _ = 0

  -- The candidates that are kept to be added.
  unfoldable pub held : Peer S C → ℕ
  unfolding count left
  held p = if p.remote_desc_set then weigh left p.jobs else count is p.pending

module _ {S C D : Type 0} (is : C → Bool) where
  -- The candidates given to the connection.
  unfoldable pub added : List (Effect S C D) → ℕ
  added [] = 0
  added (add_candidate c ∷ es) = (if is c then 1 else 0) + added es
  added (_ ∷ es) = added es

  -- A candidate that comes to a peer that is not closed.
  unfoldable pub received : Event S C D → Peer S C → ℕ
  received (signal now (candidate (some c))) p = if p.closed then 0 else (if is c then 1 else 0)
  received _ p = 0

  unfoldable pub all_received : List (Event S C D) → Peer S C → ℕ
  unfolding received
  all_received [] p = 0
  all_received (e ∷ es) p = received e p + all_received es (step e p).0

  pub added-append : (es fs : List (Effect S C D)) → added (es ++ fs) ≡ added es + added fs
  unfolding added
  added-append [] fs = omega arith
  added-append (add_candidate c ∷ es) fs = omega (arith, added-append es fs)
  added-append (_ ∷ es) fs = added-append es fs

-- The peer has started no flush before it has a remote description.
abbrev pub early : {S C : Type 0} → Peer S C → ℕ
early p = if p.remote_desc_set then 0 else weigh is_flush p.jobs

module _ {S C D : Type 0} (is : C → Bool) where
  pub record Kept (r : ℕ) (p : Peer S C) (q : Peer S C × List (Effect S C D)) : Type 0 where
    pub total : r + held is p ≤ added is q.1 + held is q.0
    pub in_time : early q.0 ≡ 0
    pub none_early : (if q.0.remote_desc_set then 0 else added is q.1) ≡ 0
    pub stays : (if p.remote_desc_set then 1 else 0) ≤ (if q.0.remote_desc_set then 1 else 0)

  pub on_offer-Kept :
      (now : Signaling) (sdp : S) (p : Peer S C) → early p ≡ 0 → Kept 0 p (on_offer now sdp p)
  unfolding on_offer wait added held weigh left is_flush
  on_offer-Kept now sdp p t = record {
    total = ground arith;
    in_time = ground (arith, t);
    none_early = ground arith;
    stays = ground arith;
  }

  pub on_answer-Kept :
      (now : Signaling) (sdp : S) (p : Peer S C) → early p ≡ 0 → Kept 0 p (on_answer now sdp p)
  unfolding on_answer wait added held weigh left is_flush
  on_answer-Kept now sdp p t = record {
    total = ground arith;
    in_time = ground (arith, t);
    none_early = ground arith;
    stays = ground arith;
  }

  pub on_candidate-Kept :
      (o : Option C) (p : Peer S C)
      → early p ≡ 0
      → Kept (elim o [ none ↦ 0 | some c ↦ if is c then 1 else 0 ]) p (on_candidate o p)
  unfolding on_candidate wait added held weigh left is_flush count
  on_candidate-Kept none p t = record {
    total = ground arith;
    in_time = ground (arith, t);
    none_early = ground arith;
    stays = ground arith;
  }
  on_candidate-Kept (some c) p t = record {
    total = ground (arith, count-append is p.pending (c ∷ []));
    in_time = ground (arith, t);
    none_early = ground arith;
    stays = ground arith;
  }

  pub either_Kept :
      (r : ℕ) (p : Peer S C) (b : Bool) (x y : Peer S C × List (Effect S C D))
      → Kept r p x
      → Kept r p y
      → Kept r p (if b then x else y)
  either_Kept r p true x y h k = h
  either_Kept r p false x y h k = k

  -- An operation that has nothing to do with candidates.
  pub calm_Kept :
      (r : ℕ) (p : Peer S C) (q : Peer S C × List (Effect S C D))
      → early p ≡ 0
      → r ≡ 0
      → q.0.remote_desc_set ≡ p.remote_desc_set
      → q.0.pending ≡ p.pending
      → weigh (left is) q.0.jobs ≡ weigh (left is) p.jobs
      → weigh is_flush q.0.jobs ≡ weigh is_flush p.jobs
      → added is q.1 ≡ 0
      → Kept r p q
  unfolding held
  calm_Kept r p q t z set same l f a = record {
    total = ground (arith, z, set, ap (count is) same, l, a);
    in_time = ground (arith, t, set, f);
    none_early = ground (arith, a);
    stays = ground (arith, set);
  }

module _ {S C : Type 0} (D : Type 0) (is : C → Bool) where
  flush_offer-held :
      (cs : List C) (p : Peer S C)
      → p.remote_desc_set ≡ true
      → (count is cs + weigh (left is) p.jobs
          ≤ added is (flush_offer {D = D} cs p).1 + held is (flush_offer {D = D} cs p).0)
        × ((flush_offer {D = D} cs p).0.remote_desc_set ≡ true)
  unfolding flush_offer wait added held weigh left is_flush count
  flush_offer-held [] p t = (rw t (omega arith), t)
  flush_offer-held (c ∷ cs) p t = (rw t (omega arith), t)

  flush_answer-held :
      (cs : List C) (p : Peer S C)
      → p.remote_desc_set ≡ true
      → (count is cs + weigh (left is) p.jobs
          ≤ added is (flush_answer {D = D} cs p).1 + held is (flush_answer {D = D} cs p).0)
        × ((flush_answer {D = D} cs p).0.remote_desc_set ≡ true)
  unfolding flush_answer wait added held weigh left is_flush count
  flush_answer-held [] p t = (rw t (omega arith), t)
  flush_answer-held (c ∷ cs) p t = (rw t (omega arith), t)

-- What a job that is taken from the peer has still to add.
abbrev pub due : {S C : Type 0} → (C → Bool) → Job S C → Peer S C → ℕ
due is j p = if p.remote_desc_set then left is j else 0

module _ {S C D : Type 0} (is : C → Bool) where
  -- A peer with a remote description whose effects add what it no longer holds.
  flushed-Kept :
      (r : ℕ) (p : Peer S C) (q : Peer S C × List (Effect S C D))
      → r + held is p ≤ added is q.1 + held is q.0
      → q.0.remote_desc_set ≡ true
      → Kept is r p q
  flushed-Kept r p q h t = record {
    total = h;
    in_time = ground (arith, t);
    none_early = ground (arith, t);
    stays = ground (arith, t);
  }

  -- A job that goes on.
  pub fulfil-Kept :
      (now : Signaling) (sdp : S) (j : Job S C) (p : Peer S C)
      → early p ≡ 0
      → (if p.remote_desc_set then 0 else is_flush j) ≡ 0
      → Kept is (due is j p) p (fulfil {D = D} now sdp j p)
  unfolding fulfil wait added held weigh left is_flush count
  fulfil-Kept now sdp needed p t e =
      either_Kept is _ p (is_stable now) _ _
        (calm_Kept is _ p _ t (ground arith) refl refl (omega arith) (omega arith) refl)
        (calm_Kept is _ p _ t (ground arith) refl refl refl refl refl)
  fulfil-Kept now _ (needed_local sdp) p t e =
      calm_Kept is _ p _ t (ground arith) refl refl refl refl refl
  fulfil-Kept now sdp offering p t e =
      either_Kept is _ p (is_closed_state now) _ _
        (calm_Kept is _ p _ t (ground arith) refl refl refl refl refl)
        (calm_Kept is _ p _ t (ground arith) refl refl (omega arith) (omega arith) refl)
  fulfil-Kept now _ (offering_local sdp) p t e =
      calm_Kept is _ p _ t (ground arith) refl refl refl refl refl
  fulfil-Kept now _ remote_offer p t e =
      let (h, set) = flush_offer-held D is p.pending (record p { remote_desc_set = true }) refl in
      flushed-Kept _ p _ (ground (arith, h)) set
  fulfil-Kept now _ (flushing_offer cs) p t e =
      let set : p.remote_desc_set ≡ true = ground (arith, e) in
      let (h, still) = flush_offer-held D is cs p set in
      flushed-Kept _ p _ (ground (arith, h, set)) still
  fulfil-Kept now sdp answering p t e =
      calm_Kept is _ p _ t (ground arith) refl refl (omega arith) (omega arith) refl
  fulfil-Kept now _ (answering_local sdp) p t e =
      calm_Kept is _ p _ t (ground arith) refl refl refl refl refl
  fulfil-Kept now _ remote_answer p t e =
      let (h, set) = flush_answer-held D is p.pending (record p { remote_desc_set = true }) refl in
      flushed-Kept _ p _ (ground (arith, h)) set
  fulfil-Kept now _ (flushing_answer cs) p t e =
      let set : p.remote_desc_set ≡ true = ground (arith, e) in
      let (h, still) = flush_answer-held D is cs p set in
      flushed-Kept _ p _ (ground (arith, h, set)) still
  fulfil-Kept now _ adding p t e = calm_Kept is _ p _ t (ground arith) refl refl refl refl refl
  fulfil-Kept now sdp restarting p t e =
      either_Kept is _ p (p.closed || not (is_stable now)) _ _
        (calm_Kept is _ p _ t (ground arith) refl refl refl refl refl)
        (calm_Kept is _ p _ t (ground arith) refl refl (omega arith) (omega arith) refl)
  fulfil-Kept now _ (restarting_local sdp) p t e =
      calm_Kept is _ p _ t (ground arith) refl refl refl refl refl

  pub reject-Kept :
      (j : Job S C) (p : Peer S C)
      → early p ≡ 0
      → (if p.remote_desc_set then 0 else is_flush j) ≡ 0
      → Kept is (due is j p) p (reject {D = D} j p)
  unfolding reject added held weigh left is_flush count
  reject-Kept offering p t e = calm_Kept is _ p _ t (ground arith) refl refl refl refl refl
  reject-Kept (offering_local sdp) p t e =
      calm_Kept is _ p _ t (ground arith) refl refl refl refl refl
  reject-Kept needed p t e = calm_Kept is _ p _ t (ground arith) refl refl refl refl (ground arith)
  reject-Kept (needed_local sdp) p t e =
      calm_Kept is _ p _ t (ground arith) refl refl refl refl (ground arith)
  reject-Kept (flushing_offer cs) p t e =
      let set : p.remote_desc_set ≡ true = ground (arith, e) in
      let (h, still) = flush_offer-held D is cs p set in
      flushed-Kept _ p _
        (ground (
          arith,
          h,
          set,
          added-append is (emit (failed (flushing_offer cs)) p) (flush_offer {D = D} cs p).1,
        ))
        still
  reject-Kept (flushing_answer cs) p t e =
      let set : p.remote_desc_set ≡ true = ground (arith, e) in
      let (h, still) = flush_answer-held D is cs p set in
      flushed-Kept _ p _
        (ground (
          arith,
          h,
          set,
          added-append is (emit (failed (flushing_answer cs)) p) (flush_answer {D = D} cs p).1,
        ))
        still
  reject-Kept remote_offer p t e =
      calm_Kept is _ p _ t (ground arith) refl refl refl refl (ground arith)
  reject-Kept answering p t e =
      calm_Kept is _ p _ t (ground arith) refl refl refl refl (ground arith)
  reject-Kept (answering_local sdp) p t e =
      calm_Kept is _ p _ t (ground arith) refl refl refl refl (ground arith)
  reject-Kept remote_answer p t e =
      calm_Kept is _ p _ t (ground arith) refl refl refl refl (ground arith)
  reject-Kept adding p t e = calm_Kept is _ p _ t (ground arith) refl refl refl refl (ground arith)
  reject-Kept restarting p t e =
      calm_Kept is _ p _ t (ground arith) refl refl refl refl (ground arith)
  reject-Kept (restarting_local sdp) p t e =
      calm_Kept is _ p _ t (ground arith) refl refl refl refl (ground arith)
