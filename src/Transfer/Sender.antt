-- ===== src/Transfer/Sender.antt =====
-- The loop of `startSending` (transfer.ts) over a channel that takes every chunk: it sends the
-- chunks of the file in order and then `complete`, and it ends.
use peer_server.Prelude.{
  ℕ, zero, suc, ◌+◌, ◌≤◌, ◌<◌, ◌≡◌, ◌∙◌, refl, ap, true, false, some, List, [], ◌∷◌, ◌++◌, Text,
  text_eq_refl, arith,
}
use peer_server.Dict
use peer_server.Dict.Laws.{get-put, has-remove}
use peer_server.Transfer.{
  Bytes, encode_chunk, complete, ActiveSend, Effect, progress, sent_file, control, chunk, resolved,
  closed_channel, FileTransfer,
}
use peer_server.Transfer.Loop.{
  Loop, testing, read, draining, ended, slice_at, sent_chunk, loop_outcome, apply_outcome,
  step_object, loop_step, run_loop, cleanup_send,
}
use peer_server.Transfer.Slices.{slice_of, slice_at-eq-slice_of}

-- What `n` rounds from the index `i` send and report.
unfoldable pub rounds : Text → ℕ → Bytes → ℕ → ℕ → ℕ → List Effect
rounds id size file total i zero = []
rounds id size file total i (suc n) =
    chunk id (encode_chunk i (slice_of size file i))
    ∷ progress id (i + 1) total
    ∷ rounds id size file total (i + 1) n

-- What the loop sends and reports at its end.
abbrev pub closing : Text → Text → List Effect
closing id peer = control peer (complete id) ∷ sent_file id ∷ closed_channel id ∷ resolved id ∷ []

-- Two steps a round, and two for the end.
abbrev pub steps_for : ℕ → ℕ
steps_for zero = 2
steps_for (suc n) = suc (suc (steps_for n))

pub with_object : Text → ActiveSend → FileTransfer → FileTransfer
with_object id a s = record s { objects = Dict.put id a s.objects }

pub get-with_object :
    (id : Text) (a : ActiveSend) (s : FileTransfer)
    → Dict.get id (with_object id a s).objects ≡ some a
unfolding with_object
get-with_object id a s = get-put id id a s.objects ∙ rw (text_eq_refl id)

module _ (id : Text) (a : ActiveSend) (s : FileTransfer)
    (here : Dict.get id s.objects ≡ some a) where
  pub step_at : (l : Loop) → loop_step true l id s ≡ apply_outcome id (loop_outcome true l a) s
  unfolding loop_step
  step_at l = ap (λ o. step_object true l id o s) here

  pub test_step :
      a.cancelled ≡ false
      → a.current_index < a.total_chunks
      → loop_step true testing id s ≡ (read (slice_at a), with_object id a s, [])
  test_step live more =
      step_at testing ∙ (unfold loop_outcome apply_outcome with_object in ground arith)

  pub read_step :
      (b : Bytes)
      → loop_step true (read b) id s ≡ (
        testing,
        with_object id (sent_chunk b a) s,
        chunk a.id (encode_chunk a.current_index b)
            ∷ progress a.id (a.current_index + 1) a.total_chunks
            ∷ [],
      )
  read_step b = step_at (read b) ∙ (unfold loop_outcome apply_outcome with_object in refl)

  last_test :
      a.cancelled ≡ false
      → a.total_chunks ≤ a.current_index
      → loop_step true testing id s ≡ (draining, with_object id a s, [])
  last_test live done =
      step_at testing ∙ (unfold loop_outcome apply_outcome with_object in ground arith)

  drain_step :
      Dict.has id s.sending ≡ true
      → a.id ≡ id
      → loop_step true draining id s
        ≡ (ended, (cleanup_send id (with_object id a s)).0, closing id a.peer)
  drain_step listed named =
      step_at draining
      ∙ (unfold loop_outcome apply_outcome with_object cleanup_send in ground arith)

pub record IsSending (id : Text) (a : ActiveSend) (s : FileTransfer) : Type 0 where
  pub stored : Dict.get id s.objects ≡ some a
  pub named : a.id ≡ id
  pub live : a.cancelled ≡ false
  pub listed : Dict.has id s.sending ≡ true

run_cons :
    (n : ℕ) (l : Loop) (id : Text) (s : FileTransfer) (l' : Loop) (s' : FileTransfer)
    (es : List Effect)
    → loop_step true l id s ≡ (l', s', es)
    → run_loop (suc n) l id s
      ≡ ((run_loop n l' id s').0, (run_loop n l' id s').1, es ++ (run_loop n l' id s').2)
unfolding run_loop
run_cons n l id s l' s' es e =
    ap
      (λ (o : Loop × FileTransfer × List Effect).
        let p : Loop × FileTransfer × List Effect = (
          (run_loop n o.0 id o.1).0,
          (run_loop n o.0 id o.1).1,
          o.2 ++ (run_loop n o.0 id o.1).2,
        ) in
        p)
      e

pub with_object-IsSending :
    (id : Text) (a b : ActiveSend) (s : FileTransfer)
    → IsSending id a s
    → b.id ≡ a.id
    → b.cancelled ≡ a.cancelled
    → IsSending id b (with_object id b s)
with_object-IsSending id a b s h p q = record {
  stored = get-with_object id b s;
  named = p ∙ h.named;
  live = q ∙ h.live;
  listed = unfold with_object in h.listed;
}

one_round : (id : Text) (a : ActiveSend) (s : FileTransfer) → FileTransfer
one_round id a s = with_object id (sent_chunk (slice_at a) a) (with_object id a s)

two_steps :
    (n : ℕ) (id : Text) (a : ActiveSend) (s : FileTransfer)
    → IsSending id a s
    → a.current_index < a.total_chunks
    → (run_loop (suc (suc n)) testing id s).2
      ≡ chunk id (encode_chunk a.current_index (slice_of a.chunk_size a.file a.current_index))
        ∷ progress id (a.current_index + 1) a.total_chunks
        ∷ (run_loop n testing id (one_round id a s)).2
unfolding one_round
two_steps n id a s h more =
    let s1 = with_object id a s in
    let later = (run_loop n testing id (one_round id a s)).2 in
    ap (λ (o : Loop × FileTransfer × List Effect). o.2)
      (run_cons (suc n) testing id s _ _ _ (test_step id a s h.stored h.live more)
        ∙ run_cons n (read (slice_at a)) id s1 _ _ _
            (read_step id a s1 (get-with_object id a s) (slice_at a)))
    ∙ ap
        (λ name.
          chunk name (encode_chunk a.current_index (slice_at a))
          ∷ progress name (a.current_index + 1) a.total_chunks
          ∷ later)
        h.named
    ∙ ap
        (λ b.
          chunk id (encode_chunk a.current_index b)
          ∷ progress id (a.current_index + 1) a.total_chunks
          ∷ later)
        (slice_at-eq-slice_of a)

two_steps_end :
    (n : ℕ) (id : Text) (a : ActiveSend) (s : FileTransfer)
    → IsSending id a s
    → a.current_index < a.total_chunks
    → ((run_loop (suc (suc n)) testing id s).0 ≡ (run_loop n testing id (one_round id a s)).0)
      × ((run_loop (suc (suc n)) testing id s).1 ≡ (run_loop n testing id (one_round id a s)).1)
unfolding one_round
two_steps_end n id a s h more =
    let s1 = with_object id a s in
    let both =
      run_cons (suc n) testing id s _ _ _ (test_step id a s h.stored h.live more)
      ∙ run_cons n (read (slice_at a)) id s1 _ _ _
          (read_step id a s1 (get-with_object id a s) (slice_at a)) in
    (
      ap (λ (o : Loop × FileTransfer × List Effect). o.0) both,
      ap (λ (o : Loop × FileTransfer × List Effect). o.1) both,
    )

one_round-IsSending :
    (id : Text) (a : ActiveSend) (s : FileTransfer)
    → IsSending id a s
    → IsSending id (sent_chunk (slice_at a) a) (one_round id a s)
unfolding one_round
one_round-IsSending id a s h =
    with_object-IsSending id a (sent_chunk (slice_at a) a) (with_object id a s)
      (with_object-IsSending id a a s h refl refl) (unfold sent_chunk in refl)
      (unfold sent_chunk in refl)

removed :
    (id : Text) (a : ActiveSend) (s : FileTransfer)
    → Dict.has id
        (run_loop 0 ended id (cleanup_send id (with_object id a (with_object id a s))).0).1.sending
      ≡ false
unfolding run_loop cleanup_send with_object
removed id a s = has-remove id id s.sending ∙ rw (text_eq_refl id)

finish :
    (id : Text) (a : ActiveSend) (s : FileTransfer)
    → IsSending id a s
    → a.total_chunks ≤ a.current_index
    → ((run_loop 2 testing id s).0 ≡ ended)
      × (Dict.has id (run_loop 2 testing id s).1.sending ≡ false)
      × ((run_loop 2 testing id s).2 ≡ closing id a.peer)
finish id a s h done =
    let s1 = with_object id a s in
    let all =
      run_cons 1 testing id s _ _ _ (last_test id a s h.stored h.live done)
      ∙ run_cons 0 draining id s1 _ _ _
          (drain_step id a s1 (get-with_object id a s) (unfold with_object in h.listed) h.named) in
    (
      ap (λ (o : Loop × FileTransfer × List Effect). o.0) all ∙ (unfold run_loop in refl),
      ap (λ (o : Loop × FileTransfer × List Effect). Dict.has id o.1.sending) all ∙ removed id a s,
      ap (λ (o : Loop × FileTransfer × List Effect). o.2) all ∙ (unfold run_loop in refl),
    )

one_more :
    (n : ℕ) (id : Text) (a : ActiveSend) (later : List Effect)
    → (later
        ≡ rounds id
            (sent_chunk (slice_at a) a).chunk_size
            (sent_chunk (slice_at a) a).file
            (sent_chunk (slice_at a) a).total_chunks
            (sent_chunk (slice_at a) a).current_index
            n
          ++ closing id (sent_chunk (slice_at a) a).peer)
    → chunk id (encode_chunk a.current_index (slice_of a.chunk_size a.file a.current_index))
        ∷ progress id (a.current_index + 1) a.total_chunks
        ∷ later
      ≡ rounds id a.chunk_size a.file a.total_chunks a.current_index (suc n) ++ closing id a.peer
unfolding rounds sent_chunk
one_more n id a later e =
    ap
      (λ xs.
        chunk id (encode_chunk a.current_index (slice_of a.chunk_size a.file a.current_index))
        ∷ progress id (a.current_index + 1) a.total_chunks
        ∷ xs)
      e

pub run_loop-sends_file :
    (n : ℕ) (id : Text) (a : ActiveSend) (s : FileTransfer)
    → IsSending id a s
    → a.current_index + n ≡ a.total_chunks
    → ((run_loop (steps_for n) testing id s).0 ≡ ended)
      × (Dict.has id (run_loop (steps_for n) testing id s).1.sending ≡ false)
      × ((run_loop (steps_for n) testing id s).2
          ≡ rounds id a.chunk_size a.file a.total_chunks a.current_index n ++ closing id a.peer)
run_loop-sends_file zero id a s h e = unfold rounds in finish id a s h (omega arith)
run_loop-sends_file (suc n) id a s h e =
    let more : a.current_index < a.total_chunks = omega arith in
    let a' : ActiveSend = sent_chunk (slice_at a) a in
    let (l, gone, es) =
      run_loop-sends_file n id a' (one_round id a s) (one_round-IsSending id a s h)
        (unfold sent_chunk in omega arith) in
    let (e0, e1) = two_steps_end (steps_for n) id a s h more in
    (
      e0 ∙ l,
      ap (λ (u : FileTransfer). Dict.has id u.sending) e1 ∙ gone,
      two_steps (steps_for n) id a s h more ∙ one_more n id a _ es,
    )
