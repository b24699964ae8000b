-- ===== src/CrdtSync/Converging.antt =====
-- Replicas of a Yjs document under CRDTSync (sync.ts): what each has taken in decides its document.
use peer_server.Prelude.{
  some, subst, arith, text_eq_iff, ◌≡◌, refl, sym, ap, ◌∙◌, Bool, true, false, ◌&&◌, List, [], ◌∷◌,
  ◌++◌, Text, text_eq, if◌then◌else◌,
}
use peer_server.CrdtSync.{
  broadcast, relay, synced, request_full_state, map_doc, Yjs, CrdtSync, Effect, send_state_to,
  update, request_state, create, start, edit, apply_remote, on_broadcast, on_relay, Event, edits,
  broadcast_comes, relay_comes, peer_joins, destroy_call, destroy, step, run,
}

module _ (Y : Yjs) where
  unfoldable pub apply_all : List Y.Update → Y.Doc → Y.Doc
  apply_all [] d = d
  apply_all (u ∷ us) d = apply_all us (Y.apply_update u d)

  -- The updates that an event makes the document take in.
  unfoldable pub taken : Event Y → CrdtSync Y → List Y.Update
  taken (edits u) s = u ∷ []
  taken (broadcast_comes from ns (update u)) s =
      if s.listening && text_eq ns s.room_id then u ∷ [] else []
  taken (relay_comes from room (update u)) s =
      if s.listening && text_eq room s.room_id then u ∷ [] else []
  taken _ s = []

  unfoldable pub all_taken : List (Event Y) → CrdtSync Y → List Y.Update
  unfolding taken
  all_taken [] s = []
  all_taken (e ∷ es) s = taken e s ++ all_taken es (step Y e s).0

  apply_all-append :
      (us vs : List Y.Update) (d : Y.Doc) → apply_all (us ++ vs) d ≡ apply_all vs (apply_all us d)
  unfolding apply_all
  apply_all-append [] vs d = refl
  apply_all-append (u ∷ us) vs d = apply_all-append us vs (Y.apply_update u d)

  apply_all-apply_update :
      (us : List Y.Update) (u : Y.Update) (d : Y.Doc)
      → apply_all us (Y.apply_update u d) ≡ Y.apply_update u (apply_all us d)
  unfolding apply_all
  apply_all-apply_update [] u d = refl
  apply_all-apply_update (v ∷ us) u d =
      ap (apply_all us) (Y.commute v u d) ∙ apply_all-apply_update us u (Y.apply_update v d)

  apply_all-swap :
      (us vs : List Y.Update) (d : Y.Doc)
      → apply_all us (apply_all vs d) ≡ apply_all vs (apply_all us d)
  unfolding apply_all
  apply_all-swap [] vs d = refl
  apply_all-swap (u ∷ us) vs d =
      ap (apply_all us) (sym (apply_all-apply_update vs u d))
      ∙ apply_all-swap us vs (Y.apply_update u d)

  -- While a replica listens, its document is there and is `d`.
  Holds : Y.Doc → CrdtSync Y → Type 0
  Holds d s = s.listening ≡ true → s.doc ≡ some d

  received-Holds :
      (b : Bool) (u : Y.Update) (from : Text) (d : Y.Doc) (s : CrdtSync Y)
      → Holds d s
      → Holds
          (apply_all (if b then u ∷ [] else []) d)
          (if b then apply_remote Y u from s else (s, [])).0
  unfolding apply_remote apply_all Holds
  received-Holds true u from d s h = λ l. ap (map_doc Y (Y.apply_update u)) (h l)
  received-Holds false u from d s h = h

  kept :
      (b : Bool) (s : CrdtSync Y) (es : List (Effect Y))
      → (if◌then◌else◌ {A = CrdtSync Y × List (Effect Y)} b (s, es) (s, [])).0 ≡ s
  kept true s es = refl
  kept false s es = refl

  step-Holds :
      (e : Event Y) (d : Y.Doc) (s : CrdtSync Y)
      → Holds d s
      → Holds (apply_all (taken e s) d) (step Y e s).0
  unfolding step taken Holds apply_all
  step-Holds (edits u) d s h = unfold edit in λ l. ap (map_doc Y (Y.apply_update u)) (h l)
  step-Holds (broadcast_comes from ns (update u)) d s h =
      unfold on_broadcast in received-Holds (s.listening && text_eq ns s.room_id) u from d s h
  step-Holds (broadcast_comes from ns request_state) d s h = unfold on_broadcast in h
  step-Holds (relay_comes from room (update u)) d s h =
      unfold on_relay in received-Holds (s.listening && text_eq room s.room_id) u from d s h
  step-Holds (relay_comes from room request_state) d s h =
      unfold on_relay in
      subst (Holds d)
        (sym (kept (s.listening && text_eq room s.room_id) s (send_state_to Y from s))) h
  step-Holds (peer_joins fp) d s h = h
  step-Holds destroy_call d s h = unfold destroy in λ l. ground arith

  run-Holds :
      (es : List (Event Y)) (d : Y.Doc) (s : CrdtSync Y)
      → Holds d s
      → Holds (apply_all (all_taken es s) d) (run Y es s).0
  unfolding run all_taken
  run-Holds [] d s h = unfold apply_all in h
  run-Holds (e ∷ es) d s h =
      subst (λ x. Holds x (run Y es (step Y e s).0).0)
        (sym (apply_all-append (taken e s) (all_taken es (step Y e s).0) d))
        (run-Holds es (apply_all (taken e s) d) (step Y e s).0 (step-Holds e d s h))

  received_room :
      (b : Bool) (u : Y.Update) (from : Text) (s : CrdtSync Y)
      → (if b then apply_remote Y u from s else (s, [])).0.room_id ≡ s.room_id
  unfolding apply_remote
  received_room true u from s = refl
  received_room false u from s = refl

  step_room : (e : Event Y) (s : CrdtSync Y) → (step Y e s).0.room_id ≡ s.room_id
  unfolding step
  step_room (edits u) s = unfold edit in refl
  step_room (broadcast_comes from ns (update u)) s = unfold on_broadcast in received_room _ u from s
  step_room (broadcast_comes from ns request_state) s = unfold on_broadcast in refl
  step_room (relay_comes from room (update u)) s = unfold on_relay in received_room _ u from s
  step_room (relay_comes from room request_state) s =
      unfold on_relay in
      ap (λ x. x.room_id) (kept (s.listening && text_eq room s.room_id) s (send_state_to Y from s))
  step_room (peer_joins fp) s = refl
  step_room destroy_call s = unfold destroy in refl

  run_room : (es : List (Event Y)) (s : CrdtSync Y) → (run Y es s).0.room_id ≡ s.room_id
  unfolding run
  run_room [] s = refl
  run_room (e ∷ es) s = run_room es (step Y e s).0 ∙ step_room e s

  encode-apply_all :
      (us : List Y.Update) (d e : Y.Doc)
      → Y.apply_update (Y.encode_state (apply_all us d)) e
        ≡ apply_all us (Y.apply_update (Y.encode_state d) e)
  unfolding apply_all
  encode-apply_all [] d e = refl
  encode-apply_all (u ∷ us) d e =
      encode-apply_all us (Y.apply_update u d) e ∙ ap (apply_all us) (Y.encode_applied u d e)

  new-Holds : (room : Text) → Holds Y.new_doc (start Y (create Y room))
  unfolding Holds start create
  new-Holds room l = refl

  exchanged :
      (xs ys : List Y.Update)
      → Y.apply_update (Y.encode_state (apply_all xs Y.new_doc)) (apply_all ys Y.new_doc)
        ≡ Y.apply_update (Y.encode_state (apply_all ys Y.new_doc)) (apply_all xs Y.new_doc)
  exchanged xs ys =
      encode-apply_all xs Y.new_doc (apply_all ys Y.new_doc)
      ∙ ap (apply_all xs) (Y.encode_new (apply_all ys Y.new_doc))
      ∙ apply_all-swap xs ys Y.new_doc
      ∙ sym (ap (apply_all ys) (Y.encode_new (apply_all xs Y.new_doc)))
      ∙ sym (encode-apply_all ys Y.new_doc (apply_all xs Y.new_doc))

  -- What the client does with the effects of `from` at the peer `to`: a relay goes to its addressee
  -- and a broadcast to all.
  unfoldable pub deliver : Text → Text → List (Effect Y) → CrdtSync Y → CrdtSync Y × List (Effect Y)
  deliver from to [] s = (s, [])
  deliver from to (broadcast ns p ∷ es) s =
      let (s1, xs) = on_broadcast Y from ns p s in
      let (s2, ys) = deliver from to es s1 in (s2, xs ++ ys)
  deliver from to (relay fp room p ∷ es) s =
      let (s1, xs) = if text_eq fp to then on_relay Y from room p s else (s, []) in
      let (s2, ys) = deliver from to es s1 in (s2, xs ++ ys)
  deliver from to (synced fp ∷ es) s = deliver from to es s

  -- `a` asks `b` for its state, and takes in what `b` answers.
  unfoldable pub fetch : Text → Text → CrdtSync Y → CrdtSync Y → CrdtSync Y
  unfolding deliver
  fetch fp_a fp_b a b =
      (deliver fp_b fp_a (deliver fp_a fp_b (request_full_state Y fp_b a) b).1 a).0

  -- What a fetch does, for two replicas that listen for one room.
  fetch_doc :
      (fp_a fp_b : Text) (a b : CrdtSync Y) (x y : Y.Doc)
      → a.listening ≡ true
      → b.listening ≡ true
      → a.room_id ≡ b.room_id
      → a.doc ≡ some x
      → b.doc ≡ some y
      → (fetch fp_a fp_b a b).doc ≡ some (Y.apply_update (Y.encode_state y) x)
  unfolding fetch deliver request_full_state on_relay send_state_to apply_remote
  fetch_doc fp_a fp_b a b x y la lb r da db = ground (
    arith,
    text_eq_iff fp_b fp_b,
    text_eq_iff fp_a fp_a,
    text_eq_iff a.room_id b.room_id,
    text_eq_iff b.room_id a.room_id,
  )

  -- Two replicas of a room have each made and taken in whatever updates they have, in any run, and
  -- still listen. If now each asks the other for its state, by `requestFullState`, and takes in what
  -- the other answers with, then both have one and the same document.
  pub exchanged_states_agree :
      (room fp_a fp_b : Text) (es fs : List (Event Y)) (a b : CrdtSync Y)
      → (run Y es (start Y (create Y room))).0 ≡ a
      → (run Y fs (start Y (create Y room))).0 ≡ b
      → a.listening ≡ true
      → b.listening ≡ true
      → (d : Y.Doc) × ((fetch fp_a fp_b a b).doc ≡ some d) × ((fetch fp_b fp_a b a).doc ≡ some d)
  unfolding Holds
  exchanged_states_agree room fp_a fp_b es fs a b ra rb la lb =
      let s = start Y (create Y room) in
      let xs = all_taken es s in
      let ys = all_taken fs s in
      let x = apply_all xs Y.new_doc in
      let y = apply_all ys Y.new_doc in
      let da : a.doc ≡ some x = subst (Holds x) ra (run-Holds es Y.new_doc s (new-Holds room)) la in
      let db : b.doc ≡ some y = subst (Holds y) rb (run-Holds fs Y.new_doc s (new-Holds room)) lb in
      let rooms : a.room_id ≡ b.room_id =
        ap (λ t. t.room_id) (sym ra)
        ∙ run_room es s
        ∙ sym (run_room fs s)
        ∙ ap (λ t. t.room_id) rb in
      (
        Y.apply_update (Y.encode_state y) x,
        fetch_doc fp_a fp_b a b x y la lb rooms da db,
        fetch_doc fp_b fp_a b a y x lb la (sym rooms) db da ∙ ap some (exchanged xs ys),
      )
