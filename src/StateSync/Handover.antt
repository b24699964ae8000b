-- ===== src/StateSync/Handover.antt =====
-- The full-state transfer of StateSync: a replica that asks another for its state (sync.ts,
-- `sendStateTo`, `broadcastFullState`, `handleFullState`).
use peer_server.Prelude.{
  ℕ, ◌≡◌, ◌∙◌, refl, ap, subst, inl, inr, false, Option, none, some, List, [], ◌∷◌, Text, text_eq,
  text_eq_iff, arith, Bool-cases, map,
}
use peer_server.Dict
use peer_server.Dict.{Dict}
use peer_server.Dict.Laws.{Distinct, Every, has-eq-get}
use peer_server.StateSync.{StateSync, SyncState, Payload, relay, wins}
use peer_server.StateSync.Session.{send_state_to, full_state_of, handle_remote_update}
use peer_server.StateSync.Valid.{IsValid}
use peer_server.StateSync.Best.{best, better, get-merge_entries}
use peer_server.StateSync.History.{present, delivered}
use peer_server.StateSync.Convergence.{IsFresh, handle_remote_update_state}

module _ {V : Type 0} where
  -- Each entry stands under its own key.
  abbrev OwnKeys : Dict (SyncState V) → Type 0
  OwnKeys d = Every (λ k e. e.key ≡ k) d

  own_keys :
      (d : Dict (SyncState V))
      → Distinct d
      → ((k : Text) (e : SyncState V) → Dict.get k d ≡ some e → e.key ≡ k)
      → OwnKeys d
  unfolding Dict.get
  own_keys [] n h = tt
  own_keys ((i, e) ∷ d) (n, ds) h = (
    h i e (ground (arith, text_eq_iff i i)),
    own_keys d ds (λ k x p. h k x (ground (arith, text_eq_iff i k, has-eq-get k d, p))),
  )

  best-absent :
      (k : Text) (d : Dict (SyncState V)) (o : Option (SyncState V))
      → OwnKeys d
      → Dict.has k d ≡ false
      → best k (Dict.values d) o ≡ o
  unfolding best better Dict.has Dict.values
  best-absent k [] o q n = refl
  best-absent k ((i, e) ∷ d) o (own, q) n = elim (Bool-cases (text_eq i k)) [
    | inl same ↦ absurd (ground arith)
    | inr differ ↦ rw (own, differ) (best-absent k d o q (ground arith))
  ]

  best-values :
      (k : Text) (d : Dict (SyncState V))
      → OwnKeys d
      → Distinct d
      → best k (Dict.values d) none ≡ Dict.get k d
  unfolding best better wins Dict.get Dict.values
  best-values k [] q n = refl
  best-values k ((i, e) ∷ d) (own, q) (n, ds) = elim (Bool-cases (text_eq i k)) [
    | inl same ↦
        let mine : better k e none ≡ some e =
          ground (arith, text_eq_iff i k, text_eq_iff e.key k) in
        rw same (
          ap (best k (Dict.values d)) mine
          ∙ best-absent k d (some e) q
              (subst (λ j. Dict.has j d ≡ false) ((text_eq_iff i k).0 same) n))
    | inr differ ↦ rw (own, differ) (best-values k d q ds)
  ]

  present-map : (es : List (SyncState V)) → present (map some es) ≡ es
  unfolding present
  present-map [] = refl
  present-map (e ∷ es) = ap (λ xs. e ∷ xs) (present-map es)

  delivered_full : (es : List (SyncState V)) → delivered (full_state_of es) ≡ es
  unfolding delivered
  delivered_full es = present-map es

  best_of_empty :
      (k : Text) (d : Dict (SyncState V))
      → Distinct d
      → OwnKeys d
      → best k (Dict.values d) (Dict.get k []) ≡ Dict.get k d
  best_of_empty k d ds q = unfold Dict.get in best-values k d q ds

  sent_state :
      (fp room : Text) (p : Payload V) (s : StateSync V)
      → send_state_to fp s ≡ relay fp room p ∷ []
      → p ≡ full_state_of (Dict.values s.state)
  unfolding send_state_to
  sent_state fp room p s h = ground arith

  -- A fresh replica that handles the state which a valid one sends on request then stores exactly
  -- the sender's entries: the same entry, or none, at every key.
  pub state_transfer :
      (now : ℕ → ℕ) (a b : StateSync V) (fp from room : Text) (p : Payload V) (k : Text)
      → IsValid a
      → IsFresh b
      → send_state_to fp a ≡ relay fp room p ∷ []
      → Dict.get k (handle_remote_update now p from b).0.state ≡ Dict.get k a.state
  state_transfer now a b fp from room p k va fb sent =
      let es = Dict.values a.state in
      let e : p ≡ full_state_of es = sent_state fp room p a sent in
      ap (Dict.get k) (handle_remote_update_state now p from b fb.lww_mode)
      ∙ get-merge_entries k (delivered p) b.state
      ∙ ap (λ q. best k (delivered q) (Dict.get k b.state)) e
      ∙ ap (λ xs. best k xs (Dict.get k b.state)) (delivered_full es)
      ∙ ap (λ d. best k es (Dict.get k d)) fb.empty
      ∙ best_of_empty k a.state va.distinct (own_keys a.state va.distinct va.keyed)
