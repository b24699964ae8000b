-- ===== src/Client/Reconnecting.antt =====
-- A PeerClient (client.ts) whose transport is open again: it registers, and joins what it was in.
use peer_server.Prelude.{
  ℕ, ◌≡◌, refl, ap, ◌∙◌, inl, inr, Bool, true, false, ◌||◌, Option, none, some, List, [], ◌∷◌, ◌++◌,
  Text, is_empty, Bool-cases,
}
use mathlib.Core.List.{append-nil}
use peer_server.Dict
use peer_server.Dict.{Dict}
use peer_server.Client.{PeerClient, send_join, send_register, Effect, sent, reconnected}
use peer_server.Client.Calls.{do_register, finish_register, reject_register}
use peer_server.Client.Peers.{is_shut, shut_peer, drop_peer, clean_peers}
use peer_server.Client.Messages.{
  rejoins, register_effects, on_registered, on_open, is_registered, opened, message_came, step,
  handle_message,
}

module _ {D : Type 0} where
  -- The namespaces that a list of effects asks the server to join.
  unfoldable pub joins_sent : List (Effect D) → List Text
  joins_sent [] = []
  joins_sent (sent (send_join ns) ∷ es) = ns ∷ joins_sent es
  joins_sent (_ ∷ es) = joins_sent es

  joins_sent-append :
      (es fs : List (Effect D)) → joins_sent (es ++ fs) ≡ joins_sent es ++ joins_sent fs
  unfolding joins_sent
  joins_sent-append [] fs = refl
  joins_sent-append (sent (send_join ns) ∷ es) fs = ap (λ xs. ns ∷ xs) (joins_sent-append es fs)
  joins_sent-append (_ ∷ es) fs = joins_sent-append es fs

module _ (D : Type 0) where
  joins_sent-clean_peers :
      (failed : ℕ → Bool) (d : Dict ℕ) (c : PeerClient)
      → (joins_sent (clean_peers {D = D} failed d c).1 ≡ [])
        × ((clean_peers {D = D} failed d c).0.books ≡ c.books)
        × ((clean_peers {D = D} failed d c).0.has_keys ≡ c.has_keys)
  unfolding joins_sent clean_peers
  joins_sent-clean_peers failed [] c = (refl, refl, refl)
  joins_sent-clean_peers failed ((fp, o) ∷ d) c = elim (Bool-cases (is_shut o c || failed o)) [
    | inl stale ↦ rw stale (joins_sent-clean_peers failed d (drop_peer fp (shut_peer o c)))
    | inr fine ↦ rw fine (joins_sent-clean_peers failed d c)
  ]

  joins_sent-reject_register : (o : Option (ℕ × Bool)) → joins_sent {D = D} (reject_register o) ≡ []
  unfolding joins_sent
  joins_sent-reject_register none = refl
  joins_sent-reject_register (some (id, again)) = refl

  joins_sent-rejoins : (d : Dict (Unit {0})) → joins_sent {D = D} (rejoins d) ≡ Dict.keys d
  unfolding joins_sent Dict.keys
  joins_sent-rejoins [] = refl
  joins_sent-rejoins ((ns, u) ∷ d) = ap (λ xs. ns ∷ xs) (joins_sent-rejoins d)

  joins_sent-register_effects :
      (id : ℕ) (fp : Text) (d : Dict (Unit {0}))
      → joins_sent {D = D} (register_effects (some (id, true)) fp d) ≡ Dict.keys d
  unfolding joins_sent
  joins_sent-register_effects id fp d =
      joins_sent-append (rejoins {D = D} d) (reconnected ∷ [])
      ∙ ap (λ xs. xs ++ []) (joins_sent-rejoins d)
      ∙ append-nil (Dict.keys d)

  again_registered :
      (es : List (Effect D)) (fp : Text) (c : PeerClient)
      → c.has_keys ≡ true
      → joins_sent es ≡ []
      → let (c1, xs) = do_register {D = D} true c in
        let (c2, ys) = on_registered {D = D} fp c1 in
        (joins_sent (es ++ xs) ≡ [])
        × (joins_sent ys ≡ Dict.keys c.books.namespaces)
        × (c2.books ≡ c.books)
  unfolding do_register on_registered finish_register
  again_registered es fp c keys quiet =
      let nothing : joins_sent (es ++ (reject_register c.register ++ sent send_register ∷ []))
          ≡ [] =
        joins_sent-append es _
        ∙ ap
            (λ xs. xs ++ joins_sent {D = D} (reject_register c.register ++ sent send_register ∷ []))
            quiet
        ∙ joins_sent-append (reject_register c.register) _
        ∙ ap (λ xs. xs ++ joins_sent {D = D} (sent send_register ∷ []))
            (joins_sent-reject_register c.register)
        ∙ (unfold joins_sent in refl) in
      rw keys (nothing, joins_sent-register_effects c.next_id fp c.books.namespaces, refl)

  -- Where a client that has a fingerprint and keys finds its transport open again, it asks to join
  -- nothing until the server has registered it; then it asks to join the namespaces and rooms it was
  -- in, each one once and in their order, and it is still in all of them.
  pub reopened-rejoins :
      (failed : ℕ → Bool) (fp : Text) (c : PeerClient)
      → is_empty c.fingerprint ≡ false
      → c.has_keys ≡ true
      → let (c1, es) = step {D = D} (opened failed) c in
        let (c2, fs) = step {D = D} (message_came (is_registered fp)) c1 in
        (joins_sent es ≡ []) × (joins_sent fs ≡ Dict.keys c.books.namespaces) × (c2.books ≡ c.books)
  unfolding step handle_message on_registered on_open do_register finish_register
  reopened-rejoins failed fp c known keys =
      let (c1, es) = clean_peers {D = D} failed c.peers c in
      let (quiet, books, same) = joins_sent-clean_peers failed c.peers c in
      let (none_yet, all, still) = again_registered es fp c1 (same ∙ keys) quiet in
      rw known (none_yet, all ∙ ap (λ b. Dict.keys b.namespaces) books, still ∙ books)
