-- ===== src/Client/Keeping.antt =====
-- What a PeerClient (client.ts) does with its peers, which keeps its promises as they are, and what
-- the effects of a registration and a match settle.
use peer_server.Prelude.{
  ℕ, ◌≡◌, refl, inl, inr, Bool, true, false, ◌||◌, Option, none, some, [], ◌∷◌, ◌++◌, Text, arith,
  Bool-cases,
}
use peer_server.Dict
use peer_server.Dict.{Dict}
use peer_server.Client.{PeerClient, matched, reconnected}
use peer_server.Client.Calls.{}
use peer_server.Client.Peers.{
  is_shut, live, new_peer, made_peer, make_peer, shut_peer, drop_peer, connect_to_peer, offered,
  close_of, closed_peer, clean_peers, close_all,
}
use peer_server.Client.Messages.{rejoins, register_effects, match_effects}
use peer_server.Client.Counting.{count_register, count_match, settled, settled-append}
use peer_server.Client.Settling.{Same, Same-trans, Same-refl, drop_peer-Same, shut_peer-Same}

pub make_peer-Same : (fp : Text) (c : PeerClient) → Same c (make_peer fp c).1
unfolding make_peer new_peer
make_peer-Same fp c = made (live (Dict.get fp c.peers) c)
  where
    made : (o : Option ℕ) → Same c (made_peer o fp c).1
    made none = record { requests = refl; matches = refl; register = refl; next_id = refl }
    made (some o) = Same-refl c

module _ (D : Type 0) (id : ℕ) where
  pub close_all-Same :
      (d : Dict ℕ) (c : PeerClient)
      → Same c (close_all {D = D} d c).0 × (settled id (close_all {D = D} d c).1 ≡ 0)
  unfolding close_all settled
  close_all-Same [] c = (Same-refl c, refl)
  close_all-Same ((fp, o) ∷ d) c =
      let (s, z) = close_all-Same d (shut_peer o c) in (Same-trans c _ _ (shut_peer-Same o c) s, z)

  pub close_of-Same :
      (fp : Text) (c : PeerClient)
      → Same c (close_of {D = D} fp c).0 × (settled id (close_of {D = D} fp c).1 ≡ 0)
  unfolding close_of settled
  close_of-Same fp c = closing (Dict.get fp c.peers)
    where
      closing :
          (o : Option ℕ)
          → Same c (closed_peer {D = D} o fp c).0 × (settled id (closed_peer {D = D} o fp c).1 ≡ 0)
      closing none = (Same-refl c, refl)
      closing (some o) =
          (Same-trans c _ _ (shut_peer-Same o c) (drop_peer-Same fp (shut_peer o c)), refl)

  pub connect_to_peer-Same :
      (fp : Text) (c : PeerClient)
      → Same c (connect_to_peer {D = D} fp c).0 × (settled id (connect_to_peer {D = D} fp c).1 ≡ 0)
  unfolding connect_to_peer settled
  connect_to_peer-Same fp c = offering (live (Dict.get fp c.peers) c)
    where
      offering :
          (o : Option ℕ)
          → Same c (offered {D = D} o fp c).0 × (settled id (offered {D = D} o fp c).1 ≡ 0)
      offering none = (make_peer-Same fp c, refl)
      offering (some o) = (Same-refl c, refl)

  pub clean_peers-Same :
      (failed : ℕ → Bool) (d : Dict ℕ) (c : PeerClient)
      → Same c (clean_peers {D = D} failed d c).0
        × (settled id (clean_peers {D = D} failed d c).1 ≡ 0)
  unfolding clean_peers settled
  clean_peers-Same failed [] c = (Same-refl c, refl)
  clean_peers-Same failed ((fp, o) ∷ d) c = elim (Bool-cases (is_shut o c || failed o)) [
    | inl stale ↦
        let (s, z) = clean_peers-Same failed d (drop_peer fp (shut_peer o c)) in
        rw stale (
          Same-trans c _ _
              (Same-trans c _ _ (shut_peer-Same o c) (drop_peer-Same fp (shut_peer o c))) s,
          z,
        )
    | inr fine ↦ rw fine (clean_peers-Same failed d c)
  ]

  settled-rejoins : (d : Dict (Unit {0})) → settled {D = D} id (rejoins d) ≡ 0
  unfolding settled Dict.keys
  settled-rejoins [] = refl
  settled-rejoins ((ns, u) ∷ d) = settled-rejoins d

  pub settled-register_effects :
      (o : Option (ℕ × Bool)) (fp : Text) (d : Dict (Unit {0}))
      → settled {D = D} id (register_effects o fp d) ≡ count_register id o
  unfolding settled
  settled-register_effects none fp d = refl
  settled-register_effects (some (x, false)) fp d = omega arith
  settled-register_effects (some (x, true)) fp d =
      omega (arith, settled-append id (rejoins {D = D} d) (reconnected ∷ []), settled-rejoins d)

  pub settled-match_effects :
      (o : Option ℕ) (ns : Text)
      → settled {D = D} id (match_effects o ++ matched ns ∷ []) ≡ count_match id o
  unfolding settled
  settled-match_effects none ns = refl
  settled-match_effects (some x) ns = omega arith
