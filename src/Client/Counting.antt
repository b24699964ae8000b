-- ===== src/Client/Counting.antt =====
-- Promises of a PeerClient (client.ts), counted: how often one waits, and how often one is settled.
use peer_server.Prelude.{
  ℕ, ◌+◌, ◌≡◌, refl, ap, subst, text_eq_iff, inl, inr, Bool, false, ◌&&◌, ◌==◌, leb, ltb, Option,
  none, some, List, [], ◌∷◌, ◌++◌, Text, text_eq, arith, Bool-cases, map, if◌then◌else◌,
}
use peer_server.Dict
use peer_server.Dict.{Dict}
use peer_server.Dict.Laws.{Distinct}
use peer_server.Client.{
  Request, Books, PeerClient, Verdict, keeps, resolves, rejects, Effect, resolved, rejected,
  hear_all, kept, settlement,
}

abbrev pub hits : ℕ → ℕ → ℕ
hits id x = if x == id then 1 else 0

unfoldable pub count_requests : ℕ → List Request → ℕ
count_requests id [] = 0
count_requests id (r ∷ rs) = hits id r.id + count_requests id rs

unfoldable pub count_matches : ℕ → Dict ℕ → ℕ
count_matches id [] = 0
count_matches id ((ns, x) ∷ d) = hits id x + count_matches id d

abbrev pub count_register : ℕ → Option (ℕ × Bool) → ℕ
count_register id none = 0
count_register id (some (x, again)) = hits id x

abbrev pub count_match : ℕ → Option ℕ → ℕ
count_match id none = 0
count_match id (some x) = hits id x

-- How often the promise `id` waits: 0 or 1, as the theorems show.
abbrev pub waiting : ℕ → PeerClient → ℕ
waiting id c =
    count_requests id c.requests + count_matches id c.matches + count_register id c.register

-- 1 for a promise with a number from `n` up to and without `m`.
abbrev pub fresh : ℕ → ℕ → ℕ → ℕ
fresh id n m = if leb n id && ltb id m then 1 else 0

-- How often a list of effects settles the promise.
unfoldable pub settled : {D : Type 0} → ℕ → List (Effect D) → ℕ
settled id [] = 0
settled id (resolved x ∷ es) = hits id x + settled id es
settled id (rejected x ∷ es) = hits id x + settled id es
settled id (_ ∷ es) = settled id es

pub count_requests-append :
    (id : ℕ) (rs qs : List Request)
    → count_requests id (rs ++ qs) ≡ count_requests id rs + count_requests id qs
unfolding count_requests
count_requests-append id [] qs = omega arith
count_requests-append id (r ∷ rs) qs = omega (arith, count_requests-append id rs qs)

remove_absent : (ns : Text) (d : Dict ℕ) → Dict.has ns d ≡ false → Dict.remove ns d ≡ d
unfolding Dict.has Dict.remove
remove_absent ns [] h = refl
remove_absent ns ((k, x) ∷ d) h = ground (arith, remove_absent ns d)

pub count_matches-remove :
    (id : ℕ) (ns : Text) (d : Dict ℕ)
    → Distinct d
    → count_matches id (Dict.remove ns d) + count_match id (Dict.get ns d) ≡ count_matches id d
unfolding count_matches Dict.remove Dict.get
count_matches-remove id ns [] h = refl
count_matches-remove id ns ((k, x) ∷ d) (n, h) = elim (Bool-cases (text_eq k ns)) [
  | inl same ↦ rw same (
      omega (
        arith,
        ap (count_matches id)
            (remove_absent ns d (subst (λ j. Dict.has j d ≡ false) ((text_eq_iff k ns).0 same) n)),
      ))
  | inr other ↦ rw other (omega (arith, count_matches-remove id ns d h))
]

pub count_matches-put :
    (id : ℕ) (ns : Text) (x : ℕ) (d : Dict ℕ)
    → Dict.has ns d ≡ false
    → count_matches id (Dict.put ns x d) ≡ count_matches id d + hits id x
unfolding count_matches Dict.put Dict.has
count_matches-put id ns x [] h = omega arith
count_matches-put id ns x ((k, y) ∷ d) h = ground (arith, count_matches-put id ns x d)

module _ {D : Type 0} where
  pub settled-append :
      (id : ℕ) (es fs : List (Effect D)) → settled id (es ++ fs) ≡ settled id es + settled id fs
  unfolding settled
  settled-append id [] fs = omega arith
  settled-append id (resolved x ∷ es) fs = omega (arith, settled-append id es fs)
  settled-append id (rejected x ∷ es) fs = omega (arith, settled-append id es fs)
  settled-append id (_ ∷ es) fs = settled-append id es fs

module _ (D : Type 0) where
  heard :
      (id : ℕ) (v : Verdict) (r : Request) (rs : List Request)
      → settled {D = D} id (settlement v r.id) + count_requests id (kept v r rs)
        ≡ hits id r.id + count_requests id rs
  unfolding settled count_requests
  heard id keeps r rs = omega arith
  heard id resolves r rs = omega arith
  heard id rejects r rs = omega arith

  -- A request that hears an event is settled or goes on waiting.
  pub hear_all-count :
      (id : ℕ) (f : Request → Books → Verdict × Books) (rs : List Request) (b : Books)
      → settled {D = D} id (hear_all f rs b).2 + count_requests id (hear_all {D = D} f rs b).0
        ≡ count_requests id rs
  unfolding hear_all count_requests
  hear_all-count id f [] b = unfold settled in omega arith
  hear_all-count id f (r ∷ rs) b =
      let (v, b1) = f r b in
      let (rest, b2, es) = hear_all {D = D} f rs b1 in
      let both : settled id (settlement {D = D} v r.id ++ es) + count_requests id (kept v r rest)
          ≡ hits id r.id + count_requests id rs =
        omega (
          arith,
          settled-append id (settlement {D = D} v r.id) es,
          heard id v r rest,
          hear_all-count id f rs b1,
        ) in
      both

  pub settled-rejects :
      (id : ℕ) (d : Dict ℕ) → settled {D = D} id (map rejected (Dict.values d)) ≡ count_matches id d
  unfolding settled count_matches Dict.values
  settled-rejects id [] = refl
  settled-rejects id ((ns, x) ∷ d) = omega (arith, settled-rejects id d)
