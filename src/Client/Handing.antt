-- ===== src/Client/Handing.antt =====
-- The map of the peers of a PeerClient (client.ts) and what createPeer hands out.
use peer_server.Prelude.{
  ltb, ◌⊎◌, ℕ, zero, suc, ◌<◌, ◌≡◌, refl, sym, ◌∙◌, inl, inr, true, false, Option, none, some, List,
  [], ◌∷◌, ◌++◌, Text, text_eq, text_eq_iff, arith, Bool-cases, length, length-append, get_or,
}
use peer_server.Dict
use peer_server.Dict.{Dict}
use peer_server.Dict.Laws.{Distinct, remove-Distinct, put-Distinct, get-put}
use peer_server.Client.{PeerClient}
use peer_server.Client.Peers.{
  among, shut_made, is_shut, live, new_peer, made_peer, make_peer, shut_peer, drop_peer,
}
use peer_server.Client.Messages.{}

-- Each entry of the map is an object that was made for its key.
unfoldable pub Kept : List Text → Dict ℕ → Type 0
Kept made [] = Unit
Kept made ((fp, o) ∷ d) = (o < length made) × (get_or made o [] ≡ fp) × Kept made d

-- No object is closed before it is made.
unfoldable pub ShutMade : List Text → List ℕ → Type 0
ShutMade made shut = (o : ℕ) → among o shut ≡ true → o < length made

unfoldable pub Sound : PeerClient → Type 0
Sound c = Distinct c.peers × Kept c.made c.peers × ShutMade c.made c.shut

pub Kept-remove :
    (made : List Text) (fp : Text) (d : Dict ℕ) → Kept made d → Kept made (Dict.remove fp d)
unfolding Dict.remove Kept
Kept-remove made fp [] k = tt
Kept-remove made fp ((j, o) ∷ d) (b, e, k) = elim (Bool-cases (text_eq j fp)) [
  | inl same ↦ rw same (Kept-remove made fp d k)
  | inr other ↦ rw other (b, e, Kept-remove made fp d k)
]

pub Kept-put :
    (made : List Text) (fp : Text) (o : ℕ) (d : Dict ℕ)
    → o < length made
    → get_or made o [] ≡ fp
    → Kept made d
    → Kept made (Dict.put fp o d)
unfolding Dict.put Kept
Kept-put made fp o [] b e k = (b, e, tt)
Kept-put made fp o ((j, x) ∷ d) b e (b', e', k) = elim (Bool-cases (text_eq j fp)) [
  | inl same ↦ rw same (b, e ∙ sym ((text_eq_iff j fp).0 same), k)
  | inr other ↦ rw other (b', e', Kept-put made fp o d b e k)
]

pub get_or-append :
    (xs ys : List Text) (o : ℕ) → o < length xs → get_or (xs ++ ys) o [] ≡ get_or xs o []
get_or-append [] ys o h = ground arith
get_or-append (x ∷ xs) ys zero h = refl
get_or-append (x ∷ xs) ys (suc o) h = get_or-append xs ys o (omega (arith, h))

pub get_or_last : (xs : List Text) (x : Text) → get_or (xs ++ x ∷ []) (length xs) [] ≡ x
get_or_last [] x = refl
get_or_last (y ∷ xs) x = get_or_last xs x

pub Kept-append :
    (made : List Text) (fp : Text) (d : Dict ℕ) → Kept made d → Kept (made ++ fp ∷ []) d
unfolding Kept
Kept-append made fp [] k = tt
Kept-append made fp ((j, o) ∷ d) (b, e, k) = (
  omega (arith, length-append made (fp ∷ []), b),
  get_or-append made (fp ∷ []) o b ∙ e,
  Kept-append made fp d k,
)

pub new_peer-Sound : (fp : Text) (c : PeerClient) → Sound c → Sound (new_peer fp c)
unfolding Sound new_peer ShutMade
new_peer-Sound fp c (t, k, z) = (
  put-Distinct fp _ _ (remove-Distinct fp c.peers t),
  Kept-put (c.made ++ fp ∷ []) fp (length c.made) (Dict.remove fp c.peers)
      (omega (arith, length-append c.made (fp ∷ []))) (get_or_last c.made fp)
      (Kept-append c.made fp _ (Kept-remove c.made fp c.peers k)),
  λ o h. omega (arith, length-append c.made (fp ∷ []), z o h),
)

pub make_peer-Sound : (fp : Text) (c : PeerClient) → Sound c → Sound (make_peer fp c).1
unfolding make_peer
make_peer-Sound fp c s = made (live (Dict.get fp c.peers) c)
  where
    made : (o : Option ℕ) → Sound (made_peer o fp c).1
    made none = new_peer-Sound fp c s
    made (some o) = s

pub drop_peer-Sound : (fp : Text) (c : PeerClient) → Sound c → Sound (drop_peer fp c)
unfolding drop_peer Sound ShutMade
drop_peer-Sound fp c (t, k, z) = (remove-Distinct fp c.peers t, Kept-remove c.made fp c.peers k, z)

pub shut_peer-Sound : (o : ℕ) (c : PeerClient) → o < length c.made → Sound c → Sound (shut_peer o c)
unfolding shut_peer Sound ShutMade among
shut_peer-Sound o c b (t, k, z) = (t, k, λ x h. ground (arith, z x))

pub shut_made-Sound : (o : ℕ) (c : PeerClient) → Sound c → Sound (shut_made o c)
unfolding shut_made
shut_made-Sound o c s = elim (Bool-cases (ltb o (length c.made))) [
  | inl made ↦ rw made (shut_peer-Sound o c (ground arith) s)
  | inr other ↦ rw other s
]

-- What an entry of the map is.
pub Kept-get :
    (made : List Text) (fp : Text) (d : Dict ℕ) (o : ℕ)
    → Kept made d
    → Dict.get fp d ≡ some o
    → (o < length made) × (get_or made o [] ≡ fp)
unfolding Kept Dict.get
Kept-get made fp [] o k e = (ground arith, ground arith)
Kept-get made fp ((j, x) ∷ d) o (b, m, k) e = elim (Bool-cases (text_eq j fp)) [
  | inl same ↦ (ground (arith, b), ground (arith, (text_eq_iff j fp).0 same, m))
  | inr other ↦ Kept-get made fp d o k (ground (arith, e))
]

-- No peer of the map for `fp` that is not closed.
abbrev pub NoneOpen : Text → PeerClient → Type 0
NoneOpen fp c =
    (Dict.get fp c.peers ≡ none)
    ⊎ ((x : ℕ) × (Dict.get fp c.peers ≡ some x) × (among x c.shut ≡ true))

-- What `createPeer` promises of the peer `o` that it hands out for `fp`, in the state `c`, and of the
-- state `c'` that it leaves: the map has that peer, it is not closed, it was made for `fp`, and it is
-- the one that was there, with nothing changed, unless that was missing or closed.
pub record IsHandedOut (fp : Text) (c : PeerClient) (o : ℕ) (c' : PeerClient) : Type 0 where
  pub in_map : Dict.get fp c'.peers ≡ some o
  pub not_shut : among o c'.shut ≡ false
  pub made_for : get_or c'.made o [] ≡ fp
  pub reused : ((Dict.get fp c.peers ≡ some o) × (c' ≡ c)) ⊎ (NoneOpen fp c × (o ≡ length c.made))

pub new_peer-IsHandedOut :
    (fp : Text) (c : PeerClient)
    → Sound c
    → NoneOpen fp c
    → IsHandedOut fp c (length c.made) (new_peer fp c)
unfolding new_peer Sound ShutMade
new_peer-IsHandedOut fp c (t, k, z) gone = record {
  in_map =
      ground (arith, get-put fp fp (length c.made) (Dict.remove fp c.peers), text_eq_iff fp fp);
  not_shut = elim (Bool-cases (among (length c.made) c.shut)) [
    | inl h ↦ absurd (omega (arith, z (length c.made) h))
    | inr h ↦ h
  ];
  made_for = get_or_last c.made fp;
  reused = inr (gone, refl);
}

pub old_peer-IsHandedOut :
    (fp : Text) (c : PeerClient) (o : ℕ)
    → Sound c
    → Dict.get fp c.peers ≡ some o
    → among o c.shut ≡ false
    → IsHandedOut fp c o c
unfolding Sound
old_peer-IsHandedOut fp c o (t, k, z) e h = record {
  in_map = e;
  not_shut = h;
  made_for = (Kept-get c.made fp c.peers o k e).1;
  reused = inl (e, refl);
}

pub make_peer-IsHandedOut :
    (fp : Text) (c : PeerClient) → Sound c → IsHandedOut fp c (make_peer fp c).0 (make_peer fp c).1
unfolding make_peer live is_shut
make_peer-IsHandedOut fp c s = found (Dict.get fp c.peers) refl
  where
    found :
        (o : Option ℕ)
        → Dict.get fp c.peers ≡ o
        → IsHandedOut fp c (made_peer (live o c) fp c).0 (made_peer (live o c) fp c).1
    found none e = new_peer-IsHandedOut fp c s (inl e)
    found (some o) e = elim (Bool-cases (among o c.shut)) [
      | inl gone ↦ rw gone (new_peer-IsHandedOut fp c s (inr (o, e, gone)))
      | inr there ↦ rw there (old_peer-IsHandedOut fp c o s e there)
    ]
