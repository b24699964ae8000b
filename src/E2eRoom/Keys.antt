-- ===== src/E2eRoom/Keys.antt =====
-- Two rooms of e2e.room.ts that exchange keys: what happens to one of them, and what is about keys.
use peer_server.Prelude.{
  ℕ, zero, suc, ◌+◌, ◌≡◌, ap, subst, arith, Option, none, some, List, [], ◌∷◌, ◌++◌, Text,
  get_elem?, take, drop,
}
use peer_server.E2eRoom.{
  Wire, key_offer, key_ack, encrypted, plain, raw, Job, deriving_offer, deriving_ack, E2eRoom,
  Effect, room_send,
}
use peer_server.E2eRoom.Steps.{
  Outcome, rejected, derived, data_comes, connects, exchange_timeout, job_ends, step,
}

module _ {P X D : Type 0} where
  -- What goes to the other room.
  unfoldable pub outgoing : List (Effect P X D) → List (Wire P X D)
  outgoing [] = []
  outgoing (room_send w ∷ es) = w ∷ outgoing es
  outgoing (_ ∷ es) = outgoing es

-- What happens to one of the two: a message comes, the promise of a job settles, the timer fires,
-- the connection is there.
pub data Act : Type 0 where
  deliver : Act
  settles : ℕ → Act
  fires meets : Act

module _ {S K P X D : Type 0} (derive : S → P → K) where
  -- The derivation of a key, which is fulfilled.
  unfoldable pub result : S → Option (Job P X D) → Outcome K X D
  result s (some (deriving_offer from key)) = derived (derive s key)
  result s (some (deriving_ack from key)) = derived (derive s key)
  result s _ = rejected

  -- The room, what is on the way to it, and what it sends.
  unfoldable pub act :
      S
      → Text
      → Act
      → E2eRoom K P X D
      → List (Wire P X D)
      → E2eRoom K P X D × List (Wire P X D) × List (Wire P X D)
  unfolding result outgoing
  act s other deliver r [] = (r, [], [])
  act s other deliver r (w ∷ ws) =
      let (r', es) = step (data_comes w other) r in (r', ws, outgoing es)
  act s other (settles i) r ws =
      let (r', es) = step (job_ends i (result s (get_elem? r.jobs i))) r in (r', ws, outgoing es)
  act s other fires r ws = let (r', es) = step exchange_timeout r in (r', ws, outgoing es)
  act s other meets r ws = let (r', es) = step (connects other) r in (r', ws, outgoing es)

-- A message with the public key of the other room, and a job that derives from it.
unfoldable pub IsKey : {P X D : Type 0} → P → Wire P X D → Type 0
IsKey key (key_offer k) = k ≡ key
IsKey key (key_ack k) = k ≡ key
IsKey key _ = ⊥

unfoldable pub AllKeys : {P X D : Type 0} → P → List (Wire P X D) → Type 0
AllKeys key [] = Unit
AllKeys key (w ∷ ws) = IsKey key w × AllKeys key ws

unfoldable pub IsDeriving : {P X D : Type 0} → Text → P → Job P X D → Type 0
IsDeriving fp key (deriving_offer from k) = (from ≡ fp) × (k ≡ key)
IsDeriving fp key (deriving_ack from k) = (from ≡ fp) × (k ≡ key)
IsDeriving fp key _ = ⊥

unfoldable pub AllDeriving : {P X D : Type 0} → Text → P → List (Job P X D) → Type 0
AllDeriving fp key [] = Unit
AllDeriving fp key (j ∷ js) = IsDeriving fp key j × AllDeriving fp key js

unfoldable pub offers : {P X D : Type 0} → List (Wire P X D) → ℕ
offers [] = 0
offers (key_offer k ∷ ws) = suc (offers ws)
offers (_ ∷ ws) = offers ws

unfoldable pub answers : {P X D : Type 0} → Job P X D → ℕ
answers (deriving_offer from k) = 1
answers _ = 0

unfoldable pub one : {P X D : Type 0} → Job P X D → ℕ
one j = 1

-- How many acts a message or a job can still lead to.
unfoldable pub freight : {P X D : Type 0} → List (Wire P X D) → ℕ
freight [] = 0
freight (key_offer k ∷ ws) = 4 + freight ws
freight (key_ack k ∷ ws) = 2 + freight ws
freight (_ ∷ ws) = 1 + freight ws

unfoldable pub labour : {P X D : Type 0} → Job P X D → ℕ
labour (deriving_offer from k) = 3
labour _ = 1

some_eq : {A : Type 0} (x y : A) → some x ≡ some y → x ≡ y
some_eq x y e = ap (λ o. elim o [ none ↦ x | some a ↦ a ]) e

module _ {P X D : Type 0} where
  pub AllKeys-append :
      (key : P) (ws vs : List (Wire P X D))
      → AllKeys key ws
      → AllKeys key vs
      → AllKeys key (ws ++ vs)
  unfolding AllKeys
  AllKeys-append key [] vs a b = b
  AllKeys-append key (w ∷ ws) vs (k, a) b = (k, AllKeys-append key ws vs a b)

  pub offers-append : (ws vs : List (Wire P X D)) → offers (ws ++ vs) ≡ offers ws + offers vs
  unfolding offers
  offers-append [] vs = omega arith
  offers-append (key_offer k ∷ ws) vs = omega (arith, offers-append ws vs)
  offers-append (_ ∷ ws) vs = offers-append ws vs

  pub AllDeriving-get :
      (fp : Text) (key : P) (js : List (Job P X D)) (i : ℕ) (j : Job P X D)
      → AllDeriving fp key js
      → get_elem? js i ≡ some j
      → IsDeriving fp key j
  unfolding AllDeriving
  AllDeriving-get fp key [] i j a e = ground arith
  AllDeriving-get fp key (x ∷ js) zero j (h, a) e =
      subst (λ y. IsDeriving fp key y) (some_eq x j e) h
  AllDeriving-get fp key (x ∷ js) (suc i) j (h, a) e = AllDeriving-get fp key js i j a e

  pub AllDeriving-without :
      (fp : Text) (key : P) (js : List (Job P X D)) (i : ℕ)
      → AllDeriving fp key js
      → AllDeriving fp key (take i js ++ drop (suc i) js)
  unfolding AllDeriving
  AllDeriving-without fp key [] zero a = tt
  AllDeriving-without fp key [] (suc i) a = tt
  AllDeriving-without fp key (x ∷ js) zero (h, a) = a
  AllDeriving-without fp key (x ∷ js) (suc i) (h, a) = (h, AllDeriving-without fp key js i a)

  pub freight-append : (ws vs : List (Wire P X D)) → freight (ws ++ vs) ≡ freight ws + freight vs
  unfolding freight
  freight-append [] vs = omega arith
  freight-append (key_offer k ∷ ws) vs = omega (arith, freight-append ws vs)
  freight-append (key_ack k ∷ ws) vs = omega (arith, freight-append ws vs)
  freight-append (encrypted x ∷ ws) vs = omega (arith, freight-append ws vs)
  freight-append (plain x ∷ ws) vs = omega (arith, freight-append ws vs)
  freight-append (raw x ∷ ws) vs = omega (arith, freight-append ws vs)
