-- ===== src/E2eRoom/Sides.antt =====
-- One of two rooms of e2e.room.ts that exchange keys: what holds of it, and what an act comes to.
use peer_server.Prelude.{
  ℕ, ◌+◌, ◌*◌, ◌≤◌, ◌≡◌, ◌∙◌, refl, ap, arith, Bool, true, false, leb, Option, none, some, List, [],
  ◌∷◌, ◌++◌, Text, text_eq_iff, get_elem?, length, if◌then◌else◌,
}
use peer_server.Dict
use peer_server.Dict.Laws.{get-put}
use peer_server.Weights.{weigh}
use peer_server.E2eRoom.{
  Phase, connecting, ended, ready, exchanging, is_ready, is_exchanging, Wire, key_offer, E2eRoom,
  room_send, error_event, state_changed, ready_event, same_phase,
}
use peer_server.E2eRoom.Steps.{}
use peer_server.E2eRoom.Keys.{
  outgoing, Act, deliver, settles, fires, meets, AllKeys, AllDeriving, offers, answers, one,
  freight, labour,
}

-- One of the two rooms, and what is on the way to it: the room is open, and all that comes to it
-- and waits in it has the other's public key.
pub record Side {S K P X D : Type 0} (derive : S → P → K) (s : S) (fp : Text) (own theirs : P)
    (r : E2eRoom K P X D) (ws : List (Wire P X D)) : Type 0 where
  pub is_open : r.closed ≡ false
  pub attached : r.has_room ≡ true
  pub keyed : r.initialized ≡ true
  pub mine : r.public_key ≡ own
  pub comes : AllKeys theirs ws
  pub waits : AllDeriving fp theirs r.jobs
  pub got :
      is_ready r.phase ≡ true
      → (r.remote_fingerprint ≡ fp) × (Dict.get fp r.keys ≡ some (derive s theirs))

abbrev pub done : {K P X D : Type 0} → E2eRoom K P X D → ℕ
done r = if is_ready r.phase then 1 else 0

-- What is to make a room ready, and what it is to answer.
abbrev pub need : {K P X D : Type 0} → E2eRoom K P X D → List (Wire P X D) → ℕ
need r ws = length ws + weigh one r.jobs

abbrev pub owes : {K P X D : Type 0} → E2eRoom K P X D → List (Wire P X D) → ℕ
owes r ws = offers ws + weigh answers r.jobs

abbrev pub begins : Act → ℕ
begins meets = 1
begins _ = 0

-- The acts to which a room and what is on the way to it can still lead.
abbrev pub load : {K P X D : Type 0} → E2eRoom K P X D → List (Wire P X D) → ℕ
load r ws = freight ws + weigh labour r.jobs

-- Whether there is something to act on.
abbrev pub present : {A : Type 0} → Option A → ℕ
present none = 0
present (some j) = 1

abbrev pub effort : {K P X D : Type 0} → Act → E2eRoom K P X D → List (Wire P X D) → ℕ
effort deliver r [] = 0
effort deliver r (w ∷ ws) = 1
effort (settles i) r ws = present (get_elem? r.jobs i)
effort fires r ws = 0
effort meets r ws = 0

-- What one act comes to: `c` is whether it begins an exchange, and whether it has an effect.
pub record Advance {S K P X D : Type 0} (derive : S → P → K) (s : S) (fp : Text) (own theirs : P)
    (c : ℕ × ℕ) (r : E2eRoom K P X D) (ws : List (Wire P X D))
    (q : E2eRoom K P X D × List (Wire P X D) × List (Wire P X D)) : Type 0 where
  pub side : Side derive s fp own theirs q.0 q.1
  pub sends : AllKeys own q.2
  pub goes_on : (if leb 1 (done r + need r ws) then 1 else 0) ≤ done q.0 + need q.0 q.1 + offers q.2
  pub started : c.0 ≤ offers q.2
  pub answered : owes r ws ≤ owes q.0 q.1 + length q.2
  pub spends : c.1 + load q.0 q.1 + freight q.2 ≤ load r ws + 4 * c.0

pub not_both : (p : Phase) → is_exchanging p ≡ true → is_ready p ≡ false
not_both exchanging e = refl
not_both connecting e = refl
not_both ended e = refl
not_both ready e = ground (arith, e)

module _ {S K P : Type 0} (derive : S → P → K) (s : S) where
  -- The key that is stored under the other's fingerprint.
  pub key_there :
      (fp from : Text) (theirs k : P) (keys : Dict.Dict K)
      → from ≡ fp
      → k ≡ theirs
      → Dict.get fp (Dict.put from (derive s k) keys) ≡ some (derive s theirs)
  key_there fp from theirs k keys e f =
      get-put from fp (derive s k) keys
      ∙ ap (λ b. if b then some (derive s k) else Dict.get fp keys) ((text_eq_iff from fp).1 e)
      ∙ ap (λ x. some (derive s x)) f

module _ (P X D : Type 0) where
  pub outgoing-errors :
      (b : Bool)
      → outgoing {P = P} {X = X} {D = D} (
          (if b then [] else error_event ∷ []) ++ (if b then [] else state_changed connecting ∷ []))
        ≡ []
  unfolding outgoing
  outgoing-errors true = refl
  outgoing-errors false = refl

  pub outgoing-ready :
      (p : Phase) (b : Bool) (from : Text)
      → outgoing {P = P} {X = X} {D = D} (
          (if same_phase p ready then [] else (if b then [] else state_changed ready ∷ []))
          ++ (if b then [] else ready_event from ∷ []))
        ≡ []
  unfolding outgoing
  outgoing-ready p b from = go (same_phase p ready) b
    where
      go :
          (a b : Bool)
          → outgoing {P = P} {X = X} {D = D} (
              (if a then [] else (if b then [] else state_changed ready ∷ []))
              ++ (if b then [] else ready_event from ∷ []))
            ≡ []
      go true true = refl
      go true false = refl
      go false true = refl
      go false false = refl

  pub outgoing-start :
      (p : Phase) (b : Bool) (key : P)
      → outgoing {P = P} {X = X} {D = D} (
          (if same_phase p exchanging
            then []
            else (if b then [] else state_changed exchanging ∷ []))
          ++ room_send (key_offer key) ∷ [])
        ≡ key_offer key ∷ []
  unfolding outgoing
  outgoing-start p b key = go (same_phase p exchanging) b
    where
      go :
          (a b : Bool)
          → outgoing {P = P} {X = X} {D = D} (
              (if a then [] else (if b then [] else state_changed exchanging ∷ []))
              ++ room_send (key_offer key) ∷ [])
            ≡ key_offer key ∷ []
      go true true = refl
      go true false = refl
      go false true = refl
      go false false = refl
