-- ===== src/StateSync/Valid.antt =====
-- The invariant of StateSync (sync.ts, class StateSync): each key stands once and over an entry
-- for that key, and the clock is not behind any entry that is stored.
use peer_server.Prelude.{
  ℕ, ◌≡◌, refl, inl, inr, false, Option, none, some, List, [], ◌∷◌, Text, text_eq_iff, arith,
  Bool-cases, if◌then◌else◌,
}
use peer_server.Dict
use peer_server.Dict.{Dict}
use peer_server.Dict.Laws.{get-put, Distinct, put-Distinct}
use peer_server.Hlc.{Hlc, is_later}
use peer_server.Hlc.Order.{Later, Later-trans}
use peer_server.Hlc.Clock.{create_hlc-Later, merge_hlc-Later}
use peer_server.StateSync.{StateSync, SyncState, SyncMode, create, tick, store, observe}
use peer_server.StateSync.Session.{
  is_expired, without_expired, purge_tombstones, start, destroy, Op, step, run,
}
use peer_server.StateSync.Induction.{step_keeps, run_keeps}

-- A clock that is not later than `h` is not later than any clock after `h`.
pub not-Later_mono : (e h h' : Hlc) → Later h' h → is_later e h ≡ false → is_later e h' ≡ false
not-Later_mono e h h' p q = ground (arith, Later-trans e h' h)

module _ {V : Type 0} where
  pub record IsValid (s : StateSync V) : Type 0 where
    pub distinct : Distinct s.state
    pub keyed : (k : Text) (e : SyncState V) → Dict.get k s.state ≡ some e → e.key ≡ k
    pub ahead :
        (k : Text) (e : SyncState V) → Dict.get k s.state ≡ some e → is_later e.hlc s.hlc ≡ false

  abbrev pub unless_expired : ℕ → Option (SyncState V) → Option (SyncState V)
  unless_expired now none = none
  unless_expired now (some e) = if is_expired now e then none else some e

  has-without_expired :
      (now : ℕ) (k : Text) (d : Dict (SyncState V))
      → Dict.has k d ≡ false
      → Dict.has k (without_expired now d) ≡ false
  unfolding Dict.has without_expired
  has-without_expired now k [] h = refl
  has-without_expired now k ((i, e) ∷ d) h = ground (arith, has-without_expired now k d)

  without_expired-Distinct :
      (now : ℕ) (d : Dict (SyncState V)) → Distinct d → Distinct (without_expired now d)
  unfolding without_expired
  without_expired-Distinct now [] h = tt
  without_expired-Distinct now ((i, e) ∷ d) (n, h) = elim (Bool-cases (is_expired now e)) [
    | inl x ↦ rw x (without_expired-Distinct now d h)
    | inr x ↦ rw x (has-without_expired now i d n, without_expired-Distinct now d h)
  ]

  pub get-absent : (k : Text) (d : Dict (SyncState V)) → Dict.has k d ≡ false → Dict.get k d ≡ none
  unfolding Dict.has Dict.get
  get-absent k [] h = refl
  get-absent k ((i, e) ∷ d) h = ground (arith, get-absent k d)

  -- What a lookup finds after the purge.
  pub get-without_expired :
      (now : ℕ) (k : Text) (d : Dict (SyncState V))
      → Distinct d
      → Dict.get k (without_expired now d) ≡ unless_expired now (Dict.get k d)
  unfolding Dict.get without_expired
  get-without_expired now k [] h = refl
  get-without_expired now k ((i, e) ∷ d) (n, h) = ground (
    arith,
    get-without_expired now k d h,
    text_eq_iff i k,
    get-absent k (without_expired now d),
    has-without_expired now k d,
  )

  create-IsValid : (s : StateSync V) → s.state ≡ [] → IsValid s
  unfolding Dict.get
  create-IsValid s e = record {
    distinct = rw e tt;
    keyed = λ k x p. ground arith;
    ahead = λ k x p. ground arith;
  }

  pub observe-IsValid :
      (now : ℕ) (r : Hlc) (s : StateSync V) → IsValid s → IsValid (observe now r s)
  unfolding observe
  observe-IsValid now r s h = record {
    distinct = h.distinct;
    keyed = h.keyed;
    ahead = λ k e p.
        not-Later_mono e.hlc s.hlc _ (merge_hlc-Later now s.hlc r s.fingerprint).0 (h.ahead k e p);
  }

  pub tick-IsValid : (now : ℕ) (s : StateSync V) → IsValid s → IsValid (tick now s)
  unfolding tick
  tick-IsValid now s h = record {
    distinct = h.distinct;
    keyed = h.keyed;
    ahead = λ k e p.
        not-Later_mono e.hlc s.hlc _ (create_hlc-Later now s.fingerprint s.hlc) (h.ahead k e p);
  }

  store-IsValid :
      (e : SyncState V) (s : StateSync V)
      → is_later e.hlc s.hlc ≡ false
      → IsValid s
      → IsValid (store e s)
  unfolding store
  store-IsValid e s n h = record {
    distinct = put-Distinct e.key e s.state h.distinct;
    keyed = λ k e' p. ground (arith, get-put e.key k e s.state, h.keyed k e', text_eq_iff e.key k);
    ahead = λ k e' p. ground (arith, get-put e.key k e s.state, h.ahead k e');
  }

  purge-IsValid : (now : ℕ) (s : StateSync V) → IsValid s → IsValid (purge_tombstones now s)
  unfolding purge_tombstones
  purge-IsValid now s h = record {
    distinct = without_expired-Distinct now s.state h.distinct;
    keyed = λ k e p. ground (arith, get-without_expired now k s.state h.distinct, h.keyed k e);
    ahead = λ k e p. ground (arith, get-without_expired now k s.state h.distinct, h.ahead k e);
  }

  start-IsValid : (s : StateSync V) → IsValid s → IsValid (start s)
  unfolding start
  start-IsValid s h = record { distinct = h.distinct; keyed = h.keyed; ahead = h.ahead }

  destroy-IsValid : (s : StateSync V) → IsValid s → IsValid (destroy s)
  unfolding destroy
  destroy-IsValid s h = create-IsValid _ refl

  pub step-IsValid :
      (now : ℕ → ℕ) (op : Op V) (s : StateSync V) → IsValid s → IsValid (step now op s).0
  step-IsValid =
      step_keeps IsValid observe-IsValid tick-IsValid store-IsValid purge-IsValid start-IsValid
        destroy-IsValid

  -- Whatever the operations and the wall clock, every run from a valid state ends in one: each key
  -- stands once and over an entry for that key, and no stored entry is later than the clock.
  pub run-IsValid :
      (clock : ℕ → ℕ → ℕ) (n : ℕ) (ops : List (Op V)) (s : StateSync V)
      → IsValid s
      → IsValid (run clock n ops s)
  run-IsValid =
      run_keeps IsValid observe-IsValid tick-IsValid store-IsValid purge-IsValid start-IsValid
        destroy-IsValid

  pub created-IsValid :
      (fp room : Text) (mode : SyncMode) (merge : Option (Option V → Option V → Option V)) (now : ℕ)
      {s : StateSync V}
      → create fp room mode merge now ≡ some s
      → IsValid s
  unfolding create
  created-IsValid fp room mode merge now {s} e = create-IsValid s (ground arith)
