-- ===== src/Tests/Sync.antt =====
-- Two replicas of sync.ts in one room, which both write the key "k".
use peer_server.Prelude.{
  text_eq_iff, ◌⊎◌, ◌↔◌, ◌<◌, ℕ, ◌≡◌, inl, inr, refl, ap, sym, subst, ◌∙◌, true, false, some, none,
  List, [], ◌∷◌, Text, text, text_eq, text_compare, arith, ◌+◌,
}
use peer_server.Dict
use peer_server.Hlc.{create_hlc, is_later, compare_hlc, compare_node}
use peer_server.Hlc.Order.{Later, compare_hlc-zero_iff}
use peer_server.StateSync.{
  SyncState, lww, operational, StateSync, update, tick, set, own_entry, get, store,
}
use peer_server.StateSync.Remote.{handle_update}
use peer_server.StateSync.Session.{
  Op, set_op, broadcast_op, run, step, on_broadcast, handle_remote_update, send_state_to,
  full_state_of, purge_tombstones, without_expired, is_expired,
}
use peer_server.StateSync.Valid.{IsValid, step-IsValid, run-IsValid}
use peer_server.StateSync.Best.{In, Coherent, SameMembers, merge_entries}
use peer_server.StateSync.History.{
  history, entries_of, delivered_if, delivered_times, delivered, present,
}
use peer_server.StateSync.Convergence.{IsFresh, run-eq-merge_entries, replicas_converge}
use peer_server.StateSync.Behaviour.{purge_tombstones-get, update-operational, run_monotone}
use peer_server.StateSync.Handover.{state_transfer}

abbrev replica : Text → StateSync ℕ
replica fp = record {
  fingerprint = fp;
  room_id = text "r";
  mode = lww;
  merge = none;
  state = [];
  hlc = record { ts = 5; counter = 0; node = fp };
  listeners = 1;
}

replica-IsValid : (fp : Text) → IsValid (replica fp)
unfolding Dict.get
replica-IsValid fp = record {
  distinct = tt;
  keyed = λ k e p. ground arith;
  ahead = λ k e p. ground arith;
}

replica-IsFresh : (fp : Text) → IsFresh (replica fp)
replica-IsFresh fp = record { empty = refl; lww_mode = refl; valid = replica-IsValid fp }

abbrev wall : ℕ → ℕ → ℕ
wall n i = 10 + n

abbrev entry_of : Text → ℕ → SyncState ℕ
entry_of fp v = record {
  key = text "k";
  value = some v;
  hlc = record { ts = 10; counter = 0; node = fp };
  from = fp;
  version = 0;
  deleted = false;
}

abbrev from_a : SyncState ℕ
from_a = entry_of (text "a") 1

abbrev from_b : SyncState ℕ
from_b = entry_of (text "b") 2

abbrev ops_a : List (Op ℕ)
ops_a =
    set_op (text "k") (some 1)
    ∷ broadcast_op (text "b") (text "r") (some (update (some from_b)))
    ∷ []

abbrev ops_b : List (Op ℕ)
ops_b =
    set_op (text "k") (some 2)
    ∷ broadcast_op (text "a") (text "r") (some (update (some from_a)))
    ∷ []

history_a : history wall 0 ops_a (replica (text "a")) ≡ from_a ∷ from_b ∷ []
unfolding history entries_of delivered_if delivered_times delivered present own_entry tick
    create_hlc step set on_broadcast text_eq
history_a = refl

history_b : history wall 0 ops_b (replica (text "b")) ≡ from_b ∷ from_a ∷ []
unfolding history entries_of delivered_if delivered_times delivered present own_entry tick
    create_hlc step set on_broadcast text_eq
history_b = refl

swapped : (x y z : SyncState ℕ) → In x (y ∷ z ∷ []) → In x (z ∷ y ∷ [])
swapped x y z (inl e) = inr (inl e)
swapped x y z (inr (inl e)) = inl e
swapped x y z (inr (inr e)) = inr (inr e)

SameMembers-ab : SameMembers (from_a ∷ from_b ∷ []) (from_b ∷ from_a ∷ [])
SameMembers-ab x = (swapped x from_a from_b, swapped x from_b from_a)

other_clock : from_a.hlc ≡ from_b.hlc → ⊥
unfolding compare_hlc compare_node text_compare
other_clock e = ground (arith, (compare_hlc-zero_iff from_a.hlc from_b.hlc).1 e)

distinct_clocks : (x y : SyncState ℕ) → from_a ≡ x → from_b ≡ y → x.hlc ≡ y.hlc → x ≡ y
distinct_clocks x y p q e =
    absurd (
      other_clock (ap (λ (z : SyncState ℕ). z.hlc) p ∙ e ∙ sym (ap (λ (z : SyncState ℕ). z.hlc) q)))

Coherent-ab : Coherent (from_a ∷ from_b ∷ [])
Coherent-ab x y (inl p) (inl q) k e = sym p ∙ q
Coherent-ab x y (inl p) (inr (inl q)) k e = distinct_clocks x y p q e
Coherent-ab x y (inr (inl p)) (inl q) k e = sym (distinct_clocks y x q p (sym e))
Coherent-ab x y (inr (inl p)) (inr (inl q)) k e = sym p ∙ q
Coherent-ab x y (inl p) (inr (inr n)) k e = absurd n
Coherent-ab x y (inr (inl p)) (inr (inr n)) k e = absurd n
Coherent-ab x y (inr (inr n)) _ k e = absurd n

abbrev written : Text → StateSync ℕ
written fp = (set 10 (text "k") (some 1) (replica fp)).0

written-IsValid : IsValid (written (text "a"))
unfolding step
written-IsValid =
    step-IsValid (wall 0) (set_op (text "k") (some 1)) (replica (text "a"))
      (replica-IsValid (text "a"))

replicas_converge_example :
    (Dict.get (text "k") (run wall 0 ops_a (replica (text "a"))).state
      ≡ Dict.get (text "k") (run wall 0 ops_b (replica (text "b"))).state)
    × (get (text "k") (run wall 0 ops_a (replica (text "a")))
        ≡ get (text "k") (run wall 0 ops_b (replica (text "b"))))
replicas_converge_example =
    replicas_converge wall wall 0 0 ops_a ops_b (replica (text "a")) (replica (text "b"))
      (replica-IsFresh (text "a")) (replica-IsFresh (text "b")) tt tt
      (subst (λ es. SameMembers (history wall 0 ops_a (replica (text "a"))) es) (sym history_b)
        (subst (λ es. SameMembers es (from_b ∷ from_a ∷ [])) (sym history_a) SameMembers-ab))
      (subst Coherent (sym history_a) Coherent-ab) (text "k")

run-IsValid_example : IsValid (run wall 0 ops_a (replica (text "a")))
run-IsValid_example = run-IsValid wall 0 ops_a (replica (text "a")) (replica-IsValid (text "a"))

run-eq-merge_entries_example :
    (run wall 0 ops_a (replica (text "a"))).state
    ≡ merge_entries (history wall 0 ops_a (replica (text "a"))) []
run-eq-merge_entries_example =
    run-eq-merge_entries wall 0 ops_a (replica (text "a")) tt refl (replica-IsValid (text "a"))

-- The entry of `b` replaces the one of `a`: it has the later clock.
run_monotone_example :
    (x : SyncState ℕ) × (Dict.get (text "k") (run wall 1 ops_a (written (text "a"))).state ≡ some x)
    × ((x ≡ from_a) ⊎ Later x.hlc from_a.hlc)
unfolding set own_entry tick store create_hlc Dict.get Dict.put text_eq
run_monotone_example =
    run_monotone wall 1 ops_a (written (text "a")) (text "k") from_a tt refl written-IsValid refl

-- A tombstone that is old, one that is fresh, and a live entry.
abbrev tombstone : Text → ℕ → SyncState ℕ
tombstone k ts = record {
  key = k;
  value = none;
  hlc = record { ts = ts; counter = 0; node = text "b" };
  from = text "b";
  version = 0;
  deleted = true;
}

abbrev mixed : StateSync ℕ
mixed = record (replica (text "a")) {
  state =
      (text "k", from_a)
      ∷ (text "x", tombstone (text "x") 10)
      ∷ (text "y", tombstone (text "y") 80000)
      ∷ [];
  hlc = record { ts = 80001; counter = 0; node = text "a" };
}

mixed-IsValid : IsValid mixed
unfolding Dict.get Dict.has text_eq is_later compare_hlc
mixed-IsValid = record {
  distinct = (refl, (refl, (refl, tt)));
  keyed = λ k e p.
      ground (arith, text_eq_iff (text "k") k, text_eq_iff (text "x") k, text_eq_iff (text "y") k);
  ahead = λ k e p. ground arith;
}

purge_tombstones-get_example :
    (get (text "x") (purge_tombstones 90000 mixed) ≡ get (text "x") mixed)
    × ((Dict.get (text "x") (purge_tombstones 90000 mixed).state ≡ none)
        ↔ ((true ≡ true) × (60000 + 10 < 90000)))
    × ((Dict.get (text "x") (purge_tombstones 90000 mixed).state ≡ none)
        ⊎ (Dict.get (text "x") (purge_tombstones 90000 mixed).state
            ≡ some (tombstone (text "x") 10)))
unfolding Dict.get text_eq
purge_tombstones-get_example =
    purge_tombstones-get 90000 (text "x") (tombstone (text "x") 10) mixed mixed-IsValid refl

-- Of the three, the purge drops just the old tombstone.
purged :
    (purge_tombstones 90000 mixed).state
    ≡ (text "k", from_a) ∷ (text "y", tombstone (text "y") 80000) ∷ []
unfolding purge_tombstones without_expired is_expired
purged = refl

state_transfer_example :
    Dict.get
      (text "k")
      (handle_remote_update
        (wall 0)
        (full_state_of (from_a ∷ []))
        (text "a")
        (replica (text "b"))).0.state
    ≡ Dict.get (text "k") (written (text "a")).state
unfolding send_state_to Dict.values set own_entry tick store create_hlc Dict.put
state_transfer_example =
    state_transfer (wall 0) (written (text "a")) (replica (text "b")) (text "b") (text "a")
      (text "r") (full_state_of (from_a ∷ [])) (text "k") written-IsValid
      (replica-IsFresh (text "b")) refl

abbrev merging : StateSync ℕ
merging = record (written (text "a")) { mode = operational; merge = some (λ l r. r) }

merging-IsValid : IsValid merging
merging-IsValid = record {
  distinct = written-IsValid.distinct;
  keyed = written-IsValid.keyed;
  ahead = written-IsValid.ahead;
}

update-operational_example :
    (e : SyncState ℕ) × (Dict.get
        (text "k")
        (handle_update (wall 2) (some from_b) (text "b") merging).0.state
      ≡ some e)
    × (get (text "k") (handle_update (wall 2) (some from_b) (text "b") merging).0 ≡ some 2)
    × Later e.hlc from_a.hlc
    × Later e.hlc from_b.hlc
unfolding set own_entry tick store create_hlc Dict.put Dict.get text_eq
update-operational_example =
    update-operational (wall 2) from_b from_a (λ l r. r) (text "b") merging merging-IsValid refl
      refl refl refl
