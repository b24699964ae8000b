-- ===== src/StateSync/Best.antt =====
-- Last-writer-wins as a specification: for each key, the latest of the entries that were merged.
-- Relates `merge_entries`, the repeated store of sync.ts, to that choice.
use peer_server.Prelude.{
  ◌≡◌, ◌⊎◌, ◌∙◌, ◌↔◌, subst, refl, inl, inr, true, false, Option, none, some, List, [], ◌∷◌, ◌++◌,
  Text, text_eq, text_eq_iff, arith, Bool-cases, Option-cases, if◌then◌else◌, ◌&&◌, ap, sym,
}
use peer_server.Dict
use peer_server.Dict.{Dict}
use peer_server.Dict.Laws.{get-put}
use peer_server.Hlc.{is_later}
use peer_server.Hlc.Order.{Later-trans, is_later_irrefl, is_later_antisymm}
use peer_server.StateSync.{SyncState, wins}

-- `x` is a member of the list.
abbrev pub In : {A : Type 0} → A → List A → Type 0
In x [] = ⊥
In x (y ∷ ys) = (y ≡ x) ⊎ In x ys

module _ {V : Type 0} where
  unfoldable pub merge_entry : SyncState V → Dict (SyncState V) → Dict (SyncState V)
  merge_entry e d = if wins (Dict.get e.key d) e then Dict.put e.key e d else d

  unfoldable pub merge_entries : List (SyncState V) → Dict (SyncState V) → Dict (SyncState V)
  merge_entries [] d = d
  merge_entries (e ∷ es) d = merge_entries es (merge_entry e d)

  unfoldable pub better : Text → SyncState V → Option (SyncState V) → Option (SyncState V)
  better k e o = if text_eq e.key k && wins o e then some e else o

  -- The latest entry for the key `k`, of the given one and those of the list.
  unfoldable pub best : Text → List (SyncState V) → Option (SyncState V) → Option (SyncState V)
  best k [] o = o
  best k (e ∷ es) o = best k es (better k e o)

  get-merge_entry :
      (k : Text) (e : SyncState V) (d : Dict (SyncState V))
      → Dict.get k (merge_entry e d) ≡ better k e (Dict.get k d)
  unfolding merge_entry better
  get-merge_entry k e d = elim (Bool-cases (wins (Dict.get e.key d) e)) [
    | inl w ↦ rw w (ground (arith, get-put e.key k e d, text_eq_iff e.key k))
    | inr l ↦ rw l (ground (arith, text_eq_iff e.key k))
  ]

  pub get-merge_entries :
      (k : Text) (es : List (SyncState V)) (d : Dict (SyncState V))
      → Dict.get k (merge_entries es d) ≡ best k es (Dict.get k d)
  unfolding merge_entries best
  get-merge_entries k [] d = refl
  get-merge_entries k (e ∷ es) d =
      rw (get-merge_entries k es (merge_entry e d), get-merge_entry k e d)

  pub merge_entries-append :
      (es fs : List (SyncState V)) (d : Dict (SyncState V))
      → merge_entries (es ++ fs) d ≡ merge_entries fs (merge_entries es d)
  unfolding merge_entries
  merge_entries-append [] fs d = refl
  merge_entries-append (e ∷ es) fs d = merge_entries-append es fs (merge_entry e d)

  -- The latest entry is the given one or one of the list, for that key.
  best-In :
      (k : Text) (es : List (SyncState V)) (o : Option (SyncState V)) (x : SyncState V)
      → best k es o ≡ some x
      → (o ≡ some x) ⊎ (In x es × (x.key ≡ k))
  unfolding best
  best-In k [] o x h = inl h
  best-In k (e ∷ es) o x h = elim (best-In k es (better k e o) x h) [
    | inr (m, q) ↦ inr (inr m, q)
    | inl p ↦ unfold better in ground (arith, text_eq_iff e.key k)
  ]

  -- What is at least as late as `e`.
  abbrev pub Covers : SyncState V → Option (SyncState V) → Type 0
  Covers e none = ⊥
  Covers e (some x) = is_later e.hlc x.hlc ≡ false

  better-Covers :
      (k : Text) (e y : SyncState V) (o : Option (SyncState V))
      → Covers y o
      → Covers y (better k e o)
  unfolding better wins
  better-Covers k e y none h = elim h [ ]
  better-Covers k e y (some x) h = elim (Bool-cases (text_eq e.key k && is_later e.hlc x.hlc)) [
    | inl w ↦ rw w (ground (arith, Later-trans y.hlc e.hlc x.hlc))
    | inr l ↦ rw l h
  ]

  pub best-Covers :
      (k : Text) (es : List (SyncState V)) (y : SyncState V) (o : Option (SyncState V))
      → Covers y o
      → Covers y (best k es o)
  unfolding best
  best-Covers k [] y o h = h
  best-Covers k (e ∷ es) y o h = best-Covers k es y (better k e o) (better-Covers k e y o h)

  -- The entry itself, or a later one.
  abbrev pub Succeeds : SyncState V → SyncState V → Type 0
  Succeeds x y = (x ≡ y) ⊎ (is_later x.hlc y.hlc ≡ true)

  Succeeds-later : (e x y : SyncState V) → is_later e.hlc x.hlc ≡ true → Succeeds x y → Succeeds e y
  Succeeds-later e x y w (inl p) = inr (ap (λ (z : SyncState V). is_later e.hlc z.hlc) (sym p) ∙ w)
  Succeeds-later e x y w (inr l) = inr (Later-trans e.hlc x.hlc y.hlc w l)

  better-Succeeds :
      (k : Text) (e x y : SyncState V)
      → Succeeds x y
      → (z : SyncState V) × (better k e (some x) ≡ some z) × Succeeds z y
  unfolding better wins
  better-Succeeds k e x y h = elim (Bool-cases (text_eq e.key k && is_later e.hlc x.hlc)) [
    | inl w ↦ rw w (e, refl, Succeeds-later e x y (ground arith) h)
    | inr l ↦ rw l (x, refl, h)
  ]

  -- An entry that is there is replaced by a later one only.
  pub best-Succeeds :
      (k : Text) (es : List (SyncState V)) (x y : SyncState V)
      → Succeeds x y
      → (z : SyncState V) × (best k es (some x) ≡ some z) × Succeeds z y
  unfolding best
  best-Succeeds k [] x y h = (x, refl, h)
  best-Succeeds k (e ∷ es) x y h =
      let (x', p, h') = better-Succeeds k e x y h in
      let (z, q, s) = best-Succeeds k es x' y h' in (z, ap (best k es) p ∙ q, s)

  better_self :
      (k : Text) (e : SyncState V) (o : Option (SyncState V)) → e.key ≡ k → Covers e (better k e o)
  unfolding better wins
  better_self k e none p = ground (arith, text_eq_iff e.key k, is_later_irrefl e.hlc)
  better_self k e (some x) p = elim (Bool-cases (is_later e.hlc x.hlc)) [
    | inl w ↦ rw ((text_eq_iff e.key k).1 p, w) (is_later_irrefl e.hlc)
    | inr l ↦ rw ((text_eq_iff e.key k).1 p, l) l
  ]

  -- No entry of the list for that key is later than the latest.
  best_latest :
      (k : Text) (es : List (SyncState V)) (o : Option (SyncState V)) (y : SyncState V)
      → In y es
      → y.key ≡ k
      → Covers y (best k es o)
  unfolding best
  best_latest k [] o y h q = elim h [ ]
  best_latest k (e ∷ es) o y (inl p) q = best-Covers k es y (better k e o) (
      subst (λ z. Covers z (better k e o)) p
        (better_self k e o (ap (λ (z : SyncState V). z.key) p ∙ q)))
  best_latest k (e ∷ es) o y (inr m) q = best_latest k es (better k e o) y m q

  -- Entries for one key with one clock are one entry.
  abbrev pub Coherent : List (SyncState V) → Type 0
  Coherent es = (x y : SyncState V) → In x es → In y es → x.key ≡ y.key → x.hlc ≡ y.hlc → x ≡ y

  abbrev pub SameMembers : List (SyncState V) → List (SyncState V) → Type 0
  SameMembers es fs = (x : SyncState V) → In x es ↔ In x fs

  not_none : (x : SyncState V) (o : Option (SyncState V)) → Covers x o → o ≡ none → ⊥
  not_none x none h p = h
  not_none x (some y) h p = cc

  Covers-at :
      (x y : SyncState V) (o : Option (SyncState V))
      → o ≡ some y
      → Covers x o
      → is_later x.hlc y.hlc ≡ false
  Covers-at x y o p h = subst (Covers x) p h

  from_list :
      (k : Text) (es : List (SyncState V)) (x : SyncState V)
      → best k es none ≡ some x
      → In x es × (x.key ≡ k)
  from_list k es x h = elim (best-In k es none x h) [ inl p ↦ cc | inr m ↦ m ]

  pub best_same :
      (k : Text) (es fs : List (SyncState V))
      → SameMembers es fs
      → Coherent es
      → best k es none ≡ best k fs none
  best_same k es fs same co = elim (Option-cases (best k es none)) [
    | inl p ↦ elim (Option-cases (best k fs none)) [
      | inl q ↦ p ∙ sym q
      | inr (y, q) ↦
          let (m, e) = from_list k fs y q in
          absurd (not_none y _ (best_latest k es none y ((same y).1 m) e) p)
    ]
    | inr (x, p) ↦ elim (Option-cases (best k fs none)) [
      | inl q ↦
          let (m, e) = from_list k es x p in
          absurd (not_none x _ (best_latest k fs none x ((same x).0 m) e) q)
      | inr (y, q) ↦
          let (m, e) = from_list k es x p in
          let (m', e') = from_list k fs y q in
          let one : x ≡ y = co x y m ((same y).1 m') (e ∙ sym e') (
            is_later_antisymm x.hlc y.hlc
              (Covers-at x y _ q (best_latest k fs none x ((same x).0 m) e))
              (Covers-at y x _ p (best_latest k es none y ((same y).1 m') e'))) in
          p ∙ ap some one ∙ sym q
    ]
  ]
