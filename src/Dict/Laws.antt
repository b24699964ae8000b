-- ===== src/Dict/Laws.antt =====
-- What a lookup finds after an update, and how many entries a map holds.
use peer_server.Prelude.{
  ◌||◌, ◌&&◌, not, inl, inr, Bool-cases, suc, ◌≤◌, ◌≡◌, refl, Bool, true, false, Option, none, some,
  [], ◌∷◌, Text, text_eq, text_eq_iff, length, arith, if◌then◌else◌,
}
use peer_server.Dict.{Dict, get, has, put, remove}

abbrev pub is_some {ℓ} : {A : Type ℓ} → Option A → Bool
is_some none = false
is_some (some a) = true

module _ {ℓ} {V : Type ℓ} where
  pub get-put :
      (k j : Text) (v : V) (d : Dict V)
      → get j (put k v d) ≡ (if text_eq k j then some v else get j d)
  unfolding get put
  get-put k j v [] = refl
  get-put k j v ((i, w) ∷ d) =
      ground (arith, text_eq_iff i k, text_eq_iff i j, text_eq_iff k j, get-put k j v d)

  pub get-remove :
      (k j : Text) (d : Dict V) → get j (remove k d) ≡ (if text_eq k j then none else get j d)
  unfolding get remove
  get-remove k j [] = ground arith
  get-remove k j ((i, w) ∷ d) =
      ground (arith, text_eq_iff i k, text_eq_iff i j, text_eq_iff k j, get-remove k j d)

  pub has-eq-get : (k : Text) (d : Dict V) → has k d ≡ is_some (get k d)
  unfolding get has
  has-eq-get k [] = refl
  has-eq-get k ((i, w) ∷ d) = ground (arith, has-eq-get k d)

  pub length-put :
      (k : Text) (v : V) (d : Dict V)
      → length (put k v d) ≡ (if has k d then length d else suc (length d))
  unfolding has put
  length-put k v [] = refl
  length-put k v ((i, w) ∷ d) = ground (arith, length-put k v d)

  pub length-remove-le : (k : Text) (d : Dict V) → length (remove k d) ≤ length d
  unfolding remove
  length-remove-le k [] = omega arith
  length-remove-le k ((i, w) ∷ d) = ground (arith, length-remove-le k d)

  pub length-remove-lt :
      (k : Text) (d : Dict V) → has k d ≡ true → suc (length (remove k d)) ≤ length d
  unfolding has remove
  length-remove-lt k [] h = cc
  length-remove-lt k ((i, w) ∷ d) h = ground (arith, length-remove-le k d, length-remove-lt k d)

-- No key stands twice.
abbrev pub Distinct {ℓ} : {V : Type ℓ} → Dict V → Type 0
Distinct [] = Unit
Distinct ((k, v) ∷ d) = (has k d ≡ false) × Distinct d

-- Each entry satisfies `P`.
abbrev pub Every {ℓ κ} : {V : Type ℓ} → (Text → V → Type κ) → Dict V → Type κ
Every P [] = Unit
Every P ((k, v) ∷ d) = P k v × Every P d

module _ {ℓ} {V : Type ℓ} where
  pub has-put : (k j : Text) (v : V) (d : Dict V) → has j (put k v d) ≡ (text_eq k j || has j d)
  unfolding has put
  has-put k j v [] = ground arith
  has-put k j v ((i, w) ∷ d) =
      ground (arith, text_eq_iff i k, text_eq_iff i j, text_eq_iff k j, has-put k j v d)

  pub has-remove : (k j : Text) (d : Dict V) → has j (remove k d) ≡ (not (text_eq k j) && has j d)
  unfolding has remove
  has-remove k j [] = ground arith
  has-remove k j ((i, w) ∷ d) =
      ground (arith, text_eq_iff i k, text_eq_iff i j, text_eq_iff k j, has-remove k j d)

  pub put-Distinct : (k : Text) (v : V) (d : Dict V) → Distinct d → Distinct (put k v d)
  unfolding put has
  put-Distinct k v [] h = (refl, tt)
  put-Distinct k v ((i, w) ∷ d) (n, h) = elim (Bool-cases (text_eq i k)) [
    | inl same ↦ rw same (n, h)
    | inr other ↦
        rw other
          (ground (arith, has-put k i v d, text_eq_iff i k, text_eq_iff k i), put-Distinct k v d h)
  ]

  pub remove-Distinct : (k : Text) (d : Dict V) → Distinct d → Distinct (remove k d)
  unfolding remove
  remove-Distinct k [] h = tt
  remove-Distinct k ((i, w) ∷ d) (n, h) = elim (Bool-cases (text_eq i k)) [
    | inl same ↦ rw same (remove-Distinct k d h)
    | inr other ↦ rw other (ground (arith, has-remove k i d), remove-Distinct k d h)
  ]
