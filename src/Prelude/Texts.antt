-- ===== src/Prelude/Texts.antt =====
-- JavaScript strings as the lists of their UTF-16 code units: `===`, `<` and `startsWith`.
use Prim.Native.Char.{code}
use Prim.Native.String.{String}
use Prim.Native.Nat.{ℕ, compare, Ordering}
use mathlib.Core.Path.{◌≡◌, refl}
use mathlib.Core.Logic.{◌↔◌}
use mathlib.Core.Bool.{Bool, true, false}
use mathlib.Core.List.{List, [], ◌∷◌, ◌++◌}
use native.Mathlib.Omega.{arith}

abbrev pub Text : Type 0
Text = List ℕ

-- A literal: the code points of an ASCII text are its code units.
abbrev pub text : String → Text
text String.[] = []
text (String.◌∷◌ c s) = code c ∷ text s

-- How two strings compare under `<`, code unit by code unit, a proper prefix being smaller.
unfoldable pub text_compare : Text → Text → Ordering
text_compare [] [] = Ordering.eq
text_compare [] (y ∷ ys) = Ordering.lt
text_compare (x ∷ xs) [] = Ordering.gt
text_compare (x ∷ xs) (y ∷ ys) =
    let rest = text_compare xs ys in
    elim (compare x y) [
      | Ordering.lt ↦ Ordering.lt
      | Ordering.gt ↦ Ordering.gt
      | Ordering.eq ↦ rest
    ]

unfoldable pub text_eq : Text → Text → Bool
text_eq [] [] = true
text_eq [] (y ∷ ys) = false
text_eq (x ∷ xs) [] = false
text_eq (x ∷ xs) (y ∷ ys) =
    let rest = text_eq xs ys in elim (compare x y) [ Ordering.eq ↦ rest | _ ↦ false ]

unfoldable pub text_ltb : Text → Text → Bool
text_ltb a b = elim (text_compare a b) [ Ordering.lt ↦ true | _ ↦ false ]

unfoldable pub starts_with : Text → Text → Bool
starts_with t [] = true
starts_with [] (p ∷ ps) = false
starts_with (x ∷ t) (p ∷ ps) =
    let rest = starts_with t ps in elim (compare x p) [ Ordering.eq ↦ rest | _ ↦ false ]

abbrev pub is_empty : Text → Bool
is_empty [] = true
is_empty (x ∷ xs) = false

pub text_eq_refl : (a : Text) → text_eq a a ≡ true
unfolding text_eq
text_eq_refl [] = refl
text_eq_refl (x ∷ xs) = ground (arith, text_eq_refl xs)

pub text_eq_sound : (a b : Text) → text_eq a b ≡ true → a ≡ b
unfolding text_eq
text_eq_sound [] [] h = refl
text_eq_sound [] (y ∷ ys) h = cc
text_eq_sound (x ∷ xs) [] h = cc
text_eq_sound (x ∷ xs) (y ∷ ys) h = ground (arith, text_eq_sound xs ys)

pub text_eq_iff : (a b : Text) → (text_eq a b ≡ true) ↔ (a ≡ b)
text_eq_iff a b = (text_eq_sound a b, λ e. ground (arith, text_eq_refl a))

pub text_compare_refl : (a : Text) → text_compare a a ≡ Ordering.eq
unfolding text_compare
text_compare_refl [] = refl
text_compare_refl (x ∷ xs) = ground (arith, text_compare_refl xs)

pub text_compare_eq : (a b : Text) → text_compare a b ≡ Ordering.eq → a ≡ b
unfolding text_compare
text_compare_eq [] [] h = refl
text_compare_eq [] (y ∷ ys) h = cc
text_compare_eq (x ∷ xs) [] h = cc
text_compare_eq (x ∷ xs) (y ∷ ys) h = ground (arith, text_compare_eq xs ys)

abbrev pub swap_ordering : Ordering → Ordering
swap_ordering Ordering.lt = Ordering.gt
swap_ordering Ordering.gt = Ordering.lt
swap_ordering Ordering.eq = Ordering.eq

pub text_compare_swap : (a b : Text) → text_compare b a ≡ swap_ordering (text_compare a b)
unfolding text_compare
text_compare_swap [] [] = refl
text_compare_swap [] (y ∷ ys) = refl
text_compare_swap (x ∷ xs) [] = refl
text_compare_swap (x ∷ xs) (y ∷ ys) = ground (arith, text_compare_swap xs ys)

pub text_compare_trans :
    (a b c : Text)
    → text_compare a b ≡ Ordering.lt
    → text_compare b c ≡ Ordering.lt
    → text_compare a c ≡ Ordering.lt
unfolding text_compare
text_compare_trans [] [] c p q = cc
text_compare_trans [] (y ∷ ys) [] p q = cc
text_compare_trans [] (y ∷ ys) (z ∷ zs) p q = refl
text_compare_trans (x ∷ xs) [] c p q = cc
text_compare_trans (x ∷ xs) (y ∷ ys) [] p q = cc
text_compare_trans (x ∷ xs) (y ∷ ys) (z ∷ zs) p q = ground (arith, text_compare_trans xs ys zs)

pub starts_with_self : (p t : Text) → starts_with (p ++ t) p ≡ true
unfolding starts_with
starts_with_self [] [] = refl
starts_with_self [] (x ∷ t) = refl
starts_with_self (x ∷ p) t = ground (arith, starts_with_self p t)
