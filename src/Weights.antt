-- ===== src/Weights.antt =====
-- Lists of jobs, weighed: how many of a kind wait, or what they have before them. A job is what an
-- async function of the library has still to do.
use peer_server.Prelude.{
  ℕ, zero, suc, ◌+◌, ◌≡◌, refl, arith, Option, none, some, List, [], ◌∷◌, ◌++◌, get_elem?, take,
  drop,
}

module _ {J : Type 0} where
  unfoldable pub weigh : (J → ℕ) → List J → ℕ
  weigh w [] = 0
  weigh w (j ∷ js) = w j + weigh w js

  abbrev pub weight_of : (J → ℕ) → Option J → ℕ
  weight_of w none = 0
  weight_of w (some j) = w j

  pub weigh-without :
      (w : J → ℕ) (i : ℕ) (js : List J)
      → weigh w (take i js ++ drop (suc i) js) + weight_of w (get_elem? js i) ≡ weigh w js
  unfolding weigh
  weigh-without w zero [] = refl
  weigh-without w (suc i) [] = refl
  weigh-without w zero (j ∷ js) = omega arith
  weigh-without w (suc i) (j ∷ js) = omega (arith, weigh-without w i js)
