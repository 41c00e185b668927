-- ===== src/Prelude/Sets.antt =====
-- Sets of numbers as lists: a distinct sublist is counted once, under any weight.
use Prim.Native.Nat.{ℕ, ◌+◌}
use mathlib.Core.Path.{◌≡◌, refl}
use mathlib.Core.Bool.{Bool, true, false}
use mathlib.Core.List.{List, [], ◌∷◌}
use native.Mathlib.Omega.{arith}
use filecoin_porep_market_to.Prelude.Tests.{◌==◌, if◌then◌else◌}
use filecoin_porep_market_to.Prelude.Lists.{contains, distinct, difference, keep_if, nonempty}

-- The sum of the weights of a list.
abbrev pub weight {ℓ} : {A : Type ℓ} → (A → ℕ) → List A → ℕ
weight w [] = 0
weight w (x ∷ xs) = w x + weight w xs

pub weight-keep_if {ℓ} :
    {A : Type ℓ} (w : A → ℕ) (p : A → Bool) (xs : List A)
    → weight w (keep_if p xs) + weight w (keep_if (λ x. if p x then false else true) xs)
      ≡ weight w xs
weight-keep_if w p [] = refl
weight-keep_if w p (x ∷ xs) = ground (arith, weight-keep_if w p xs)

module _ (w : ℕ → ℕ) where
  weight_absent :
      (r : ℕ) (xs : List ℕ) → contains xs r ≡ false → weight w (keep_if (λ x. x == r) xs) ≡ 0
  weight_absent r [] h = refl
  weight_absent r (x ∷ xs) h = ground (arith, weight_absent r xs)

  weight_once :
      (r : ℕ) (xs : List ℕ)
      → contains xs r ≡ true
      → distinct xs ≡ true
      → weight w (keep_if (λ x. x == r) xs) ≡ w r
  weight_once r [] h d = cc
  weight_once r (x ∷ xs) h d = ground (arith, weight_once r xs, weight_absent r xs)

  weight_insert :
      (r : ℕ) (rs xs : List ℕ)
      → contains rs r ≡ false
      → weight w (keep_if (λ x. contains (r ∷ rs) x) xs)
        ≡ weight w (keep_if (λ x. x == r) xs) + weight w (keep_if (λ x. contains rs x) xs)
  weight_insert r rs [] h = refl
  weight_insert r rs (x ∷ xs) h = ground (arith, weight_insert r rs xs)

  weight_nothing : (xs : List ℕ) → weight w (keep_if (λ x. false) xs) ≡ 0
  weight_nothing [] = refl
  weight_nothing (x ∷ xs) = weight_nothing xs

  -- The elements of `xs` that lie in a distinct subset weigh as much as the subset.
  pub weight_subset :
      (rs xs : List ℕ)
      → distinct xs ≡ true
      → distinct rs ≡ true
      → nonempty (difference rs xs) ≡ false
      → weight w (keep_if (λ x. contains rs x) xs) ≡ weight w rs
  weight_subset [] xs dx dr sub = weight_nothing xs
  weight_subset (r ∷ rs) xs dx dr sub =
      ground (arith, weight_insert r rs xs, weight_once r xs, weight_subset rs xs)
