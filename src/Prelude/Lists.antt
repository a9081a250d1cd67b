-- ===== src/Prelude/Lists.antt =====
-- Lists measured by native numbers, and predicates that hold of every element.
use Prim.Native.Nat.{ℕ, zero, suc}
use mathlib.Core.Path.{◌≡◌, refl}
use mathlib.Core.Bool.{Bool, true, false}
use native.Mathlib.Omega.{arith}
use mathlib.Core.List.{List, [], ◌∷◌}

module _ {ℓ} {A : Type ℓ} where
  abbrev pub length : List A → ℕ
  length [] = 0
  length (x ∷ xs) = suc (length xs)

  -- A slice that runs past the end stops there.
  abbrev pub take : ℕ → List A → List A
  take zero xs = []
  take (suc n) [] = []
  take (suc n) (x ∷ xs) = x ∷ take n xs

  abbrev pub drop : ℕ → List A → List A
  drop zero xs = xs
  drop (suc n) [] = []
  drop (suc n) (x ∷ xs) = drop n xs

  -- `any(test(x) for x in xs)` and `all(...)`.
  abbrev pub any : (A → Bool) → List A → Bool
  any test [] = false
  any test (x ∷ xs) = elim (test x) [ true ↦ true | false ↦ any test xs ]

  abbrev pub all : (A → Bool) → List A → Bool
  all test [] = true
  all test (x ∷ xs) = elim (test x) [ true ↦ all test xs | false ↦ false ]

  pub all-cons :
      (test : A → Bool) (x : A) (xs : List A)
      → all test (x ∷ xs) ≡ true
      → (test x ≡ true) × (all test xs ≡ true)
  all-cons test x xs h = split (test x) h
    where
      split :
          (b : Bool)
          → elim b [ true ↦ all test xs | false ↦ false ] ≡ true
          → (b ≡ true) × (all test xs ≡ true)
      split true g = (refl, g)
      split false g = ground arith

  -- `[x for x in xs if test(x)]`.
  abbrev pub filter : (A → Bool) → List A → List A
  filter test [] = []
  filter test (x ∷ xs) =
      let rest = filter test xs in elim (test x) [ true ↦ x ∷ rest | false ↦ rest ]

abbrev pub All {ℓ κ} : {A : Type ℓ} → (A → Type κ) → List A → Type κ
All P [] = Unit
All P (x ∷ xs) = P x × All P xs
