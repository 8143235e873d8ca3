-- ===== src/Prelude/Lists.antt =====
-- Lists measured by native numbers, under the library's names, and predicates on all elements.
use Prim.Native.Nat.{ℕ, suc, ◌+◌}
use mathlib.Core.Path.{◌≡◌, refl, sym}
use mathlib.Core.Logic.{◌≢◌, ◌⊎◌, inl, inr}
use mathlib.Core.Bool.{Bool, true, false, ◌&&◌, ◌||◌}
use mathlib.Core.List.{List, [], ◌∷◌, ◌++◌}
use native.Mathlib.Omega.{arith}

module _ {ℓ} {A : Type ℓ} where
  abbrev pub length : List A → ℕ
  length [] = 0
  length (x ∷ xs) = suc (length xs)

  abbrev pub sum_by : (A → ℕ) → List A → ℕ
  sum_by f [] = 0
  sum_by f (x ∷ xs) = f x + sum_by f xs

  abbrev pub all : (A → Bool) → List A → Bool
  all p [] = true
  all p (x ∷ xs) = p x && all p xs

  abbrev pub any : (A → Bool) → List A → Bool
  any p [] = false
  any p (x ∷ xs) = p x || any p xs

abbrev pub All {ℓ κ} : {A : Type ℓ} → (A → Type κ) → List A → Type κ
All P [] = Unit
All P (x ∷ xs) = P x × All P xs

module _ {ℓ} {A : Type ℓ} where
  pub length-append : (xs ys : List A) → length (xs ++ ys) ≡ length xs + length ys
  length-append [] ys = omega arith
  length-append (x ∷ xs) ys = omega (arith, length-append xs ys)

-- Membership and distinctness by recursion, which the tactics read.
abbrev pub Listed : {A : Type 0} → A → List A → Type 0
Listed a [] = ⊥
Listed a (x ∷ xs) = (a ≡ x) ⊎ Listed a xs

abbrev pub Distinct : {A : Type 0} → List A → Type 0
Distinct [] = Unit
Distinct (x ∷ xs) = (¬ Listed x xs) × Distinct xs

module _ {A : Type 0} (f g : A → ℕ) (a : A) (agree : (b : A) → b ≢ a → g b ≡ f b) where
  -- A change at an element that is not listed does not change the sum.
  pub sum_by_off : (xs : List A) → ¬ Listed a xs → sum_by g xs ≡ sum_by f xs
  sum_by_off [] h = refl
  sum_by_off (x ∷ xs) h =
      omega (arith, agree x (λ e. h (inl (sym e))), sum_by_off xs (λ m. h (inr m)))

  -- A change at a listed element changes the sum by as much.
  pub sum_by_at : (xs : List A) → Listed a xs → Distinct xs → sum_by g xs + f a ≡ sum_by f xs + g a
  sum_by_at [] m d = elim m [ ]
  sum_by_at (x ∷ xs) (inl e) d =
      let off : ¬ Listed a xs = rw e d.0 in rw (sum_by_off xs off, e) (omega arith)
  sum_by_at (x ∷ xs) (inr m) d =
      let ne : x ≢ a = λ e. d.0 (rw e m) in omega (arith, agree x ne, sum_by_at xs m d.1)
