-- ===== src/Optimizer/Portfolio/Walk.antt =====
-- services/optimizer/portfolio.py: the loops of `detect` end.
use aera_be.Prelude.{
  ℕ, zero, suc, ◌+◌, ◌≤◌, ◌<◌, ◌≡◌, refl, Bool, some, List, [], ◌∷◌, ◌++◌, length, arith,
}
use aera_be.Prelude.Int.{ℤ}
use aera_be.Optimizer.Portfolio.{
  PortfolioCase, Portfolio, active_of, competes, portfolios_of, detect, next_to, apart_from, onto,
  walk, components,
}

module _ {ℓ} {A : Type ℓ} (adjacent : A → A → Bool) where
  length-onto : (xs ys : List A) → length (onto adjacent xs ys) ≡ length xs + length ys
  length-onto [] ys = omega arith
  length-onto (x ∷ xs) ys = ground (arith, length-onto xs (x ∷ ys))

  length-split :
      (node : A) (us : List A)
      → length (next_to adjacent node us) + length (apart_from adjacent node us) ≡ length us
  length-split node [] = omega arith
  length-split node (u ∷ us) = ground (arith, length-split node us)

  -- The fuel that the loop needs.
  pub walk-ends :
      (n : ℕ) (pending component unseen : List A)
      → length pending + length unseen < n
      → (component' : List A) × (left : List A) × (walk adjacent n pending component unseen
          ≡ some (component', left))
        × (length left ≤ length unseen)
  unfolding walk
  walk-ends zero pending component unseen h = absurd (omega arith)
  walk-ends (suc n) [] component unseen h = (component, unseen, refl, omega arith)
  walk-ends (suc n) (node ∷ pending) component unseen h =
      let split : length (next_to adjacent node unseen) + length (apart_from adjacent node unseen)
          ≡ length unseen =
        length-split node unseen in
      let stack : length (onto adjacent (next_to adjacent node unseen) pending)
          ≡ length (next_to adjacent node unseen) + length pending =
        length-onto (next_to adjacent node unseen) pending in
      let (c, left, e, l) =
        walk-ends n (onto adjacent (next_to adjacent node unseen) pending)
          (component ++ next_to adjacent node unseen) (apart_from adjacent node unseen)
          (omega arith) in
      (c, left, e, omega arith)

  pub components-end :
      (n : ℕ) (unseen : List A)
      → length unseen < n
      → (cs : List (List A)) × (components adjacent n unseen ≡ some cs)
  unfolding components
  components-end zero unseen h = absurd (omega arith)
  components-end (suc n) [] h = ([], refl)
  components-end (suc n) (root ∷ unseen) h =
      let (c, left, e, l) =
        walk-ends (suc (suc (length unseen))) (root ∷ []) (root ∷ []) unseen (omega arith) in
      let (cs, later) = components-end n left (omega arith) in
      (c ∷ cs, rw (e, later, components) refl)

-- One step of fuel more than there are active cases is enough: then the detection ends in a list of
-- portfolios.
pub detect-ends :
    (fuel : ℕ) (entries : List PortfolioCase) (now : ℤ)
    → length (active_of entries) < fuel
    → (ps : List Portfolio) × (detect fuel entries now ≡ some ps)
unfolding detect
detect-ends fuel entries now h =
    let (cs, e) = components-end (competes now) fuel (active_of entries) h in
    (portfolios_of now cs, rw (e, detect) refl)
