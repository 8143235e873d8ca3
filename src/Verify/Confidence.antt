-- ===== src/Verify/Confidence.antt =====
-- services/verifier/logic.py: the bounds of `confidence`.
use native.Mathlib.Nat.{mul-le-mul_left}
use aera_be.Prelude.{
  String, ℕ, ◌≤◌, ◌<◌, ◌+◌, ◌*◌, Bool, Option, List, [], ◌∷◌, arith, length, ◌==◌, inl, inr,
  Bool-cases,
}
use aera_be.Prelude.Int.{ℤ}
use aera_be.Verify.{
  Plan, OptionEvidence, Corroboration, Grounding, Value, confidence, corroboration_score, valid,
  count, figures_of, supports, score_of, weigh,
}

corroboration_score-le : (c : Corroboration) → corroboration_score c ≤ 10
unfolding corroboration_score
corroboration_score-le c = ground arith

module _ (moment_of number_of : Value → Option ℤ) (equal : Value → Value → Bool)
    (known : String → Bool) where
  count-le :
      {A : Type 0} (p : A → Bool) (xs : List A)
      → count moment_of number_of equal known p xs ≤ length xs
  count-le p [] = omega arith
  count-le p (x ∷ xs) = ground (arith, count-le p xs)

  score_of-le : (g : Grounding) → score_of moment_of number_of equal known g ≤ 1000000
  unfolding valid
  score_of-le g = ground arith

  weigh-le :
      (s n c g : ℕ)
      → s ≤ n
      → 1 ≤ n
      → c ≤ 10
      → g ≤ 1000000
      → ((weigh moment_of number_of equal known s n c g).num
          ≤ (weigh moment_of number_of equal known s n c g).den)
        × (0 < (weigh moment_of number_of equal known s n c g).den)
  weigh-le s n c g le pos_n lc lg = (
    (let most : n * (300000 * c + 2 * g) ≤ n * 5000000 = mul-le-mul_left n (omega arith) in
        omega arith),
    omega arith,
  )

  -- The confidence in any choice of options is a fraction with a positive denominator and no more
  -- than 1.
  pub confidence-ratio :
      (p : Plan) (evidence : String → Option OptionEvidence) (ids : List String) (c : Corroboration)
      (g : Grounding)
      → ((confidence moment_of number_of equal known p evidence ids c g).num
          ≤ (confidence moment_of number_of equal known p evidence ids c g).den)
        × (0 < (confidence moment_of number_of equal known p evidence ids c g).den)
  unfolding confidence
  confidence-ratio p evidence ids c g =
      let fs = figures_of moment_of number_of equal known p.options ids in
      let some_of : ℕ =
        count moment_of number_of equal known
          (λ x. supports moment_of number_of equal known evidence x.0 x.1) fs in
      let few : some_of ≤ length fs =
        count-le (λ x. supports moment_of number_of equal known evidence x.0 x.1) fs in
      elim (Bool-cases (length fs == 0)) [
        | inl y ↦ rw (y) (
            weigh-le 0 1 (corroboration_score c) (score_of moment_of number_of equal known g)
              (omega arith) (omega arith) (corroboration_score-le c) (score_of-le g))
        | inr n ↦ rw (n) (
            weigh-le some_of (length fs) (corroboration_score c)
              (score_of moment_of number_of equal known g) few (ground arith)
              (corroboration_score-le c) (score_of-le g))
      ]
