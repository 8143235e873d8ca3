-- ===== src/Execution/Identity.antt =====
-- `idempotency_key` of services/execution/journal.py: the digest of five fields joined by `|`.
-- SHA-256 is a parameter. A step's index is a natural number, so it is never below 0.
use aera_be.Prelude.{
  ℕ, zero, suc, ◌+◌, ◌/◌, ◌%◌, Bool, true, ◌||◌, List, [], ◌∷◌, ◌++◌, any, ltb, ◌==◌, if◌then◌else◌,
}
use aera_be.Execution.Fault.{Result, ok, err, value_error}

-- `str(n)`: the decimal digits, the rightmost last.
abbrev digit : ℕ → ℕ
digit n = 48 + n % 10

decimal_from : ℕ → ℕ → List ℕ
decimal_from zero n = []
decimal_from (suc f) n =
    let rest = decimal_from f (n / 10) in if ltb n 10 then digit n ∷ [] else rest ++ digit n ∷ []

unfoldable pub decimal : ℕ → List ℕ
unfolding decimal_from
decimal n = decimal_from (suc n) n

abbrev pub pipe : ℕ
pipe = 124

-- `not f or "|" in f`
unfoldable pub unusable : List ℕ → Bool
unusable [] = true
unusable (c ∷ f) = any (λ x. x == pipe) (c ∷ f)

-- `"|".join(fields)`
unfoldable pub join : List (List ℕ) → List ℕ
join [] = []
join (f ∷ []) = f
join (f ∷ g ∷ fs) = f ++ pipe ∷ join (g ∷ fs)

abbrev pub fields : List ℕ → ℕ → ℕ → List ℕ → List ℕ → List (List ℕ)
fields case_id version index action target =
    case_id ∷ decimal version ∷ decimal index ∷ action ∷ target ∷ []

module _ (sha256 : List ℕ → List ℕ) where
  unfoldable pub idempotency_key : List ℕ → ℕ → ℕ → List ℕ → List ℕ → Result (List ℕ)
  unfolding unusable join
  idempotency_key case_id version index action target =
      if version == 0 || any unusable (fields case_id version index action target)
      then err value_error
      else ok (sha256 (join (fields case_id version index action target)))
