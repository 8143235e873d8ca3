-- ===== src/Optimizer/Check.antt =====
-- services/optimizer/solver.py: `_check_result`, the check of a result against the input.
use aera_be.Prelude.{
  String, Bool, false, not, ◌&&◌, Option, none, some, List, [], ◌∷◌, map, any, all, str_eq,
  contains, if◌then◌else◌,
}
use aera_be.Prelude.Int.{ℤ, ◌+ℤ◌, ◌*ℤ◌, ltb_ℤ, leb_ℤ, eq_ℤ, sum_ℤ}
use aera_be.Optimizer.Problem.{
  Need, Candidate, Capacity, Allocation, SolverResult, Checked, returned, value_error, key_error,
  repeated, zero_ℤ,
}

-- `dict(items).get(key)`: the last of several items with the key.
unfoldable pub last_of {ℓ} : {A : Type ℓ} → String → List (String × A) → Option A
last_of key [] = none
last_of key ((k, a) ∷ rest) =
    let later = last_of key rest in
    elim later [ some b ↦ some b | none ↦ if str_eq k key then some a else none ]

abbrev pub or_zero : Option ℤ → ℤ
or_zero none = zero_ℤ
or_zero (some a) = a

-- An allocation with the candidate that it is of.
abbrev pub Chosen : Type 0
Chosen = Allocation × Candidate

abbrev offer : List Candidate → String → Option Candidate
offer candidates id = last_of id (map (λ c. (c.id, c)) candidates)

-- `offered[a.candidate_id]` for each allocation; none is a `KeyError`.
unfoldable pub chosen_of : List Candidate → List Allocation → Option (List Chosen)
unfolding last_of
chosen_of candidates [] = some []
chosen_of candidates (a ∷ rest) = elim (offer candidates a.candidate_id) [
  | none ↦ none
  | some c ↦ elim (chosen_of candidates rest) [ none ↦ none | some cs ↦ some ((a, c) ∷ cs) ]
]

abbrev pub groups : List Chosen → List String
groups [] = []
groups ((a, c) ∷ rest) = elim c.exclusive_group [ none ↦ groups rest | some g ↦ g ∷ groups rest ]

abbrev pub counted : Allocation → ℤ
counted a = sum_ℤ (λ c. c.1) a.covered

abbrev pub sized : Chosen → Bool
sized (a, c) =
    ltb_ℤ zero_ℤ a.quantity && leb_ℤ a.quantity c.max_quantity && leb_ℤ (counted a) a.quantity

unfoldable pub used : String → List Chosen → ℤ
used resource [] = zero_ℤ
used resource ((a, c) ∷ rest) =
    let more = used resource rest in
    if contains resource c.resources then a.quantity +ℤ more else more

-- What the allocations cover of one need.
unfoldable pub covered_of : String → List Allocation → ℤ
unfolding last_of
covered_of id made = sum_ℤ (λ a. or_zero (last_of id a.covered)) made

-- The loop over the needs.
unfoldable pub check_needs : SolverResult → List Need → Checked (Unit {0})
unfolding last_of
check_needs r [] = returned tt
check_needs r (n ∷ ns) =
    let rest = check_needs r ns in
    elim (last_of n.id r.uncovered) [
      | none ↦ key_error
      | some left ↦
          if eq_ℤ (covered_of n.id r.allocations +ℤ left) n.quantity then rest else value_error
    ]

-- `selected` keeps a candidate's last allocation.
unfoldable pub cost : List Chosen → ℤ
cost [] = zero_ℤ
cost ((a, c) ∷ rest) =
    let others = cost rest in
    if any (λ x. str_eq x.0.candidate_id a.candidate_id) rest
    then others
    else c.fixed_cost_cents +ℤ c.unit_cost_cents *ℤ a.quantity +ℤ others

unfoldable pub lost : SolverResult → List Need → ℤ
unfolding last_of
lost r ns = sum_ℤ (λ n. n.lost_revenue_cents_per_unit *ℤ or_zero (last_of n.id r.uncovered)) ns

abbrev pub claims : Option ℤ → ℤ → Bool
claims none total = false
claims (some o) total = eq_ℤ total o

-- `_check_result`, with the candidates of the allocations at hand.
unfoldable pub check_chosen :
    SolverResult → List Need → List Capacity → List Chosen → Checked (Unit {0})
unfolding check_needs
check_chosen r needs capacities chosen =
    if repeated (groups chosen)
    then value_error
    else if not (all sized chosen)
    then value_error
    else if not (all (λ c. leb_ℤ (used c.resource chosen) c.quantity) capacities)
    then value_error
    else elim (check_needs r needs) [
      | returned u ↦
          if claims r.objective_cents (cost chosen +ℤ lost r needs)
          then returned tt
          else value_error
      | value_error ↦ value_error
      | key_error ↦ key_error
    ]

unfoldable pub check_result :
    SolverResult → List Need → List Candidate → List Capacity → Checked (Unit {0})
unfolding check_chosen
check_result r needs candidates capacities = elim (chosen_of candidates r.allocations) [
  | none ↦ key_error
  | some chosen ↦ check_chosen r needs capacities chosen
]
