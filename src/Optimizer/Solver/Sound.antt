-- ===== src/Optimizer/Solver/Sound.antt =====
-- services/optimizer/solver.py: the results that are returned.
use aera_be.Prelude.{String, ◌≡◌, ◌⊎◌, Bool, some, List, All, Distinct}
use aera_be.Prelude.Int.{pos, ℤ, ◌+ℤ◌, ◌≤ℤ◌}
use aera_be.Optimizer.Problem.{
  zero_ℤ, Need, Candidate, Capacity, SolverResult, SolverStatus, optimal, feasible,
}
use aera_be.Optimizer.Check.{counted, Chosen, used, last_of, covered_of, groups, cost, lost}
use aera_be.Optimizer.Solver.{Answer}

-- Of the units of a need some are left and the others are covered, none of them negative.
abbrev pub Balanced : SolverResult → Need → Type 0
Balanced r n =
    (left : ℤ) × (last_of n.id r.uncovered ≡ some left)
    × (covered_of n.id r.allocations +ℤ left ≡ n.quantity)
    × (zero_ℤ ≤ℤ left)
    × (left ≤ℤ n.quantity)
    × (zero_ℤ ≤ℤ covered_of n.id r.allocations)
    × (covered_of n.id r.allocations ≤ℤ n.quantity)

-- An allocation is of a positive size within its candidate's, and counts no more than its size.
abbrev pub Sized : Chosen → Type 0
Sized (a, c) = (pos 1 ≤ℤ a.quantity) × (a.quantity ≤ℤ c.max_quantity) × (counted a ≤ℤ a.quantity)

-- A result that keeps to its input: each capacity holds, the allocations have their sizes, no group
-- is chosen twice, every need is shared out, and the objective is the cost and the loss.
abbrev pub Kept : SolverResult → List Need → List Capacity → List Chosen → Type 0
Kept r needs capacities chosen =
    All (λ c. used c.resource chosen ≤ℤ c.quantity) capacities
    × All Sized chosen
    × Distinct (groups chosen)
    × All (Balanced r) needs
    × (r.objective_cents ≡ some (cost chosen +ℤ lost r needs))

module _ (blank : String → Bool)
    (cp_sat : ℤ → List Need → List Candidate → List Capacity → Answer) where
  abbrev Solved : SolverStatus → Type 0
  Solved s = (s ≡ optimal) ⊎ (s ≡ feasible)
