-- ===== src/Optimizer/Solver.antt =====
-- services/optimizer/solver.py: joint sizing of the actions of competing cases. The search is
-- CP-SAT's, a parameter here: any answer it may give. What surrounds it is the code's.
pub mod Signs
pub mod Sound
use aera_be.Prelude.{
  String, ℕ, Bool, true, false, not, ◌&&◌, ◌||◌, Option, none, some, List, [], ◌∷◌, map, any, all,
  str_eq, contains, leb, if◌then◌else◌,
}
use aera_be.Prelude.Int.{ℤ, pos, ◌+ℤ◌, ◌*ℤ◌, ltb_ℤ, leb_ℤ, eq_ℤ, sum_ℤ}
use aera_be.Optimizer.Problem.{
  Need, Candidate, Capacity, Allocation, SolverStatus, optimal, feasible, infeasible, unknown,
  SolverResult, Checked, returned, value_error, key_error, is_valid, zero_ℤ,
}
use aera_be.Optimizer.Check.{check_result}

-- What CP-SAT answers: a status, the rounded objective value, and the values of the variables.
pub record Answer : Type 0 where
  pub status : SolverStatus
  pub objective : ℤ
  pub chosen : String → Bool
  pub quantity : String → ℤ
  pub covered : String → String → ℤ
  pub uncovered : String → ℤ

abbrev pub reaches : Candidate → Need → Bool
reaches a n = str_eq n.case_id a.case_id && leb a.arrival.at n.due.at

unfoldable pub covers : Answer → Candidate → List Need → List (String × ℤ)
covers x a [] = []
covers x a (n ∷ ns) =
    let rest = covers x a ns in
    if reaches a n && ltb_ℤ zero_ℤ (x.covered a.id n.id)
    then (n.id, x.covered a.id n.id) ∷ rest
    else rest

unfoldable pub allocations_of : Answer → List Need → List Candidate → List Allocation
unfolding covers
allocations_of x needs [] = []
allocations_of x needs (a ∷ rest) =
    let more = allocations_of x needs rest in
    if x.chosen a.id
    then record {
      candidate_id = a.id;
      case_id = a.case_id;
      quantity = x.quantity a.id;
      covered = covers x a needs;
    }
      ∷ more
    else more

abbrev none_found : SolverStatus → SolverResult
none_found s = record { status = s; objective_cents = none; allocations = []; uncovered = [] }

-- `LIMIT_SECONDS`, in microseconds.
abbrev limit : ℤ
limit = pos 5000000

module _ (blank : String → Bool)
    (cp_sat : ℤ → List Need → List Candidate → List Capacity → Answer) where
  unfoldable pub found : Answer → List Need → List Candidate → SolverResult
  unfolding allocations_of
  found x needs candidates = record {
    status = x.status;
    objective_cents = some x.objective;
    allocations = allocations_of x needs candidates;
    uncovered = map (λ n. (n.id, x.uncovered n.id)) needs;
  }

  abbrev pub after_check : SolverResult → Checked (Unit {0}) → Checked SolverResult
  after_check r (returned u) = returned r
  after_check r value_error = value_error
  after_check r key_error = key_error

  -- A result with a solution is checked before it is returned.
  unfoldable pub answer_with :
      Answer → List Need → List Candidate → List Capacity → Checked SolverResult
  unfolding found check_result
  answer_with x needs candidates capacities =
      let r = found x needs candidates in
      let checked = after_check r (check_result r needs candidates capacities) in
      elim x.status [
        | infeasible ↦ returned (none_found infeasible)
        | unknown ↦ returned (none_found unknown)
        | _ ↦ checked
      ]

  unfoldable pub solve :
      (limit_microseconds : ℤ) → List Need → List Candidate → List Capacity → Checked SolverResult
  unfolding is_valid answer_with
  solve time needs candidates capacities =
      if not (is_valid blank needs candidates capacities)
      then value_error
      else if not (ltb_ℤ zero_ℤ time && leb_ℤ time limit)
      then value_error
      else answer_with (cp_sat time needs candidates capacities) needs candidates capacities
