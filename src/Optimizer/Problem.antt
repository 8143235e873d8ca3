-- ===== src/Optimizer/Problem.antt =====
-- services/optimizer/solver.py: the needs, candidates and capacities, the results, and `_validate`.
use aera_be.Prelude.{
  String, ℕ, Bool, true, false, not, ◌&&◌, ◌||◌, Option, none, some, List, [], ◌∷◌, map, any,
  str_eq, contains,
}
use aera_be.Prelude.Int.{ℤ, pos, ltb_ℤ, leb_ℤ}

-- A time, with or without a time zone.
pub record Moment : Type 0 where
  pub at : ℕ
  pub has_zone : Bool

pub record Need : Type 0 where
  pub case_id : String
  pub id : String
  pub due : Moment
  pub quantity : ℤ
  pub lost_revenue_cents_per_unit : ℤ
  pub source_ref : String

pub record Candidate : Type 0 where
  pub case_id : String
  pub id : String
  pub arrival : Moment
  pub max_quantity : ℤ
  pub fixed_cost_cents : ℤ
  pub unit_cost_cents : ℤ
  pub resources : List String
  pub source_ref : String
  pub sizeable : Bool
  pub exclusive_group : Option String

pub record Capacity : Type 0 where
  pub resource : String
  pub quantity : ℤ
  pub source_ref : String

pub record Allocation : Type 0 where
  pub candidate_id : String
  pub case_id : String
  pub quantity : ℤ
  pub covered : List (String × ℤ)

-- The solver's statuses that the code tells apart.
pub data SolverStatus : Type 0 where
  optimal feasible infeasible unknown : SolverStatus

pub record SolverResult : Type 0 where
  pub status : SolverStatus
  pub objective_cents : Option ℤ
  pub allocations : List Allocation
  pub uncovered : List (String × ℤ)

-- A return, or an exception.
pub data Checked {ℓ} (A : Type ℓ) : Type ℓ where
  returned : A → Checked A
  value_error key_error : Checked A

abbrev pub repeated : List String → Bool
repeated [] = false
repeated (x ∷ xs) = contains x xs || repeated xs

abbrev pub zero_ℤ : ℤ
zero_ℤ = pos 0

abbrev is_blank : String → Bool
is_blank s = str_eq s ""

abbrev bad_need : Need → Bool
bad_need n =
    leb_ℤ n.quantity zero_ℤ
    || ltb_ℤ n.lost_revenue_cents_per_unit zero_ℤ
    || is_blank n.source_ref
    || not n.due.has_zone

-- `blank` is `not s.strip()`.
abbrev bad_group : (String → Bool) → Option String → Bool
bad_group blank none = false
bad_group blank (some g) = blank g

abbrev bad_candidate : (String → Bool) → List String → List String → Candidate → Bool
bad_candidate blank cases limits a =
    not (contains a.case_id cases)
    || leb_ℤ a.max_quantity zero_ℤ
    || ltb_ℤ a.fixed_cost_cents zero_ℤ
    || ltb_ℤ a.unit_cost_cents zero_ℤ
    || is_blank a.source_ref
    || not a.arrival.has_zone
    || bad_group blank a.exclusive_group
    || repeated a.resources
    || any (λ r. not (contains r limits)) a.resources

abbrev pub bad_capacity : Capacity → Bool
bad_capacity c = ltb_ℤ c.quantity zero_ℤ || is_blank c.source_ref

abbrev is_empty {ℓ} : {A : Type ℓ} → List A → Bool
is_empty [] = true
is_empty (a ∷ rest) = false

-- `_validate`; every refusal is a `ValueError`.
unfoldable pub is_valid : (String → Bool) → List Need → List Candidate → List Capacity → Bool
is_valid blank needs candidates capacities =
    let limits = map (λ c. c.resource) capacities in
    not (is_empty needs || is_empty candidates)
    && not (repeated (map (λ n. n.id) needs))
    && not (repeated (map (λ a. a.id) candidates))
    && not (repeated limits)
    && not (any bad_need needs)
    && not (any (bad_candidate blank (map (λ n. n.case_id) needs) limits) candidates)
    && not (any bad_capacity capacities)
