-- ===== src/Routing/Logic.antt =====
-- services/routing/logic.py: the tier of a verified plan, its parts, their approvers and deadlines.
-- Instants are microseconds. The hash of a plan, the identifier and the sample number of a part,
-- the day of an instant and the length of a number of hours are parameters: they are SHA-256 and
-- Python's clock arithmetic.
pub mod Approvers
use aera_be.Prelude.{
  String, str_eq, contains, codes, ℕ, ◌*◌, ◌^◌, ◌/◌, ◌%◌, ◌+◌, ◌==◌, Bool, true, false, not, ◌&&◌,
  ◌||◌, Option, none, some, List, [], ◌∷◌, ◌++◌, map, all, any, leb, ltb, length, if◌then◌else◌,
}
use aera_be.Prelude.Int.{ℤ, pos, negsuc, ◌+ℤ◌, ◌-ℤ◌, leb_ℤ, ltb_ℤ, eq_ℤ, sum_ℤ}
use aera_be.Prelude.Decimal.{Decimal, natural}
use aera_be.Verify.{
  Plan, PlanOption, Check, PlanRecord, OptionEvidence, Verification, Fraction, Value,
  confidence_for, is_reversible, valid, finite, within_one, million,
}

pub record Policy : Type 0 where
  pub auto_limit : Decimal
  pub confidence_min : Decimal
  pub audit_share : Decimal
  pub approval_window : ℤ
  pub kill_switch : Bool
  pub limit_hit : Bool

pub record Part : Type 0 where
  pub id : String
  pub options : List String
  pub tier : ℕ
  pub cost : ℤ
  pub confidence : Fraction
  pub sampled : Bool
  pub approver : Option String
  pub backup : Option String
  pub deadline : Option ℤ
  pub reminder : Option ℤ

pub data Reason : Type 0 where
  kill_switch_on run_limit stale_verification incomplete_verification : Reason
  blocking_check low_confidence no_sufficient_approver : Reason

pub record Route : Type 0 where
  pub tier : ℕ
  pub version_hash : String
  pub parts : List Part
  pub reason : Option Reason

-- A route, or an exception.
pub data Routed : Type 0 where
  routed : Route → Routed
  value_error key_error : Routed

-- `ApproverLimit`; the days are numbered.
pub record ApproverLimit : Type 0 where
  pub user_id : String
  pub plant : String
  pub limit_usd : ℤ
  pub valid_from : ℤ
  pub valid_to : ℤ

-- Python's order of texts: by code points.
unfoldable pub text_le : List ℕ → List ℕ → Bool
text_le [] t = true
text_le (c ∷ s) [] = false
text_le (c ∷ s) (d ∷ t) = let rest = text_le s t in ltb c d || (c == d && rest)

-- The order of the keys `(limit_usd, user_id)`.
unfoldable pub limit_le : ApproverLimit → ApproverLimit → Bool
unfolding text_le
limit_le a b =
    ltb_ℤ a.limit_usd b.limit_usd
    || (eq_ℤ a.limit_usd b.limit_usd && text_le (codes a.user_id) (codes b.user_id))

abbrev pub qualifies : String → ℤ → ℤ → ApproverLimit → Bool
qualifies plant cost today l =
    str_eq l.plant plant
    && leb_ℤ l.valid_from today
    && leb_ℤ today l.valid_to
    && leb_ℤ (pos 0) l.limit_usd
    && leb_ℤ cost l.limit_usd

-- A stable sort by that order.
unfoldable pub insert_limit : ApproverLimit → List ApproverLimit → List ApproverLimit
unfolding limit_le
insert_limit x [] = x ∷ []
insert_limit x (y ∷ ys) =
    let rest = insert_limit x ys in if limit_le x y then x ∷ y ∷ ys else y ∷ rest

unfoldable pub eligible : List ApproverLimit → String → ℤ → ℤ → List ApproverLimit
unfolding insert_limit
eligible [] plant cost today = []
eligible (l ∷ ls) plant cost today =
    let rest = eligible ls plant cost today in
    if qualifies plant cost today l then insert_limit l rest else rest

-- A chosen option with its evidence.
pub record Pick : Type 0 where
  pub option : PlanOption
  pub evidence : OptionEvidence

unfoldable pub find_option : List PlanOption → String → Option PlanOption
find_option [] id = none
find_option (o ∷ os) id =
    let later = find_option os id in
    elim later [ some p ↦ some p | none ↦ if str_eq o.id id then some o else none ]

abbrev pub ids : List Pick → List String
ids ps = map (λ p. p.option.id) ps

abbrev pub cost_of : List Pick → ℤ
cost_of ps = sum_ℤ (λ p. p.option.cost_usd) ps

abbrev pub coverage_of : List Pick → ℤ
coverage_of ps = sum_ℤ (λ p. p.option.coverage_units) ps

abbrev pub is_empty {ℓ} : {A : Type ℓ} → List A → Bool
is_empty [] = true
is_empty (a ∷ rest) = false

-- `combinations(xs, n)`
unfoldable pub combinations : ℕ → List Pick → List (List Pick)
combinations ℕ.zero xs = [] ∷ []
combinations (ℕ.suc n) [] = []
combinations (ℕ.suc n) (x ∷ xs) = map (λ c. x ∷ c) (combinations n xs) ++ combinations (ℕ.suc n) xs

-- The subsets of sizes 1 to `n`, the smaller first.
unfoldable pub up_to : ℕ → List Pick → List (List Pick)
unfolding combinations
up_to ℕ.zero xs = []
up_to (ℕ.suc n) xs = up_to n xs ++ combinations (ℕ.suc n) xs

-- The keys `(coverage, ids)`: `b` comes strictly after `a`.
unfoldable pub ids_lt : List String → List String → Bool
unfolding text_le
ids_lt xs [] = false
ids_lt [] (y ∷ ys) = true
ids_lt (x ∷ xs) (y ∷ ys) =
    let rest = ids_lt xs ys in if str_eq x y then rest else text_le (codes x) (codes y)

unfoldable pub better : List Pick → List Pick → Bool
unfolding ids_lt
better a b =
    ltb_ℤ (coverage_of a) (coverage_of b)
    || (eq_ℤ (coverage_of a) (coverage_of b) && ids_lt (ids a) (ids b))

-- `max`: the first of the greatest.
unfoldable pub best_from : List Pick → List (List Pick) → List Pick
unfolding better
best_from best [] = best
best_from best (c ∷ cs) = if better best c then best_from c cs else best_from best cs

unfoldable pub satisfying : (List Pick → Bool) → List (List Pick) → List (List Pick)
satisfying p [] = []
satisfying p (c ∷ cs) = let rest = satisfying p cs in if p c then c ∷ rest else rest

abbrev pub min_ℤ : ℤ → ℤ → ℤ
min_ℤ a b = if leb_ℤ b a then b else a

abbrev pub minimum : ℤ → List ℤ → ℤ
minimum a [] = a
minimum a (b ∷ bs) = minimum (min_ℤ a b) bs

-- Half of a length of time, to the even microsecond.
abbrev half_up : ℕ → ℕ
half_up n = let q = n / 2 in if n % 2 == 0 then q else if q % 2 == 0 then q else q + 1

abbrev pub half : ℤ → ℤ
half (pos n) = pos (half_up n)
half (negsuc n) = pos 0 -ℤ pos (half_up (n + 1))

-- `share < limit` for a fraction of 2^64 and a share in millionths.
abbrev pub below_share : ℕ → Decimal → Bool
below_share n d = elim (natural d) [ none ↦ false | some s ↦ ltb (n * million) (s * 2 ^ 64) ]

abbrev pub reaches : Fraction → Decimal → Bool
reaches f d = elim (natural d) [ none ↦ false | some m ↦ leb (m * f.den) (f.num * million) ]

-- The thirteen `CHECK_IDS`.
abbrev pub check_ids : List String
check_ids =
    "V-01" ∷ "V-02" ∷ "V-03" ∷ "V-04" ∷ "V-05" ∷ "V-06" ∷ "V-07" ∷ "V-08" ∷ "V-09" ∷ "V-10" ∷ "V-11"
    ∷ "V-12" ∷ "V-13" ∷ []
