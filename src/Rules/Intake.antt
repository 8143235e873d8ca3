-- ===== src/Rules/Intake.antt =====
-- services/rules/br_02.py, br_15.py and fr_ing_02.py: which extracted fields may be used, which
-- signals belong to one case, and which reschedule proposals of MRP are acted on.
use aera_be.Prelude.{
  String, str_eq, contains, ℕ, zero, suc, ◌+◌, ◌-◌, ◌%◌, ◌≤◌, ◌≡◌, Bool, true, false, not, ◌&&◌,
  ◌||◌, Option, none, some, List, arith, ltb, leb, if◌then◌else◌, sym, ◌∙◌, Bool-cases, inl, inr,
  ltb-false,
}

pub data FieldStatus : Type 0 where
  unconfirmed sap_matched confirmed : FieldStatus

abbrev non_empty : Option String → Bool
non_empty none = false
non_empty (some s) = not (str_eq s "")

-- `matches` is `matches_sap`, which compares the normal forms that Python's library parses;
-- confidences are millionths.
module _ (matches : String → String → String → Bool) where
  abbrev matched : String → String → Option String → Bool
  matched name value none = false
  matched name value (some sap) = matches name value sap

  unfoldable pub field_status :
      (name value : String) (confidence : ℕ) (sap_value confirmed_by : Option String)
      (min_confidence : ℕ)
      → FieldStatus
  field_status name value confidence sap_value confirmed_by min_confidence =
      if non_empty confirmed_by
      then confirmed
      else if matched name value sap_value
      then sap_matched
      else if leb min_confidence confidence
      then confirmed
      else unconfirmed

-- `usable`, with the set `CRITICAL_FIELDS` of services/shared/models.py.
abbrev is_unconfirmed : FieldStatus → Bool
is_unconfirmed unconfirmed = true
is_unconfirmed _ = false

unfoldable pub usable : List String → String → FieldStatus → Bool
usable critical name status = not (contains name critical) || not (is_unconfirmed status)

-- The distance of two instants.
abbrev distance : ℕ → ℕ → ℕ
distance a b = if ltb a b then b - a else a - b

abbrev same_text : Option String → Option String → Bool
same_text (some a) (some b) = str_eq a b && not (str_eq a "")
same_text _ _ = false

-- `same_case`; `po == other_po` with both of them given.
unfoldable pub same_case :
    (po material : Option String) (at : ℕ) (other_po other_material : Option String) (other_at : ℕ)
    (window : ℕ)
    → Bool
same_case po material at other_po other_material other_at window =
    same_text po other_po && same_text material other_material && leb (distance at other_at) window

-- Days are numbered from a Monday.
abbrev is_working : ℕ → Bool
is_working d = ltb (d % 7) 5

-- The working days among the `n` days after `low`.
unfoldable pub working_from : ℕ → ℕ → ℕ
working_from low zero = 0
working_from low (suc n) =
    let before = working_from low n in if is_working (low + suc n) then suc before else before

unfoldable pub working_days_between : ℕ → ℕ → ℕ
unfolding working_from
working_days_between a b = if ltb b a then working_from b (a - b) else working_from a (b - a)

unfoldable pub mrp_actionable :
    (element_date : ℕ) (rescheduling_date : Option ℕ) (in_days out_days : ℕ) → Bool
unfolding working_days_between
mrp_actionable d none in_days out_days = true
mrp_actionable d (some r) in_days out_days =
    let shift = working_days_between d r in
    if ltb r d then leb in_days shift else if ltb d r then leb out_days shift else false

-- A critical field is usable exactly when a planner confirmed it, SAP has the same value, or its
-- confidence reaches the minimum.
pub usable_reason :
    (matches : String → String → String → Bool) (critical : List String) (name value : String)
    (confidence : ℕ) (sap_value confirmed_by : Option String) (min_confidence : ℕ)
    → contains name critical ≡ true
    → usable critical name
        (field_status matches name value confidence sap_value confirmed_by min_confidence)
      ≡ (non_empty confirmed_by
          || matched matches name value sap_value
          || leb min_confidence confidence)
unfolding usable field_status
usable_reason matches critical name value confidence sap_value confirmed_by min_confidence h =
    ground arith

-- Whether two signals belong to one case does not depend on which of them came first.
pub same_case-sym :
    (po material : Option String) (at : ℕ) (other_po other_material : Option String) (other_at : ℕ)
    (window : ℕ)
    → same_case po material at other_po other_material other_at window
      ≡ same_case other_po other_material other_at po material at window
unfolding same_case
same_case-sym po material at other_po other_material other_at window = ground arith

working_from-le : (low n : ℕ) → working_from low n ≤ n
unfolding working_from
working_from-le low zero = omega arith
working_from-le low (suc n) = ground (arith, working_from-le low n)

working_from-week :
    (low n : ℕ)
    → working_from low (suc (suc (suc (suc (suc (suc (suc n))))))) ≡ 5 + working_from low n
unfolding working_from
working_from-week low n = ground arith

week : (n : ℕ) → suc (suc (suc (suc (suc (suc (suc n)))))) ≡ 7 + n
week n = omega arith

forward : (a b : ℕ) → a ≤ b → working_days_between a b ≡ working_from a (b - a)
unfolding working_days_between
forward a b h = ground arith

backward : (a b : ℕ) → a ≤ b → working_days_between b a ≡ working_from a (b - a)
unfolding working_days_between
backward a b h = elim (Bool-cases (ltb a b)) [
  | inl y ↦ ground arith
  | inr n ↦ let same : a ≡ b = omega (arith, ltb-false b a n) in rw same (forward b b (omega arith))
]

later : (a b : ℕ) → a ≤ b → (7 + b) - a ≡ 7 + (b - a)
later a b h = omega arith

-- The working days between two days are at most the days between them, are the same counted from
-- either day, and are five more when the later day is a week later.
pub working_days-week :
    (a b : ℕ)
    → a ≤ b
    → (working_days_between a b ≤ b - a)
      × (working_days_between b a ≡ working_days_between a b)
      × (working_days_between a (7 + b) ≡ 5 + working_days_between a b)
working_days-week a b h = (
  rw (forward a b h) (working_from-le a (b - a)),
  backward a b h ∙ sym (forward a b h),
  rw (forward a (7 + b) (omega arith), forward a b h, later a b h, sym (week (b - a)))
      (working_from-week a (b - a)),
)
