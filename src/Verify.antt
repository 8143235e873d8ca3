-- ===== src/Verify.antt =====
-- services/verifier/logic.py: what the verifier knows of an option, the confidence in a choice of
-- options, and which options can be taken back. Amounts are millionths. The canonical JSON of a
-- plan and its SHA-256 are parameters, as are the standard library's readings of a value as a
-- number or as an instant.
pub mod Confidence
pub mod Transfers
pub mod Portfolio
pub mod Facts
pub mod Checks
use aera_be.Prelude.{
  String, str_eq, contains, ℕ, ◌+◌, ◌*◌, ◌==◌, Bool, true, false, not, ◌&&◌, ◌||◌, Option, none,
  some, List, [], ◌∷◌, ◌++◌, length, map, all, any, leb, ltb, if◌then◌else◌,
}
use aera_be.Prelude.Int.{ℤ, pos, ◌+ℤ◌, ◌-ℤ◌, ◌*ℤ◌, leb_ℤ, eq_ℤ}
use aera_be.Prelude.Decimal.{Decimal, exact, natural}
use aera_be.Plan.{
  Action, create_sto, change_po_date, split_po_schedule_line, book_air_freight, create_po_alternate,
}

-- A figure's value, or the value that was read again.
pub data Value : Type 0 where
  amount : Decimal → Value
  text : String → Value

pub record Figure : Type 0 where
  pub name : String
  pub value : Value
  pub source_ref : String

-- An instant, and whether it carries a time zone.
pub record Instant : Type 0 where
  pub at : ℤ
  pub has_zone : Bool

pub record PlanOption : Type 0 where
  pub id : String
  pub actions : List Action
  pub coverage_units : ℤ
  pub arrival : Instant
  pub cost_usd : ℤ
  pub cost_source_ref : String
  pub figures : List Figure

-- `ProposedPlan`
pub record Plan : Type 0 where
  pub options : List PlanOption
  pub chosen : List String
  pub total_cost_usd : ℤ
  pub coverage_units : ℤ

pub record Check : Type 0 where
  pub check_id : String
  pub passed : Bool
  pub blocking : Bool
  pub option_id : Option String

pub record PlanRecord : Type 0 where
  pub plan : Plan
  pub checks : List Check
  pub verified_at : Option ℤ

pub record Donor : Type 0 where
  pub on_hand : Decimal
  pub consumption_per_hour : Decimal
  pub customer_commitments : Decimal
  pub unreserved : Decimal
  pub projected_stockout : Option ℕ
  pub cover_until : Option ℕ

-- The expected actions are `none` where they are not valid actions. A dictionary is a function, a
-- set a list.
pub record OptionEvidence : Type 0 where
  pub read_at : Instant
  pub material : String
  pub plant : String
  pub expected_actions : Option (List Action)
  pub expected_cost : Decimal
  pub expected_coverage : Decimal
  pub expected_arrival : Instant
  pub need_at : Instant
  pub need_qty : Decimal
  pub rar_protected : Decimal
  pub lead_hours : Decimal
  pub reread : String → String → Option Value
  pub plants : List String
  pub suppliers : List String
  pub compliance : String → Option String
  pub donors : String × String → Option Donor
  pub recipients : List String
  pub allowed_recipients : List String
  pub unconfirmed_fields : List String
  pub calendar_feasible : Bool
  pub cancellation_fee : Decimal
  pub priced_at : Option Instant

pub record Corroboration : Type 0 where
  pub mrp_verified : Bool
  pub agreeing_senders : List String

-- Tenths: 1, 0.7 or 0. The senders are a set, so a list without repetitions.
unfoldable pub corroboration_score : Corroboration → ℕ
corroboration_score c =
    if c.mrp_verified || leb 2 (length c.agreeing_senders)
    then 10
    else elim c.agreeing_senders [ [] ↦ 0 | x ∷ xs ↦ 7 ]

pub record Grounding : Type 0 where
  pub score : Decimal
  pub relevance : Decimal
  pub available : Bool

abbrev pub million : ℕ
million = 1000000

-- `finite(value)`, and `finite(value) and value <= 1`
abbrev pub finite : Decimal → Bool
finite d = elim (natural d) [ none ↦ false | some n ↦ true ]

abbrev pub within_one : Decimal → Bool
within_one d = elim (natural d) [ none ↦ false | some n ↦ leb n million ]

unfoldable pub valid : Grounding → Bool
valid g = g.available && within_one g.score && within_one g.relevance

pub record Verification : Type 0 where
  pub plan_record : PlanRecord
  pub version_hash : String
  pub evidence : String → Option OptionEvidence
  pub corroboration : Corroboration
  pub grounding : Grounding

-- An exact fraction, where `Decimal` keeps 28 digits of a quotient.
pub record Fraction : Type 0 where
  pub num : ℕ
  pub den : ℕ

abbrev is_zero : Decimal → Bool
is_zero (exact n) = eq_ℤ n (pos 0)
is_zero _ = false

abbrev is_reversible_action : Action → Bool
is_reversible_action (create_sto _ _ _ _ _) = true
is_reversible_action (change_po_date _ _ _ _) = true
is_reversible_action (split_po_schedule_line _ _ _ _) = true
is_reversible_action _ = false

unfoldable pub is_reversible : PlanOption → OptionEvidence → Bool
is_reversible o e = is_zero e.cancellation_fee && all is_reversible_action o.actions

-- `moment_of` is `_moment`; `number_of` is `Decimal(str(value))`, none on an `ArithmeticError`.
module _ (moment_of : Value → Option ℤ) (number_of : Value → Option ℤ)
    (equal : Value → Value → Bool) where
  abbrev both : Option ℤ → Option ℤ → Bool
  both (some a) (some b) = eq_ℤ a b
  both _ _ = false

  abbrev same_number : Value → Value → Bool
  same_number l r = both (number_of l) (number_of r)

  abbrev same_moment : Option ℤ → Option ℤ → Bool → Bool
  same_moment (some a) (some b) otherwise = eq_ℤ a b
  same_moment _ _ otherwise = otherwise

  unfoldable pub same : Option Value → Value → Bool
  same none r = false
  same (some l) r = equal l r || same_moment (moment_of l) (moment_of r) (same_number l r)

  -- `known` is `source_ref.startswith(("SAP:", "ratecard:", "planner:"))`.
  module _ (known : String → Bool) where
    unfoldable pub supports : (String → Option OptionEvidence) → String → Figure → Bool
    unfolding same
    supports evidence id f = elim (evidence id) [
      | none ↦ false
      | some e ↦ known f.source_ref && same (e.reread f.source_ref f.name) f.value
    ]

    abbrev pub figures_of : List PlanOption → List String → List (String × Figure)
    figures_of [] ids = []
    figures_of (o ∷ os) ids =
        if contains o.id ids
        then map (λ f. (o.id, f)) o.figures ++ figures_of os ids
        else figures_of os ids

    abbrev pub count {ℓ} : {A : Type ℓ} → (A → Bool) → List A → ℕ
    count p [] = 0
    count p (x ∷ xs) = let rest = count p xs in if p x then 1 + rest else rest

    abbrev pub score_of : Grounding → ℕ
    score_of g = if valid g then elim (natural g.score) [ none ↦ 0 | some n ↦ n ] else 0

    -- 0.5 * supported / figures + 0.3 * corroboration + 0.2 * grounding, with one denominator.
    abbrev pub weigh : (supported figures corroborated grounded : ℕ) → Fraction
    weigh s n c g = record { num = 5000000 * s + n * (300000 * c + 2 * g); den = 10000000 * n }

    unfoldable pub confidence :
        Plan → (String → Option OptionEvidence) → List String → Corroboration → Grounding → Fraction
    unfolding supports corroboration_score valid
    confidence p evidence ids c g =
        let fs = figures_of p.options ids in
        let n = length fs in
        let s = count (λ x. supports evidence x.0 x.1) fs in
        if n == 0
        then weigh 0 1 (corroboration_score c) (score_of g)
        else weigh s n (corroboration_score c) (score_of g)

    unfoldable pub confidence_for : Verification → List String → Fraction
    unfolding confidence
    confidence_for v ids = confidence v.plan_record.plan v.evidence ids v.corroboration v.grounding

-- `_transfers`: the amount that the options take from each donor.
abbrev pub add_transfer :
    (material plant : String) → ℤ → List ((String × String) × ℤ) → List ((String × String) × ℤ)
add_transfer m p q [] = ((m, p), q) ∷ []
add_transfer m p q (((m', p'), q') ∷ rest) =
    if str_eq m' m && str_eq p' p
    then ((m', p'), q' +ℤ q) ∷ rest
    else ((m', p'), q') ∷ add_transfer m p q rest

unfoldable pub action_transfers :
    List Action → List ((String × String) × ℤ) → List ((String × String) × ℤ)
action_transfers [] out = out
action_transfers (create_sto from_plant _ material qty _ ∷ rest) out =
    action_transfers rest (add_transfer material from_plant qty out)
action_transfers (_ ∷ rest) out = action_transfers rest out

unfoldable pub transfers_from :
    List PlanOption → List ((String × String) × ℤ) → List ((String × String) × ℤ)
unfolding action_transfers
transfers_from [] out = out
transfers_from (o ∷ rest) out = transfers_from rest (action_transfers o.actions out)

unfoldable pub transfers : List PlanOption → List ((String × String) × ℤ)
unfolding transfers_from
transfers os = transfers_from os []

-- `_donor_ok`: what is left after the transfer covers the days and the commitments; the days are
-- millionths, so the cover is compared at that scale.
abbrev cover_lasts : Option ℕ → Option ℕ → Bool
cover_lasts (some stockout) (some until) = leb until stockout
cover_lasts _ _ = true

unfoldable pub donor_ok : Option Donor → ℤ → ℤ → Bool
donor_ok none quantity minimum_cover = false
donor_ok (some d) quantity minimum_cover = elim (natural d.consumption_per_hour) [
  | none ↦ false
  | some rate ↦ elim (natural d.customer_commitments) [
    | none ↦ false
    | some commitments ↦ elim (natural d.unreserved) [
      | none ↦ false
      | some unreserved ↦
          finite d.on_hand
          && leb_ℤ (pos (rate * 24) *ℤ minimum_cover) ((pos unreserved -ℤ quantity) *ℤ pos million)
          && leb_ℤ (pos commitments) (pos unreserved -ℤ quantity)
          && cover_lasts d.projected_stockout d.cover_until
    ]
  ]
]
