-- ===== src/Verify/Checks.antt =====
-- services/verifier/logic.py: `verify`, the checks V-01 to V-13 of an option, the checks of the whole
-- plan and V-15. The texts of a check are left out.
pub mod Vetted
pub mod Routed
use aera_be.Prelude.{
  String, str_eq, contains, ℕ, ◌==◌, ◌*◌, Bool, true, false, not, ◌&&◌, ◌||◌, Option, none, some,
  List, [], ◌∷◌, ◌++◌, map, all, any, leb, if◌then◌else◌,
}
use aera_be.Prelude.Int.{ℤ, pos, negsuc, ◌+ℤ◌, ◌-ℤ◌, leb_ℤ, ltb_ℤ, eq_ℤ, sum_ℤ}
use aera_be.Prelude.Decimal.{Decimal, exact, infinite, nan, natural}
use aera_be.Plan.{
  LinePart, Action, create_sto, change_po_date, split_po_schedule_line, book_air_freight,
  create_po_alternate,
}
use aera_be.Verify.{
  Value, amount, text, Figure, Instant, PlanOption, Plan, Check, PlanRecord, Donor, OptionEvidence,
  Corroboration, Grounding, valid, Verification, same, transfers, donor_ok, finite,
}
use aera_be.Verify.Portfolio.{valid_quantities, portfolio_check}
use aera_be.Verify.Facts.{
  equals, below, at_least, is_positive, not_negative, same_bool, same_instant, same_parts,
  same_action, same_actions, texts_of, no_empty_text, dates_of, all_dates, figure_value,
  any_figures, actions_ok, action_masters, masters_ok, is_approved, action_compliant, compliance_ok,
  donors_ok, has_unreserved, unreserved_ok, cost_ok, recipients_ok, confirmed_ok, seven_tenths,
  grounding_ok,
}

-- The arguments of `verify` that no option changes.
pub record Terms : Type 0 where
  pub now : Instant
  pub grounding : Grounding
  pub corroboration : Corroboration
  pub minimum_cover : Decimal
  pub max_age : ℤ
  pub max_price_age : ℤ
  pub allocation : Option (String → Option ℤ)

abbrev within_age : (now at limit : ℤ) → Bool
within_age now at limit = leb_ℤ (pos 0) (now -ℤ at) && leb_ℤ (now -ℤ at) limit

-- `arrival_text` is `str` of an instant, `today` the day of one, `hours` the length of a number of
-- hours, in microseconds.
module _ (moment_of number_of : Value → Option ℤ) (equal : Value → Value → Bool)
    (arrival_text : Instant → String) (today : ℤ → ℕ) (hours : Decimal → ℤ) where
  abbrev agrees : Option Value → Value → Bool
  agrees = same moment_of number_of equal

  -- V-01
  unfoldable pub sources_ok : PlanOption → OptionEvidence → Bool
  sources_ok o e =
      any_figures o.figures
      && all (λ f. agrees (e.reread f.source_ref f.name) f.value) o.figures
      && agrees (figure_value "costUsd" o.figures) (amount (exact o.cost_usd))
      && agrees (figure_value "arrival" o.figures) (text (arrival_text o.arrival))
      && any (λ f. str_eq f.name "costUsd" && str_eq f.source_ref o.cost_source_ref) o.figures
      && equals o.cost_usd e.expected_cost
      && equals o.coverage_units e.expected_coverage
      && same_instant o.arrival e.expected_arrival

  -- V-03
  unfoldable pub dates_ok : (now : Instant) → PlanOption → OptionEvidence → Bool
  dates_ok now o e =
      o.arrival.has_zone
      && ltb_ℤ now.at o.arrival.at
      && all (λ d. leb (today now.at) d) (all_dates o.actions)
      && e.need_at.has_zone

  abbrev priced : (now : Instant) → OptionEvidence → Instant
  priced now e = elim e.priced_at [ none ↦ now | some at ↦ at ]

  -- V-10
  unfoldable pub lead_ok :
      (now : Instant) → (max_price_age : ℤ) → PlanOption → OptionEvidence → Bool
  lead_ok now max_price_age o e =
      finite e.lead_hours
      && e.calendar_feasible
      && o.arrival.has_zone
      && (priced now e).has_zone
      && within_age now.at (priced now e).at max_price_age
      && leb_ℤ ((priced now e).at +ℤ hours e.lead_hours) o.arrival.at

  abbrev pub is_fresh : Terms → OptionEvidence → Bool
  is_fresh t e = e.read_at.has_zone && within_age t.now.at e.read_at.at t.max_age

  abbrev check_of : (option_id : Option String) → String → (passed blocking : Bool) → Check
  check_of id check_id passed blocking = record {
    check_id = check_id;
    passed = passed;
    blocking = blocking;
    option_id = id;
  }

  abbrev check_ids_sorted : List String
  check_ids_sorted =
      "V-01" ∷ "V-02" ∷ "V-03" ∷ "V-04" ∷ "V-05" ∷ "V-06" ∷ "V-07" ∷ "V-08" ∷ "V-09" ∷ "V-10"
      ∷ "V-11" ∷ "V-12" ∷ "V-13" ∷ []

  -- No evidence, or evidence that is too old.
  abbrev pub stale_checks : PlanOption → List Check
  stale_checks o =
      map (λ id. check_of (some o.id) id false (not (str_eq id "V-13"))) check_ids_sorted

  abbrev pub fresh_checks : (cover : ℤ) → Terms → PlanOption → OptionEvidence → List Check
  fresh_checks cover t o e =
      check_of (some o.id) "V-01" (sources_ok o e) true
      ∷ check_of (some o.id) "V-02" (valid_quantities o) true
      ∷ check_of (some o.id) "V-03" (dates_ok t.now o e) true
      ∷ check_of (some o.id) "V-04" (actions_ok o e) true
      ∷ check_of (some o.id) "V-05" (masters_ok o e) true
      ∷ check_of (some o.id) "V-06" (compliance_ok o e) true
      ∷ check_of (some o.id) "V-07" (donors_ok cover o e) true
      ∷ check_of (some o.id) "V-08" (unreserved_ok o e) true
      ∷ check_of (some o.id) "V-09" (cost_ok o e) true
      ∷ check_of (some o.id) "V-10" (lead_ok t.now t.max_price_age o e) true
      ∷ check_of (some o.id) "V-11" (recipients_ok e) true
      ∷ check_of (some o.id) "V-12" (confirmed_ok e) true
      ∷ check_of (some o.id) "V-13" (grounding_ok t.grounding) false
      ∷ []

  unfoldable pub option_checks :
      (String → Option OptionEvidence) → (cover : ℤ) → Terms → PlanOption → List Check
  option_checks evidence cover t o = elim (evidence o.id) [
    | none ↦ stale_checks o
    | some e ↦ if is_fresh t e then fresh_checks cover t o e else stale_checks o
  ]

  unfoldable pub all_checks :
      (String → Option OptionEvidence) → (cover : ℤ) → Terms → List PlanOption → List Check
  unfolding option_checks
  all_checks evidence cover t [] = []
  all_checks evidence cover t (o ∷ os) =
      option_checks evidence cover t o ++ all_checks evidence cover t os

  -- The chosen options, in the order of the plan.
  abbrev pub selected_of : List String → List PlanOption → List PlanOption
  selected_of chosen [] = []
  selected_of chosen (o ∷ os) =
      let rest = selected_of chosen os in if contains o.id chosen then o ∷ rest else rest

  abbrev pub facts_of : (String → Option OptionEvidence) → List PlanOption → List OptionEvidence
  facts_of evidence [] = []
  facts_of evidence (o ∷ os) = elim (evidence o.id) [
    | none ↦ facts_of evidence os
    | some e ↦ e ∷ facts_of evidence os
  ]

  abbrev no_repetition : List String → Bool
  no_repetition [] = true
  no_repetition (x ∷ xs) = not (contains x xs) && no_repetition xs

  abbrev pub totals_ok : Plan → List PlanOption → Bool
  totals_ok p selected =
      no_repetition p.chosen
      && eq_ℤ p.total_cost_usd (sum_ℤ (λ o. o.cost_usd) selected)
      && eq_ℤ p.coverage_units (sum_ℤ (λ o. o.coverage_units) selected)

  abbrev pub lower : Decimal → Decimal → Decimal
  lower (exact a) (exact b) = if ltb_ℤ b a then exact b else exact a
  lower infinite b = b
  lower a infinite = a
  lower nan b = nan
  lower a nan = a

  abbrev pub lowest : Decimal → List OptionEvidence → Decimal
  lowest d [] = d
  lowest d (e ∷ es) = lowest (lower d e.rar_protected) es

  -- The least revenue that a chosen option protects; 0 without one.
  abbrev protected : List OptionEvidence → Decimal
  protected [] = exact (pos 0)
  protected (e ∷ es) = lowest e.rar_protected es

  abbrev pub combined_cost_ok : Plan → List OptionEvidence → Bool
  combined_cost_ok p facts =
      not_negative p.total_cost_usd && below p.total_cost_usd (protected facts)

  abbrev donors_for : String × String → List OptionEvidence → List Donor
  donors_for k [] = []
  donors_for k (e ∷ es) = elim (e.donors k) [
    | none ↦ donors_for k es
    | some d ↦ d ∷ donors_for k es
  ]

  abbrev some_donor : List Donor → Bool
  some_donor [] = false
  some_donor (d ∷ ds) = true

  -- V-07 and V-08 of the chosen options together, for each donor.
  unfoldable pub combined_checks :
      (cover : ℤ) → List OptionEvidence → List ((String × String) × ℤ) → List Check
  combined_checks cover facts [] = []
  combined_checks cover facts ((k, qty) ∷ rest) =
      check_of none "V-07"
        (some_donor (donors_for k facts)
          && all (λ d. donor_ok (some d) qty cover) (donors_for k facts))
        true
      ∷ check_of none "V-08"
          (some_donor (donors_for k facts)
            && all (λ d. at_least d.unreserved qty) (donors_for k facts))
          true
      ∷ combined_checks cover facts rest

  unfoldable pub plan_checks :
      (String → Option OptionEvidence) → (cover : ℤ) → Terms → Plan → List Check
  unfolding combined_checks
  plan_checks evidence cover t p =
      let selected = selected_of p.chosen p.options in
      let facts = facts_of evidence selected in
      check_of none "V-01" (totals_ok p selected) true
        ∷ check_of none "V-09" (combined_cost_ok p facts) true
        ∷ combined_checks cover facts (transfers selected)
      ++ check_of none "V-15" (portfolio_check t.allocation selected) true ∷ []

  abbrev pub as_cover : Decimal → Option ℤ
  as_cover (exact (pos n)) = some (pos n)
  as_cover _ = none

  -- `none` is the `ValueError` of an invalid clock or cover policy. The confidence of the record is
  -- `confidence_for` of the verification.
  unfoldable pub verify :
      (plan_hash : Plan → String)
      → Plan
      → (String → Option OptionEvidence)
      → Terms
      → Option Verification
  unfolding all_checks plan_checks
  verify plan_hash p evidence t = elim (as_cover t.minimum_cover) [
    | none ↦ none
    | some cover ↦
        if not t.now.has_zone || leb_ℤ t.max_age (pos 0)
        then none
        else some (record {
          plan_record = record {
            plan = p;
            checks = all_checks evidence cover t p.options ++ plan_checks evidence cover t p;
            verified_at = some t.now.at;
          };
          version_hash = plan_hash p;
          evidence = evidence;
          corroboration = t.corroboration;
          grounding = t.grounding;
        })
  ]
