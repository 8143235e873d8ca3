-- ===== src/Tests/Plans.antt =====
-- A plan, its checks and its route at concrete inputs.
use aera_be.Prelude.{
  if◌then◌else◌, str_eq, ◌≢◌, str_eq, String, String_discrete, ◌≡◌, refl, ◌≤◌, ◌<◌, ℕ, Bool, true,
  false, ◌⊎◌, inl, Option, none, some, List, [], ◌∷◌, All, Listed,
}
use aera_be.Prelude.Int.{eq_ℤ, ℤ, pos, ◌≤ℤ◌, ◌+ℤ◌, ◌*ℤ◌, ◌-ℤ◌, sum_ℤ}
use aera_be.Prelude.Decimal.{Decimal, exact}
use aera_be.Plan.{change_po_date, create_sto}
use aera_be.Verify.{
  same, Figure, amount, text, transfers, Plan, PlanOption, Check, OptionEvidence, Corroboration,
  Grounding, Verification, Value, confidence, valid, confidence_for, is_reversible,
}
use aera_be.Verify.Confidence.{confidence-ratio}
use aera_be.Routing.Logic.{
  Policy, Route, ApproverLimit, eligible, qualifies, check_ids, insert_limit, find_option, Pick,
}
use aera_be.Routing.Logic.Approvers.{eligible_first}
use aera_be.Routing.Route.{route, auto_part}
use aera_be.Verify.{Instant}
use aera_be.Routing.Route.Parts.{PartKept, Clear, route_parts}
use aera_be.Verify.Facts.{
  actions_ok, masters_ok, compliance_ok, donors_ok, unreserved_ok, cost_ok, confirmed_ok,
  grounding_ok, recipients_ok,
}
use aera_be.Verify.Checks.{Terms, as_cover, verify, sources_ok, dates_ok, lead_ok}
use aera_be.Verify.Checks.Vetted.{IsVetted, IsWhole}
use aera_be.Verify.Checks.Routed.{built, routed-IsVetted}
use aera_be.Verify.Portfolio.{
  WholeUnits, InUnits, valid_quantities, valid_quantities-InUnits, allocated, portfolio_check,
  portfolio_check-within,
}
use aera_be.Verify.Transfers.{amount_at, taken_in, amount_at-transfers}

abbrev limit : ApproverLimit
limit = record {
  user_id = "U1";
  plant = "1010";
  limit_usd = pos 50000000000;
  valid_from = pos 0;
  valid_to = pos 30000;
}

eligible_first_example :
    Listed limit (limit ∷ [])
    × (qualifies "1010" (pos 1000000) (pos 20000) limit ≡ true)
    × (limit.limit_usd ≤ℤ limit.limit_usd)
unfolding eligible insert_limit String_discrete
eligible_first_example =
    eligible_first (limit ∷ []) "1010" (pos 1000000) (pos 20000) limit {l = limit} {rest = []} refl
      (inl refl) refl

abbrev no_number : Value → Option ℤ
no_number v = none

abbrev never_equal : Value → Value → Bool
never_equal a b = false

abbrev no_source : String → Bool
no_source s = false

abbrev cost_figure : Figure
cost_figure = record {
  name = "costUsd";
  value = amount (exact (pos 1000000));
  source_ref = "ratecard:1";
}

abbrev arrival_figure : Figure
arrival_figure = record { name = "arrival"; value = text "soon"; source_ref = "planner:1" }

abbrev option : PlanOption
option = record {
  id = "A";
  actions = change_po_date "4500000001" "10" "1" 20260301 ∷ [];
  coverage_units = pos 5000000;
  arrival = record { at = pos 100000000; has_zone = true };
  cost_usd = pos 1000000;
  cost_source_ref = "ratecard:1";
  figures = cost_figure ∷ arrival_figure ∷ [];
}

abbrev plan : Plan
plan = record {
  options = option ∷ [];
  chosen = "A" ∷ [];
  total_cost_usd = pos 1000000;
  coverage_units = pos 5000000;
}

abbrev facts : OptionEvidence
facts = record {
  read_at = record { at = pos 1000000; has_zone = true };
  material = "M1";
  plant = "1010";
  expected_actions = some (change_po_date "4500000001" "10" "1" 20260301 ∷ []);
  expected_cost = exact (pos 1000000);
  expected_coverage = exact (pos 5000000);
  expected_arrival = record { at = pos 100000000; has_zone = true };
  need_at = record { at = pos 200000000; has_zone = true };
  need_qty = exact (pos 5000000);
  rar_protected = exact (pos 9000000);
  lead_hours = exact (pos 24000000);
  reread = λ r n. if str_eq n "costUsd" then some cost_figure.value else some arrival_figure.value;
  plants = "1010" ∷ [];
  suppliers = [];
  compliance = λ s. none;
  donors = λ k. none;
  recipients = [];
  allowed_recipients = [];
  unconfirmed_fields = [];
  calendar_feasible = true;
  cancellation_fee = exact (pos 0);
  priced_at = none;
}

abbrev pick : Pick
pick = record { option = option; evidence = facts }

abbrev evidence : String → Option OptionEvidence
evidence id = some facts

abbrev corroboration : Corroboration
corroboration = record { mrp_verified = true; agreeing_senders = [] }

abbrev grounding : Grounding
grounding = record { score = exact (pos 900000); relevance = exact (pos 900000); available = true }

confidence-ratio_example :
    ((confidence no_number no_number never_equal no_source plan evidence
        ("A" ∷ [])
        corroboration
        grounding).num
      ≤ (confidence no_number no_number never_equal no_source plan evidence
          ("A" ∷ [])
          corroboration
          grounding).den)
    × (0
        < (confidence no_number no_number never_equal no_source plan evidence
            ("A" ∷ [])
            corroboration
            grounding).den)
confidence-ratio_example =
    confidence-ratio no_number no_number never_equal no_source plan evidence ("A" ∷ [])
      corroboration grounding

abbrev of_option : List String → List Check
of_option [] = []
of_option (id ∷ ids) =
    record { check_id = id; passed = true; blocking = true; option_id = some "A" } ∷ of_option ids

abbrev verified : Verification
verified = record {
  plan_record = record {
    plan = plan;
    checks =
        record { check_id = "V-01"; passed = true; blocking = true; option_id = none }
        ∷ record { check_id = "V-09"; passed = true; blocking = true; option_id = none }
        ∷ of_option check_ids;
    verified_at = some (pos 1000000);
  };
  version_hash = "H";
  evidence = evidence;
  corroboration = corroboration;
  grounding = grounding;
}

abbrev policy : Policy
policy = record {
  auto_limit = exact (pos 25000000000);
  confidence_min = exact (pos 400000);
  audit_share = exact (pos 200000);
  approval_window = pos 14400000000;
  kill_switch = false;
  limit_hit = false;
}

abbrev at : ℕ → Instant
at n = record { at = pos n; has_zone = true }

abbrev plan_hash : Plan → String
plan_hash p = "H"

abbrev part_hash : String → List String → String
part_hash digest ids = "P"

abbrev sample : String → ℕ
sample id = 0

abbrev day_of : ℤ → ℤ
day_of t = pos 20000

abbrev hours : Decimal → ℤ
hours d = pos 86400000000

abbrev no_horizon : String → Option (Option ℤ)
no_horizon id = none

abbrev automatic_route : Route
automatic_route = record {
  tier = 1;
  version_hash = "H";
  parts =
      auto_part plan_hash part_hash sample day_of hours no_number no_number never_equal no_source
        policy verified "H" (pick ∷ [])
      ∷ [];
  reason = none;
}

route_parts_example :
    All
      (PartKept plan_hash part_hash sample day_of hours no_number no_number never_equal no_source
        policy verified
        (pos 2000000)
        "1010"
        (limit ∷ []))
      automatic_route.parts
    × ((automatic_route.parts ≡ [])
        ⊎ Clear plan_hash part_hash sample day_of hours no_number no_number never_equal no_source
            policy verified)
unfolding route String_discrete ◌-ℤ◌ valid confidence_for find_option sum_ℤ ◌+ℤ◌ is_reversible
route_parts_example =
    route_parts plan_hash part_hash sample day_of hours no_number no_number never_equal no_source
      policy verified (at 2000000) (at 9000000) "1010" (limit ∷ []) no_horizon {r = automatic_route}
      refl

abbrev transfer : PlanOption
transfer = record option { actions = create_sto "1020" "1010" "M1" (pos 5000000) 20260301 ∷ [] }

amount_at-transfers_example :
    amount_at "M1" "1020" (transfers (transfer ∷ transfer ∷ []))
    ≡ taken_in "M1" "1020" (transfer ∷ transfer ∷ [])
amount_at-transfers_example = amount_at-transfers "M1" "1020" (transfer ∷ transfer ∷ [])

abbrev transfer_whole : PlanOption
transfer_whole = record transfer { coverage_units = pos 5000000 }

valid_quantities-InUnits_example :
    WholeUnits transfer_whole.coverage_units × All InUnits transfer_whole.actions
unfolding valid_quantities
valid_quantities-InUnits_example = valid_quantities-InUnits transfer_whole refl

abbrev allocation : String → Option ℤ
allocation id = some (pos 5000000)

portfolio_check-within_example :
    ((transfer_whole ∷ []) ≢ [])
    × (sum_ℤ (λ o. o.coverage_units) (transfer_whole ∷ [])
        ≤ℤ sum_ℤ (allocated allocation) (transfer_whole ∷ []))
unfolding portfolio_check
portfolio_check-within_example = portfolio_check-within allocation (transfer_whole ∷ []) refl

abbrev equal_values : Value → Value → Bool
equal_values (amount (exact a)) (amount (exact b)) = eq_ℤ a b
equal_values (text a) (text b) = str_eq a b
equal_values _ _ = false

abbrev arrival_text : Instant → String
arrival_text i = "soon"

abbrev first_day : ℤ → ℕ
first_day t = 0

abbrev short_hours : Decimal → ℤ
short_hours d = pos 1000

abbrev terms : Terms
terms = record {
  now = at 1000000;
  grounding = grounding;
  corroboration = corroboration;
  minimum_cover = exact (pos 2000000);
  max_age = pos 60000000;
  max_price_age = pos 900000000;
  allocation = none;
}

abbrev vetted : Verification
vetted =
    built no_number no_number equal_values arrival_text first_day short_hours evidence terms
      (pos 2000000) plan_hash plan

routed-IsVetted_example :
    (cover : ℤ) × (as_cover no_number no_number equal_values arrival_text first_day short_hours
        terms.minimum_cover
      ≡ some cover)
    × IsVetted no_number no_number equal_values arrival_text first_day short_hours evidence terms
        cover option
    × IsWhole no_number no_number equal_values arrival_text first_day short_hours evidence terms
        cover plan
unfolding verify route String_discrete ◌-ℤ◌ valid transfers sources_ok same valid_quantities
    dates_ok actions_ok masters_ok compliance_ok donors_ok unreserved_ok cost_ok lead_ok sum_ℤ ◌*ℤ◌
    ◌+ℤ◌ confirmed_ok grounding_ok recipients_ok is_reversible confidence_for find_option
    portfolio_check
routed-IsVetted_example =
    routed-IsVetted no_number no_number equal_values arrival_text first_day short_hours evidence
      terms plan_hash part_hash sample day_of no_source plan {v = vetted} policy (at 2000000)
      (at 9000000) "1010" (limit ∷ []) no_horizon
      {r = record {
        tier = 1;
        version_hash = "H";
        parts =
            auto_part plan_hash part_hash sample day_of short_hours no_number no_number equal_values
              no_source policy vetted "H" (pick ∷ [])
            ∷ [];
        reason = none;
      }}
      option refl refl (λ e. cc e) (inl refl) refl
