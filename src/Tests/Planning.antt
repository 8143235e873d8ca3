-- ===== src/Tests/Planning.antt =====
-- The solver's check and the rules at concrete inputs.
use aera_be.Prelude.{
  str_eq, any, ◌&&◌, contains, str_eq, ◌||◌, String, String_discrete, ◌≡◌, refl, ◌≤◌, ◌+◌, Bool,
  true, false, Option, none, some, List, [], ◌∷◌, arith,
}
use aera_be.Prelude.Int.{ℤ, pos, ◌≤ℤ◌, ◌+ℤ◌, sum_ℤ}
use aera_be.Optimizer.Problem.{Need, Candidate, Capacity, SolverResult, optimal}
use aera_be.Optimizer.Solver.{Answer}
use aera_be.Rules.Priority.{board_key, Sooner, board_key-Sooner}
use aera_be.Rules.Intake.{
  field_status, usable, usable_reason, same_case, same_case-sym, working_days_between,
  working_days-week,
}
use aera_be.Rules.Sender.{
  PartnerContact, supplier, email, verify_sender, first_that, IsAnswer, verify_sender-IsAnswer,
  with_standins, known_pairs, standins-exact,
}
use aera_be.Rules.Impact.{SalesExposure, revenue_at_risk, Dealt, revenue_at_risk-Dealt}

board_key-Sooner_example :
    ((board_key (pos 1000000) (some (pos 1000000))).0 ≤ℤ (board_key (pos 1000000) none).0)
    × Sooner (board_key (pos 1000000) (some (pos 1000000))).1 (board_key (pos 1000000) none).1
board_key-Sooner_example = board_key-Sooner 1000000 (some (pos 1000000)) none tt

abbrev unequal : String → String → String → Bool
unequal name value sap = false

usable_reason_example :
    usable
      ("PO_NUMBER" ∷ [])
      "PO_NUMBER"
      (field_status unequal "PO_NUMBER" "4500000001" 960000 none none 950000)
    ≡ true
unfolding String_discrete
usable_reason_example =
    usable_reason unequal ("PO_NUMBER" ∷ []) "PO_NUMBER" "4500000001" 960000 none none 950000 refl

same_case-sym_example :
    same_case (some "4500000001") (some "M1") 5 (some "4500000001") (some "M1") 9 72
    ≡ same_case (some "4500000001") (some "M1") 9 (some "4500000001") (some "M1") 5 72
same_case-sym_example =
    same_case-sym (some "4500000001") (some "M1") 5 (some "4500000001") (some "M1") 9 72

working_days-week_example :
    (working_days_between 3 8 ≤ 5)
    × (working_days_between 8 3 ≡ working_days_between 3 8)
    × (working_days_between 3 15 ≡ 5 + working_days_between 3 8)
working_days-week_example = working_days-week 3 8 (omega arith)

abbrev sale : SalesExposure
sale = record {
  sales_order = "SO1";
  item = "10";
  net_usd = pos 5000000;
  confirmed = 12;
  source_ref = "SAP:so";
}

revenue_at_risk-Dealt_example :
    (others : List SalesExposure) × Dealt 10 none
      (sale ∷ [])
      (revenue_at_risk (sale ∷ []) (some 10) none).1
      others
    × ((revenue_at_risk (sale ∷ []) (some 10) none).0 +ℤ sum_ℤ (λ e. e.net_usd) others
        ≡ sum_ℤ (λ e. e.net_usd) (sale ∷ []))
revenue_at_risk-Dealt_example = revenue_at_risk-Dealt 10 none (sale ∷ [])

abbrev need : Need
need = record {
  case_id = "C1";
  id = "N1";
  due = record { at = 10; has_zone = true };
  quantity = pos 5;
  lost_revenue_cents_per_unit = pos 100;
  source_ref = "SAP:need";
}

abbrev candidate : Candidate
candidate = record {
  case_id = "C1";
  id = "A1";
  arrival = record { at = 5; has_zone = true };
  max_quantity = pos 5;
  fixed_cost_cents = pos 50;
  unit_cost_cents = pos 1;
  resources = "R1" ∷ [];
  source_ref = "SAP:sto";
  sizeable = true;
  exclusive_group = none;
}

abbrev capacity : Capacity
capacity = record { resource = "R1"; quantity = pos 8; source_ref = "SAP:stock" }

abbrev blank : String → Bool
blank s = false

abbrev answer : Answer
answer = record {
  status = optimal;
  objective = pos 55;
  chosen = λ a. true;
  quantity = λ a. pos 5;
  covered = λ a n. pos 5;
  uncovered = λ n. pos 0;
}

abbrev cp_sat : ℤ → List Need → List Candidate → List Capacity → Answer
cp_sat time needs candidates capacities = answer

abbrev result : SolverResult
result = record {
  status = optimal;
  objective_cents = some (pos 55);
  allocations =
      record { candidate_id = "A1"; case_id = "C1"; quantity = pos 5; covered = ("N1", pos 5) ∷ [] }
      ∷ [];
  uncovered = ("N1", pos 0) ∷ [];
}

abbrev partner : PartnerContact
partner = record {
  partner_id = "S1";
  kind = supplier;
  email_domains = "acme.example" ∷ [];
  phones = "+4912345678" ∷ [];
}

abbrev domain_of : String → Option String
domain_of sender = some "acme.example"

abbrev number_of : String → Option String
number_of sender = some sender

abbrev strip : String → String
strip s = s

verify_sender-IsAnswer_example :
    IsAnswer domain_of number_of strip email "buyer@acme.example" (partner ∷ []) (some partner)
unfolding verify_sender first_that String_discrete
verify_sender-IsAnswer_example =
    verify_sender-IsAnswer domain_of number_of strip email "buyer@acme.example" (partner ∷ [])

standins-exact_example :
    contains "+4900000000"
      (with_standins domain_of number_of strip
        (known_pairs domain_of number_of strip (("+4900000000", "+4912345678") ∷ []))
        partner).phones
    ≡ (contains "+4900000000" partner.phones
        || any
            (λ q. str_eq q.0 "+4900000000" && contains q.1 partner.phones)
            (known_pairs domain_of number_of strip (("+4900000000", "+4912345678") ∷ [])))
standins-exact_example =
    standins-exact domain_of number_of strip "+4900000000" (("+4900000000", "+4912345678") ∷ [])
      partner
