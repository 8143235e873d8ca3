-- ===== src/Tests/Approvals.antt =====
-- The approvals of a case at concrete inputs, on a database in memory.
use aera_be.Prelude.{
  inl, Listed, str_eq, contains, String, String_discrete, ◌≡◌, refl, ℕ, Bool, true, false, ◌⊎◌,
  Option, none, some, List, [], ◌∷◌, ite,
}
use aera_be.Prelude.Int.{ℤ, pos}
use aera_be.Prelude.Decimal.{exact}
use aera_be.Storage.{Database}
use aera_be.Storage.Memory.{memory}
use aera_be.Case.Status.{awaiting_approval, stage}
use aera_be.Case.Items.{
  StoreKey, StoreKey_discrete, meta, approval, StoreItem, case_item, approval_item, Case,
}
use aera_be.Case.Audit.{Draft, record_event}
use aera_be.Verify.{Plan, PlanRecord, Verification, OptionEvidence}
use aera_be.Routing.Logic.{qualifies, eligible, Part, ApproverLimit, Route}
use aera_be.Routing.Control.Items.{
  route, part, limit, kill_switch, Payload, PartItem, RouteItem, route_item, part_item, limit_item,
  kill_item,
}
use aera_be.Routing.Control.Store.{done, as_part, limits, missed}
use aera_be.Routing.Control.Grown.{Keeps-refl}
use aera_be.Routing.Control.Tick.{tick, backups}
use aera_be.Routing.Control.Tick.Backups.{backups-Listed}
use aera_be.Routing.Control.Decide.{decide, decided_part}
use aera_be.Routing.Control.Decide.Lawful.{Again, Anew, decide_lawful}
use aera_be.Routing.Control.Save.{written, read_back, save}
use aera_be.Routing.Control.Save.Once.{save_again}
use aera_be.Routing.Control.Final.{start, next, timer, final_stays}

abbrev control : Database StoreKey StoreItem
control = memory StoreKey_discrete

abbrev alone : ℕ → control.State → control.State
alone n s = s

abbrev quietly : control.State → control.State
quietly s = s

abbrev event_hash : Draft → String
event_hash d = "hash"

abbrev seven : ℕ → ℕ
seven n = 7

abbrev lower : String → String
lower v = "off"

abbrev never_blank : String → Bool
never_blank v = false

abbrev day : ℤ → ℤ
day t = pos 20000

abbrev own_limit : ApproverLimit
own_limit = record {
  user_id = "U1";
  plant = "1010";
  limit_usd = pos 50000000000;
  valid_from = pos 0;
  valid_to = pos 30000;
}

abbrev no_parts : control.State → String → List PartItem
no_parts s id = []

abbrev one_limit : control.State → List ApproverLimit
one_limit s = own_limit ∷ []

abbrev routed_part : Part
routed_part = record {
  id = "P";
  options = "A" ∷ [];
  tier = 2;
  cost = pos 1000000;
  confidence = record { num = 1; den = 1 };
  sampled = false;
  approver = some "U1";
  backup = none;
  deadline = some (pos 100);
  reminder = some (pos 50);
}

abbrev open_part : PartItem
open_part = record {
  routed = routed_part;
  version_hash = "H";
  version = 1;
  plant = "1010";
  revision = 0;
  decision = none;
  decision_payload = none;
  decided_at = none;
  approver = some "U1";
  reminded = false;
  expired = false;
  expired_approver = none;
  superseded = false;
  superseded_by = none;
  routed_at = pos 1;
}

abbrev plan_record : PlanRecord
plan_record = record {
  plan = record { options = []; chosen = []; total_cost_usd = pos 0; coverage_units = pos 0 };
  checks = [];
  verified_at = none;
}

abbrev route_read : RouteItem
route_read = record {
  version_hash = "H";
  version = 1;
  plant = "1010";
  routed_at = pos 1;
  tier = 2;
  reason = none;
  parts = routed_part ∷ [];
  verified_plan = plan_record;
}

abbrev waiting_case : Case
waiting_case = record {
  case_id = "C";
  status = awaiting_approval;
  stage = stage awaiting_approval;
  active_run_id = none;
  signal_ids = [];
  rar_usd = none;
  priority_score = none;
  stockout_at = none;
  figures = [];
  plan_version = 1;
  updated_at = 0;
}

abbrev put : StoreKey → StoreItem → control.State → control.State
put k i s j = ite (StoreKey_discrete k j) (some i) (s j)

abbrev empty : control.State
empty k = none

abbrev base : control.State
base = put (meta "C") (case_item waiting_case) (
    put (approval (limit "U1"))
      (approval_item (
        limit_item (record {
          role = "approver";
          granted = own_limit;
          changed_by = none;
          changed_at = none;
        })))
      (put (approval kill_switch) (approval_item (kill_item "OFF")) empty))

abbrev waiting : control.State
waiting =
    put (approval (route "C" 1)) (approval_item (route_item route_read))
      (put (approval (part "C" "P")) (approval_item (part_item open_part)) base)

abbrev approve : Payload
approve = record { actor = "U1"; decision = "APPROVED"; comment = ""; plan_version_hash = "H" }

decide_lawful_example :
    Again lower never_blank event_hash seven seven control alone quietly no_parts one_limit day 1
      (λ n s. Keeps-refl control s)
      (Keeps-refl control)
      "C"
      approve
      (pos 10)
      waiting
      (decided_part approve (pos 10) open_part)
      (decide lower never_blank event_hash seven seven control alone quietly no_parts one_limit day
        1 "C"
        ("approver" ∷ [])
        approve
        (pos 10)
        waiting).1
    ⊎ Anew lower never_blank event_hash seven seven control alone quietly no_parts one_limit day 1
        (λ n s. Keeps-refl control s)
        (Keeps-refl control)
        "C"
        approve
        (pos 10)
        waiting
        (decided_part approve (pos 10) open_part)
        (decide lower never_blank event_hash seven seven control alone quietly no_parts one_limit
          day 1 "C"
          ("approver" ∷ [])
          approve
          (pos 10)
          waiting).1
unfolding decide String_discrete StoreKey_discrete eligible limits record_event
decide_lawful_example =
    decide_lawful lower never_blank event_hash seven seven control alone quietly no_parts one_limit
      day 1 (λ n s. Keeps-refl control s) (Keeps-refl control) "C" approve (pos 10) waiting
      ("approver" ∷ []) {q = decided_part approve (pos 10) open_part} refl

abbrev plan_hash : Plan → String
plan_hash p = "H"

abbrev tier_text : ℕ → String
tier_text n = "2"

abbrev decided : control.State
decided =
    put (approval (part "C" "P"))
      (approval_item (part_item (decided_part approve (pos 10) open_part))) waiting

final_stays_example :
    as_part (
      control.get
        (tick event_hash seven seven control alone quietly no_parts one_limit day 1 "C" "P"
          (pos 200)
          decided).1
        (approval (part "C" "P")))
    ≡ some (decided_part approve (pos 10) open_part)
unfolding StoreKey_discrete
final_stays_example =
    final_stays lower never_blank plan_hash tier_text event_hash seven seven control alone quietly
      (λ n s. Keeps-refl control s) (Keeps-refl control) no_parts one_limit day 1 decided
      (tick event_hash seven seven control alone quietly no_parts one_limit day 1 "C" "P" (pos 200)
        decided).1
      (next decided decided _ (start decided) (timer "C" "P" (pos 200) decided)) "C" "P"
      (decided_part approve (pos 10) open_part) refl refl

abbrev new_one : Route
new_one = record { tier = 2; version_hash = "H"; parts = routed_part ∷ []; reason = none }

abbrev no_evidence : String → Option OptionEvidence
no_evidence id = none

abbrev verified : Verification
verified = record {
  plan_record = plan_record;
  version_hash = "H";
  evidence = no_evidence;
  corroboration = record { mrp_verified = true; agreeing_senders = [] };
  grounding = record {
    score = exact (pos 900000);
    relevance = exact (pos 900000);
    available = true;
  };
}

save_again_example :
    save plan_hash tier_text event_hash seven seven control alone quietly "C" 1 new_one "2020"
      (pos 9)
      verified
      (save plan_hash tier_text event_hash seven seven control alone quietly "C" 1 new_one "1010"
        (pos 1)
        verified
        base).1
    ≡ (
      done (read_back route_read),
      (save plan_hash tier_text event_hash seven seven control alone quietly "C" 1 new_one "1010"
          (pos 1)
          verified
          base).1,
    )
unfolding save String_discrete StoreKey_discrete record_event
save_again_example =
    save_again plan_hash tier_text event_hash seven seven control alone quietly "C" 1 new_one "1010"
      (pos 1) verified base "2020" (pos 9) {g = written route_read} refl

abbrev second_limit : ApproverLimit
second_limit = record own_limit { user_id = "U2" }

abbrev two_limits : control.State → List ApproverLimit
two_limits s = own_limit ∷ second_limit ∷ []

backups-Listed_example :
    Listed second_limit (two_limits waiting)
    × (qualifies "1010" (pos 1000000) (pos 20000) second_limit ≡ true)
    × (str_eq "U2" "U1" ≡ false)
    × (contains "U2" (missed (no_parts waiting "C")) ≡ false)
unfolding backups limits eligible String_discrete
backups-Listed_example =
    backups-Listed event_hash seven seven control alone quietly no_parts two_limits day 1 "C" "U1"
      open_part (pos 200) waiting second_limit (inl refl)
