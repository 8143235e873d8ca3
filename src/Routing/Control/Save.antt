-- ===== src/Routing/Control/Save.antt =====
-- services/routing/store.py: `ControlStore.save`, which stores a route with its parts once. The hash
-- of a plan is a parameter, as in services/routing/logic.py; the id and the version of the case are
-- the plan's.
pub mod Once
use aera_be.Prelude.{
  String, str_eq, ℕ, ◌==◌, Bool, true, false, not, Option, none, some, List, [], ◌∷◌, ◌++◌, map,
  if◌then◌else◌,
}
use aera_be.Prelude.Int.{ℤ}
use aera_be.Storage.{Write, Database}
use aera_be.Case.Items.{StoreKey, case_chain, meta, approval, StoreItem}
use aera_be.Case.Audit.{Draft, Entry, record_event}
use aera_be.Verify.{Plan, Verification}
use aera_be.Routing.Logic.{Part, Route}
use aera_be.Routing.Control.Items.{
  of_text, plan_approved, plan_routed, route, part, PartItem, RouteItem, auto_approved, routed_as,
  route_item, part_item,
}
use aera_be.Routing.Control.Store.{
  Answer, approval_conflict, done, as_route, notice, put_new, check, has_plan_version,
  answer_passing,
}

-- What `save` answers: the item that it has just written, as it was built, or the stored item, as
-- DynamoDB gives it back. A RouteItem is what the two have in common: read back, a field that was
-- None is missing, a time is its ISO text and a tuple is a list.
pub data Given : Type 0 where
  written read_back : RouteItem → Given

abbrev pub content : Given → RouteItem
content (written i) = i
content (read_back i) = i

module _ (plan_hash : Plan → String) (tier_text : ℕ → String) (event_hash : Draft → String)
    (candidate clock : ℕ → ℕ) (db : Database StoreKey StoreItem) (others : ℕ → db.State → db.State)
    (during : db.State → db.State) where
  module _ (case_id : String) (version : ℕ) (r : Route) (plant : String) (now : ℤ) where
    abbrev new_part : Part → PartItem
    new_part p = record {
      routed = p;
      version_hash = r.version_hash;
      version = version;
      plant = plant;
      revision = 0;
      decision = none;
      decision_payload = none;
      decided_at = none;
      approver = p.approver;
      reminded = false;
      expired = false;
      expired_approver = none;
      superseded = false;
      superseded_by = none;
      routed_at = now;
    }

    -- A part, and the approval of one that needs no approver.
    abbrev part_writes : Part → List (Write StoreKey StoreItem)
    part_writes p =
        put_new (approval (part case_id p.id)) (part_item (new_part p))
        ∷ (if p.tier == 1
            then notice case_id (of_text p.id) plan_approved
                (auto_approved p.id r.version_hash p.options)
              ∷ []
            else [])

    abbrev pub all_part_writes : List Part → List (Write StoreKey StoreItem)
    all_part_writes [] = []
    all_part_writes (p ∷ ps) = part_writes p ++ all_part_writes ps

    abbrev pub new_route : Verification → RouteItem
    new_route v = record {
      version_hash = r.version_hash;
      version = version;
      plant = plant;
      routed_at = now;
      tier = r.tier;
      reason = r.reason;
      parts = r.parts;
      verified_plan = v.plan_record;
    }

    abbrev pub save_writes : RouteItem → List (Write StoreKey StoreItem)
    save_writes item =
        put_new (approval (route case_id version)) (route_item item)
          ∷ check (meta case_id) (has_plan_version version)
          ∷ all_part_writes r.parts
        ++ notice case_id (of_text r.version_hash) plan_routed (routed_as r.tier r.version_hash)
          ∷ []

    abbrev pub save_entry : Entry
    save_entry = record {
      chain_key = case_chain case_id;
      type = "PLAN_ROUTED";
      actor = "system";
      payload = tier_text r.tier ∷ r.version_hash ∷ [];
      case_id = some case_id;
    }

    unfoldable pub save_new : Verification → db.State → Answer Given × db.State
    save_new v s =
        let (x, s') =
          record_event event_hash candidate clock db others save_entry (save_writes (new_route v))
            (during s) in
        (answer_passing (written (new_route v)) x, s')

    unfoldable pub save : Verification → db.State → Answer Given × db.State
    unfolding save_new
    save v s =
        if not (str_eq r.version_hash (plan_hash v.plan_record.plan))
        then (approval_conflict, s)
        else elim (as_route (db.get s (approval (route case_id version)))) [
          | none ↦ save_new v s
          | some existing ↦ (
            if str_eq existing.version_hash r.version_hash
                then done (read_back existing)
                else approval_conflict,
            s,
          )
        ]
