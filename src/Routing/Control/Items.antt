-- ===== src/Routing/Control/Items.antt =====
-- services/routing/store.py: the items of the approvals. A route and its parts, the plan versions
-- and the outbox stand in the table `cases`, the approvers' limits and the kill switch in `config`.
use aera_be.Prelude.{String, String_discrete, ℕ, ℕ_discrete, Bool, Option, List}
use aera_be.Prelude.Int.{ℤ}
use aera_be.Verify.{PlanRecord}
use aera_be.Routing.Logic.{Part, Reason, ApproverLimit}

-- The event types of the outbox.
pub data EventType : Type 0 where
  plan_approved plan_rejected plan_routed plan_proposed : EventType
  case_ready_for_run notification_requested : EventType

-- `APPROVAL_EXPIRED` or `APPROVAL_REMINDER`
pub data TickKind : Type 0 where
  approval_expired approval_reminder : TickKind

-- The last part of an outbox key: an id or hash, a version, `{version}#PORTFOLIO_REALLOCATED`, or
-- `{part_id}#{kind}`.
pub data OutboxName : Type 0 where
  of_text : String → OutboxName
  of_version portfolio_of : ℕ → OutboxName
  of_tick : (part_id : String) → TickKind → OutboxName

pub data ApprovalKey : Type 0 where
  route : (case_id : String) (version : ℕ) → ApprovalKey
  part : (case_id part_id : String) → ApprovalKey
  plan : (case_id : String) (version : ℕ) → ApprovalKey
  outbox : (case_id : String) → EventType → OutboxName → ApprovalKey
  limit : (user : String) → ApprovalKey
  kill_switch : ApprovalKey

unfoldable EventType_discrete : Discrete EventType
EventType_discrete = hlevel

unfoldable TickKind_discrete : Discrete TickKind
TickKind_discrete = hlevel

unfoldable OutboxName_discrete : Discrete OutboxName
unfolding String_discrete ℕ_discrete TickKind_discrete
OutboxName_discrete = hlevel (String_discrete, ℕ_discrete, TickKind_discrete)

unfoldable pub ApprovalKey_discrete : Discrete ApprovalKey
unfolding String_discrete ℕ_discrete EventType_discrete OutboxName_discrete
ApprovalKey_discrete = hlevel (String_discrete, ℕ_discrete, EventType_discrete, OutboxName_discrete)

-- The `decisionPayload`, and the payload of the audit event.
pub record Payload : Type 0 where
  pub actor : String
  pub decision : String
  pub comment : String
  pub plan_version_hash : String

-- `PART#…`: the routed part and what became of it. An attribute that is missing or None is `none`.
pub record PartItem : Type 0 where
  pub routed : Part
  pub version_hash : String
  pub version : ℕ
  pub plant : String
  pub revision : ℕ
  pub decision : Option String
  pub decision_payload : Option Payload
  pub decided_at : Option ℤ
  pub approver : Option String
  pub reminded : Bool
  pub expired : Bool
  pub expired_approver : Option String
  pub superseded : Bool
  pub superseded_by : Option ℕ
  pub routed_at : ℤ

-- `ROUTE#…`
pub record RouteItem : Type 0 where
  pub version_hash : String
  pub version : ℕ
  pub plant : String
  pub routed_at : ℤ
  pub tier : ℕ
  pub reason : Option Reason
  pub parts : List Part
  pub verified_plan : PlanRecord

-- The `data` of an outbox item, for each of its writers.
pub data OutboxData : Type 0 where
  auto_approved : (part_id version_hash : String) (options : List String) → OutboxData
  routed_as : (tier : ℕ) (version_hash : String) → OutboxData
  decided : Payload → (part_id : String) (options : List String) → OutboxData
  proposed : (version : ℕ) → OutboxData
  portfolio_reallocated : OutboxData
  deadline_passed : (backup : Option String) (tier : ℕ) → OutboxData
  reminder_for : (approver : String) (part_id : String) → OutboxData

pub record OutboxItem : Type 0 where
  pub event_type : EventType
  pub content : OutboxData
  pub sent : Bool

-- `APPR#…`: the limit, and the fields that an edit of the limits adds.
pub record LimitItem : Type 0 where
  pub role : String
  pub granted : ApproverLimit
  pub changed_by : Option String
  pub changed_at : Option ℤ

pub data ApprovalItem : Type 0 where
  route_item : RouteItem → ApprovalItem
  part_item : PartItem → ApprovalItem
  plan_item : (fields : List String) → ApprovalItem
  outbox_item : OutboxItem → ApprovalItem
  limit_item : LimitItem → ApprovalItem
  kill_item : (value : String) → ApprovalItem
