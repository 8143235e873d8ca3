-- ===== src/Case/Items.antt =====
-- The items of the tables `cases` and `audit` (SRD 6.20): a case's META item, its runs, the heads
-- of the audit chains, the audit events, the counters of case ids and the approvals.
use aera_be.Prelude.{String, String_discrete, ℕ, ℕ_discrete, Option, List}
use aera_be.Case.Status.{CaseStatus, Stage}
use aera_be.Routing.Control.Items.{ApprovalKey, ApprovalKey_discrete, ApprovalItem}

-- `CASE#…` or `SIGNAL#…`
pub data Chain : Type 0 where
  case_chain signal_chain : String → Chain

pub data StoreKey : Type 0 where
  meta : (case_id : String) → StoreKey
  run : (case_id run_id : String) → StoreKey
  head : Chain → StoreKey
  event : Chain → (event_id : ℕ) → StoreKey
  counter : (year : ℕ) → StoreKey
  approval : ApprovalKey → StoreKey

unfoldable pub StoreKey_discrete : Discrete StoreKey
unfolding String_discrete ℕ_discrete ApprovalKey_discrete
StoreKey_discrete = hlevel (String_discrete, ℕ_discrete, ApprovalKey_discrete)

-- The fields of `Case` that the stores read and write. Times are numbers, amounts are texts that
-- the stores only pass on.
pub record Case : Type 0 where
  pub case_id : String
  pub status : CaseStatus
  pub stage : Stage
  pub active_run_id : Option String
  pub signal_ids : List String
  pub rar_usd : Option String
  pub priority_score : Option String
  pub stockout_at : Option ℕ
  pub figures : List String
  pub plan_version : ℕ
  pub updated_at : ℕ

-- `AuditEvent`; the event ids are ULIDs, which are compared as numbers.
pub record AuditEvent : Type 0 where
  pub event_id : ℕ
  pub chain_key : Chain
  pub case_id : Option String
  pub ts : ℕ
  pub actor : String
  pub type : String
  pub payload : List String
  pub prev_hash : String
  pub hash : String

pub record Head : Type 0 where
  pub last_hash : String
  pub last_event_id : ℕ

-- `RUN#…`
pub record RunItem : Type 0 where
  pub end_reason : String
  pub summary : String
  pub ended_at : ℕ

pub data StoreItem : Type 0 where
  case_item : Case → StoreItem
  run_item : RunItem → StoreItem
  head_item : Head → StoreItem
  event_item : AuditEvent → StoreItem
  counter_item : ℕ → StoreItem
  approval_item : ApprovalItem → StoreItem
