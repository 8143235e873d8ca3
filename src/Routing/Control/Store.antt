-- ===== src/Routing/Control/Store.antt =====
-- services/routing/store.py: the reads of `ControlStore`, its writes, and its exceptions. The
-- queries of a case's parts and of all limits are parameters: DynamoDB answers them in pages.
use aera_be.Prelude.{
  String, contains, ℕ, ◌==◌, Bool, true, false, ◌&&◌, Option, none, some, List, [], ◌∷◌, map, any,
  if◌then◌else◌,
}
use aera_be.Storage.{Write}
use aera_be.Case.Items.{StoreKey, approval, StoreItem, case_item, approval_item}
use aera_be.Case.Audit.{Recorded, event_of, transaction_conflict, contended, key_error}
use aera_be.Routing.Logic.{ApproverLimit}
use aera_be.Routing.Control.Items.{
  EventType, OutboxName, outbox, part, PartItem, RouteItem, OutboxData, LimitItem, ApprovalItem,
  route_item, part_item, outbox_item, limit_item, kill_item,
}

-- What an operation ends in. `approval_conflict` is `ApprovalConflict`; `conflict_error` is a
-- `TransactionConflictError` that is passed on; `missing_key` is a `KeyError`; `audit_contended` is
-- `record` out of attempts.
pub data Answer {ℓ} (A : Type ℓ) : Type ℓ where
  done : A → Answer A
  permission_error value_error approval_conflict conflict_error : Answer A
  missing_key audit_contended : Answer A

abbrev pub as_part : Option StoreItem → Option PartItem
as_part (some (approval_item (part_item p))) = some p
as_part _ = none

abbrev pub as_route : Option StoreItem → Option RouteItem
as_route (some (approval_item (route_item r))) = some r
as_route _ = none

abbrev pub as_limit : Option StoreItem → Option LimitItem
as_limit (some (approval_item (limit_item l))) = some l
as_limit _ = none

abbrev pub as_kill : Option StoreItem → Option String
as_kill (some (approval_item (kill_item v))) = some v
as_kill _ = none

abbrev pub vacant : Option StoreItem → Bool
vacant none = true
vacant (some i) = false

-- `_put` under its default condition.
abbrev pub put_new : StoreKey → ApprovalItem → Write StoreKey StoreItem
put_new k i = record { key = k; holds = vacant; item = λ _. some (approval_item i) }

-- `_outbox`
abbrev pub notice :
    (case_id : String) → OutboxName → EventType → OutboxData → Write StoreKey StoreItem
notice case_id name kind content =
    put_new (approval (outbox case_id kind name))
      (outbox_item (record { event_type = kind; content = content; sent = false }))

-- `revision = :revision`
abbrev pub at_revision : ℕ → Option StoreItem → Bool
at_revision n i = elim (as_part i) [ none ↦ false | some p ↦ p.revision == n ]

abbrev pub put_part : (case_id part_id : String) → (old : ℕ) → PartItem → Write StoreKey StoreItem
put_part case_id part_id old p = record {
  key = approval (part case_id part_id);
  holds = at_revision old;
  item = λ _. some (approval_item (part_item p));
}

-- A ConditionCheck.
abbrev pub check : StoreKey → (Option StoreItem → Bool) → Write StoreKey StoreItem
check k c = record { key = k; holds = c; item = λ i. i }

-- `planVersion = :v`
abbrev pub has_plan_version : ℕ → Option StoreItem → Bool
has_plan_version v (some (case_item c)) = c.plan_version == v
has_plan_version v _ = false

-- The exceptions of `record`, a `TransactionConflictError` turned into `conflict`.
abbrev pub answer_or {ℓ} : {A : Type ℓ} → (conflict value : A) → Recorded → Answer A
answer_or conflict value (event_of e) = done value
answer_or conflict value transaction_conflict = done conflict
answer_or conflict value contended = audit_contended
answer_or conflict value key_error = missing_key

abbrev pub answer_raising {ℓ} : {A : Type ℓ} → A → Recorded → Answer A
answer_raising value (event_of e) = done value
answer_raising value transaction_conflict = approval_conflict
answer_raising value contended = audit_contended
answer_raising value key_error = missing_key

abbrev pub answer_passing {ℓ} : {A : Type ℓ} → A → Recorded → Answer A
answer_passing value (event_of e) = done value
answer_passing value transaction_conflict = conflict_error
answer_passing value contended = audit_contended
answer_passing value key_error = missing_key

abbrev pub is_undecided : PartItem → Bool
is_undecided p = elim p.decision [ none ↦ true | some d ↦ false ]

-- `expired_pending`, over the parts of the case.
unfoldable expired_pending : List PartItem → (version : ℕ) → Bool
expired_pending ps version = any (λ p. p.version == version && p.expired && is_undecided p) ps

-- The approvers who let an approval of the case expire.
unfoldable pub missed : List PartItem → List String
missed [] = []
missed (p ∷ ps) = elim p.expired_approver [ none ↦ missed ps | some a ↦ a ∷ missed ps ]

unfoldable pub without : List String → List ApproverLimit → List ApproverLimit
without users [] = []
without users (l ∷ ls) =
    let rest = without users ls in if contains l.user_id users then rest else l ∷ rest

abbrev pub user_ids : List ApproverLimit → List String
user_ids ls = map (λ l. l.user_id) ls

-- `limits`, over all limits and, for a case, its parts.
unfoldable pub limits : List ApproverLimit → (of_case : List PartItem) → List ApproverLimit
unfolding missed without
limits all_limits ps = without (missed ps) all_limits

abbrev pub has_none {ℓ} : {A : Type ℓ} → Option A → Bool
has_none none = true
has_none (some a) = false

abbrev pub first_user : List ApproverLimit → Option String
first_user [] = none
first_user (l ∷ ls) = some l.user_id
