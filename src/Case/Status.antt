-- ===== src/Case/Status.antt =====
-- services/shared/models.py `CaseStatus`, `Stage` and `_STAGES`, and services/shared/case_state.py.
pub mod Paths
use aera_be.Prelude.{Bool, true, false, List, [], ◌∷◌, ite, any}

pub data CaseStatus : Type 0 where
  received triaged investigating waiting_planner waiting_supplier plan_proposed : CaseStatus
  verified awaiting_approval auto_approved approved rejected escalated : CaseStatus
  executing monitoring reopened closed rolled_back failed_rolled_back : CaseStatus

unfoldable pub CaseStatus_discrete : Discrete CaseStatus
CaseStatus_discrete = hlevel

pub data Stage : Type 0 where
  signal triage impact options approve execute : Stage

-- `_STAGES`
unfoldable pub stage : CaseStatus → Stage
stage received = signal
stage triaged = triage
stage investigating = impact
stage waiting_planner = impact
stage waiting_supplier = impact
stage plan_proposed = options
stage verified = options
stage awaiting_approval = approve
stage auto_approved = approve
stage approved = approve
stage rejected = approve
stage escalated = approve
stage executing = execute
stage monitoring = execute
stage reopened = execute
stage closed = execute
stage rolled_back = execute
stage failed_rolled_back = execute

-- `TRANSITIONS`
unfoldable pub targets : CaseStatus → List CaseStatus
targets received = triaged ∷ []
targets triaged = investigating ∷ []
targets investigating = waiting_planner ∷ waiting_supplier ∷ plan_proposed ∷ escalated ∷ []
targets waiting_planner = investigating ∷ []
targets waiting_supplier = investigating ∷ []
targets plan_proposed = verified ∷ investigating ∷ []
targets verified = auto_approved ∷ awaiting_approval ∷ escalated ∷ []
targets awaiting_approval = approved ∷ rejected ∷ investigating ∷ escalated ∷ []
targets auto_approved = executing ∷ []
targets approved = executing ∷ []
targets executing = monitoring ∷ failed_rolled_back ∷ investigating ∷ []
targets monitoring = closed ∷ reopened ∷ []
targets reopened = investigating ∷ rolled_back ∷ []
targets escalated = investigating ∷ closed ∷ []
targets rejected = investigating ∷ closed ∷ []
targets closed = []
targets rolled_back = []
targets failed_rolled_back = []

-- `TERMINAL`
unfoldable pub is_terminal : CaseStatus → Bool
unfolding targets
is_terminal s = elim (targets s) [ [] ↦ true | t ∷ ts ↦ false ]

unfoldable pub can_transition : CaseStatus → CaseStatus → Bool
unfolding targets CaseStatus_discrete
can_transition source target =
    any (λ t. ite (CaseStatus_discrete t target) true false) (targets source)
