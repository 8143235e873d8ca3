-- ===== src/Case/Status/Paths.antt =====
-- services/shared/case_state.py: what the state machine lets happen, the histories of a case, from RECEIVED on.
use aera_be.Prelude.{◌≡◌, refl, sym, ◌⊎◌, inl, inr, Bool, true, false, List, [], ◌∷◌, arith, Listed}
use aera_be.Case.Status.{
  CaseStatus, received, triaged, investigating, waiting_planner, waiting_supplier, plan_proposed,
  verified, awaiting_approval, auto_approved, approved, rejected, escalated, executing, monitoring,
  reopened, closed, rolled_back, failed_rolled_back, can_transition, is_terminal,
}

-- `History s seen`: a case that is in state `s` and was in the states `seen` before, the latest
-- first.
pub data History : CaseStatus → List CaseStatus → Type 0 where
  opened : History received []
  moved :
      {s : CaseStatus} {seen : List CaseStatus} (t : CaseStatus)
      → History s seen
      → can_transition s t ≡ true
      → History t (s ∷ seen)

-- The states in which SAP is or has been written.
abbrev pub written : CaseStatus → Bool
written executing = true
written monitoring = true
written reopened = true
written rolled_back = true
written failed_rolled_back = true
written _ = false

abbrev pub allowed : CaseStatus → Bool
allowed auto_approved = true
allowed approved = true
allowed _ = false

abbrev pub decided : CaseStatus → Bool
decided awaiting_approval = true
decided auto_approved = true
decided approved = true
decided rejected = true
decided _ = false

written_needs :
    (s t : CaseStatus)
    → can_transition s t ≡ true
    → written t ≡ true
    → (written s ≡ true) ⊎ (s ≡ auto_approved) ⊎ (s ≡ approved)
unfolding can_transition
written_needs s t h w = ground arith

decided_needs :
    (s t : CaseStatus)
    → can_transition s t ≡ true
    → decided t ≡ true
    → (decided s ≡ true) ⊎ (s ≡ verified)
unfolding can_transition
decided_needs s t h w = ground arith

allowed-decided : (s : CaseStatus) → allowed s ≡ true → decided s ≡ true
allowed-decided s h = ground arith

history-decided :
    {s : CaseStatus} {seen : List CaseStatus}
    → History s seen
    → decided s ≡ true
    → Listed verified seen
history-decided opened d = cc d
history-decided (moved {s = s} t h step) d = elim (decided_needs s t step d) [
  | inl before ↦ inr (history-decided h before)
  | inr now ↦ inl (sym now)
]

-- The approvals that a history has seen.
abbrev pub Approved : List CaseStatus → Type 0
Approved seen = (Listed auto_approved seen ⊎ Listed approved seen) × Listed verified seen

keep-Approved : {s : CaseStatus} (seen : List CaseStatus) → Approved seen → Approved (s ∷ seen)
keep-Approved seen (inl a, v) = (inl (inr a), inr v)
keep-Approved seen (inr a, v) = (inr (inr a), inr v)

-- In every history of a case, a state in which SAP is or has been written (EXECUTING, MONITORING,
-- REOPENED, ROLLED_BACK, FAILED_ROLLED_BACK) comes after AUTO_APPROVED or APPROVED, and after
-- VERIFIED.
pub written_after_approval :
    {s : CaseStatus} {seen : List CaseStatus} → History s seen → written s ≡ true → Approved seen
written_after_approval opened w = cc w
written_after_approval (moved {s = s} {seen = seen} t h step) w = elim (written_needs s t step w) [
  | inl before ↦ keep-Approved seen (written_after_approval h before)
  | inr (inl a) ↦ (inl (inl (sym a)), inr (history-decided h (rw a refl)))
  | inr (inr a) ↦ (inr (inl (sym a)), inr (history-decided h (rw a refl)))
]

-- A way through the state machine.
pub data Way : CaseStatus → CaseStatus → Type 0 where
  arrived : {s : CaseStatus} → Way s s
  step : (s : CaseStatus) {t u : CaseStatus} → can_transition s t ≡ true → Way t u → Way s u

from_escalated : Way escalated closed
unfolding can_transition
from_escalated = step escalated refl arrived

from_investigating : Way investigating closed
unfolding can_transition
from_investigating = step investigating refl from_escalated

-- From every state that is not terminal a case can come to CLOSED, and from a terminal state it
-- goes nowhere.
pub terminal_or_closable :
    (s : CaseStatus)
    → ((is_terminal s ≡ true) × ((t : CaseStatus) → can_transition s t ≡ false)) ⊎ Way s closed
unfolding is_terminal can_transition
terminal_or_closable received = inr (step received refl (step triaged refl from_investigating))
terminal_or_closable triaged = inr (step triaged refl from_investigating)
terminal_or_closable investigating = inr from_investigating
terminal_or_closable waiting_planner = inr (step waiting_planner refl from_investigating)
terminal_or_closable waiting_supplier = inr (step waiting_supplier refl from_investigating)
terminal_or_closable plan_proposed = inr (step plan_proposed refl from_investigating)
terminal_or_closable verified = inr (step verified refl from_escalated)
terminal_or_closable awaiting_approval = inr (step awaiting_approval refl from_escalated)
terminal_or_closable auto_approved =
    inr (step auto_approved refl (step executing refl from_investigating))
terminal_or_closable approved = inr (step approved refl (step executing refl from_investigating))
terminal_or_closable rejected = inr (step rejected refl arrived)
terminal_or_closable escalated = inr from_escalated
terminal_or_closable executing = inr (step executing refl from_investigating)
terminal_or_closable monitoring = inr (step monitoring refl arrived)
terminal_or_closable reopened = inr (step reopened refl from_investigating)
terminal_or_closable closed = inl (refl, λ t. refl)
terminal_or_closable rolled_back = inl (refl, λ t. refl)
terminal_or_closable failed_rolled_back = inl (refl, λ t. refl)
