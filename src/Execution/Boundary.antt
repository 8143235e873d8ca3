-- ===== src/Execution/Boundary.antt =====
-- The data of services/execution/workflow.py: transfers, steps and executions, the protocol
-- `Boundary`, and the state of a workflow. The boundary stands for SAP, the approvals, the kill
-- switch and the audit trail: each call may raise, and may find that others have changed the world.
use aera_be.Prelude.{
  String, ℕ, suc, Bool, true, false, not, ◌&&◌, ◌||◌, List, [], ◌∷◌, ◌++◌, codes, ite, ℕ_discrete,
}
use aera_be.Plan.{
  Action, create_sto, change_po_date, split_po_schedule_line, book_air_freight, create_po_alternate,
}
use aera_be.Prelude.Decimal.{Decimal}
use aera_be.Execution.Fault.{Result, Exec}
use aera_be.Execution.Journal.{Undo, StepUndo}
use aera_be.Execution.Identity.{decimal}

pub record Transfer : Type 0 where
  pub material : String
  pub plant : String
  pub quantity : Decimal
  pub available : Decimal
  pub source_ref : String

-- The target is the list of its characters.
pub record Step : Type 0 where
  pub index : ℕ
  pub action : Action
  pub target : List ℕ
  pub source_refs : List String
  pub substep : ℕ

pub record Execution : Type 0 where
  pub case_id : String
  pub version : ℕ
  pub part_id : String
  pub version_hash : String
  pub steps : List Step
  pub transfers : List Transfer

pub data Notice : Type 0 where
  execution_replay return_to_planning undo_saved execution_halted : Notice
  execution_uncertain failed_rolled_back execution_completed : Notice
  action_irreversible action_compensated compensation_failure rolled_back_notice : Notice

-- `Boundary`: each call may raise, and may find the world changed.
pub record Boundary : Type 1 where
  pub World : Type 0
  pub authorize : Execution → Exec World Bool
  pub authorize_rollback : Execution → Exec World Bool
  pub killed : Exec World Bool
  pub revalidate : Execution → Exec World Bool
  pub prepare_undo : Step → Exec World StepUndo
  pub apply : Step → Exec World String
  pub verify : Step → String → Exec World Bool
  pub undo : Step → Undo → String → Exec World String
  pub audit : Notice → Exec World (Unit {0})

abbrev pub type_of : Action → String
type_of (create_sto _ _ _ _ _) = "CREATE_STO"
type_of (change_po_date _ _ _ _) = "CHANGE_PO_DATE"
type_of (split_po_schedule_line _ _ _ _) = "SPLIT_PO_SCHEDULE_LINE"
type_of (book_air_freight _ _ _ _ _) = "BOOK_AIR_FREIGHT"
type_of (create_po_alternate _ _ _ _ _) = "CREATE_PO_ALTERNATE"

-- The store of a workflow: the journal's table, the ledger's table and the world.
pub record System (J L W : Type 0) : Type 0 where
  pub journal : J
  pub ledger : L
  pub world : W

module _ {J L W A : Type 0} where
  abbrev pub on_journal : Exec J A → Exec (System J L W) A
  on_journal m s = let (r, j) = m s.journal in (r, record s { journal = j })

  abbrev pub on_ledger : Exec L A → Exec (System J L W) A
  on_ledger m s = let (r, l) = m s.ledger in (r, record s { ledger = l })

  abbrev pub on_world : Exec W A → Exec (System J L W) A
  on_world m s = let (r, w) = m s.world in (r, record s { world = w })

  abbrev pub lift : Result A → Exec (System J L W) A
  lift r s = (r, s)

-- The steps of a split line, numbered from `i`: one for each part.
abbrev pub split_steps {ℓ} : {P : Type ℓ} → Step → ℕ → List P → List Step
split_steps s i [] = []
split_steps s i (p ∷ ps) =
    record s { target = s.target ++ codes "#part#" ++ decimal i; substep = i }
    ∷ split_steps s (suc i) ps

abbrev pub expand_step : Action → Step → List Step
expand_step (split_po_schedule_line po item line parts) s = split_steps s 0 parts
expand_step _ s = s ∷ []

unfoldable pub expand_steps : List Step → List Step
expand_steps [] = []
expand_steps (s ∷ ss) = expand_step s.action s ++ expand_steps ss

unfoldable pub expand : Execution → Execution
unfolding expand_steps
expand e = record e { steps = expand_steps e.steps }

unfoldable pub Text_discrete : Discrete (List ℕ)
unfolding ℕ_discrete
Text_discrete = hlevel ℕ_discrete

-- `(s.index, s.target)` of one step is that of another.
unfoldable pub same_step : Step → Step → Bool
unfolding Text_discrete ℕ_discrete
same_step s t =
    ite (ℕ_discrete s.index t.index) true false && ite (Text_discrete s.target t.target) true false

abbrev repeats : Step → List Step → Bool
repeats s [] = false
repeats s (t ∷ ts) = same_step s t || repeats s ts

unfoldable pub uniquely_indexed : List Step → Bool
unfolding same_step
uniquely_indexed [] = true
uniquely_indexed (s ∷ ss) = not (repeats s ss) && uniquely_indexed ss
