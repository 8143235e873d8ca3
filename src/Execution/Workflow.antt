-- ===== src/Execution/Workflow.antt =====
-- services/execution/workflow.py: `Workflow.run` and `Workflow.rollback`.
pub mod Writes
pub mod Guards
pub mod Rollback
use aera_be.Prelude.{
  String, ℕ, Bool, true, false, not, ◌||◌, Option, none, some, List, [], ◌∷◌, ◌++◌, map, any,
  if◌then◌else◌,
}
use mathlib.Core.List.{reverse}
use aera_be.Storage.{Database}
use aera_be.Execution.Fault.{
  Fault, Result, ok, err, value_error, key_error, permission_error, uncertain_write, stale_plan,
  kill_switch, verification_failed, rejected_write, pure, raise, continue, ◌>>=◌, ◌>>◌,
}
use aera_be.Execution.Journal
use aera_be.Execution.Journal.{
  JournalKey, exec_key, rollback_key, Entry, pending, succeeded, undone, Undo, step_undo,
  reverse_completed_actions, manual_reconciliation, Payload, document, results, rolled_back,
  Request, execution, write, rolling_back, StepSummary, is_status,
}
use aera_be.Execution.Ledger
use aera_be.Execution.Ledger.{LedgerKey, LedgerItem, Demand}
use aera_be.Execution.Boundary.{
  Execution, Step, Transfer, Boundary, execution_replay, return_to_planning, undo_saved,
  execution_halted, execution_uncertain, failed_rolled_back, execution_completed,
  rolled_back_notice, on_journal, on_ledger, on_world, lift, expand, uniquely_indexed,
}
use aera_be.Execution.Compensate.{Done, State, Run, audit, release_all, compensate, step_key}

-- What a record of the journal holds as its result.
abbrev pub as_results : Payload → Result (List String)
as_results (results rs) = ok rs
as_results _ = err key_error

abbrev pub as_document : Option Payload → Result String
as_document (some (document d)) = ok d
as_document _ = err key_error

abbrev pub cons_ok {ℓ} : {A : Type ℓ} → Result A → Result (List A) → Result (List A)
cons_ok (err f) r = err f
cons_ok (ok a) (err f) = err f
cons_ok (ok a) (ok rest) = ok (a ∷ rest)

abbrev pub traverse {ℓ κ} : {A : Type ℓ} {B : Type κ} → (A → Result B) → List A → Result (List B)
traverse f [] = ok []
traverse f (a ∷ rest) = cons_ok (f a) (traverse f rest)

abbrev pub result_of : Option Entry → Result String
result_of none = err key_error
result_of (some r) = as_document r.result

-- The conditions on the records of the steps.
abbrev pub every_succeeded : List (Option Entry) → Bool
every_succeeded [] = true
every_succeeded (r ∷ rs) = if is_status succeeded r then every_succeeded rs else false

abbrev pub is_stuck : Option Entry → Bool
is_stuck r = is_status pending r || is_status undone r

abbrev pub is_empty {ℓ} : {A : Type ℓ} → List A → Bool
is_empty [] = true
is_empty (a ∷ rest) = false

abbrev pub summary : Step → StepSummary
summary s = record {
  index = s.index;
  target = s.target;
  action = s.action;
  source_refs = s.source_refs;
}

abbrev pub execution_key : Execution → JournalKey
execution_key e = exec_key e.case_id e.version e.part_id

abbrev pub execution_request : Execution → Request
execution_request e = execution e.version_hash (map summary e.steps)

abbrev pub write_request : Execution → Step → Request
write_request e s = write s.action s.target s.source_refs e.version_hash e.part_id

abbrev pub demand : Execution → Transfer → Demand
demand e t = record {
  material = t.material;
  plant = t.plant;
  reservation_id = e.part_id;
  case_id = e.case_id;
  quantity = t.quantity;
  available = t.available;
  source_ref = t.source_ref;
}

-- The steps with their keys and records.
abbrev pub Planned : Type 0
Planned = Step × JournalKey × Option Entry

module _ (jdb : Database JournalKey Entry) (ldb : Database LedgerKey LedgerItem)
    (boundary : Boundary) (digest : Request → Undo → String) (sha256 : List ℕ → List ℕ) where
  abbrev S : Type 0
  S = State jdb ldb boundary digest

  abbrev R : Type 0 → Type 0
  R A = Run jdb ldb boundary digest A

  unfoldable pub planned : List Step → List JournalKey → S → List Planned
  planned [] ks s = []
  planned (x ∷ xs) [] s = []
  planned (x ∷ xs) (k ∷ ks) s = (x, k, Journal.read jdb digest k s.journal) ∷ planned xs ks s

  -- The reservations, in order; what was held so far, the last first, comes back in any case.
  unfoldable pub hold_all :
      Execution → List Transfer → List Transfer → S → (List Transfer × Result (Unit {0})) × S
  hold_all e [] held s = ((held, ok tt), s)
  hold_all e (t ∷ ts) held s =
      let (r, s') = on_ledger {W = boundary.World} (Ledger.reserve ldb (demand e t)) s in
      let rest = hold_all e ts (t ∷ held) s' in elim r [ ok u ↦ rest | err f ↦ ((held, err f), s') ]

  -- The undo of a step: the one on record, or a new one.
  abbrev pub undo_for : Planned → R Undo
  undo_for (x, k, some r) = pure r.undo
  undo_for (x, k, none) = on_world (boundary.prepare_undo x) >>= λ u. pure (step_undo u)

  unfoldable pub prepare_all : Execution → List Planned → R (Unit {0})
  prepare_all e [] = pure tt
  prepare_all e (p ∷ ps) = do
    u ← undo_for p
    on_journal (Journal.prepare jdb digest p.1 (write_request e p.0) u)
    prepare_all e ps

  -- The answer of `boundary.apply`, with its rejection noted in the journal.
  unfoldable pub answered : JournalKey → Result String → R String
  answered k (ok a) = on_journal (Journal.complete jdb digest k (document a)) >> pure a
  answered k (err rejected_write) = on_journal (Journal.reject jdb digest k) >> raise rejected_write
  answered k (err f) = raise f

  unfoldable pub apply_step : Step → JournalKey → R String
  unfolding answered
  apply_step x k s =
      let (r, s') = on_world {J = jdb.State} {L = ldb.State} (boundary.apply x) s in answered k r s'

  abbrev previous_or : Option Payload → R String → R String
  previous_or none m = m
  previous_or (some p) m = lift (as_document (some p))

  -- One write: the kill switch, the claim, and the write itself if none was made before.
  unfoldable pub write_step : Step → JournalKey → R String
  unfolding apply_step
  write_step x k = do
    killed ← on_world boundary.killed
    if killed then raise kill_switch else do
      previous ← on_journal (Journal.claim jdb digest k)
      previous_or previous (apply_step x k)

  unfoldable pub check_step : Step → String → R (Unit {0})
  check_step x a = do
    same ← on_world (boundary.verify x a)
    if same then pure tt else raise verification_failed

  -- The writes, in order; the completed ones, the last first, come back in any case.
  unfoldable pub write_all :
      List Planned → List Done → List String → S → (List Done × Result (List String)) × S
  unfolding write_step check_step
  write_all [] done out s = ((done, ok out), s)
  write_all ((x, k, r) ∷ ps) done out s =
      let (a, s') = write_step x k s in
      let next : String → (List Done × Result (List String)) × S = λ v.
        let (c, s'') = check_step x v s' in
        let rest = write_all ps ((x, k, v) ∷ done) (out ++ v ∷ []) s'' in
        elim c [ ok u ↦ rest | err f ↦ (((x, k, v) ∷ done, err f), s'') ] in
      elim a [ ok v ↦ next v | err f ↦ ((done, err f), s') ]

  -- The first `except`: what was held is released, the last first, and the exception goes on.
  unfoldable pub or_release : Execution → List Transfer → Result (Unit {0}) → R (Unit {0})
  or_release e held (ok u) = pure tt
  or_release e held (err f) = release_all jdb ldb boundary digest e held >> raise f

  -- Reserve the stock and save every undo, before the first write.
  unfoldable pub secure : Execution → List Planned → S → Result (List Transfer) × S
  unfolding hold_all prepare_all or_release
  secure e ps s =
      let ((held, r), s') = hold_all e e.transfers [] s in
      let (r', s'') = continue r (λ u. prepare_all e ps) s' in
      (or_release e held r' >> pure held) s''

  -- Some write may have reached SAP without an answer.
  unfoldable pub unresolved : List Planned → S → Bool
  unresolved ps s = any (λ p. is_status pending (Journal.read jdb digest p.1 s.journal)) ps

  unfoldable pub unwind :
      Execution → List Planned → List Transfer → List Done → Fault → R (List String)
  unfolding unresolved
  unwind e ps held done f = compensate jdb ldb boundary digest done >> λ s.
      let uncertain = unresolved ps s in
      ((if uncertain then pure tt else release_all jdb ldb boundary digest e (reverse held))
          >> (audit jdb ldb boundary digest
                (if uncertain then execution_uncertain else failed_rolled_back)
              >> raise f))
        s

  -- The handlers around the writes, and the end of a run.
  unfoldable pub settle :
      Execution → List Planned → List Transfer → List Done × Result (List String) → R (List String)
  unfolding unwind
  settle e ps held (done, ok out) = do
    audit jdb ldb boundary digest execution_completed
    on_journal (Journal.complete jdb digest (execution_key e) (results out))
    pure out
  settle e ps held (done, err kill_switch) =
      audit jdb ldb boundary digest execution_halted >> raise kill_switch
  settle e ps held (done, err f) = unwind e ps held done f

  unfoldable pub perform : Execution → List Planned → R (List String)
  unfolding secure write_all settle
  perform e ps = do
    held ← secure e ps
    audit jdb ldb boundary digest undo_saved
    (λ s. let (r, s') = write_all ps [] [] s in settle e ps held r s')

  -- With the keys and records of the steps at hand.
  unfoldable pub resume_with : Execution → List Planned → R (List String)
  unfolding perform
  resume_with e ps =
      if every_succeeded (map (λ p. p.2) ps)
      then audit jdb ldb boundary digest execution_replay
        >> lift (traverse result_of (map (λ p. p.2) ps))
      else if any (λ p. is_stuck p.2) ps
      then raise uncertain_write
      else do
        valid ← on_world (boundary.revalidate e)
        if valid
            then perform e ps
            else (audit jdb ldb boundary digest return_to_planning >> raise stale_plan)

  unfoldable pub resume : Execution → R (List String)
  unfolding resume_with planned
  resume e = do
    ks ← lift (traverse (step_key sha256 e) e.steps)
    (λ s. resume_with e (planned e.steps ks s) s)

  -- What `claim` of the execution answered: an earlier run's results, or the permission to run.
  unfoldable pub claimed : Execution → Option Payload → R (List String)
  unfolding resume
  claimed e (some p) = audit jdb ldb boundary digest execution_replay >> lift (as_results p)
  claimed e none = resume e

  unfoldable pub start : Execution → R (List String)
  unfolding claimed
  start e = do
    on_journal (
        Journal.prepare jdb digest (execution_key e) (execution_request e)
          reverse_completed_actions)
    p ← on_journal (Journal.claim jdb digest (execution_key e))
    claimed e p

  unfoldable pub run_expanded : Execution → R (List String)
  unfolding start
  run_expanded e =
      if is_empty e.steps || not (uniquely_indexed e.steps)
      then raise value_error
      else if any (λ x. is_empty x.source_refs) e.steps
      then raise value_error
      else do killed ← on_world boundary.killed; if killed then raise kill_switch else start e

  unfoldable pub run : Execution → R (List String)
  unfolding run_expanded
  run e = do
    allowed ← on_world (boundary.authorize e)
    if allowed then run_expanded (expand e) else raise permission_error

  -- The steps of a rollback: those whose writes succeeded, the last first.
  unfoldable pub to_undo : Execution → List Step → S → List Done → Result (List Done)
  to_undo e [] s out = ok out
  to_undo e (x ∷ xs) s out =
      let keep = to_undo e xs s out in
      let more = λ (k : JournalKey) (a : String). to_undo e xs s ((x, k, a) ∷ out) in
      elim (step_key sha256 e x) [
        | err f ↦ err f
        | ok k ↦
            let r = Journal.read jdb digest k s.journal in
            if is_status pending r
            then err uncertain_write
            else if is_status succeeded r
            then elim (result_of r) [ err f ↦ err f | ok a ↦ more k a ]
            else keep
      ]

  unfoldable pub roll_back_with : Execution → R (Unit {0})
  unfolding to_undo
  roll_back_with e = do
    done ← (λ s. (to_undo e e.steps s [], s))
    compensate jdb ldb boundary digest done
    release_all jdb ldb boundary digest e e.transfers
    audit jdb ldb boundary digest rolled_back_notice
    on_journal (Journal.complete jdb digest (rollback_key (execution_key e)) rolled_back)

  unfoldable pub rollback_expanded : Execution → R (Unit {0})
  unfolding roll_back_with
  rollback_expanded e s =
      if is_status succeeded (Journal.read jdb digest (execution_key e) s.journal)
      then (do
        on_journal (
            Journal.prepare jdb digest (rollback_key (execution_key e))
              (rolling_back e.version_hash) manual_reconciliation)
        p ← on_journal (Journal.claim jdb digest (rollback_key (execution_key e)))
        elim p [ some q ↦ pure tt | none ↦ roll_back_with e ])
          s
      else (err uncertain_write, s)

  unfoldable pub rollback : Execution → R (Unit {0})
  unfolding rollback_expanded
  rollback e = do
    allowed ← on_world (boundary.authorize_rollback e)
    if allowed then rollback_expanded (expand e) else raise permission_error
