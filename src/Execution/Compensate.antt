-- ===== src/Execution/Compensate.antt =====
-- services/execution/workflow.py: `_release`, `_compensate` and the key of a step.
use aera_be.Prelude.{
  String, ℕ, Bool, false, Option, none, some, List, [], ◌∷◌, codes, if◌then◌else◌,
}
use aera_be.Storage.{Database}
use aera_be.Execution.Fault.{Result, ok, err, compensation_failed, Exec, pure, raise, ◌>>=◌, ◌>>◌}
use aera_be.Execution.Journal
use aera_be.Execution.Journal.{
  JournalKey, action_key, undo_key, Entry, undone, Undo, step_undo, manual_reconciliation, document,
  Request, undoing, is_status,
}
use aera_be.Execution.Ledger
use aera_be.Execution.Ledger.{LedgerKey, LedgerItem}
use aera_be.Execution.Identity.{idempotency_key}
use aera_be.Execution.Boundary.{
  Execution, Step, Transfer, Boundary, Notice, action_irreversible, action_compensated,
  compensation_failure, System, on_journal, on_ledger, on_world, type_of,
}

-- A step that was written, with its key and what the write answered.
abbrev pub Done : Type 0
Done = Step × JournalKey × String

abbrev pub is_irreversible : Undo → Bool
is_irreversible (step_undo u) = u.irreversible
is_irreversible _ = false

abbrev key_of : Result (List ℕ) → Result JournalKey
key_of (ok d) = ok (action_key d)
key_of (err f) = err f

module _ (jdb : Database JournalKey Entry) (ldb : Database LedgerKey LedgerItem)
    (boundary : Boundary) (digest : Request → Undo → String) where
  abbrev pub State : Type 0
  State = System jdb.State ldb.State boundary.World

  abbrev pub Run : Type 0 → Type 0
  Run A = Exec State A

  abbrev pub audit : Notice → Run (Unit {0})
  audit n = on_world (boundary.audit n)

  -- `_release`
  unfoldable pub release_one : Execution → Transfer → Run (Unit {0})
  release_one e t = on_ledger (Ledger.release ldb t.material t.plant e.part_id)

  unfoldable pub release_all : Execution → List Transfer → Run (Unit {0})
  unfolding release_one
  release_all e [] = pure tt
  release_all e (t ∷ ts) = release_one e t >> release_all e ts

  -- The undo of one step, when no earlier attempt has made it.
  unfoldable pub undo_step : Step → JournalKey → Undo → String → Run (Unit {0})
  undo_step step key u result = do
    prior ← on_journal (Journal.claim jdb digest (undo_key key))
    elim prior [
      | some p ↦ pure tt
      | none ↦ (do
        answer ← on_world (boundary.undo step u result)
        on_journal (Journal.complete jdb digest (undo_key key) (document answer)))
    ]

  unfoldable pub undo_done : Step → JournalKey → Undo → String → Run (Unit {0})
  unfolding undo_step
  undo_done step key u result = do
    on_journal (Journal.prepare jdb digest (undo_key key) (undoing u result) manual_reconciliation)
    undo_step step key u result
    on_journal (Journal.mark_undone jdb digest key)
    audit action_compensated

  -- One round of the loop, on the record that it has read.
  unfoldable pub compensate_read : Done → Option Entry → Run (Unit {0})
  unfolding undo_done
  compensate_read (step, key, result) none = raise compensation_failed
  compensate_read (step, key, result) (some record_of) =
      if is_status undone (some record_of)
      then pure tt
      else if is_irreversible record_of.undo
      then audit action_irreversible
      else undo_done step key record_of.undo result

  unfoldable pub compensate_one : Done → Run (Unit {0})
  unfolding compensate_read
  compensate_one done s = compensate_read done (Journal.read jdb digest done.1 s.journal) s

  -- The loop, over the completed steps from the last to the first.
  unfoldable pub compensate_all : List Done → Run (Unit {0})
  unfolding compensate_one
  compensate_all [] = pure tt
  compensate_all (d ∷ ds) = compensate_one d >> compensate_all ds

  abbrev or_fail : Result (Unit {0}) → Run (Unit {0})
  or_fail (ok u) = pure tt
  or_fail (err f) = audit compensation_failure >> raise compensation_failed

  unfoldable pub compensate : List Done → Run (Unit {0})
  unfolding compensate_all
  compensate ds s = let (r, s') = compensate_all ds s in or_fail r s'

-- `key`: the digest that names the write of a step.
module _ (sha256 : List ℕ → List ℕ) where
  unfoldable pub step_key : Execution → Step → Result JournalKey
  step_key e s = key_of (
      idempotency_key sha256 (codes e.case_id) e.version s.index (codes (type_of s.action))
        s.target)
