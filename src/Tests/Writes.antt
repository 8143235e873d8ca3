-- ===== src/Tests/Writes.antt =====
-- The workflow at concrete inputs: a world that counts the writes sent to SAP.
use aera_be.Prelude.{
  String, ◌≡◌, refl, ℕ, ◌+◌, true, false, Option, none, some, List, [], ◌∷◌, ite, inl, All,
}
use aera_be.Storage.{Database}
use aera_be.Storage.Memory.{memory}
use aera_be.Plan.{change_po_date}
use aera_be.Execution.Fault.{Fault, ok, err}
use aera_be.Execution.Journal
use aera_be.Execution.Journal.{
  JournalKey, action_key, exec_key, JournalKey_discrete, Status_discrete, Entry, ready, succeeded,
  document, Request, rolling_back, Undo, reverse_completed_actions, is_status,
}
use aera_be.Execution.Journal.Once.{none_yet}
use aera_be.Execution.Ledger.{LedgerKey, LedgerItem, LedgerKey_discrete}
use aera_be.Execution.Boundary.{Boundary, Execution, Step}
use aera_be.Execution.Compensate.{State, step_key}
use aera_be.Execution.Identity.{idempotency_key, decimal}
use aera_be.Execution.Workflow.{write_step, run, rollback, to_undo, apply_step, answered}
use aera_be.Execution.Workflow.Writes.{sent_once, answer_on_record}
use aera_be.Execution.Workflow.Guards.{run_refused, rollback_refused}
use aera_be.Execution.Workflow.Rollback.{Written, to_undo-Written}

abbrev journal : Database JournalKey Entry
journal = memory JournalKey_discrete

abbrev ledger : Database LedgerKey LedgerItem
ledger = memory LedgerKey_discrete

abbrev digest : Request → Undo → String
digest r u = "digest"

abbrev sha256 : List ℕ → List ℕ
sha256 s = 1 ∷ []

-- Nobody has approved anything, and the kill switch is off.
abbrev boundary : Boundary
boundary = record {
  World = ℕ;
  authorize = λ e w. (ok false, w);
  authorize_rollback = λ e w. (ok false, w);
  killed = λ w. (ok false, w);
  revalidate = λ e w. (ok true, w);
  prepare_undo = λ x w. (ok (record { irreversible = false; body = "undo" }), w);
  apply = λ x w. (ok "4500000001", w + 1);
  verify = λ x a w. (ok true, w);
  undo = λ x u a w. (ok "undone", w + 1);
  audit = λ n w. (ok tt, w);
}

abbrev step : Step
step = record {
  index = 0;
  action = change_po_date "4500000001" "10" "1" 20260301;
  target = 52 ∷ [];
  source_refs = "SAP:po" ∷ [];
  substep = 0;
}

abbrev key : JournalKey
key = action_key (1 ∷ [])

abbrev entry : Entry
entry = record {
  request = rolling_back "v1";
  undo = reverse_completed_actions;
  fingerprint = "digest";
  status = ready;
  result = none;
}

abbrev prepared : JournalKey → Option Entry
prepared j = ite (JournalKey_discrete j key) (some entry) none

abbrev Store : Type 0
Store = State journal ledger boundary digest

abbrev before : Store
before = record { journal = prepared; ledger = λ k. none; world = 0 }

abbrev after_claim : Store
after_claim = record {
  journal = (Journal.claim journal digest key prepared).1;
  ledger = λ k. none;
  world = 1;
}

sent_once_example :
    (write_step journal ledger boundary digest sha256 step key after_claim).1.world ≡ 1
unfolding Journal.claim Journal.claim_read Journal.take Journal.read JournalKey_discrete
    Status_discrete
sent_once_example =
    sent_once journal ledger boundary digest sha256 step key prepared after_claim refl none_yet

answer_on_record_example :
    (r : Entry) × ((write_step journal ledger boundary digest sha256 step key before).1.journal key
      ≡ some r)
    × (r.status ≡ succeeded)
    × (r.result ≡ some (document "4500000001"))
unfolding write_step apply_step answered Journal.claim Journal.claim_read Journal.take Journal.read
    Journal.complete JournalKey_discrete Status_discrete
answer_on_record_example =
    answer_on_record journal ledger boundary digest sha256 step key before refl

abbrev execution : Execution
execution = record {
  case_id = "EXC-2026-0001";
  version = 1;
  part_id = "A";
  version_hash = "v1";
  steps = step ∷ [];
  transfers = [];
}

run_refused_example :
    ((f : Fault) × ((run journal ledger boundary digest sha256 execution before).0 ≡ err f))
    × ((run journal ledger boundary digest sha256 execution before).1.journal ≡ prepared)
    × ((run journal ledger boundary digest sha256 execution before).1.ledger ≡ before.ledger)
run_refused_example =
    run_refused journal ledger boundary digest sha256 execution before (inl (λ e. cc e))

rollback_refused_example :
    ((f : Fault) × ((rollback journal ledger boundary digest sha256 execution before).0 ≡ err f))
    × ((rollback journal ledger boundary digest sha256 execution before).1.journal ≡ prepared)
    × ((rollback journal ledger boundary digest sha256 execution before).1.ledger ≡ before.ledger)
rollback_refused_example =
    rollback_refused journal ledger boundary digest sha256 execution before (inl (λ e. cc e))

abbrev finished : Store
finished = record {
  journal = λ j.
      ite (JournalKey_discrete j key)
        (some (record entry { status = succeeded; result = some (document "4500000001") })) none;
  ledger = λ k. none;
  world = 1;
}

to_undo-Written_example :
    All
      (Written journal ledger boundary digest sha256 execution finished)
      ((step, key, "4500000001") ∷ [])
unfolding to_undo step_key idempotency_key decimal Journal.read JournalKey_discrete Status_discrete
to_undo-Written_example =
    to_undo-Written journal ledger boundary digest sha256 execution finished
      {ds = (step, key, "4500000001") ∷ []} refl
