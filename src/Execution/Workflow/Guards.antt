-- ===== src/Execution/Workflow/Guards.antt =====
-- services/execution/workflow.py: the guards of a run and of a rollback.
use aera_be.Prelude.{
  String, ℕ, ◌≡◌, ◌≢◌, refl, ◌⊎◌, inl, inr, Bool, true, false, not, if◌then◌else◌, List, any, ◌||◌,
  Bool-cases,
}
use aera_be.Storage.{Database}
use aera_be.Execution.Fault.{
  Result, ok, err, Fault, permission_error, value_error, kill_switch, uncertain_write, raise,
  continue,
}
use aera_be.Execution.Journal
use aera_be.Execution.Journal.{JournalKey, Entry, Request, Undo, is_status, succeeded}
use aera_be.Execution.Ledger.{LedgerKey, LedgerItem}
use aera_be.Execution.Boundary.{Execution, Boundary, expand, uniquely_indexed}
use aera_be.Execution.Compensate.{State, Run}
use aera_be.Execution.Workflow.{
  run, run_expanded, rollback, rollback_expanded, execution_key, start, is_empty,
}

module _ (jdb : Database JournalKey Entry) (ldb : Database LedgerKey LedgerItem)
    (boundary : Boundary) (digest : Request → Undo → String) (sha256 : List ℕ → List ℕ) where
  -- The call has raised, and the journal and the ledger are as they were.
  abbrev Untouched {ℓ} :
      {A : Type ℓ}
      → Result A × State jdb ldb boundary digest
      → State jdb ldb boundary digest
      → Type ℓ
  Untouched (r, t) s = ((f : Fault) × (r ≡ err f)) × (t.journal ≡ s.journal) × (t.ledger ≡ s.ledger)

  abbrev St : Type 0
  St = State jdb ldb boundary digest

  raises :
      {A : Type 0} (f : Fault) (s : St) (w : boundary.World)
      → Untouched {A = A} (raise f (record s { world = w })) s
  raises f s w = ((f, refl), refl, refl)

  -- A question whose answer is not `b` stops what goes on with `b` only.
  blocked :
      {A : Type 0} (b : Bool) (r : Result Bool) (s : St) (w : boundary.World)
      (k : Bool → Run jdb ldb boundary digest A)
      → r ≢ ok b
      → Untouched (k (not b) (record s { world = w })) s
      → Untouched (continue r k (record s { world = w })) s
  blocked b (err f) s w k n h = ((f, refl), refl, refl)
  blocked true (ok true) s w k n h = absurd (n refl)
  blocked true (ok false) s w k n h = h
  blocked false (ok true) s w k n h = h
  blocked false (ok false) s w k n h = absurd (n refl)

  -- A question that stops nothing, before something that is stopped anyway.
  anyway :
      {A : Type 0} (r : Result Bool) (s : St) (w : boundary.World)
      (k : Bool → Run jdb ldb boundary digest A)
      → Untouched (k true (record s { world = w })) s
      → Untouched (k false (record s { world = w })) s
      → Untouched (continue r k (record s { world = w })) s
  anyway (err f) s w k h h' = ((f, refl), refl, refl)
  anyway (ok true) s w k h h' = h
  anyway (ok false) s w k h h' = h'

  run_expanded-refused :
      (e : Execution) (s : St) (w : boundary.World)
      → (boundary.killed w).0 ≢ ok false
      → Untouched (run_expanded jdb ldb boundary digest sha256 e (record s { world = w })) s
  unfolding run_expanded
  run_expanded-refused e s w n =
      elim (Bool-cases (is_empty e.steps || not (uniquely_indexed e.steps))) [
        | inl y ↦ rw (y, run_expanded) (raises value_error s w)
        | inr y ↦ elim (Bool-cases (any (λ x. is_empty x.source_refs) e.steps)) [
          | inl z ↦ rw (y, z, run_expanded) (raises value_error s w)
          | inr z ↦
              rw (y, z, run_expanded)
                (blocked false (boundary.killed w).0 s (boundary.killed w).1
                  (λ killed.
                    if killed then raise kill_switch else start jdb ldb boundary digest sha256 e)
                  n (raises kill_switch s (boundary.killed w).1))
        ]
      ]

  -- Without the approval for the exact plan part, and with it while the kill switch is on, a run
  -- raises and writes nothing to the journal and nothing to the ledger.
  pub run_refused :
      (e : Execution) (s : State jdb ldb boundary digest)
      → ((boundary.authorize e s.world).0 ≢ ok true)
        ⊎ ((boundary.killed (boundary.authorize e s.world).1).0 ≢ ok false)
      → ((f : Fault) × ((run jdb ldb boundary digest sha256 e s).0 ≡ err f))
        × ((run jdb ldb boundary digest sha256 e s).1.journal ≡ s.journal)
        × ((run jdb ldb boundary digest sha256 e s).1.ledger ≡ s.ledger)
  unfolding run
  run_refused e s (inl h) =
      blocked true (boundary.authorize e s.world).0 s (boundary.authorize e s.world).1
        (λ allowed.
          if allowed
          then run_expanded jdb ldb boundary digest sha256 (expand e)
          else raise permission_error)
        h (raises permission_error s (boundary.authorize e s.world).1)
  run_refused e s (inr h) =
      anyway (boundary.authorize e s.world).0 s (boundary.authorize e s.world).1
        (λ allowed.
          if allowed
          then run_expanded jdb ldb boundary digest sha256 (expand e)
          else raise permission_error)
        (run_expanded-refused (expand e) s (boundary.authorize e s.world).1 h)
        (raises permission_error s (boundary.authorize e s.world).1)

  unfinished-refused :
      (e : Execution) (s : St) (w : boundary.World)
      → is_status succeeded (jdb.get s.journal (execution_key e)) ≡ false
      → Untouched (rollback_expanded jdb ldb boundary digest sha256 e (record s { world = w })) s
  unfolding rollback_expanded Journal.read
  unfinished-refused e s w h = rw (h, rollback_expanded) ((uncertain_write, refl), refl, refl)

  -- Without the rollback authority, and while the execution's record is missing or not SUCCEEDED,
  -- a rollback raises and writes nothing to the journal and nothing to the ledger.
  pub rollback_refused :
      (e : Execution) (s : State jdb ldb boundary digest)
      → ((boundary.authorize_rollback e s.world).0 ≢ ok true)
        ⊎ (is_status succeeded (jdb.get s.journal (execution_key e)) ≡ false)
      → ((f : Fault) × ((rollback jdb ldb boundary digest sha256 e s).0 ≡ err f))
        × ((rollback jdb ldb boundary digest sha256 e s).1.journal ≡ s.journal)
        × ((rollback jdb ldb boundary digest sha256 e s).1.ledger ≡ s.ledger)
  unfolding rollback
  rollback_refused e s (inl h) =
      blocked true (boundary.authorize_rollback e s.world).0 s
        (boundary.authorize_rollback e s.world).1
        (λ allowed.
          if allowed
          then rollback_expanded jdb ldb boundary digest sha256 (expand e)
          else raise permission_error)
        h (raises permission_error s (boundary.authorize_rollback e s.world).1)
  rollback_refused e s (inr h) =
      anyway (boundary.authorize_rollback e s.world).0 s (boundary.authorize_rollback e s.world).1
        (λ allowed.
          if allowed
          then rollback_expanded jdb ldb boundary digest sha256 (expand e)
          else raise permission_error)
        (unfinished-refused (expand e) s (boundary.authorize_rollback e s.world).1
          (unfold expand in h))
        (raises permission_error s (boundary.authorize_rollback e s.world).1)
