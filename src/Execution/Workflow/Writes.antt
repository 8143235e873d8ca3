-- ===== src/Execution/Workflow/Writes.antt =====
-- services/execution/workflow.py: one write of a workflow.
use aera_be.Prelude.{
  String, ℕ, ◌≡◌, ◌≢◌, refl, sym, ap, ◌∙◌, Bool, true, false, if◌then◌else◌, Option, none, some,
  List, [], ◌∷◌, arith,
}
use aera_be.Storage.{Database}
use aera_be.Execution.Fault.{
  Result, ok, err, Fault, rejected_write, kill_switch, continue, raise, pure,
}
use aera_be.Execution.Journal
use aera_be.Execution.Journal.{
  JournalKey, Entry, Request, Undo, Payload, document, results, rolled_back, succeeded, ready,
  pending, rejected, undone, claim_read, finish,
}
use aera_be.Execution.Journal.Once.{Writes, claim_once}
use aera_be.Execution.Ledger.{LedgerKey, LedgerItem}
use aera_be.Execution.Boundary.{Step, Boundary}
use aera_be.Execution.Compensate.{State, Run}
use aera_be.Execution.Workflow.{write_step, apply_step, answered, as_document, previous_or}

module _ (jdb : Database JournalKey Entry) (ldb : Database LedgerKey LedgerItem)
    (boundary : Boundary) (digest : Request → Undo → String) (sha256 : List ℕ → List ℕ) where
  abbrev St : Type 0
  St = State jdb ldb boundary digest

  -- The claim of a step, and what follows it.
  abbrev claiming : Step → JournalKey → Run jdb ldb boundary digest String
  claiming x k t =
      let (c, j) = Journal.claim jdb digest k t.journal in
      continue c
        (λ p.
          previous_or jdb ldb boundary digest sha256 p
            (apply_step jdb ldb boundary digest sha256 x k))
        (record t { journal = j })

  previous-or_world :
      (x : Step) (k : JournalKey) (r : Result (Option Payload)) (s : St)
      → r ≢ ok none
      → (continue r
          (λ p.
            previous_or jdb ldb boundary digest sha256 p
              (apply_step jdb ldb boundary digest sha256 x k))
          s).1.world
        ≡ s.world
  previous-or_world x k (err f) s n = refl
  previous-or_world x k (ok none) s n = absurd (n refl)
  previous-or_world x k (ok (some p)) s n = refl

  after_kill_switch :
      (x : Step) (k : JournalKey) (r : Result Bool) (s : St)
      → (Journal.claim jdb digest k s.journal).0 ≢ ok none
      → (continue r (λ killed. if killed then raise kill_switch else claiming x k) s).1.world
        ≡ s.world
  after_kill_switch x k (err f) s n = refl
  after_kill_switch x k (ok true) s n = refl
  after_kill_switch x k (ok false) s n =
      previous-or_world x k (Journal.claim jdb digest k s.journal).0
        (record s { journal = (Journal.claim jdb digest k s.journal).1 }) n

  -- Once a write has been claimed in the journal, by this executor or another, a later attempt at a
  -- step under the same key asks the kill switch and does not reach SAP, whatever executors have
  -- written to the journal since.
  pub sent_once :
      (x : Step) (k : JournalKey) (j : jdb.State) (s : St)
      → (Journal.claim jdb digest k j).0 ≡ ok none
      → Writes jdb digest (Journal.claim jdb digest k j).1 s.journal
      → (write_step jdb ldb boundary digest sha256 x k s).1.world ≡ (boundary.killed s.world).1
  unfolding write_step
  sent_once x k j s granted ws =
      after_kill_switch x k (boundary.killed s.world).0
        (record s { world = (boundary.killed s.world).1 }) (claim_once jdb digest k j granted ws)

  abbrev Recorded : JournalKey → String → jdb.State → Type 0
  Recorded k v j =
      (r : Entry) × (jdb.get j k ≡ some r) × (r.status ≡ succeeded) × (r.result ≡ some (document v))

  -- A claim that is answered from the record has changed nothing.
  claim-Recorded :
      (k : JournalKey) (j : jdb.State) (p : Payload) (v : String)
      → (Journal.claim jdb digest k j).0 ≡ ok (some p)
      → as_document (some p) ≡ ok v
      → Recorded k v (Journal.claim jdb digest k j).1
  unfolding Journal.claim Journal.claim_read Journal.take
  claim-Recorded k j p v h d = go (jdb.get j k) refl h
    where
      go :
          (o : Option Entry)
          → jdb.get j k ≡ o
          → (claim_read jdb digest k o j).0 ≡ ok (some p)
          → Recorded k v (claim_read jdb digest k o j).1
      go none e q = cc q
      go (some r) e q =
          let was : r.status ≡ succeeded = ground arith in
          let had : r.result ≡ some p = ground arith in
          let is : p ≡ document v = ground arith in
          rw (was, claim_read) (r, e, was, had ∙ ap some is)

  complete-Recorded :
      (k : JournalKey) (v : String) (j : jdb.State)
      → (Journal.complete jdb digest k (document v) j).0 ≡ ok tt
      → Recorded k v (Journal.complete jdb digest k (document v) j).1
  unfolding Journal.complete
  complete-Recorded k v j h = go (jdb.get j k) refl
    where
      go :
          (o : Option Entry)
          → jdb.get j k ≡ o
          → Recorded k v (Journal.complete jdb digest k (document v) j).1
      go none e = absurd (ground (arith, jdb.commit-passes (finish k (document v) ∷ []) j))
      go (some r) e = (
        record r { status = succeeded; result = some (document v) },
        ground (
          arith,
          jdb.commit-passes (finish k (document v) ∷ []) j,
          jdb.get-after (finish k (document v) ∷ []) j k,
        ),
        refl,
        refl,
      )

  then-Recorded :
      (k : JournalKey) (a v : String) (r : Result (Unit {0})) (t : St)
      → (r ≡ ok tt → Recorded k a t.journal)
      → (continue r (λ u. pure a) t).0 ≡ ok v
      → Recorded k v (continue r (λ u. pure a) t).1.journal
  then-Recorded k a v (ok tt) t left h = let same : a ≡ v = cc h in rw (sym same) (left refl)
  then-Recorded k a v (err f) t left h = absurd (cc h)

  raises :
      (f : Fault) (r : Result (Unit {0})) (t : St) (v : String)
      → (continue r (λ u. raise {A = String} f) t).0 ≢ ok v
  raises f (ok u) t v h = cc h
  raises f (err g) t v h = cc h

  raised :
      (k : JournalKey) (f : Fault) (s : St) (v : String)
      → (answered jdb ldb boundary digest sha256 k (err f) s).0 ≢ ok v
  unfolding answered
  raised k f s v = elim f as (λ g. (answered jdb ldb boundary digest sha256 k (err g) s).0 ≢ ok v) [
    | rejected_write ↦
        raises rejected_write (Journal.reject jdb digest k s.journal).0
          (record s { journal = (Journal.reject jdb digest k s.journal).1 }) v
    | _ ↦ λ h. cc h
  ]

  answered-Recorded :
      (k : JournalKey) (r : Result String) (v : String) (s : St)
      → (answered jdb ldb boundary digest sha256 k r s).0 ≡ ok v
      → Recorded k v (answered jdb ldb boundary digest sha256 k r s).1.journal
  unfolding answered
  answered-Recorded k (ok a) v s h =
      then-Recorded k a v (Journal.complete jdb digest k (document a) s.journal).0
        (record s { journal = (Journal.complete jdb digest k (document a) s.journal).1 })
        (complete-Recorded k a s.journal) h
  answered-Recorded k (err f) v s h = absurd (raised k f s v h)

  claimed-Recorded :
      (x : Step) (k : JournalKey) (v : String) (r : Result (Option Payload)) (s t : St)
      → ((p : Payload) → r ≡ ok (some p) → as_document (some p) ≡ ok v → Recorded k v t.journal)
      → (continue r
          (λ p.
            previous_or jdb ldb boundary digest sha256 p
              (apply_step jdb ldb boundary digest sha256 x k))
          t).0
        ≡ ok v
      → Recorded k v
          (continue r
            (λ p.
              previous_or jdb ldb boundary digest sha256 p
                (apply_step jdb ldb boundary digest sha256 x k))
            t).1.journal
  unfolding apply_step
  claimed-Recorded x k v (err f) s t old h = cc h
  claimed-Recorded x k v (ok (some p)) s t old h = old p refl h
  claimed-Recorded x k v (ok none) s t old h =
      answered-Recorded k (boundary.apply x t.world).0 v
        (record t { world = (boundary.apply x t.world).1 }) h

  asked-Recorded :
      (x : Step) (k : JournalKey) (v : String) (r : Result Bool) (s : St)
      → (continue r (λ killed. if killed then raise kill_switch else claiming x k) s).0 ≡ ok v
      → Recorded k v
          (continue r (λ killed. if killed then raise kill_switch else claiming x k) s).1.journal
  asked-Recorded x k v (err f) s h = cc h
  asked-Recorded x k v (ok true) s h = cc h
  asked-Recorded x k v (ok false) s h =
      claimed-Recorded x k v (Journal.claim jdb digest k s.journal).0 s
        (record s { journal = (Journal.claim jdb digest k s.journal).1 })
        (λ p. claim-Recorded k s.journal p v) h

  -- A write that answers, now or from the record of an earlier attempt, leaves a journal record that
  -- is SUCCEEDED and holds that answer.
  pub answer_on_record :
      (x : Step) (k : JournalKey) (s : St) {v : String}
      → (write_step jdb ldb boundary digest sha256 x k s).0 ≡ ok v
      → (r : Entry) × (jdb.get (write_step jdb ldb boundary digest sha256 x k s).1.journal k
          ≡ some r)
        × (r.status ≡ succeeded)
        × (r.result ≡ some (document v))
  unfolding write_step
  answer_on_record x k s {v} h =
      asked-Recorded x k v (boundary.killed s.world).0
        (record s { world = (boundary.killed s.world).1 }) h
