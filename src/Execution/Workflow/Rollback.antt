-- ===== src/Execution/Workflow/Rollback.antt =====
-- services/execution/workflow.py: what a rollback takes back.
use mathlib.Core.Path.{subst}
use aera_be.Prelude.{
  String, ℕ, ◌≡◌, refl, true, false, Option, none, some, List, [], ◌∷◌, arith, All, Bool-cases, inl,
  inr,
}
use aera_be.Storage.{Database}
use aera_be.Execution.Fault.{Result, ok, err}
use aera_be.Execution.Journal
use aera_be.Execution.Journal.{
  JournalKey, Entry, Request, Undo, Payload, document, succeeded, pending, is_status,
}
use aera_be.Execution.Ledger.{LedgerKey, LedgerItem}
use aera_be.Execution.Boundary.{Execution, Step, Boundary}
use aera_be.Execution.Compensate.{State, Done, step_key}
use aera_be.Execution.Workflow.{to_undo, result_of}

module _ (jdb : Database JournalKey Entry) (ldb : Database LedgerKey LedgerItem)
    (boundary : Boundary) (digest : Request → Undo → String) (sha256 : List ℕ → List ℕ)
    (e : Execution) (s : State jdb ldb boundary digest) where
  -- A step whose own key has a SUCCEEDED record that holds the answer.
  abbrev pub Written : Done → Type 0
  Written (x, k, a) =
      (step_key sha256 e x ≡ ok k)
      × ((r : Entry) × (jdb.get s.journal k ≡ some r)
          × (r.status ≡ succeeded)
          × (r.result ≡ some (document a)))

  record-Written :
      (x : Step) (k : JournalKey) (a : String)
      → step_key sha256 e x ≡ ok k
      → (o : Option Entry) → jdb.get s.journal k ≡ o
      → is_status succeeded o ≡ true
      → result_of o ≡ ok a
      → Written (x, k, a)
  record-Written x k a h none is st res = cc st
  record-Written x k a h (some r) is st res = (h, (r, is, ground arith, answer r.result refl))
    where
      answer : (o : Option Payload) → r.result ≡ o → o ≡ some (document a)
      answer o eq = ground arith

  abbrev steps_undone : List Step → List Done → Result (List Done)
  steps_undone xs out = to_undo jdb ldb boundary digest sha256 e xs s out

  abbrev Promise : List Step → Type 0
  Promise xs = (out ds : List Done) → All Written out → steps_undone xs out ≡ ok ds → All Written ds

  found-Written :
      (x : Step) (xs : List Step) (out ds : List Done) (k : JournalKey)
      → Promise xs
      → All Written out
      → step_key sha256 e x ≡ ok k
      → is_status pending (jdb.get s.journal k) ≡ false
      → is_status succeeded (jdb.get s.journal k) ≡ true
      → steps_undone (x ∷ xs) out ≡ ok ds
      → (r : Result String) → result_of (jdb.get s.journal k) ≡ r
      → All Written ds
  unfolding to_undo Journal.read
  found-Written x xs out ds k ih a q n w h (err f) res = cc (rw (q, n, w, res, to_undo) at h)
  found-Written x xs out ds k ih a q n w h (ok t) res =
      ih ((x, k, t) ∷ out) ds (record-Written x k t q (jdb.get s.journal k) refl w res, a)
        (rw (q, n, w, res, to_undo) at h)

  one-Written : (x : Step) (xs : List Step) → Promise xs → Promise (x ∷ xs)
  unfolding to_undo Journal.read
  one-Written x xs ih out ds a h = go (step_key sha256 e x) refl
    where
      go : (k : Result JournalKey) → step_key sha256 e x ≡ k → All Written ds
      go (err f) q = cc (rw (q, to_undo) at h)
      go (ok k) q = elim (Bool-cases (is_status pending (jdb.get s.journal k))) [
        | inl y ↦ cc (rw (q, y, to_undo) at h)
        | inr n ↦ elim (Bool-cases (is_status succeeded (jdb.get s.journal k))) [
          | inr m ↦ ih out ds a (rw (q, n, m, to_undo) at h)
          | inl w ↦ found-Written x xs out ds k ih a q n w h (result_of (jdb.get s.journal k)) refl
        ]
      ]

  same-Written : (out ds : List Done) → All Written out → ok out ≡ ok ds → All Written ds
  same-Written out ds a h = subst (λ r. All Written (unwrap r)) h a
    where
      unwrap : Result (List Done) → List Done
      unwrap (ok l) = l
      unwrap (err f) = []

  from-Written : (xs : List Step) → Promise xs
  unfolding to_undo
  from-Written [] out ds a h = same-Written out ds a h
  from-Written (x ∷ xs) out ds a h = one-Written x xs (from-Written xs) out ds a h

  -- Each write that a rollback sets out to undo is recorded under its step's own key as SUCCEEDED,
  -- with the answer that its undo is given.
  pub to_undo-Written :
      {ds : List Done}
      → to_undo jdb ldb boundary digest sha256 e e.steps s [] ≡ ok ds
      → All Written ds
  to_undo-Written {ds} h = from-Written e.steps [] ds tt h
