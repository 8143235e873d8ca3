-- ===== src/Routing/Control/Stood.antt =====
-- services/routing/store.py: the state that an audited write which succeeds has found, among other
-- writers.
use aera_be.Prelude.{String, ℕ, ◌≡◌, true, Option, List}
use aera_be.Storage.{Write, Database, passes}
use aera_be.Case.Items.{StoreKey, StoreItem, AuditEvent}
use aera_be.Case.Audit.{Draft, Entry, event_of, record_event, audit_writes}
use aera_be.Case.Audit.Commits.{CommitsOn, goes_through, is_refused, attempts-Committed}
use aera_be.Routing.Control.Grown.{AllFair, Keeps, Keeps-trans, after-Keeps, audit-AllFair}

module _ (db : Database StoreKey StoreItem) (event_hash : Draft → String) (candidate clock : ℕ → ℕ)
    (others : ℕ → db.State → db.State) (rely : (n : ℕ) (s : db.State) → Keeps db s (others n s))
    (x : Entry) (extra : List (Write StoreKey StoreItem)) (read : db.State)
    (fair : (t : db.State) → Keeps db read t → AllFair (db.get t) extra) where
  abbrev ws : ℕ → String × Option ℕ → List (Write StoreKey StoreItem)
  ws m previous = audit_writes event_hash candidate clock x m previous extra

  abbrev Run : ℕ → db.State → db.State → ℕ → String × Option ℕ → Type 0
  Run = CommitsOn event_hash candidate clock db others x extra

  -- The transaction was committed on a state that the run from `s` came to, and that the parts had
  -- come to from the one that was read.
  abbrev pub Stood : db.State → db.State → Type 0
  Stood s s' =
      (t : db.State) × (m : ℕ) × (previous : String × Option ℕ) × CommitsOn event_hash candidate
        clock db others x extra 5 s t m previous
      × Keeps db read t
      × (passes (ws m previous) (db.get t) ≡ true)
      × (s' ≡ db.after (ws m previous) t)

  run-Keeps :
      {n m : ℕ} {s t : db.State} {previous : String × Option ℕ}
      → Run n s t m previous
      → Keeps db read s
      → Keeps db read t
  run-Keeps (goes_through n s previous h p) k = Keeps-trans db read s (others n s) k (rely n s)
  run-Keeps (is_refused n s t m stale previous h r rest) k =
      let u : db.State = others n s in
      let before : Keeps db read u = Keeps-trans db read s u k (rely n s) in
      run-Keeps rest (
        Keeps-trans db read u (db.after (ws n stale) u) before (
          after-Keeps db (ws n stale) u (
            audit-AllFair db event_hash candidate clock others rely x extra read fair n stale u
              before)))

  pub record-Stood :
      (s : db.State) (e : AuditEvent)
      → Keeps db read s
      → (record_event event_hash candidate clock db others x extra s).0 ≡ event_of e
      → Stood s (record_event event_hash candidate clock db others x extra s).1
  unfolding record_event
  record-Stood s e k done =
      let (t, m, previous, run, p, same, left) =
        attempts-Committed event_hash candidate clock db others x extra 5 s e done in
      (t, m, previous, run, run-Keeps run k, p, left)
