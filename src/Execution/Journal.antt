-- ===== src/Execution/Journal.antt =====
-- services/execution/journal.py: the idempotency table. A write is prepared with its undo, claimed
-- once, and completed, rejected or undone; each move is a conditional write of one item.
pub mod Once
use aera_be.Prelude.{
  String, String_discrete, ℕ, ℕ_discrete, Bool, true, false, Option, none, some, List, [], ◌∷◌, ite,
  if◌then◌else◌,
}
use aera_be.Storage.{Write, Database}
use aera_be.Execution.Fault.{
  Result, ok, err, value_error, key_error, condition_failed, uncertain_write,
}
use aera_be.Plan.{Action}

-- The table's keys: the digest of an action, and the texts `EXEC#…`, `UNDO#…` and `ROLLBACK#…`.
pub data JournalKey : Type 0 where
  action_key : (sha256 : List ℕ) → JournalKey
  exec_key : (case_id : String) (version : ℕ) (part_id : String) → JournalKey
  undo_key rollback_key : JournalKey → JournalKey

unfoldable pub JournalKey_discrete : Discrete JournalKey
unfolding String_discrete ℕ_discrete
JournalKey_discrete = hlevel (String_discrete, ℕ_discrete)

pub data Status : Type 0 where
  ready pending succeeded rejected undone : Status

unfoldable pub Status_discrete : Discrete Status
Status_discrete = hlevel

-- What a write was done with: the answer of one action, those of an execution, or the mark that
-- a rollback leaves.
pub data Payload : Type 0 where
  document : String → Payload
  results : List String → Payload
  rolled_back : Payload

-- How to take a write back.
pub record StepUndo : Type 0 where
  pub irreversible : Bool
  pub body : String

pub data Undo : Type 0 where
  step_undo : StepUndo → Undo
  reverse_completed_actions manual_reconciliation : Undo

-- A step as the request of an execution lists it.
pub record StepSummary : Type 0 where
  pub index : ℕ
  pub target : List ℕ
  pub action : Action
  pub source_refs : List String

pub data Request : Type 0 where
  execution : (version_hash : String) (steps : List StepSummary) → Request
  write :
      (action : Action) (target : List ℕ) (source_refs : List String)
      (version_hash part_id : String)
      → Request
  undoing : (undo : Undo) (result : String) → Request
  rolling_back : (version_hash : String) → Request

pub record Entry : Type 0 where
  pub request : Request
  pub undo : Undo
  pub fingerprint : String
  pub status : Status
  pub result : Option Payload

abbrev pub is_status : Status → Option Entry → Bool
is_status st none = false
is_status st (some e) = ite (Status_discrete e.status st) true false

abbrev pub absent : Option Entry → Bool
absent none = true
absent (some e) = false

abbrev pub with_status : Status → Option Entry → Option Entry
with_status st none = none
with_status st (some e) = some (record e { status = st })

abbrev pub with_result : Payload → Option Entry → Option Entry
with_result p none = none
with_result p (some e) = some (record e { status = succeeded; result = some p })

-- The writes of `prepare`, `_transition` and `complete`.
abbrev pub put_new : JournalKey → Entry → Write JournalKey Entry
put_new key e = record { key = key; holds = absent; item = λ _. some e }

abbrev pub move : JournalKey → Status → Status → Write JournalKey Entry
move key source target = record { key = key; holds = is_status source; item = with_status target }

abbrev pub finish : JournalKey → Payload → Write JournalKey Entry
finish key p = record { key = key; holds = is_status pending; item = with_result p }

-- `digest` is the SHA-256 of a request and its undo in canonical JSON.
module _ (db : Database JournalKey Entry) (digest : Request → Undo → String) where
  unfoldable pub read : JournalKey → db.State → Option Entry
  read key s = db.get s key

  abbrev update : Write JournalKey Entry → db.State → Result (Unit {0}) × db.State
  update w s = (if db.commit (w ∷ []) s then ok tt else err condition_failed, db.after (w ∷ []) s)

  abbrev pub fresh : Request → Undo → Entry
  fresh request undo = record {
    request = request;
    undo = undo;
    fingerprint = digest request undo;
    status = ready;
    result = none;
  }

  -- The item that stood in the way of a put must be the same write with the same undo.
  abbrev same_write : String → Option Entry → Result (Unit {0})
  same_write fingerprint none = err value_error
  same_write fingerprint (some old) =
      ite (String_discrete old.fingerprint fingerprint) (ok tt) (err value_error)

  unfoldable pub prepare : JournalKey → Request → Undo → db.State → Result (Unit {0}) × db.State
  unfolding read
  prepare key request undo s =
      let w = put_new key (fresh request undo) in
      let s' = db.after (w ∷ []) s in
      (if db.commit (w ∷ []) s then ok tt else same_write (digest request undo) (read key s'), s')

  abbrev stored : Option Payload → Result (Option Payload)
  stored none = err key_error
  stored (some p) = ok (some p)

  -- The conditional update that turns READY into PENDING.
  unfoldable pub take : JournalKey → db.State → Result (Option Payload) × db.State
  take key s =
      let w = move key ready pending in
      (if db.commit (w ∷ []) s then ok none else err uncertain_write, db.after (w ∷ []) s)

  -- What `claim` does with the item that it read.
  unfoldable pub claim_read :
      JournalKey → Option Entry → db.State → Result (Option Payload) × db.State
  unfolding take
  claim_read key none s = (err value_error, s)
  claim_read key (some old) s = elim old.status [
    | succeeded ↦ (stored old.result, s)
    | ready ↦ take key s
    | _ ↦ (err uncertain_write, s)
  ]

  -- `none` is the permission to write.
  unfoldable pub claim : JournalKey → db.State → Result (Option Payload) × db.State
  unfolding read claim_read
  claim key s = claim_read key (read key s) s

  unfoldable pub complete : JournalKey → Payload → db.State → Result (Unit {0}) × db.State
  complete key p = update (finish key p)

  unfoldable pub transition : JournalKey → Status → Status → db.State → Result (Unit {0}) × db.State
  transition key source target = update (move key source target)

  unfoldable pub reject : JournalKey → db.State → Result (Unit {0}) × db.State
  unfolding transition
  reject key = transition key pending rejected

  unfoldable pub mark_undone : JournalKey → db.State → Result (Unit {0}) × db.State
  unfolding transition
  mark_undone key = transition key succeeded undone
