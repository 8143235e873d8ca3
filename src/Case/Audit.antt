-- ===== src/Case/Audit.antt =====
-- services/shared/audit.py: append-only audit events, linked by hash into one chain for each case
-- and signal. The event, the new head of the chain and the caller's own writes are one transaction.
-- `record` is taken without `_assumed_head`, which only a test gives.
pub mod Links
pub mod Commits
pub mod Linked
use aera_be.Prelude.{
  String, str_eq, ℕ, zero, suc, ◌+◌, Bool, true, false, ◌&&◌, Option, none, some, List, [], ◌∷◌,
  any, leb, if◌then◌else◌,
}
use aera_be.Storage.{Write, Database}
use aera_be.Case.Items.{Chain, StoreKey, head, event, StoreItem, head_item, event_item, AuditEvent}

-- `GENESIS`
abbrev pub genesis : String
genesis = "0000000000000000000000000000000000000000000000000000000000000000"

-- What an audited write ends in: the event, or an exception.
pub data Recorded : Type 0 where
  event_of : AuditEvent → Recorded
  transaction_conflict : Recorded
  contended : Recorded
  key_error : Recorded

-- An event before its hash is known.
pub record Draft : Type 0 where
  pub event_id : ℕ
  pub chain_key : Chain
  pub case_id : Option String
  pub ts : ℕ
  pub actor : String
  pub type : String
  pub payload : List String
  pub prev_hash : String

abbrev pub draft_of : AuditEvent → Draft
draft_of e = record {
  event_id = e.event_id;
  chain_key = e.chain_key;
  case_id = e.case_id;
  ts = e.ts;
  actor = e.actor;
  type = e.type;
  payload = e.payload;
  prev_hash = e.prev_hash;
}

abbrev pub hashed : String → Draft → AuditEvent
hashed h d = record {
  event_id = d.event_id;
  chain_key = d.chain_key;
  case_id = d.case_id;
  ts = d.ts;
  actor = d.actor;
  type = d.type;
  payload = d.payload;
  prev_hash = d.prev_hash;
  hash = h;
}

-- `_after`: the candidate ULID, or one more than the last.
unfoldable pub after_id : Option ℕ → ℕ → ℕ
after_id none candidate = candidate
after_id (some last) candidate = if leb candidate last then last + 1 else candidate

abbrev pub unused : Option StoreItem → Bool
unused none = true
unused (some i) = false

abbrev pub hash_is : String → Option StoreItem → Bool
hash_is h (some (head_item x)) = str_eq x.last_hash h
hash_is h _ = false

-- The condition on the head: the one that the writer has read still stands.
abbrev pub head_stands : String × Option ℕ → Option StoreItem → Bool
head_stands (h, none) = unused
head_stands (h, some last) = hash_is h

-- The arguments of `AuditWriter.record`, its `extra` writes apart.
pub record Entry : Type 0 where
  pub chain_key : Chain
  pub type : String
  pub actor : String
  pub payload : List String
  pub case_id : Option String

-- `AuditWriter.head`
abbrev pub head_of : Option StoreItem → Option (String × Option ℕ)
head_of none = some (genesis, none)
head_of (some (head_item h)) = some (h.last_hash, some h.last_event_id)
head_of (some _) = none

-- Some of the caller's conditions failed: the reasons from the third on.
abbrev pub extra_refused : List Bool → Bool
extra_refused (a ∷ b ∷ rest) = any (λ r. r) rest
extra_refused _ = false

-- `event_hash` is a parameter: SHA-256 of an event's fields in canonical JSON.
module _ (event_hash : Draft → String) where
  abbrev pub holds_from : String → AuditEvent → Bool
  holds_from previous e = str_eq e.prev_hash previous && str_eq e.hash (event_hash (draft_of e))

  -- `verify_chain`, from the hash of the event before.
  unfoldable pub broken_from : String → List AuditEvent → List ℕ
  broken_from previous [] = []
  broken_from previous (e ∷ es) =
      let rest = broken_from e.hash es in if holds_from previous e then rest else e.event_id ∷ rest

  unfoldable pub verify_chain : List AuditEvent → List ℕ
  unfolding broken_from
  verify_chain es = broken_from genesis es

-- `candidate n` and `now n` are the ULID and the clock of the attempt with `n` left.
module _ (event_hash : Draft → String) (candidate now : ℕ → ℕ) where
  abbrev pub draft : Entry → ℕ → String × Option ℕ → Draft
  draft x n (h, last) = record {
    event_id = after_id last (candidate n);
    chain_key = x.chain_key;
    case_id = x.case_id;
    ts = now n;
    actor = x.actor;
    type = x.type;
    payload = x.payload;
    prev_hash = h;
  }

  abbrev pub new_event : Entry → ℕ → String × Option ℕ → AuditEvent
  new_event x n previous = let d = draft x n previous in hashed (event_hash d) d

  -- The event, the head and the caller's writes.
  abbrev pub audit_writes :
      Entry
      → ℕ
      → String × Option ℕ
      → List (Write StoreKey StoreItem)
      → List (Write StoreKey StoreItem)
  audit_writes x n previous extra =
      let e = new_event x n previous in
      record { key = event x.chain_key e.event_id; holds = unused; item = λ _. some (event_item e) }
      ∷ record {
        key = head x.chain_key;
        holds = head_stands previous;
        item = λ _. some (head_item (record { last_hash = e.hash; last_event_id = e.event_id }));
      }
      ∷ extra

  -- `others n` is what other writers commit between that attempt's read of the head and its
  -- transaction.
  module _ (db : Database StoreKey StoreItem) (others : ℕ → db.State → db.State) where
    -- The loop of attempts.
    unfoldable pub attempts :
        ℕ → Entry → List (Write StoreKey StoreItem) → db.State → Recorded × db.State
    attempts zero x extra s = (contended, s)
    attempts (suc n) x extra s = elim (head_of (db.get s (head x.chain_key))) [
      | none ↦ (key_error, s)
      | some previous ↦
          let s₁ = others n s in
          let ws = audit_writes x n previous extra in
          let s₂ = db.after ws s₁ in
          let again = attempts n x extra s₂ in
          if db.commit ws s₁
          then (event_of (new_event x n previous), s₂)
          else if extra_refused (db.refused ws s₁)
          then (transaction_conflict, s₂)
          else again
    ]

    abbrev pub max_attempts : ℕ
    max_attempts = 5

    unfoldable pub record_event :
        Entry → List (Write StoreKey StoreItem) → db.State → Recorded × db.State
    unfolding attempts
    record_event = attempts max_attempts
