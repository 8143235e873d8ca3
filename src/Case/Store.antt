-- ===== src/Case/Store.antt =====
-- services/shared/cases.py: `CaseStore`. A transition is a conditional update on the state that the
-- caller saw, in one transaction with its audit event.
pub mod Transitions
use aera_be.Prelude.{
  String, ℕ, suc, Bool, true, false, not, Option, none, some, List, [], ◌∷◌, ◌++◌, contains, ite,
  if◌then◌else◌,
}
use aera_be.Storage.{Write, Database}
use aera_be.Case.Status.{CaseStatus, CaseStatus_discrete, stage, can_transition}
use aera_be.Case.Items.{
  case_chain, StoreKey, meta, counter, StoreItem, case_item, counter_item, Case,
}
use aera_be.Case.Audit.{
  Recorded, event_of, transaction_conflict, contended, key_error, Draft, Entry, record_event,
}

pub data Outcome {ℓ} (A : Type ℓ) : Type ℓ where
  ok : A → Outcome A
  illegal_transition concurrent_update condition_failed audit_contended missing_key : Outcome A

abbrev pub is_absent : Option StoreItem → Bool
is_absent none = true
is_absent (some i) = false

-- The Case at a META item.
abbrev pub as_case : Option StoreItem → Option Case
as_case (some (case_item c)) = some c
as_case _ = none

abbrev pub status_is : CaseStatus → Option StoreItem → Bool
status_is st (some (case_item c)) = ite (CaseStatus_discrete c.status st) true false
status_is st _ = false

abbrev pub on_case : (Case → Case) → Option StoreItem → Option StoreItem
on_case f (some (case_item c)) = some (case_item (f c))
on_case f i = i

-- The update of a transition: status, stage and time.
abbrev pub moved : CaseStatus → ℕ → Case → Case
moved target now c = record c { status = target; stage = stage target; updated_at = now }

abbrev pub move_write : String → CaseStatus → CaseStatus → ℕ → Write StoreKey StoreItem
move_write case_id source target now = record {
  key = meta case_id;
  holds = status_is source;
  item = on_case (moved target now);
}

abbrev pub or_status : Option CaseStatus → CaseStatus → CaseStatus
or_status none s = s
or_status (some e) s = e

module _ (event_hash : Draft → String) (candidate clock : ℕ → ℕ) (db : Database StoreKey StoreItem)
    (others : ℕ → db.State → db.State) where
  abbrev audited : Entry → List (Write StoreKey StoreItem) → db.State → Recorded × db.State
  audited = record_event event_hash candidate clock db others

  -- The exceptions of `AuditWriter.record`, a `TransactionConflictError` turned into `conflict`.
  abbrev pub as_outcome {ℓ} : {A : Type ℓ} → Recorded → A → Outcome A
  as_outcome (event_of e) a = ok a
  as_outcome transaction_conflict a = concurrent_update
  as_outcome contended a = audit_contended
  as_outcome key_error a = missing_key

  unfoldable pub get_case : String → db.State → Option Case
  get_case case_id s = as_case (db.get s (meta case_id))

  unfoldable pub create : Case → (actor : String) → db.State → Outcome Case × db.State
  create c actor s =
      let put : Write StoreKey StoreItem = record {
        key = meta c.case_id;
        holds = is_absent;
        item = λ _. some (case_item (record c { stage = stage c.status }));
      } in
      let (r, s') =
        audited
          (record {
            chain_key = case_chain c.case_id;
            type = "CASE_CREATED";
            actor = actor;
            payload = [];
            case_id = some c.case_id;
          })
          (put ∷ []) s in
      (as_outcome r c, s')

  -- A transition of the case that was read, from `source`.
  unfoldable pub transition_from :
      (current : Case) (case_id : String) (source target : CaseStatus) (actor : String) (now : ℕ)
      → db.State
      → Outcome Case × db.State
  transition_from current case_id source target actor now s =
      if not (can_transition source target)
      then (illegal_transition, s)
      else (let (r, s') =
            audited
              (record {
                chain_key = case_chain case_id;
                type = "STATE_TRANSITION";
                actor = actor;
                payload = [];
                case_id = some case_id;
              })
              (move_write case_id source target now ∷ []) s in
          (as_outcome r (record current { status = target; updated_at = now }), s'))

  unfoldable pub transition :
      (case_id : String) (target : CaseStatus) (actor : String) (expected : Option CaseStatus)
      (now : ℕ)
      → db.State
      → Outcome Case × db.State
  unfolding get_case transition_from
  transition case_id target actor expected now s = elim (get_case case_id s) [
    | none ↦ (concurrent_update, s)
    | some current ↦
        transition_from current case_id (or_status expected current.status) target actor now s
  ]

  -- A single conditional update.
  abbrev update : Write StoreKey StoreItem → db.State → Outcome (Unit {0}) × db.State
  update w s = (if db.commit (w ∷ []) s then ok tt else condition_failed, db.after (w ∷ []) s)

  abbrev present : Option StoreItem → Bool
  present i = not (is_absent i)

  abbrev or_old {ℓ} : {A : Type ℓ} → Option A → Option A → Option A
  or_old none old = old
  or_old (some new) old = some new

  -- `figures` are replaced only when new ones are given.
  abbrev or_figures : Option (List String) → List String → List String
  or_figures none old = old
  or_figures (some new) old = new

  unfoldable pub update_triage :
      (case_id rar_usd : String) (stockout_at : Option ℕ) (priority_score actor : String)
      (figures : Option (List String)) (now : ℕ)
      → db.State
      → Outcome (Unit {0}) × db.State
  update_triage case_id rar_usd stockout_at priority_score actor figures now s =
      let w : Write StoreKey StoreItem = record {
        key = meta case_id;
        holds = present;
        item = on_case (λ c. record c {
          rar_usd = some rar_usd;
          priority_score = some priority_score;
          stockout_at = or_old stockout_at c.stockout_at;
          figures = or_figures figures c.figures;
          updated_at = now;
        });
      } in
      let (r, s') = update w s in
      let (x, s'') =
        audited
          (record {
            chain_key = case_chain case_id;
            type = "TRIAGE_SCORED";
            actor = actor;
            payload = rar_usd ∷ priority_score ∷ [];
            case_id = some case_id;
          })
          [] s' in
      elim r [ ok u ↦ (as_outcome x tt, s'') | _ ↦ (condition_failed, s') ]

  -- A signal is listed once.
  abbrev unlisted : String → Option StoreItem → Bool
  unlisted id (some (case_item c)) = not (contains id c.signal_ids)
  unlisted id _ = false

  unfoldable pub add_signal :
      (case_id signal_id : String) (now : ℕ) → db.State → Outcome (Unit {0}) × db.State
  add_signal case_id signal_id now = update (record {
    key = meta case_id;
    holds = unlisted signal_id;
    item =
        on_case (λ c. record c { signal_ids = c.signal_ids ++ signal_id ∷ []; updated_at = now });
  })

  -- `ADD seq :one`: the counter of a year, from 0 if there is none. The case id is the year and
  -- the new value.
  abbrev seq_of : Option StoreItem → ℕ
  seq_of (some (counter_item n)) = n
  seq_of _ = 0

  unfoldable pub next_case_id : (year : ℕ) → db.State → (ℕ × ℕ) × db.State
  next_case_id year s =
      let w : Write StoreKey StoreItem = record {
        key = counter year;
        holds = λ _. true;
        item = λ i. some (counter_item (suc (seq_of i)));
      } in
      let s' = db.after (w ∷ []) s in ((year, seq_of (db.get s' (counter year))), s')

  unfoldable pub seed_counter : (year value : ℕ) → db.State → db.State
  seed_counter year value s =
      db.after
        (record { key = counter year; holds = λ _. true; item = λ _. some (counter_item value) }
          ∷ [])
        s
