-- ===== src/Routing/Control/Tick.antt =====
-- services/routing/store.py: `ControlStore.tick`, the reminder and the deadline of an approval.
pub mod Backups
use aera_be.Prelude.{
  String, str_eq, ℕ, suc, ◌==◌, true, not, ◌&&◌, ◌||◌, none, some, List, [], ◌∷◌, if◌then◌else◌,
}
use aera_be.Prelude.Int.{ℤ, leb_ℤ, ltb_ℤ}
use aera_be.Storage.{Write, Database}
use aera_be.Case.Status.{awaiting_approval, escalated}
use aera_be.Case.Items.{StoreKey, case_chain, approval, StoreItem, Case}
use aera_be.Case.Audit.{
  Draft, Entry, Recorded, event_of, transaction_conflict, contended, key_error, record_event,
}
use aera_be.Case.Store as Cases
use aera_be.Case.Store.{Outcome, transition}
use aera_be.Routing.Logic.{ApproverLimit, eligible}
use aera_be.Routing.Control.Items.{
  case_ready_for_run, plan_routed, notification_requested, approval_expired, approval_reminder,
  of_tick, part, PartItem, deadline_passed, reminder_for,
}
use aera_be.Routing.Control.Store.{
  Answer, done, missing_key, audit_contended, as_part, notice, put_part, answer_or, is_undecided,
  limits, has_none, first_user,
}

-- The limits of others.
abbrev of_others : String → List ApproverLimit → List ApproverLimit
of_others user [] = []
of_others user (l ∷ ls) =
    let rest = of_others user ls in if str_eq l.user_id user then rest else l ∷ rest

abbrev pub tick_entry : (case_id kind : String) → (payload : List String) → Entry
tick_entry case_id kind payload = record {
  chain_key = case_chain case_id;
  type = kind;
  actor = "system";
  payload = payload;
  case_id = some case_id;
}

-- `during` is what others commit between the reads and the audited write; `parts_of` and
-- `all_limits` are the queries; `day` is the day of an instant; `stamp` is the time of a transition.
module _ (event_hash : Draft → String) (candidate clock : ℕ → ℕ) (db : Database StoreKey StoreItem)
    (others : ℕ → db.State → db.State) (during : db.State → db.State)
    (parts_of : db.State → String → List PartItem) (all_limits : db.State → List ApproverLimit)
    (day : ℤ → ℤ) (stamp : ℕ) where
  abbrev audited : Entry → List (Write StoreKey StoreItem) → db.State → Recorded × db.State
  audited = record_event event_hash candidate clock db others

  -- A case that has moved on is left.
  abbrev escalated_as : Outcome Case → Answer (Unit {0})
  escalated_as Cases.audit_contended = audit_contended
  escalated_as Cases.missing_key = missing_key
  escalated_as _ = done tt

  -- `_escalate`
  unfoldable pub escalate : (case_id : String) → db.State → Answer (Unit {0}) × db.State
  escalate case_id s =
      let (r, s') =
        transition event_hash candidate clock db others case_id escalated "system"
          (some awaiting_approval) stamp s in
      (escalated_as r, s')

  abbrev reminded_part : PartItem → PartItem
  reminded_part p = record p { reminded = true; revision = suc p.revision }

  abbrev pub remind_writes :
      (case_id part_id approver : String) → PartItem → List (Write StoreKey StoreItem)
  remind_writes case_id part_id approver p =
      put_part case_id part_id p.revision (reminded_part p)
      ∷ notice case_id (of_tick part_id approval_reminder) notification_requested
          (reminder_for approver part_id)
      ∷ []

  unfoldable pub remind :
      (case_id part_id approver : String) → PartItem → db.State → Answer (Unit {0}) × db.State
  remind case_id part_id approver p s =
      let (r, s') =
        audited (tick_entry case_id "APPROVAL_REMINDER" (approver ∷ part_id ∷ []))
          (remind_writes case_id part_id approver p) (during s) in
      (answer_or tt tt r, s')

  -- Never back to an approver who let an approval of the case expire.
  unfoldable pub backups :
      (case_id approver : String) → PartItem → (now : ℤ) → db.State → List ApproverLimit
  backups case_id approver p now s =
      of_others approver
        (eligible (limits (all_limits s) (parts_of s case_id)) p.plant p.routed.cost (day now))

  abbrev expired_part : (approver : String) → List ApproverLimit → PartItem → PartItem
  expired_part approver people p = record p {
    expired = true;
    expired_approver = some approver;
    approver = first_user people;
    revision = suc p.revision;
  }

  abbrev pub expire_writes :
      (case_id part_id approver : String)
      → List ApproverLimit
      → PartItem
      → List (Write StoreKey StoreItem)
  expire_writes case_id part_id approver people p =
      put_part case_id part_id p.revision (expired_part approver people p)
      ∷ notice case_id (of_tick part_id approval_expired)
          (if has_none (first_user people) then plan_routed else case_ready_for_run)
          (deadline_passed (first_user people) (if has_none (first_user people) then 3 else 2))
      ∷ []

  unfoldable pub expire_with :
      (case_id part_id approver : String)
      → List ApproverLimit
      → PartItem
      → db.State
      → Answer (Unit {0}) × db.State
  unfolding escalate
  expire_with case_id part_id approver people p s =
      let (r, s') =
        audited (tick_entry case_id "APPROVAL_EXPIRED" [])
          (expire_writes case_id part_id approver people p) (during s) in
      elim r [
        | event_of e ↦ if has_none (first_user people) then escalate case_id s' else (done tt, s')
        | transaction_conflict ↦ (done tt, s')
        | contended ↦ (audit_contended, s')
        | key_error ↦ (missing_key, s')
      ]

  -- The clock of a part that waits for `approver`.
  unfoldable pub tick_due :
      (case_id part_id approver : String) (deadline reminder : ℤ)
      → PartItem
      → (now : ℤ) → db.State
      → Answer (Unit {0}) × db.State
  unfolding remind backups expire_with
  tick_due case_id part_id approver deadline reminder p now s =
      if ltb_ℤ now reminder || (ltb_ℤ now deadline && p.reminded)
      then (done tt, s)
      else if leb_ℤ deadline now
      then expire_with case_id part_id approver (backups case_id approver p now s) p s
      else remind case_id part_id approver p s

  unfoldable pub tick_part :
      (case_id part_id : String) → PartItem → (now : ℤ) → db.State → Answer (Unit {0}) × db.State
  unfolding escalate tick_due
  tick_part case_id part_id p now s =
      if p.superseded
      then (done tt, s)
      else if p.expired && has_none p.approver && is_undecided p
      then escalate case_id s
      else if not (p.routed.tier == 2) || not (is_undecided p) || p.expired
      then (done tt, s)
      else elim p.routed.deadline [
        | none ↦ (missing_key, s)
        | some deadline ↦ elim p.routed.reminder [
          | none ↦ (missing_key, s)
          | some reminder ↦ elim p.approver [
            | none ↦
                if ltb_ℤ now reminder || (ltb_ℤ now deadline && p.reminded)
                then (done tt, s)
                else (missing_key, s)
            | some approver ↦ tick_due case_id part_id approver deadline reminder p now s
          ]
        ]
      ]

  unfoldable pub tick :
      (case_id part_id : String) (now : ℤ) → db.State → Answer (Unit {0}) × db.State
  unfolding tick_part
  tick case_id part_id now s = elim (as_part (db.get s (approval (part case_id part_id)))) [
    | none ↦ (done tt, s)
    | some p ↦ tick_part case_id part_id p now s
  ]
