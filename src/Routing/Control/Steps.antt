-- ===== src/Routing/Control/Steps.antt =====
-- services/routing/store.py: the parts of a case under each operation of `ControlStore`, while other
-- writers do the same.
use aera_be.Prelude.{
  String, ℕ, Bool, if◌then◌else◌, ◌≡◌, refl, inl, inr, true, false, not, ◌||◌, ◌&&◌, ◌==◌, Option,
  some, List, [], ◌∷◌, arith, Bool-cases, Option-cases,
}
use aera_be.Prelude.Int.{ℤ, leb_ℤ, ltb_ℤ}
use aera_be.Storage.{Database}
use aera_be.Case.Status.{CaseStatus, awaiting_approval, escalated, can_transition}
use aera_be.Case.Items.{StoreKey, meta, approval, StoreItem, Case}
use aera_be.Case.Audit.{
  Draft, Recorded, event_of, transaction_conflict, contended, key_error, record_event,
}
use aera_be.Case.Store.{get_case, transition, transition_from, move_write, or_status}
use aera_be.Routing.Logic.{ApproverLimit}
use aera_be.Routing.Control.Items.{part, PartItem}
use aera_be.Routing.Control.Store.{as_part, done, missing_key, is_undecided, has_none, first_user}
use aera_be.Routing.Control.Tick.{
  tick, tick_part, tick_due, remind, remind_writes, expire_with, expire_writes, escalate,
  tick_entry,
}
use aera_be.Routing.Control.Reallocate.{is_final}
use aera_be.Routing.Control.Grown.{
  Fair-aside, Fair-put, vacant-no_part, Keeps, Keeps-refl, Keeps-trans, record-Keeps,
}

module _ (event_hash : Draft → String) (candidate clock : ℕ → ℕ) (db : Database StoreKey StoreItem)
    (others : ℕ → db.State → db.State) (during : db.State → db.State)
    (rely : (n : ℕ) (s : db.State) → Keeps db s (others n s))
    (rely_during : (s : db.State) → Keeps db s (during s))
    (parts_of : db.State → String → List PartItem) (all_limits : db.State → List ApproverLimit)
    (day : ℤ → ℤ) (stamp : ℕ) where
  if-Keeps {ℓ} :
      {A : Type ℓ} (b : Bool) (x y : A × db.State) (s : db.State)
      → Keeps db s x.1
      → Keeps db s y.1
      → Keeps db s (if b then x else y).1
  if-Keeps true x y s h k = h
  if-Keeps false x y s h k = k

  move-Keeps :
      (c : Case) (case_id : String) (source target : CaseStatus) (actor : String) (now : ℕ)
      (s : db.State)
      → Keeps db s
          (transition_from event_hash candidate clock db others c case_id source target actor now
            s).1
  unfolding transition_from
  move-Keeps c case_id source target actor now s =
      elim (Bool-cases (can_transition source target)) [
        | inr n ↦ rw (n, transition_from) (Keeps-refl db s)
        | inl y ↦
            rw (y, transition_from)
              (record-Keeps db event_hash candidate clock others rely _
                (move_write case_id source target now ∷ []) s
                (λ t k. (
                  Fair-aside (db.get t (meta case_id)) (move_write case_id source target now)
                      (λ p. refl),
                  tt,
                ))
                s (Keeps-refl db s))
      ]

  transition-Keeps :
      (case_id : String) (target : CaseStatus) (actor : String) (expected : Option CaseStatus)
      (now : ℕ) (s : db.State)
      → Keeps db s
          (transition event_hash candidate clock db others case_id target actor expected now s).1
  unfolding transition
  transition-Keeps case_id target actor expected now s =
      elim (Option-cases (get_case event_hash candidate clock db others case_id s)) [
        | inl missing ↦ rw (missing, transition) (Keeps-refl db s)
        | inr (c, found) ↦
            rw (found, transition)
              (move-Keeps c case_id (or_status expected c.status) target actor now s)
      ]

  escalate-Keeps :
      (case_id : String) (s : db.State)
      → Keeps db s
          (escalate event_hash candidate clock db others during parts_of all_limits day stamp
            case_id s).1
  unfolding escalate
  escalate-Keeps case_id s =
      transition-Keeps case_id escalated "system" (some awaiting_approval) stamp s

  module _ (case_id part_id : String) (p : PartItem) (s : db.State)
      (read : as_part (db.get s (approval (part case_id part_id))) ≡ some p)
      (open_part : is_final p ≡ false) where
    remind-Keeps :
        (approver : String)
        → Keeps db s
            (remind event_hash candidate clock db others during parts_of all_limits day stamp
              case_id part_id approver p s).1
    unfolding remind
    remind-Keeps approver =
        record-Keeps db event_hash candidate clock others rely _
          (remind_writes event_hash candidate clock db others during parts_of all_limits day stamp
            case_id part_id approver p)
          s
          (λ t k. (
            Fair-put (db.get t (approval (part case_id part_id))) case_id part_id p _
                (k case_id part_id p read) (inr (omega arith, open_part)),
            (λ q h a. absurd (vacant-no_part _ q h a), tt),
          ))
          (during s) (rely_during s)

    module _ (approver : String) (people : List ApproverLimit) where
      abbrev expiry : Recorded × db.State
      expiry =
          record_event event_hash candidate clock db others
            (tick_entry case_id "APPROVAL_EXPIRED" [])
            (expire_writes event_hash candidate clock db others during parts_of all_limits day stamp
              case_id part_id approver people p)
            (during s)

      expiry-Keeps : Keeps db s expiry.1
      expiry-Keeps =
          record-Keeps db event_hash candidate clock others rely
            (tick_entry case_id "APPROVAL_EXPIRED" [])
            (expire_writes event_hash candidate clock db others during parts_of all_limits day stamp
              case_id part_id approver people p)
            s
            (λ t k. (
              Fair-put (db.get t (approval (part case_id part_id))) case_id part_id p _
                  (k case_id part_id p read) (inr (omega arith, open_part)),
              (λ q h a. absurd (vacant-no_part _ q h a), tt),
            ))
            (during s) (rely_during s)

      expire-Keeps :
          Keeps db s
            (expire_with event_hash candidate clock db others during parts_of all_limits day stamp
              case_id part_id approver people p s).1
      unfolding expire_with
      expire-Keeps = go expiry.0 refl
        where
          go :
              (o : Recorded)
              → expiry.0 ≡ o
              → Keeps db s
                  (expire_with event_hash candidate clock db others during parts_of all_limits day
                    stamp case_id part_id approver people p s).1
          go (event_of e) h =
              rw (h, expire_with)
                (if-Keeps (has_none (first_user people))
                  (escalate event_hash candidate clock db others during parts_of all_limits day
                    stamp case_id expiry.1)
                  (done tt, expiry.1) s
                  (Keeps-trans db s expiry.1 _ expiry-Keeps (escalate-Keeps case_id expiry.1))
                  expiry-Keeps)
          go transaction_conflict h = rw (h, expire_with) expiry-Keeps
          go contended h = rw (h, expire_with) expiry-Keeps
          go key_error h = rw (h, expire_with) expiry-Keeps

    due-Keeps :
        (approver : String) (deadline reminder now : ℤ)
        → Keeps db s
            (tick_due event_hash candidate clock db others during parts_of all_limits day stamp
              case_id part_id approver deadline reminder p now s).1
    unfolding tick_due
    due-Keeps approver deadline reminder now =
        elim (Bool-cases (ltb_ℤ now reminder || (ltb_ℤ now deadline && p.reminded))) [
          | inl early ↦ rw (early, tick_due) (Keeps-refl db s)
          | inr due ↦ elim (Bool-cases (leb_ℤ deadline now)) [
            | inl late ↦ rw (due, tick_due, late) (expire-Keeps approver _)
            | inr soon ↦ rw (due, tick_due, soon) (remind-Keeps approver)
          ]
        ]

  module _ (case_id part_id : String) (p : PartItem) (now : ℤ) (s : db.State)
      (read : as_part (db.get s (approval (part case_id part_id))) ≡ some p) where
    abbrev Ticked : Type 0
    Ticked =
        Keeps db s
          (tick_part event_hash candidate clock db others during parts_of all_limits day stamp
            case_id part_id p now s).1

    assigned-Keeps :
        p.superseded ≡ false
        → (p.expired && has_none p.approver && is_undecided p) ≡ false
        → (not (p.routed.tier == 2) || not (is_undecided p) || p.expired) ≡ false
        → (deadline reminder : ℤ) → p.routed.deadline ≡ some deadline
        → p.routed.reminder ≡ some reminder
        → Ticked
    unfolding tick_part
    assigned-Keeps a b c deadline reminder d e = elim (Option-cases p.approver) [
      | inl nobody ↦
          rw (a, b, c, tick_part, d, e, nobody)
            (if-Keeps (ltb_ℤ now reminder || (ltb_ℤ now deadline && p.reminded)) (done tt, s)
              (missing_key, s) s (Keeps-refl db s) (Keeps-refl db s))
      | inr (approver, found) ↦
          rw (a, b, c, tick_part, d, e, found)
            (due-Keeps case_id part_id p s read (ground arith) approver deadline reminder now)
    ]

    part-Keeps : Ticked
    unfolding tick_part
    part-Keeps = elim (Bool-cases p.superseded) [
      | inl void ↦ rw (void, tick_part) (Keeps-refl db s)
      | inr a ↦ elim (Bool-cases (p.expired && has_none p.approver && is_undecided p)) [
        | inl stuck ↦ rw (a, tick_part, stuck) (escalate-Keeps case_id s)
        | inr b ↦
            elim (Bool-cases (not (p.routed.tier == 2) || not (is_undecided p) || p.expired)) [
              | inl other ↦ rw (a, tick_part, b, other) (Keeps-refl db s)
              | inr c ↦ elim (Option-cases p.routed.deadline) [
                | inl d ↦ rw (a, tick_part, b, c, d) (Keeps-refl db s)
                | inr (deadline, d) ↦ elim (Option-cases p.routed.reminder) [
                  | inl e ↦ rw (a, tick_part, b, c, d, e) (Keeps-refl db s)
                  | inr (reminder, e) ↦ assigned-Keeps a b c deadline reminder d e
                ]
              ]
            ]
      ]
    ]

  pub tick-Keeps :
      (case_id part_id : String) (now : ℤ) (s : db.State)
      → Keeps db s
          (tick event_hash candidate clock db others during parts_of all_limits day stamp case_id
            part_id now s).1
  unfolding tick
  tick-Keeps case_id part_id now s =
      elim (Option-cases (as_part (db.get s (approval (part case_id part_id))))) [
        | inl missing ↦ rw (missing, tick) (Keeps-refl db s)
        | inr (p, found) ↦ rw (found, tick) (part-Keeps case_id part_id p now s found)
      ]
