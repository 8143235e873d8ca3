-- ===== src/Routing/Control/Decide.antt =====
-- services/routing/store.py: `ControlStore.decide`, an approver's decision. The lower case of a
-- text and whether it is blank are parameters: they are methods of Python's texts.
pub mod Course
pub mod Lawful
use aera_be.Prelude.{
  String, codes, str_eq, contains, ℕ, suc, ◌==◌, Bool, true, false, not, ◌&&◌, ◌||◌, Option, none,
  some, List, [], ◌∷◌, length, ltb, if◌then◌else◌,
}
use aera_be.Prelude.Int.{ℤ, leb_ℤ, eq_ℤ}
use aera_be.Storage.{Write, Database}
use aera_be.Case.Items.{StoreKey, case_chain, meta, approval, StoreItem, Case}
use aera_be.Case.Audit.{Draft, Entry, record_event}
use aera_be.Case.Store.{as_case}
use aera_be.Routing.Logic.{Part, ApproverLimit, eligible}
use aera_be.Routing.Control.Items.{
  of_text, plan_approved, plan_rejected, route, part, limit, kill_switch, Payload, PartItem,
  RouteItem, LimitItem, decided,
}
use aera_be.Routing.Control.Store.{
  Answer, done, permission_error, value_error, approval_conflict, missing_key, as_part, as_route,
  as_limit, as_kill, notice, put_part, check, has_plan_version, answer_raising, limits, user_ids,
  has_none, first_user,
}
use aera_be.Routing.Control.Tick.{tick}

-- The parts that an approver decides.
abbrev pub tier_2 : List Part → List Part
tier_2 [] = []
tier_2 (p ∷ ps) = let rest = tier_2 ps in if p.tier == 2 then p ∷ rest else rest

abbrev pub single : List Part → Option Part
single (p ∷ []) = some p
single _ = none

abbrev pub same_payload : Payload → Option Payload → Bool
same_payload p none = false
same_payload p (some q) =
    str_eq p.actor q.actor
    && str_eq p.decision q.decision
    && str_eq p.comment q.comment
    && str_eq p.plan_version_hash q.plan_version_hash

abbrev user_text : String → String
user_text actor =
    String.◌∷◌ "u" (String.◌∷◌ "s" (String.◌∷◌ "e" (String.◌∷◌ "r" (String.◌∷◌ ":" actor))))

abbrev pub decide_entry : (case_id : String) → Payload → Entry
decide_entry case_id p = record {
  chain_key = case_chain case_id;
  type = "APPROVAL_DECIDED";
  actor = user_text p.actor;
  payload = p.actor ∷ p.decision ∷ p.comment ∷ p.plan_version_hash ∷ [];
  case_id = some case_id;
}

abbrev pub kill_is : String → Option StoreItem → Bool
kill_is v i = elim (as_kill i) [ none ↦ false | some w ↦ str_eq w v ]

-- The limit that was read, whose role was "approver", still stands, field by field.
abbrev same_limit : ApproverLimit → ApproverLimit → Bool
same_limit a b =
    eq_ℤ a.limit_usd b.limit_usd
    && str_eq a.plant b.plant
    && eq_ℤ a.valid_from b.valid_from
    && eq_ℤ a.valid_to b.valid_to
    && str_eq a.user_id b.user_id

abbrev pub limit_is : ApproverLimit → Option StoreItem → Bool
limit_is l i = elim (as_limit i) [
  | none ↦ false
  | some m ↦ str_eq m.role "approver" && same_limit m.granted l
]

abbrev pub decided_part : Payload → (now : ℤ) → PartItem → PartItem
decided_part payload now p = record p {
  decision = some payload.decision;
  decision_payload = some payload;
  decided_at = some now;
  revision = suc p.revision;
}

abbrev pub decide_writes :
    (case_id part_id : String)
    → Payload
    → (now : ℤ) → PartItem
    → (kill : String) → ApproverLimit
    → List (Write StoreKey StoreItem)
decide_writes case_id part_id payload now p kill l =
    put_part case_id part_id p.revision (decided_part payload now p)
    ∷ check (meta case_id) (has_plan_version p.version)
    ∷ check (approval kill_switch) (kill_is kill)
    ∷ notice case_id (of_text p.routed.id)
        (if str_eq payload.decision "APPROVED" then plan_approved else plan_rejected)
        (decided payload p.routed.id p.routed.options)
    ∷ check (approval (limit payload.actor)) (limit_is l)
    ∷ []

-- `ApproverLimit.model_validate` refuses another role, and the fields that an edit of a limit adds;
-- `grantedBy` is a field that it has, and `grantedAt` is taken out before.
abbrev pub is_invalid : LimitItem → Bool
is_invalid l =
    not (str_eq l.role "approver") || not (has_none l.changed_by) || not (has_none l.changed_at)

-- The kill switch's values that let a decision through, by their lower case.
abbrev pub is_off : (lower : String → String) → String → Bool
is_off lower v = contains (lower v) ("off" ∷ "false" ∷ "0" ∷ [])

-- The actor's limit covers the part on a day.
abbrev pub covers : (actor : String) (today : ℤ) → PartItem → ApproverLimit → Bool
covers actor today p l =
    str_eq l.user_id actor
    && not (has_none (first_user (eligible (l ∷ []) p.plant p.routed.cost today)))

module _ (lower : String → String) (is_blank : String → Bool) (event_hash : Draft → String)
    (candidate clock : ℕ → ℕ) (db : Database StoreKey StoreItem) (others : ℕ → db.State → db.State)
    (during : db.State → db.State) (parts_of : db.State → String → List PartItem)
    (all_limits : db.State → List ApproverLimit) (day : ℤ → ℤ) (stamp : ℕ) where
  module _ (case_id part_id : String) (payload : Payload) (now : ℤ) where
    -- The audited transaction.
    unfoldable pub commit_decision :
        PartItem → (kill : String) → ApproverLimit → db.State → Answer PartItem × db.State
    commit_decision p kill l s =
        let (r, s') =
          record_event event_hash candidate clock db others (decide_entry case_id payload)
            (decide_writes case_id part_id payload now p kill l) (during s) in
        (answer_raising (decided_part payload now p) r, s')

    -- The kill switch, with the limit as it was read.
    unfoldable pub decide_limited : PartItem → ApproverLimit → db.State → Answer PartItem × db.State
    unfolding commit_decision
    decide_limited p l s = elim (as_kill (db.get s (approval kill_switch))) [
      | none ↦ (approval_conflict, s)
      | some kill ↦ if is_off lower kill then commit_decision p kill l s else (approval_conflict, s)
    ]

    -- The approver's own limit.
    unfoldable pub decide_eligible : PartItem → db.State → Answer PartItem × db.State
    unfolding decide_limited
    decide_eligible p s = elim (as_limit (db.get s (approval (limit payload.actor)))) [
      | none ↦ (permission_error, s)
      | some l ↦
          if is_invalid l
          then (value_error, s)
          else if not (covers payload.actor (day now) p l.granted)
          then (permission_error, s)
          else decide_limited p l.granted s
    ]

    abbrev pub is_listed : PartItem → db.State → Bool
    is_listed p s =
        contains payload.actor
          (user_ids (eligible (limits (all_limits s) []) p.plant p.routed.cost (day now)))

    -- A part that has expired is ticked first.
    unfoldable pub expired_now : PartItem → db.State → Answer PartItem × db.State
    unfolding tick
    expired_now p s = (
      approval_conflict,
      (tick event_hash candidate clock db others during parts_of all_limits day stamp case_id
          p.routed.id now s).1,
    )

    unfoldable pub decide_assigned :
        PartItem → (deadline : ℤ) → db.State → Answer PartItem × db.State
    unfolding expired_now decide_eligible
    decide_assigned p deadline s =
        if p.expired || leb_ℤ deadline now
        then expired_now p s
        else if not (is_listed p s)
        then (permission_error, s)
        else decide_eligible p s

    -- A part that nobody has decided.
    unfoldable pub decide_open : PartItem → db.State → Answer PartItem × db.State
    unfolding expired_now decide_assigned
    decide_open p s = elim p.approver [
      | none ↦ (missing_key, s)
      | some approver ↦
          if not (str_eq approver payload.actor)
          then (permission_error, s)
          else elim p.routed.deadline [
            | none ↦ if p.expired then expired_now p s else (missing_key, s)
            | some deadline ↦ decide_assigned p deadline s
          ]
    ]

    -- A repeated decision is answered, another is refused.
    unfoldable pub decide_part : PartItem → db.State → Answer PartItem × db.State
    unfolding decide_open
    decide_part p s = elim p.decision [
      | some d ↦ (if same_payload payload p.decision_payload then done p else approval_conflict, s)
      | none ↦ decide_open p s
    ]

  -- The route of the current plan version.
  unfoldable pub decide_routed :
      (case_id : String) → Payload → (now : ℤ) → RouteItem → db.State → Answer PartItem × db.State
  unfolding decide_part
  decide_routed case_id payload now r s =
      if not (str_eq r.version_hash payload.plan_version_hash)
      then (approval_conflict, s)
      else elim (single (tier_2 r.parts)) [
        | none ↦ (approval_conflict, s)
        | some summary ↦ elim (as_part (db.get s (approval (part case_id summary.id)))) [
          | none ↦ (approval_conflict, s)
          | some p ↦ decide_part case_id summary.id payload now p s
        ]
      ]

  unfoldable pub decide_current :
      (case_id : String) → Payload → (now : ℤ) → db.State → Answer PartItem × db.State
  unfolding decide_routed
  decide_current case_id payload now s = elim (as_case (db.get s (meta case_id))) [
    | none ↦ (approval_conflict, s)
    | some c ↦ elim (as_route (db.get s (approval (route case_id c.plan_version)))) [
      | none ↦ (approval_conflict, s)
      | some r ↦ decide_routed case_id payload now r s
    ]
  ]

  unfoldable pub decide :
      (case_id : String) (groups : List String)
      → Payload
      → (now : ℤ) → db.State
      → Answer PartItem × db.State
  unfolding decide_current
  decide case_id groups payload now s =
      if not (contains "approver" groups)
      then (permission_error, s)
      else if not (contains payload.decision ("APPROVED" ∷ "REJECTED" ∷ []))
          || ltb 2000 (length (codes payload.comment))
      then (value_error, s)
      else if str_eq payload.decision "REJECTED" && is_blank payload.comment
      then (value_error, s)
      else decide_current case_id payload now s
