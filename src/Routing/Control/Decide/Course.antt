-- ===== src/Routing/Control/Decide/Course.antt =====
-- services/routing/store.py: the courses that `ControlStore.decide` can take.
use aera_be.Prelude.{
  String, str_eq, contains, codes, length, ltb, ◌≡◌, refl, Bool, true, false, not, ◌&&◌, ◌||◌, none,
  some, List, [], ◌∷◌, Bool-cases, Option-cases, inl, inr, ℕ, arith,
}
use aera_be.Prelude.Int.{ℤ, leb_ℤ}
use aera_be.Storage.{Database}
use aera_be.Case.Items.{StoreKey, meta, approval, StoreItem, Case}
use aera_be.Case.Audit.{Draft}
use aera_be.Case.Store.{as_case}
use aera_be.Routing.Logic.{Part, ApproverLimit}
use aera_be.Routing.Control.Items.{route, part, limit, kill_switch, Payload, PartItem, RouteItem}
use aera_be.Routing.Control.Store.{
  Answer, done, permission_error, value_error, approval_conflict, missing_key, as_part, as_route,
  as_limit, as_kill,
}
use aera_be.Routing.Control.Tick.{tick}
use aera_be.Routing.Control.Decide.{
  tier_2, single, same_payload, is_off, covers, is_listed, is_invalid, commit_decision,
  decide_limited, decide_eligible, decide_assigned, expired_now, decide_open, decide_part,
  decide_routed, decide_current, decide,
}

abbrev is_done {ℓ} : {A : Type ℓ} → Answer A → Bool
is_done (done a) = true
is_done _ = false

module _ (lower : String → String) (is_blank : String → Bool) (event_hash : Draft → String)
    (candidate clock : ℕ → ℕ) (db : Database StoreKey StoreItem) (others : ℕ → db.State → db.State)
    (during : db.State → db.State) (parts_of : db.State → String → List PartItem)
    (all_limits : db.State → List ApproverLimit) (day : ℤ → ℤ) (stamp : ℕ) where
  module _ (case_id : String) (payload : Payload) (now : ℤ) (s : db.State) where
    abbrev tick_of : (part_id : String) → db.State
    tick_of part_id =
        (tick event_hash candidate clock db others during parts_of all_limits day stamp case_id
          part_id now s).1

    abbrev committed :
        (part_id : String) → PartItem → (kill : String) → ApproverLimit → Answer PartItem × db.State
    committed part_id p kill l =
        commit_decision lower is_blank event_hash candidate clock db others during parts_of
          all_limits day stamp case_id part_id payload now p kill l s

    -- The part is the one for an approver in the route of the current plan version, whose hash the
    -- decision names.
    pub record IsCurrent (part_id : String) (p : PartItem) : Type 0 where
      pub case_read : Case
      pub route_read : RouteItem
      pub summary : Part
      pub case_stands : as_case (db.get s (meta case_id)) ≡ some case_read
      pub route_stands :
          as_route (db.get s (approval (route case_id case_read.plan_version))) ≡ some route_read
      pub hash_matches : str_eq route_read.version_hash payload.plan_version_hash ≡ true
      pub only_part : single (tier_2 route_read.parts) ≡ some summary
      pub its_id : summary.id ≡ part_id
      pub part_stands : as_part (db.get s (approval (part case_id part_id))) ≡ some p

    -- The part waits for this approver.
    pub record Waits (p : PartItem) : Type 0 where
      pub deadline : ℤ
      pub undecided : p.decision ≡ none
      pub assigned : p.approver ≡ some payload.actor
      pub has_deadline : p.routed.deadline ≡ some deadline
      pub unexpired : p.expired ≡ false
      pub in_time : leb_ℤ deadline now ≡ false

    -- The approver's limit covers the part, and the kill switch is off.
    pub record Permits (p : PartItem) (kill : String) (l : ApproverLimit) : Type 0 where
      pub sufficient : covers payload.actor (day now) p l ≡ true
      pub kill_read : as_kill (db.get s (approval kill_switch)) ≡ some kill
      pub kill_off : is_off lower kill ≡ true

    pub data Course : Answer PartItem × db.State → Type 0 where
      quiet : (a : Answer PartItem) → is_done a ≡ false → Course (a, s)
      repeated :
          (part_id : String) (p : PartItem) (d : String)
          → IsCurrent part_id p
          → p.decision ≡ some d
          → same_payload payload p.decision_payload ≡ true
          → Course (done p, s)
      ticked :
          (part_id : String) (a : Answer PartItem) → is_done a ≡ false → Course (a, tick_of part_id)
      committing :
          (part_id : String) (p : PartItem) (kill : String) (l : ApproverLimit)
          → IsCurrent part_id p
          → Waits p
          → Permits p kill l
          → Course (committed part_id p kill l)

    module _ (part_id : String) (p : PartItem) (current : IsCurrent part_id p) where
      module _ (waits : Waits p) where
        abbrev limited : ApproverLimit → Answer PartItem × db.State
        limited l =
            decide_limited lower is_blank event_hash candidate clock db others during parts_of
              all_limits day stamp case_id part_id payload now p l s

        limited-Course :
            (l : ApproverLimit) → covers payload.actor (day now) p l ≡ true → Course (limited l)
        unfolding decide_limited
        limited-Course l c = elim (Option-cases (as_kill (db.get s (approval kill_switch)))) [
          | inl missing ↦ rw (missing, decide_limited) (quiet approval_conflict refl)
          | inr (kill, found) ↦ elim (Bool-cases (is_off lower kill)) [
            | inr on ↦ rw (found, decide_limited, on) (quiet approval_conflict refl)
            | inl off ↦
                rw (found, decide_limited, off)
                  (committing part_id p kill l current waits
                    (record { sufficient = c; kill_read = found; kill_off = off }))
          ]
        ]

        abbrev by_limit : Answer PartItem × db.State
        by_limit =
            decide_eligible lower is_blank event_hash candidate clock db others during parts_of
              all_limits day stamp case_id part_id payload now p s

        eligible-Course : Course by_limit
        unfolding decide_eligible
        eligible-Course =
            elim (Option-cases (as_limit (db.get s (approval (limit payload.actor))))) [
              | inl missing ↦ rw (missing, decide_eligible) (quiet permission_error refl)
              | inr (l, found) ↦ elim (Bool-cases (is_invalid l)) [
                | inl edited ↦ rw (found, decide_eligible, edited) (quiet value_error refl)
                | inr plain ↦ elim (Bool-cases (covers payload.actor (day now) p l.granted)) [
                  | inr short ↦
                      rw (found, decide_eligible, plain, short) (quiet permission_error refl)
                  | inl c ↦ rw (found, decide_eligible, plain, c) (limited-Course l.granted c)
                ]
              ]
            ]

      abbrev assigned_to : ℤ → Answer PartItem × db.State
      assigned_to deadline =
          decide_assigned lower is_blank event_hash candidate clock db others during parts_of
            all_limits day stamp case_id part_id payload now p deadline s

      abbrev listed : Bool
      listed =
          is_listed lower is_blank event_hash candidate clock db others during parts_of all_limits
            day stamp case_id part_id payload now p s

      assigned-Course :
          (deadline : ℤ)
          → p.decision ≡ none
          → p.approver ≡ some payload.actor
          → p.routed.deadline ≡ some deadline
          → Course (assigned_to deadline)
      unfolding decide_assigned expired_now
      assigned-Course deadline u a h = elim (Bool-cases (p.expired || leb_ℤ deadline now)) [
        | inl late ↦ rw (late, decide_assigned) (ticked p.routed.id approval_conflict refl)
        | inr soon ↦ elim (Bool-cases listed) [
          | inr unlisted ↦ rw (soon, decide_assigned, unlisted) (quiet permission_error refl)
          | inl known ↦
              rw (soon, decide_assigned, known)
                (eligible-Course (record {
                  deadline = deadline;
                  undecided = u;
                  assigned = a;
                  has_deadline = h;
                  unexpired = ground arith;
                  in_time = ground arith;
                }))
        ]
      ]

      abbrev opened : Answer PartItem × db.State
      opened =
          decide_open lower is_blank event_hash candidate clock db others during parts_of all_limits
            day stamp case_id part_id payload now p s

      open-Course : p.decision ≡ none → Course opened
      unfolding decide_open expired_now
      open-Course u = elim (Option-cases p.approver) [
        | inl nobody ↦ rw (nobody, decide_open) (quiet missing_key refl)
        | inr (approver, a) ↦ elim (Bool-cases (str_eq approver payload.actor)) [
          | inr other ↦ rw (a, decide_open, other) (quiet permission_error refl)
          | inl own ↦ elim (Option-cases p.routed.deadline) [
            | inl missing ↦ elim (Bool-cases p.expired) [
              | inl expired ↦
                  rw (a, decide_open, own, missing, expired)
                    (ticked p.routed.id approval_conflict refl)
              | inr unexpired ↦
                  rw (a, decide_open, own, missing, unexpired) (quiet missing_key refl)
            ]
            | inr (deadline, h) ↦
                rw (a, decide_open, own, h) (assigned-Course deadline u (ground arith) h)
          ]
        ]
      ]

      abbrev parted : Answer PartItem × db.State
      parted =
          decide_part lower is_blank event_hash candidate clock db others during parts_of all_limits
            day stamp case_id part_id payload now p s

      part-Course : Course parted
      unfolding decide_part
      part-Course = elim (Option-cases p.decision) [
        | inl u ↦ rw (u, decide_part) (open-Course u)
        | inr (d, h) ↦ elim (Bool-cases (same_payload payload p.decision_payload)) [
          | inl again ↦ rw (h, decide_part, again) (repeated part_id p d current h again)
          | inr changed ↦ rw (h, decide_part, changed) (quiet approval_conflict refl)
        ]
      ]

    abbrev routed_by : RouteItem → Answer PartItem × db.State
    routed_by r =
        decide_routed lower is_blank event_hash candidate clock db others during parts_of all_limits
          day stamp case_id payload now r s

    routed-Course :
        (c : Case) (r : RouteItem)
        → as_case (db.get s (meta case_id)) ≡ some c
        → as_route (db.get s (approval (route case_id c.plan_version))) ≡ some r
        → Course (routed_by r)
    unfolding decide_routed
    routed-Course c r cs rs = elim (Bool-cases (str_eq r.version_hash payload.plan_version_hash)) [
      | inr stale ↦ rw (stale, decide_routed) (quiet approval_conflict refl)
      | inl same ↦ elim (Option-cases (single (tier_2 r.parts))) [
        | inl several ↦ rw (same, decide_routed, several) (quiet approval_conflict refl)
        | inr (summary, one) ↦
            elim (Option-cases (as_part (db.get s (approval (part case_id summary.id))))) [
              | inl missing ↦ rw (same, decide_routed, one, missing) (quiet approval_conflict refl)
              | inr (p, found) ↦
                  rw (same, decide_routed, one, found)
                    (part-Course summary.id p (record {
                      case_read = c;
                      route_read = r;
                      summary = summary;
                      case_stands = cs;
                      route_stands = rs;
                      hash_matches = same;
                      only_part = one;
                      its_id = refl;
                      part_stands = found;
                    }))
            ]
      ]
    ]

    abbrev for_current : Answer PartItem × db.State
    for_current =
        decide_current lower is_blank event_hash candidate clock db others during parts_of
          all_limits day stamp case_id payload now s

    current-Course : Course for_current
    unfolding decide_current
    current-Course = elim (Option-cases (as_case (db.get s (meta case_id)))) [
      | inl missing ↦ rw (missing, decide_current) (quiet approval_conflict refl)
      | inr (c, cs) ↦
          elim (Option-cases (as_route (db.get s (approval (route case_id c.plan_version))))) [
            | inl unrouted ↦ rw (cs, decide_current, unrouted) (quiet approval_conflict refl)
            | inr (r, rs) ↦ rw (cs, decide_current, rs) (routed-Course c r cs rs)
          ]
    ]

    pub decide-Course :
        (groups : List String)
        → Course (
            decide lower is_blank event_hash candidate clock db others during parts_of all_limits
              day stamp case_id groups payload now s)
    unfolding decide
    decide-Course groups = elim (Bool-cases (contains "approver" groups)) [
      | inr outsider ↦ rw (outsider, decide) (quiet permission_error refl)
      | inl member ↦
          elim (Bool-cases (
            not (contains payload.decision ("APPROVED" ∷ "REJECTED" ∷ []))
            || ltb 2000 (length (codes payload.comment)))) [
              | inl malformed ↦ rw (member, decide, malformed) (quiet value_error refl)
              | inr formed ↦
                  elim (Bool-cases
                    (str_eq payload.decision "REJECTED" && is_blank payload.comment)) [
                      | inl bare ↦ rw (member, decide, formed, bare) (quiet value_error refl)
                      | inr reasoned ↦ rw (member, decide, formed, reasoned) current-Course
                    ]
            ]
    ]
