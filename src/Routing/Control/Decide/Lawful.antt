-- ===== src/Routing/Control/Decide/Lawful.antt =====
-- services/routing/store.py: what a decision that succeeds rests on, and what it leaves.
use aera_be.Prelude.{
  String, ℕ, ◌≡◌, refl, sym, ◌⊎◌, inl, inr, Bool, true, false, Option, some, List, arith, &&→both,
}
use aera_be.Prelude.Int.{ℤ}
use aera_be.Storage.{Write, Database, passes}
use aera_be.Case.Items.{StoreKey, meta, approval, StoreItem}
use aera_be.Case.Audit.{
  Draft, Recorded, event_of, transaction_conflict, contended, key_error, audit_writes, record_event,
}
use aera_be.Case.Audit.Commits.{CommitsOn}
use aera_be.Routing.Logic.{ApproverLimit}
use aera_be.Routing.Control.Items.{part, limit, kill_switch, Payload, PartItem}
use aera_be.Routing.Control.Store.{
  Answer, done, as_part, at_revision, has_plan_version, answer_raising,
}
use aera_be.Routing.Control.Reallocate.{is_final}
use aera_be.Routing.Control.Grown.{
  Later-same, revision_of, AllFair, Fair-put, vacant-no_part, Keeps,
}
use aera_be.Routing.Control.Stood.{Stood, record-Stood}
use aera_be.Routing.Control.Decide.{
  same_payload, decided_part, decide_entry, decide_writes, kill_is, limit_is, commit_decision,
  decide,
}
use aera_be.Routing.Control.Decide.Course.{
  IsCurrent, Waits, Permits, Course, quiet, repeated, ticked, committing, decide-Course,
}

module _ (lower : String → String) (is_blank : String → Bool) (event_hash : Draft → String)
    (candidate clock : ℕ → ℕ) (db : Database StoreKey StoreItem) (others : ℕ → db.State → db.State)
    (during : db.State → db.State) (parts_of : db.State → String → List PartItem)
    (all_limits : db.State → List ApproverLimit) (day : ℤ → ℤ) (stamp : ℕ)
    (rely : (n : ℕ) (s : db.State) → Keeps db s (others n s))
    (rely_during : (s : db.State) → Keeps db s (during s)) (case_id : String) (payload : Payload)
    (now : ℤ) (s : db.State) where
  abbrev Current : String → PartItem → Type 0
  Current =
      IsCurrent lower is_blank event_hash candidate clock db others during parts_of all_limits day
        stamp case_id payload now s

  abbrev Permitted : PartItem → String → ApproverLimit → Type 0
  Permitted =
      Permits lower is_blank event_hash candidate clock db others during parts_of all_limits day
        stamp case_id payload now s

  abbrev Waiting : PartItem → Type 0
  Waiting =
      Waits lower is_blank event_hash candidate clock db others during parts_of all_limits day stamp
        case_id payload now s

  -- The decision's transaction: the state that it was committed on, which the run of attempts came
  -- to, and the one that it left.
  pub record Taken (part_id : String) (p : PartItem) (kill : String) (l : ApproverLimit)
      (s' : db.State) : Type 0 where
    pub found : db.State
    pub attempt : ℕ
    pub previous : String × Option ℕ
    pub reached :
        CommitsOn event_hash candidate clock db others
          (decide_entry case_id payload)
          (decide_writes case_id part_id payload now p kill l)
          5
          (during s)
          found
          attempt
          previous
    pub left :
        s'
        ≡ db.after
            (audit_writes event_hash candidate clock
              (decide_entry case_id payload)
              attempt
              previous
              (decide_writes case_id part_id payload now p kill l))
            found
    pub part_stood : as_part (db.get found (approval (part case_id part_id))) ≡ some p
    pub version_stood : has_plan_version p.version (db.get found (meta case_id)) ≡ true
    pub kill_stood : kill_is kill (db.get found (approval kill_switch)) ≡ true
    pub limit_stood : limit_is l (db.get found (approval (limit payload.actor))) ≡ true
    pub decided :
        as_part (db.get s' (approval (part case_id part_id))) ≡ some (decided_part payload now p)

  module _ (part_id : String) (p : PartItem) (kill : String) (l : ApproverLimit)
      (read : as_part (db.get s (approval (part case_id part_id))) ≡ some p)
      (open_part : is_final p ≡ false) where
    abbrev own : List (Write StoreKey StoreItem)
    own = decide_writes case_id part_id payload now p kill l

    pub decide-AllFair : (t : db.State) → Keeps db s t → AllFair (db.get t) own
    decide-AllFair t k = (
      Fair-put (db.get t (approval (part case_id part_id))) case_id part_id p _
          (k case_id part_id p read) (inr (omega arith, open_part)),
      (
        (λ q h a. (q, a, inl refl)),
        (
          (λ q h a. (q, a, inl refl)),
          ((λ q h a. absurd (vacant-no_part _ q h a)), ((λ q h a. (q, a, inl refl)), tt)),
        ),
      ),
    )

    abbrev result : Recorded × db.State
    result =
        record_event event_hash candidate clock db others (decide_entry case_id payload) own
          (during s)

    -- The conditions of the decision's own writes.
    abbrev Conditions : db.State → Type 0
    Conditions t =
        (at_revision p.revision (db.get t (approval (part case_id part_id))) ≡ true)
        × (has_plan_version p.version (db.get t (meta case_id)) ≡ true)
        × (kill_is kill (db.get t (approval kill_switch)) ≡ true)
        × (limit_is l (db.get t (approval (limit payload.actor))) ≡ true)

    all_of_own : (t : db.State) → passes own (db.get t) ≡ true → Conditions t
    all_of_own t h =
        let (revision, h₁) = &&→both _ _ h in
        let (version, h₂) = &&→both _ _ h₁ in
        let (switch, h₃) = &&→both _ _ h₂ in
        let (outbox_free, h₄) = &&→both _ _ h₃ in
        let (limit_same, h₅) = &&→both _ _ h₄ in (revision, version, switch, limit_same)

    module _ (t : db.State) (m : ℕ) (previous : String × Option ℕ)
        (h : passes
            (audit_writes event_hash candidate clock (decide_entry case_id payload) m previous own)
            (db.get t)
          ≡ true) where
      conditions : Conditions t
      conditions =
          let (event_free, h₁) = &&→both _ _ h in
          let (head_stood, h₂) = &&→both _ _ h₁ in all_of_own t h₂

      decided_after :
          as_part (
            db.get
              (db.after
                (audit_writes event_hash candidate clock
                  (decide_entry case_id payload)
                  m
                  previous
                  own)
                t)
              (approval (part case_id part_id)))
          ≡ some (decided_part payload now p)
      decided_after =
          rw
            (
              db.get-after
                  (audit_writes event_hash candidate clock (decide_entry case_id payload) m previous
                    own)
                  t (approval (part case_id part_id)),
              h,
            )
            (ground arith)

    Stood-Taken :
        Stood db event_hash candidate clock others rely
          (decide_entry case_id payload)
          own
          s
          decide-AllFair
          (during s)
          result.1
        → Taken part_id p kill l result.1
    Stood-Taken (t, m, previous, run, k, h, e) =
        let (revision, version, switch, limit_same) = conditions t m previous h in
        let (q, a, later) = k case_id part_id p read in
        record {
          found = t;
          attempt = m;
          previous = previous;
          reached = run;
          left = e;
          part_stood =
              rw
                (Later-same p q later (
                  revision_of (db.get t (approval (part case_id part_id))) q p.revision revision a))
                at a;
          version_stood = version;
          kill_stood = switch;
          limit_stood = limit_same;
          decided = rw e (decided_after t m previous h);
        }

    answered :
        (r : Recorded) {q : PartItem}
        → result.0 ≡ r
        → answer_raising (decided_part payload now p) r ≡ done q
        → (q ≡ decided_part payload now p) × Taken part_id p kill l result.1
    answered (event_of e) h d = (
      cc d,
      Stood-Taken (
          record-Stood db event_hash candidate clock others rely (decide_entry case_id payload) own
            s decide-AllFair (during s) e (rely_during s) h),
    )
    answered transaction_conflict h d = cc d
    answered contended h d = cc d
    answered key_error h d = cc d

    commit-Taken :
        {q : PartItem}
        → (commit_decision lower is_blank event_hash candidate clock db others during parts_of
            all_limits day stamp case_id part_id payload now p kill l s).0
          ≡ done q
        → (q ≡ decided_part payload now p)
          × Taken part_id p kill l
              (commit_decision lower is_blank event_hash candidate clock db others during parts_of
                all_limits day stamp case_id part_id payload now p kill l s).1
    unfolding commit_decision
    commit-Taken d = answered result.0 refl d

  -- The two ways in which a decision succeeds.
  abbrev pub Again : PartItem → db.State → Type 0
  Again q s' =
      (part_id : String) × (d : String) × Current part_id q
      × (q.decision ≡ some d)
      × (same_payload payload q.decision_payload ≡ true)
      × (s' ≡ s)

  abbrev pub Anew : PartItem → db.State → Type 0
  Anew q s' =
      (part_id : String) × (p : PartItem) × (kill : String) × (l : ApproverLimit) × Current part_id
        p
      × Waiting p
      × Permitted p kill l
      × (q ≡ decided_part payload now p)
      × Taken part_id p kill l s'

  pub Waits-open : (p : PartItem) → Waiting p → is_final p ≡ false
  Waits-open p w = ground (arith, w.undecided, w.unexpired)

  course_lawful :
      (x : Answer PartItem × db.State) {q : PartItem}
      → Course lower is_blank event_hash candidate clock db others during parts_of all_limits day
          stamp case_id payload now s x
      → x.0 ≡ done q
      → Again q x.1 ⊎ Anew q x.1
  course_lawful x (quiet a n) d = cc (rw d at n)
  course_lawful x {q} (repeated part_id p e current decided same) d =
      let i : p ≡ q = cc d in inl (rw (sym i) (part_id, e, current, decided, same, refl))
  course_lawful x (ticked part_id a n) d = cc (rw d at n)
  course_lawful x (committing part_id p kill l current waits permits) d =
      let (i, taken) = commit-Taken part_id p kill l current.part_stands (Waits-open p waits) d in
      inr (part_id, p, kill, l, current, waits, permits, i, taken)

  -- While others only change parts as the operations do, a decision that succeeds either repeats,
  -- with no write, the decision that the current part already has, or is a new one. Then the part
  -- was the only one for an approver in the route of the current plan version, with the hash that
  -- the decision names; it was undecided, unexpired, before its deadline and assigned to the actor;
  -- the actor's limit covered it and the kill switch was off. On the state that its transaction was
  -- committed on, which the run of attempts came to, the part was still that very part, and the plan
  -- version, the kill switch and the limit still stood; and the commit left the part with the
  -- decision.
  pub decide_lawful :
      (groups : List String) {q : PartItem}
      → (decide lower is_blank event_hash candidate clock db others during parts_of all_limits day
          stamp case_id groups payload now s).0
        ≡ done q
      → Again q
          (decide lower is_blank event_hash candidate clock db others during parts_of all_limits day
            stamp case_id groups payload now s).1
        ⊎ Anew q
            (decide lower is_blank event_hash candidate clock db others during parts_of all_limits
              day stamp case_id groups payload now s).1
  decide_lawful groups d =
      course_lawful
        (decide lower is_blank event_hash candidate clock db others during parts_of all_limits day
          stamp case_id groups payload now s)
        (decide-Course lower is_blank event_hash candidate clock db others during parts_of
          all_limits day stamp case_id payload now s groups)
        d
