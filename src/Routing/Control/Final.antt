-- ===== src/Routing/Control/Final.antt =====
-- services/routing/store.py: the parts of a case over any sequence of the operations of
-- `ControlStore`, while other writers do the same.
use aera_be.Prelude.{
  String, ℕ, ap, ◌==◌, ◌≡◌, refl, ◌∙◌, inl, inr, Bool, true, Option, some, List, [], ◌∷◌, ◌++◌,
  Bool-cases, Option-cases, str_eq,
}
use aera_be.Prelude.Int.{ℤ}
use aera_be.Storage.{Write, Database}
use aera_be.Case.Items.{StoreKey, approval, StoreItem, Case}
use aera_be.Case.Audit.{Draft}
use aera_be.Verify.{Plan, Verification}
use aera_be.Routing.Logic.{Part, Route, ApproverLimit}
use aera_be.Routing.Control.Items.{route, part, Payload, PartItem}
use aera_be.Routing.Control.Store.{Answer, as_part, as_route}
use aera_be.Routing.Control.Tick.{tick}
use aera_be.Routing.Control.Decide.{decide, commit_decision, decide_entry, decide_writes}
use aera_be.Routing.Control.Decide.Course.{
  Course, quiet, repeated, ticked, committing, decide-Course,
}
use aera_be.Routing.Control.Decide.Lawful.{decide-AllFair, Waits-open}
use aera_be.Routing.Control.Reallocate.{reallocate, is_final}
use aera_be.Routing.Control.Save.{save, save_new, all_part_writes}
use aera_be.Routing.Control.Grown.{
  Later-final, vacant-no_part, AllFair, Keeps, Keeps-refl, Keeps-trans, record-Keeps,
}
use aera_be.Routing.Control.Steps.{tick-Keeps}
use aera_be.Routing.Control.Reallocate.Kept.{IsKeyed, reallocate-Keeps}

module _ (lower : String → String) (is_blank : String → Bool) (plan_hash : Plan → String)
    (tier_text : ℕ → String) (event_hash : Draft → String) (candidate clock : ℕ → ℕ)
    (db : Database StoreKey StoreItem) (others : ℕ → db.State → db.State)
    (during : db.State → db.State) (rely : (n : ℕ) (s : db.State) → Keeps db s (others n s))
    (rely_during : (s : db.State) → Keeps db s (during s))
    (parts_of : db.State → String → List PartItem) (all_limits : db.State → List ApproverLimit)
    (day : ℤ → ℤ) (stamp : ℕ) where
  course-Keeps :
      (case_id : String) (payload : Payload) (now : ℤ) (s : db.State)
      (x : Answer PartItem × db.State)
      → Course lower is_blank event_hash candidate clock db others during parts_of all_limits day
          stamp case_id payload now s x
      → Keeps db s x.1
  unfolding commit_decision
  course-Keeps case_id payload now s x (quiet a n) = Keeps-refl db s
  course-Keeps case_id payload now s x (repeated part_id p d current decided same) = Keeps-refl db s
  course-Keeps case_id payload now s x (ticked part_id a n) =
      tick-Keeps event_hash candidate clock db others during rely rely_during parts_of all_limits
        day stamp case_id part_id now s
  course-Keeps case_id payload now s x (committing part_id p kill l current waits permits) =
      record-Keeps db event_hash candidate clock others rely (decide_entry case_id payload)
        (decide_writes case_id part_id payload now p kill l) s
        (decide-AllFair lower is_blank event_hash candidate clock db others during parts_of
          all_limits day stamp rely rely_during case_id payload now s part_id p kill l
          current.part_stands
          (Waits-open lower is_blank event_hash candidate clock db others during parts_of all_limits
            day stamp rely rely_during case_id payload now s p waits))
        (during s) (rely_during s)

  pub decide-Keeps :
      (case_id : String) (groups : List String) (payload : Payload) (now : ℤ) (s : db.State)
      → Keeps db s
          (decide lower is_blank event_hash candidate clock db others during parts_of all_limits day
            stamp case_id groups payload now s).1
  decide-Keeps case_id groups payload now s = course-Keeps case_id payload now s _ (
      decide-Course lower is_blank event_hash candidate clock db others during parts_of all_limits
        day stamp case_id payload now s groups)

  module _ (case_id : String) (version : ℕ) (r : Route) (plant : String) (now : ℤ) where
    parts-AllFair :
        (ps : List Part) (view : StoreKey → Option StoreItem)
        (rest : List (Write StoreKey StoreItem))
        → AllFair view rest
        → AllFair view (
            all_part_writes plan_hash tier_text event_hash candidate clock db others during case_id
              version r plant now ps
            ++ rest)
    parts-AllFair [] view rest h = h
    parts-AllFair (p ∷ ps) view rest h = elim (Bool-cases (p.tier == 1)) [
      | inl y ↦ rw y (
        λ q c a. absurd (vacant-no_part _ q c a),
        ((λ q c a. absurd (vacant-no_part _ q c a)), parts-AllFair ps view rest h),
      )
      | inr n ↦ rw n (λ q c a. absurd (vacant-no_part _ q c a), parts-AllFair ps view rest h)
    ]

    pub save-Keeps :
        (v : Verification) (s : db.State)
        → Keeps db s
            (save plan_hash tier_text event_hash candidate clock db others during case_id version r
              plant now v s).1
    unfolding save save_new
    save-Keeps v s = elim (Bool-cases (str_eq r.version_hash (plan_hash v.plan_record.plan))) [
      | inr stale ↦ rw (stale, save) (Keeps-refl db s)
      | inl fresh ↦ elim (Option-cases (as_route (db.get s (approval (route case_id version))))) [
        | inr (old, found) ↦ rw (fresh, found, save) (Keeps-refl db s)
        | inl absent ↦
            rw (fresh, absent, save, save_new)
              (record-Keeps db event_hash candidate clock others rely _ _ s
                (λ t k. (
                  λ q c a. absurd (vacant-no_part _ q c a),
                  (
                    (λ q c a. (q, a, inl refl)),
                    parts-AllFair r.parts (db.get t) _
                        ((λ q c a. absurd (vacant-no_part _ q c a)), tt),
                  ),
                ))
                (during s) (rely_during s))
      ]
    ]

  -- One operation of the store, with its arguments. A reallocation supersedes a part under the part's
  -- own id.
  pub data Step : db.State → db.State → Type 0 where
    decision :
        (case_id : String) (groups : List String) (payload : Payload) (now : ℤ) (s : db.State)
        → Step s
            (decide lower is_blank event_hash candidate clock db others during parts_of all_limits
              day stamp case_id groups payload now s).1
    timer :
        (case_id part_id : String) (now : ℤ) (s : db.State)
        → Step s
            (tick event_hash candidate clock db others during parts_of all_limits day stamp case_id
              part_id now s).1
    saving :
        (case_id : String) (version : ℕ) (r : Route) (plant : String) (now : ℤ) (v : Verification)
        (s : db.State)
        → Step s
            (save plan_hash tier_text event_hash candidate clock db others during case_id version r
              plant now v s).1
    reallocation :
        (c : Case) (fields : Option (List String)) (portfolio_id trigger : String) (now : ℕ)
        (s : db.State)
        → IsKeyed db s
        → Step s
            (reallocate event_hash candidate clock db others during c fields portfolio_id trigger
              now s).1

  pub data Run : db.State → db.State → Type 0 where
    start : (s : db.State) → Run s s
    next : (s t u : db.State) → Run s t → Step t u → Run s u

  Step-Keeps : {s t : db.State} → Step s t → Keeps db s t
  Step-Keeps (decision case_id groups payload now s) = decide-Keeps case_id groups payload now s
  Step-Keeps (timer case_id part_id now s) =
      tick-Keeps event_hash candidate clock db others during rely rely_during parts_of all_limits
        day stamp case_id part_id now s
  Step-Keeps (saving case_id version r plant now v s) = save-Keeps case_id version r plant now v s
  Step-Keeps (reallocation c fields portfolio_id trigger now s keyed) =
      reallocate-Keeps event_hash candidate clock db others during rely rely_during c fields
        portfolio_id trigger now s keyed

  Run-Keeps : {s t : db.State} → Run s t → Keeps db s t
  Run-Keeps (start s) = Keeps-refl db s
  Run-Keeps (next s u t r x) = Keeps-trans db s u t (Run-Keeps r) (Step-Keeps x)

  -- While others only change parts as the operations do, a part that is decided or expired stays
  -- exactly as it is over any sequence of decisions, timers, saved routes and reallocations that
  -- find the parts under their ids.
  pub final_stays :
      (s t : db.State)
      → Run s t
      → (case_id part_id : String) (p : PartItem)
      → as_part (db.get s (approval (part case_id part_id))) ≡ some p
      → is_final p ≡ true
      → as_part (db.get t (approval (part case_id part_id))) ≡ some p
  final_stays s t r case_id part_id p a f =
      let (q, b, later) = Run-Keeps r case_id part_id p a in b ∙ ap some (Later-final p q later f)
