-- ===== src/Case/Store/Transitions.antt =====
-- services/shared/cases.py: a transition of a case that succeeds, among other writers.
use aera_be.Prelude.{
  String, ℕ, ◌≡◌, refl, true, Option, none, some, List, [], ◌∷◌, arith, Bool-cases, Option-cases,
  inl, inr,
}
use aera_be.Storage.{Write, Database, passes}
use aera_be.Case.Status.{CaseStatus, can_transition}
use aera_be.Case.Items.{
  StoreKey, case_chain, meta, StoreItem, case_item, run_item, head_item, event_item, counter_item,
  approval_item, Case, AuditEvent,
}
use aera_be.Case.Audit.{
  Draft, Entry, Recorded, event_of, transaction_conflict, contended, key_error, record_event,
  audit_writes,
}
use aera_be.Case.Audit.Commits.{CommitsOn, Committed, attempts-Committed}
use aera_be.Case.Store.{
  ok, transition, transition_from, get_case, move_write, moved, or_status, as_outcome, status_is,
}

module _ (event_hash : Draft → String) (candidate clock : ℕ → ℕ) (db : Database StoreKey StoreItem)
    (others : ℕ → db.State → db.State) where
  -- The case that a committed move has found, and what it has left.
  module _ (id : String) (source target : CaseStatus) (now : ℕ) where
    abbrev writes : Entry → ℕ → String × Option ℕ → List (Write StoreKey StoreItem)
    writes x m previous =
        audit_writes event_hash candidate clock x m previous (move_write id source target now ∷ [])

    abbrev Moves : Option StoreItem → db.State → Type 0
    Moves found s' =
        (d : Case) × (found ≡ some (case_item d))
        × (d.status ≡ source)
        × (db.get s' (meta id) ≡ some (case_item (moved target now d)))

    -- The move that a run from `s` has committed: the state that it was committed on, the case
    -- stored there in the state `source`, and what the commit left of it.
    abbrev pub MovedFrom : Entry → db.State → db.State → Type 0
    MovedFrom x s s' =
        (t : db.State) × (m : ℕ) × (previous : String × Option ℕ) × (d : Case) × CommitsOn
          event_hash candidate clock db others x (move_write id source target now ∷ []) 5 s t m
          previous
        × (db.get t (meta id) ≡ some (case_item d))
        × (d.status ≡ source)
        × (s' ≡ db.after (writes x m previous) t)
        × (db.get s' (meta id) ≡ some (case_item (moved target now d)))

    passes-Moves :
        (x : Entry) (m : ℕ) (previous : String × Option ℕ) (t : db.State)
        → passes (writes x m previous) (db.get t) ≡ true
        → (o : Option StoreItem) → db.get t (meta id) ≡ o
        → status_is source o ≡ true
        → Moves o (db.after (writes x m previous) t)
    passes-Moves x m previous t p (some (case_item d)) e h =
        (d, refl, ground arith, ground (arith, db.get-after (writes x m previous) t (meta id)))
    passes-Moves x m previous t p none e h = cc h
    passes-Moves x m previous t p (some (run_item d)) e h = cc h
    passes-Moves x m previous t p (some (head_item d)) e h = cc h
    passes-Moves x m previous t p (some (event_item d)) e h = cc h
    passes-Moves x m previous t p (some (counter_item d)) e h = cc h
    passes-Moves x m previous t p (some (approval_item d)) e h = cc h

    stood :
        (x : Entry) (m : ℕ) (previous : String × Option ℕ) (t : db.State)
        → passes (writes x m previous) (db.get t) ≡ true
        → status_is source (db.get t (meta id)) ≡ true
    stood x m previous t p = ground arith

    Committed-Moves :
        (x : Entry) (s : db.State) (e : AuditEvent) {s' : db.State}
        → Committed event_hash candidate clock db others x
            (move_write id source target now ∷ [])
            5
            s
            e
            s'
        → MovedFrom x s s'
    Committed-Moves x s e (t, m, previous, run, p, same, left) =
        let (d, found, is, after) =
          passes-Moves x m previous t p (db.get t (meta id)) refl (stood x m previous t p) in
        (t, m, previous, d, run, found, is, left, rw left after)

    abbrev pub entry : String → Entry
    entry actor = record {
      chain_key = case_chain id;
      type = "STATE_TRANSITION";
      actor = actor;
      payload = [];
      case_id = some id;
    }

    answered :
        (actor : String) (s : db.State) {a c : Case} (r : Recorded)
        → (record_event event_hash candidate clock db others
            (entry actor)
            (move_write id source target now ∷ [])
            s).0
          ≡ r
        → as_outcome event_hash candidate clock db others r a ≡ ok c
        → (c ≡ a)
          × MovedFrom
              (entry actor)
              s
              (record_event event_hash candidate clock db others
                (entry actor)
                (move_write id source target now ∷ [])
                s).1
    unfolding record_event
    answered actor s (event_of e) read h = (
      cc h,
      Committed-Moves (entry actor) s e (
          attempts-Committed event_hash candidate clock db others (entry actor)
            (move_write id source target now ∷ []) 5 s e read),
    )
    answered actor s transaction_conflict read h = cc h
    answered actor s contended read h = cc h
    answered actor s key_error read h = cc h

    -- A transition that was committed found the case that it has moved in the state `source`.
    pub from-Moves :
        (current : Case) (actor : String) (s : db.State) {c : Case}
        → (transition_from event_hash candidate clock db others current id source target actor now
            s).0
          ≡ ok c
        → (can_transition source target ≡ true)
          × (c ≡ record current { status = target; updated_at = now })
          × MovedFrom
              (entry actor)
              s
              (transition_from event_hash candidate clock db others current id source target actor
                now s).1
    unfolding transition_from
    from-Moves current actor s {c} done = elim (Bool-cases (can_transition source target)) [
      | inr no_edge ↦ cc (rw (no_edge, transition_from) at done)
      | inl edge ↦
          rw (edge, transition_from)
            (let q =
                answered actor s
                  (record_event event_hash candidate clock db others (entry actor)
                    (move_write id source target now ∷ []) s).0
                  refl (rw (edge, transition_from) at done) in
              (refl, q.0, q.1))
    ]

  -- A transition that succeeds was allowed by the state machine from the state that its caller
  -- expected, or else read, and answers the case that it read with the target state and the new
  -- time. Whatever other writers did between its attempts, the state that its transaction was
  -- committed on, which the run came to, had the case in that state, and the commit left that case
  -- in the target state with the target's stage and the new time, and otherwise as it was.
  pub transition_lawful :
      (id : String) (target : CaseStatus) (actor : String) (expected : Option CaseStatus) (now : ℕ)
      (s : db.State) {c : Case}
      → (transition event_hash candidate clock db others id target actor expected now s).0 ≡ ok c
      → (read : Case) × (get_case event_hash candidate clock db others id s ≡ some read)
        × (can_transition (or_status expected read.status) target ≡ true)
        × (c ≡ record read { status = target; updated_at = now })
        × MovedFrom id
            (or_status expected read.status)
            target
            now
            (entry id (or_status expected read.status) target now actor)
            s
            (transition event_hash candidate clock db others id target actor expected now s).1
  unfolding transition
  transition_lawful id target actor expected now s {c} done =
      elim (Option-cases (get_case event_hash candidate clock db others id s)) [
        | inl missing ↦ cc (rw (missing, transition) at done)
        | inr (current, found) ↦
            rw (found, transition)
              (let q =
                  from-Moves id (or_status expected current.status) target now current actor s
                    (rw (found, transition) at done) in
                (current, refl, q.0, q.1, q.2))
      ]
