-- ===== src/Tests/Cases.antt =====
-- Cases, their audit chains and their runs at concrete inputs, on a database in memory.
use aera_be.Prelude.{String, ◌≡◌, refl, ℕ, true, false, ◌⊎◌, Option, none, some, [], ◌∷◌, ite}
use mathlib.Core.List.{append-nil}
use aera_be.Storage.{Database}
use aera_be.Storage.Memory.{memory}
use aera_be.Case.Status.{
  CaseStatus, CaseStatus_discrete, received, triaged, investigating, plan_proposed, verified,
  auto_approved, executing, closed, can_transition, is_terminal, targets, signal,
}
use aera_be.Case.Status.Paths
use aera_be.Case.Status.Paths.{History, written_after_approval, Approved, Way, terminal_or_closable}
use aera_be.Case.Items.{
  case_chain, StoreKey, StoreKey_discrete, meta, Case, case_item, StoreItem, AuditEvent,
}
use aera_be.Case.Audit.{
  Draft, Entry, attempts, record_event, new_event, genesis, after_id, verify_chain,
}
use aera_be.Case.Audit.Links.{Appends}
use aera_be.Case.Audit.Linked.{Appended, attempts-appends}
use aera_be.Case.Store.{transition, transition_from, get_case, or_status}
use aera_be.Case.Store.Transitions.{MovedFrom, entry, transition_lawful}
use aera_be.Case.Runs.{release}
use aera_be.Case.Runs.Single.{active, release-active}

executed :
    History executing
      (auto_approved ∷ verified ∷ plan_proposed ∷ investigating ∷ triaged ∷ received ∷ [])
unfolding can_transition
executed =
    Paths.moved executing
      (Paths.moved auto_approved
        (Paths.moved verified
          (Paths.moved plan_proposed
            (Paths.moved investigating (Paths.moved triaged Paths.opened refl) refl) refl)
          refl)
        refl)
      refl

abbrev cases : Database StoreKey StoreItem
cases = memory StoreKey_discrete

abbrev event_hash : Draft → String
event_hash d = "hash"

abbrev alone : ℕ → cases.State → cases.State
alone n s = s

abbrev tick : ℕ → ℕ
tick n = 7

abbrev empty : StoreKey → Option StoreItem
empty k = none

abbrev one_case : Case
one_case = record {
  case_id = "EXC-2026-0001";
  status = received;
  stage = signal;
  active_run_id = none;
  signal_ids = [];
  rar_usd = none;
  priority_score = none;
  stockout_at = none;
  figures = [];
  plan_version = 0;
  updated_at = 0;
}

abbrev stored : StoreKey → Option StoreItem
stored k = ite (StoreKey_discrete k (meta "EXC-2026-0001")) (some (case_item one_case)) none

abbrev first : Entry
first = record {
  chain_key = case_chain "EXC-2026-0001";
  type = "CASE_CREATED";
  actor = "system";
  payload = [];
  case_id = none;
}

abbrev first_event : AuditEvent
first_event = new_event event_hash tick tick first 4 (genesis, none)

abbrev only_appends :
    (n : ℕ) → Appends event_hash (case_chain "EXC-2026-0001") tick tick cases (alone n)
only_appends n es s h = ([], rw (append-nil es) h)

attempts-appends_example :
    Appended event_hash
      (case_chain "EXC-2026-0001")
      tick
      tick
      cases
      alone
      only_appends
      first
      []
      refl
      tt
      5
      empty
      []
      first_event
      (attempts event_hash tick tick cases alone 5 first [] empty).1
unfolding attempts verify_chain StoreKey_discrete after_id
attempts-appends_example =
    attempts-appends event_hash (case_chain "EXC-2026-0001") tick tick cases alone only_appends
      first [] refl tt 5 empty [] (record { linked = refl; headed = refl; stored = tt })

transition_lawful_example :
    (read : Case) × (get_case event_hash tick tick cases alone "EXC-2026-0001" stored ≡ some read)
    × (can_transition (or_status none read.status) triaged ≡ true)
    × (record one_case { status = triaged; updated_at = 9 }
        ≡ record read { status = triaged; updated_at = 9 })
    × MovedFrom event_hash tick tick cases alone "EXC-2026-0001"
        (or_status none read.status)
        triaged
        9
        (entry event_hash tick tick cases alone "EXC-2026-0001"
          (or_status none read.status)
          triaged
          9
          "system")
        stored
        (transition event_hash tick tick cases alone "EXC-2026-0001" triaged "system" none 9
          stored).1
unfolding transition transition_from get_case record_event attempts can_transition targets
    CaseStatus_discrete StoreKey_discrete after_id
transition_lawful_example =
    transition_lawful event_hash tick tick cases alone "EXC-2026-0001" triaged "system" none 9
      stored {c = record one_case { status = triaged; updated_at = 9 }} refl

abbrev running : StoreKey → Option StoreItem
running k =
    ite (StoreKey_discrete k (meta "EXC-2026-0001"))
      (some (case_item (record one_case { active_run_id = some "R1" }))) none

release-active_example :
    active cases (
      (release cases "EXC-2026-0001" "R1"
          (record { end_reason = "PLAN"; summary = ""; ended_at = 1 })
          running).1
        (meta "EXC-2026-0001"))
    ≡ none
unfolding StoreKey_discrete
release-active_example =
    release-active cases "EXC-2026-0001" "R1" "R1"
      (record { end_reason = "PLAN"; summary = ""; ended_at = 1 }) running refl

written_after_approval_example :
    Approved (auto_approved ∷ verified ∷ plan_proposed ∷ investigating ∷ triaged ∷ received ∷ [])
unfolding can_transition targets CaseStatus_discrete
written_after_approval_example = written_after_approval executed refl

terminal_or_closable_example :
    ((is_terminal verified ≡ true) × ((t : CaseStatus) → can_transition verified t ≡ false))
    ⊎ Way verified closed
terminal_or_closable_example = terminal_or_closable verified
