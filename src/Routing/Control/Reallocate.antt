-- ===== src/Routing/Control/Reallocate.antt =====
-- services/routing/store.py: `ControlStore.reallocate`, a portfolio solve that re-sizes a case while
-- it awaits approval.
pub mod Kept
use aera_be.Prelude.{
  String, ℕ, suc, ◌==◌, Bool, true, false, not, ◌&&◌, ◌||◌, Option, none, some, List, [], ◌∷◌, ◌++◌,
  map, ite, if◌then◌else◌,
}
use aera_be.Storage.{Write, Database}
use aera_be.Case.Status.{
  CaseStatus, CaseStatus_discrete, awaiting_approval, investigating, escalated,
}
use aera_be.Case.Items.{StoreKey, case_chain, meta, approval, StoreItem, approval_item, Case}
use aera_be.Case.Audit.{Draft, Entry, record_event}
use aera_be.Case.Store.{status_is, moved, on_case}
use aera_be.Routing.Logic.{Part}
use aera_be.Routing.Control.Items.{
  of_version, portfolio_of, plan_proposed, plan_routed, route, part, plan, PartItem, proposed,
  portfolio_reallocated, part_item, plan_item,
}
use aera_be.Routing.Control.Store.{
  Answer, done, missing_key, as_part, as_route, notice, put_new, at_revision, has_plan_version,
  answer_or, is_undecided,
}

pub data Reallocated : Type 0 where
  not_awaiting decided_or_expired changed_concurrently reproposed escalated_case : Reallocated

abbrev pub await_write :
    (case_id : String)
    → (target : CaseStatus) → (version following now : ℕ) → Write StoreKey StoreItem
await_write case_id target version following now = record {
  key = meta case_id;
  holds = λ i. status_is awaiting_approval i && has_plan_version version i;
  item = on_case (λ c. record (moved target now c) { plan_version = following });
}

abbrev pub superseded_part : (following : ℕ) → PartItem → PartItem
superseded_part following p = record p {
  superseded = true;
  superseded_by = some following;
  revision = suc p.revision;
}

abbrev pub on_part : (PartItem → PartItem) → Option StoreItem → Option StoreItem
on_part f (some (approval_item (part_item p))) = some (approval_item (part_item (f p)))
on_part f i = i

-- The update is of the part as it stands, on the revision that was read.
abbrev pub supersede : (case_id : String) → (following : ℕ) → String × ℕ → Write StoreKey StoreItem
supersede case_id following (part_id, revision) = record {
  key = approval (part case_id part_id);
  holds = at_revision revision;
  item = on_part (superseded_part following);
}

-- The parts to supersede, by id and revision, or what a part refuses. An entry of the route whose
-- part is missing has no revision.
pub data Pending : Type 0 where
  pending : List (String × ℕ) → Pending
  refused no_revision : Pending

abbrev pub add_pending : String × ℕ → Pending → Pending
add_pending x (pending xs) = pending (x ∷ xs)
add_pending x refused = refused
add_pending x no_revision = no_revision

-- A missing part is only found to lack its id once every part was looked at.
abbrev pub add_missing : Pending → Pending
add_missing refused = refused
add_missing _ = no_revision

abbrev pub is_final : PartItem → Bool
is_final p = not (is_undecided p) || p.expired

abbrev pub entry_of : (case_id : String) → (target : CaseStatus) → (fields : List String) → Entry
entry_of case_id target fields = record {
  chain_key = case_chain case_id;
  type = "STATE_TRANSITION";
  actor = "system";
  payload = fields;
  case_id = some case_id;
}

abbrev pub target_of {ℓ} : {A : Type ℓ} → Option A → CaseStatus
target_of none = escalated
target_of (some fields) = investigating

abbrev pub following_of {ℓ} : {A : Type ℓ} → Option A → ℕ → ℕ
following_of none version = version
following_of (some fields) version = suc version

abbrev answer_of {ℓ} : {A : Type ℓ} → Option A → Reallocated
answer_of none = escalated_case
answer_of (some fields) = reproposed

-- The plan and its announcement, or the escalation's.
abbrev pub plan_writes :
    (case_id : String) → Option (List String) → (version : ℕ) → List (Write StoreKey StoreItem)
plan_writes case_id (some fields) version =
    put_new (approval (plan case_id (suc version))) (plan_item fields)
    ∷ notice case_id (of_version (suc version)) plan_proposed (proposed (suc version))
    ∷ []
plan_writes case_id none version =
    notice case_id (portfolio_of version) plan_routed portfolio_reallocated ∷ []

abbrev pub reallocate_writes :
    (case_id : String)
    → Option (List String)
    → (version now : ℕ) → List (String × ℕ)
    → List (Write StoreKey StoreItem)
reallocate_writes case_id fields version now parts =
    await_write case_id (target_of fields) version (following_of fields version) now
      ∷ map (supersede case_id (following_of fields version)) parts
    ++ plan_writes case_id fields version

module _ (event_hash : Draft → String) (candidate clock : ℕ → ℕ) (db : Database StoreKey StoreItem)
    (others : ℕ → db.State → db.State) (during : db.State → db.State) where
  -- A tier 1 part, a decided one or an expired one refuses; a superseded one is left.
  unfoldable pub pending_of : (case_id : String) → List Part → db.State → Pending
  pending_of case_id [] s = pending []
  pending_of case_id (x ∷ xs) s =
      let rest = pending_of case_id xs s in
      if x.tier == 1 then refused else elim (as_part (db.get s (approval (part case_id x.id)))) [
        | none ↦ if x.tier == 2 then add_missing rest else rest
        | some p ↦
            if is_final p
            then refused
            else if x.tier == 2 && not p.superseded
            then add_pending (p.routed.id, p.revision) rest
            else rest
      ]

  unfoldable pub commit_reallocation :
      (case_id : String) (fields : Option (List String)) (version now : ℕ) (payload : List String)
      → List (String × ℕ)
      → db.State
      → Answer Reallocated × db.State
  commit_reallocation case_id fields version now payload parts s =
      let (r, s') =
        record_event event_hash candidate clock db others
          (entry_of case_id (target_of fields) payload)
          (reallocate_writes case_id fields version now parts) (during s) in
      (answer_or changed_concurrently (answer_of fields) r, s')

  -- `c` is the case as the caller has read it.
  unfoldable pub reallocate :
      (c : Case) (fields : Option (List String)) (portfolio_id trigger : String) (now : ℕ)
      → db.State
      → Answer Reallocated × db.State
  unfolding pending_of commit_reallocation
  reallocate c fields portfolio_id trigger now s =
      if not (ite (CaseStatus_discrete c.status awaiting_approval) true false)
      then (done not_awaiting, s)
      else elim (as_route (db.get s (approval (route c.case_id c.plan_version)))) [
        | none ↦ (done not_awaiting, s)
        | some r ↦ elim (pending_of c.case_id r.parts s) [
          | refused ↦ (done decided_or_expired, s)
          | no_revision ↦ (missing_key, s)
          | pending parts ↦
              commit_reallocation c.case_id fields c.plan_version now
                ("PORTFOLIO_REALLOCATED" ∷ portfolio_id ∷ trigger ∷ []) parts s
        ]
      ]
