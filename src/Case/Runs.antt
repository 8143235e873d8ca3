-- ===== src/Case/Runs.antt =====
-- services/shared/runs.py: one active agent run for a case, by a conditional write on `activeRunId`.
pub mod Single
use aera_be.Prelude.{
  String, str_eq, contains, ℕ, zero, suc, Bool, true, false, Option, none, some, List, [], ◌∷◌,
  if◌then◌else◌,
}
use aera_be.Storage.{Write, Database}
use aera_be.Case.Items.{StoreKey, meta, run, StoreItem, case_item, run_item, RunItem}
use aera_be.Case.Store.{on_case}

-- `END_REASONS`
abbrev pub end_reasons : List String
end_reasons =
    "PLAN" ∷ "ESCALATE" ∷ "WAITING_PLANNER" ∷ "WAITING_SUPPLIER" ∷ "LIMIT_ITERATIONS"
    ∷ "LIMIT_TOKENS" ∷ "LIMIT_TIME" ∷ "LIMIT_ERROR" ∷ []

abbrev pub no_run : Option StoreItem → Bool
no_run (some (case_item c)) = elim c.active_run_id [ none ↦ true | some r ↦ false ]
no_run _ = false

abbrev pub runs : String → Option StoreItem → Bool
runs id (some (case_item c)) = elim c.active_run_id [ none ↦ false | some r ↦ str_eq r id ]
runs id _ = false

abbrev pub claim_write : String → String → Write StoreKey StoreItem
claim_write case_id run_id = record {
  key = meta case_id;
  holds = no_run;
  item = on_case (λ c. record c { active_run_id = some run_id });
}

abbrev pub unclaim_write : String → String → Write StoreKey StoreItem
unclaim_write case_id run_id = record {
  key = meta case_id;
  holds = runs run_id;
  item = on_case (λ c. record c { active_run_id = none });
}

abbrev pub run_write : String → String → RunItem → Write StoreKey StoreItem
run_write case_id run_id r = record {
  key = run case_id run_id;
  holds = λ _. true;
  item = λ _. some (run_item r);
}

module _ (db : Database StoreKey StoreItem) where
  unfoldable pub claim : (case_id run_id : String) → db.State → Bool × db.State
  claim case_id run_id s =
      (db.commit (claim_write case_id run_id ∷ []) s, db.after (claim_write case_id run_id ∷ []) s)

  -- `false` is the `ValueError` for an unknown end reason. The item's summary is `summary[:4000]`.
  unfoldable pub release : (case_id run_id : String) → RunItem → db.State → Bool × db.State
  release case_id run_id r s =
      if contains r.end_reason end_reasons
      then (
        true,
        db.after (unclaim_write case_id run_id ∷ []) (db.after (run_write case_id run_id r ∷ []) s),
      )
      else (false, s)

-- `consecutive_failures`, on the runs from the latest back.
unfoldable pub consecutive_failures : List RunItem → ℕ
consecutive_failures [] = zero
consecutive_failures (r ∷ rs) =
    let before = consecutive_failures rs in
    if str_eq r.end_reason "LIMIT_ERROR" then suc before else zero
