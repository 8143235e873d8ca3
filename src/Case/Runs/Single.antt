-- ===== src/Case/Runs/Single.antt =====
-- services/shared/runs.py: the active run of a case.
use aera_be.Prelude.{
  String, contains, str_eq, if◌then◌else◌, ◌&&◌, ◌≡◌, refl, Option, none, some, [], ◌∷◌, arith,
  Bool-cases, inl, inr,
}
use aera_be.Storage.{Database}
use aera_be.Case.Items.{StoreKey, meta, StoreItem, case_item, RunItem}
use aera_be.Case.Runs.{end_reasons, release, unclaim_write, run_write}

module _ (db : Database StoreKey StoreItem) where
  -- The run that a case is in.
  abbrev pub active : Option StoreItem → Option String
  active (some (case_item c)) = c.active_run_id
  active _ = none

  -- The write of the run's item leaves the case.
  run_write-meta :
      (id r : String) (i : RunItem) (s : db.State)
      → db.get (db.after (run_write id r i ∷ []) s) (meta id) ≡ db.get s (meta id)
  run_write-meta id r i s = ground (arith, db.get-after (run_write id r i ∷ []) s (meta id))

  unclaim-active :
      (id r other : String) (s : db.State)
      → active (db.get s (meta id)) ≡ some r
      → active (db.get (db.after (unclaim_write id other ∷ []) s) (meta id))
        ≡ (if str_eq r other then none else some r)
  unclaim-active id r other s h = go (db.get s (meta id)) refl
    where
      go :
          (o : Option StoreItem)
          → db.get s (meta id) ≡ o
          → active (db.get (db.after (unclaim_write id other ∷ []) s) (meta id))
            ≡ (if str_eq r other then none else some r)
      go o e = ground (arith, db.get-after (unclaim_write id other ∷ []) s (meta id))

  -- A release of a case in a run leaves the case free if it names that run and a known end reason,
  -- and in its run otherwise.
  pub release-active :
      (id r other : String) (i : RunItem) (s : db.State)
      → active (db.get s (meta id)) ≡ some r
      → active (db.get (release db id other i s).1 (meta id))
        ≡ (if contains i.end_reason end_reasons && str_eq r other then none else some r)
  unfolding release
  release-active id r other i s h = elim (Bool-cases (contains i.end_reason end_reasons)) [
    | inl y ↦
        rw (y, release)
          (unclaim-active id r other (db.after (run_write id other i ∷ []) s)
            (rw (run_write-meta id other i s) h))
    | inr z ↦ rw (z, release) h
  ]
