-- ===== src/Routing/Control/Save/Once.antt =====
-- services/routing/store.py: `ControlStore.save` called again.
use aera_be.Prelude.{
  String, str_eq, ℕ, ◌≡◌, refl, sym, true, some, List, arith, Bool-cases, Option-cases, inl, inr,
}
use aera_be.Prelude.Int.{ℤ}
use aera_be.Storage.{Write, Database}
use aera_be.Case.Items.{AuditEvent, StoreKey, approval, StoreItem}
use aera_be.Case.Audit.{
  Draft, Entry, Recorded, event_of, transaction_conflict, contended, key_error, audit_writes,
  record_event,
}
use aera_be.Case.Audit.Commits.{Committed, attempts-Committed}
use aera_be.Verify.{Plan, Verification}
use aera_be.Routing.Logic.{Route}
use aera_be.Routing.Control.Items.{route, RouteItem}
use aera_be.Routing.Control.Store.{Answer, done, as_route, answer_passing}
use aera_be.Routing.Control.Save.{
  Given, written, read_back, content, save, save_new, save_writes, save_entry, new_route,
}

module _ (plan_hash : Plan → String) (tier_text : ℕ → String) (event_hash : Draft → String)
    (candidate clock : ℕ → ℕ) (db : Database StoreKey StoreItem) (others : ℕ → db.State → db.State)
    (during : db.State → db.State) (case_id : String) (version : ℕ) (r : Route) (plant : String)
    (now : ℤ) (v : Verification) where
  abbrev saved : db.State → Answer Given × db.State
  saved =
      save plan_hash tier_text event_hash candidate clock db others during case_id version r plant
        now v

  abbrev IsStored : RouteItem → db.State → Type 0
  IsStored item s =
      (str_eq r.version_hash (plan_hash v.plan_record.plan) ≡ true)
      × (as_route (db.get s (approval (route case_id version))) ≡ some item)
      × (str_eq item.version_hash r.version_hash ≡ true)

  abbrev item : RouteItem
  item =
      new_route plan_hash tier_text event_hash candidate clock db others during case_id version r
        plant now v

  abbrev entry : Entry
  entry =
      save_entry plan_hash tier_text event_hash candidate clock db others during case_id version r
        plant now

  abbrev own : List (Write StoreKey StoreItem)
  own =
      save_writes plan_hash tier_text event_hash candidate clock db others during case_id version r
        plant now item

  Committed-route :
      {s s' : db.State} {e : AuditEvent}
      → Committed event_hash candidate clock db others entry own 5 s e s'
      → as_route (db.get s' (approval (route case_id version))) ≡ some item
  Committed-route (t, m, previous, run, h, is, e) =
      rw
        (
          e,
          db.get-after (audit_writes event_hash candidate clock entry m previous own) t
              (approval (route case_id version)),
          h,
        )
        (ground arith)

  same_text : (a : String) → str_eq a a ≡ true
  same_text a = ground arith

  abbrev result : db.State → Recorded × db.State
  result s = record_event event_hash candidate clock db others entry own (during s)

  answered :
      (s : db.State) (x : Recorded) {g : Given}
      → (result s).0 ≡ x
      → answer_passing (written item) x ≡ done g
      → (as_route (db.get (result s).1 (approval (route case_id version))) ≡ some item)
        × (g ≡ written item)
  unfolding record_event
  answered s (event_of e) h d = (
    Committed-route
        (attempts-Committed event_hash candidate clock db others entry own 5 (during s) e h),
    cc d,
  )
  answered s transaction_conflict h d = cc d
  answered s contended h d = cc d
  answered s key_error h d = cc d

  saved-IsStored :
      (s : db.State) {g : Given} → (saved s).0 ≡ done g → IsStored (content g) (saved s).1
  unfolding save save_new
  saved-IsStored s {g} d =
      elim (Bool-cases (str_eq r.version_hash (plan_hash v.plan_record.plan))) [
        | inr stale ↦ cc (rw (stale, save) at d)
        | inl fresh ↦ elim (Option-cases (as_route (db.get s (approval (route case_id version))))) [
          | inl absent ↦
              let (stored, same) =
                answered s (result s).0 refl (rw (fresh, absent, save, save_new) at d) in
              rw (fresh, absent, save, save_new, same) (refl, stored, same_text r.version_hash)
          | inr (old, found) ↦ elim (Bool-cases (str_eq old.version_hash r.version_hash)) [
            | inr other ↦ cc (rw (fresh, found, save, other) at d)
            | inl same ↦
                let e : read_back old ≡ g = cc (rw (fresh, found, save, same) at d) in
                rw (fresh, found, save, sym e) (refl, found, same)
          ]
        ]
      ]

  stored_again :
      (s : db.State) (plant' : String) (now' : ℤ) {i : RouteItem}
      → IsStored i s
      → save plan_hash tier_text event_hash candidate clock db others during case_id version r
          plant' now' v s
        ≡ (done (read_back i), s)
  unfolding save
  stored_again s plant' now' (fresh, stored, same) = rw (fresh, stored, same) refl

  -- A route that `save` has answered, newly written or found, is stored: to save it again, whatever
  -- the plant and the time, writes nothing and answers the stored item, read back, with the content
  -- of the first answer.
  pub save_again :
      (s : db.State) (plant' : String) (now' : ℤ) {g : Given}
      → (save plan_hash tier_text event_hash candidate clock db others during case_id version r
          plant now v s).0
        ≡ done g
      → save plan_hash tier_text event_hash candidate clock db others during case_id version r
          plant' now' v
          (save plan_hash tier_text event_hash candidate clock db others during case_id version r
            plant now v s).1
        ≡ (
          done (read_back (content g)),
          (save plan_hash tier_text event_hash candidate clock db others during case_id version r
              plant now v s).1,
        )
  save_again s plant' now' d = stored_again (saved s).1 plant' now' (saved-IsStored s d)
