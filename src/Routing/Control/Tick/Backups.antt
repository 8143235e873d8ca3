-- ===== src/Routing/Control/Tick/Backups.antt =====
-- services/routing/store.py: who takes an approval over after its deadline.
use aera_be.Prelude.{
  String, str_eq, contains, ℕ, ◌≡◌, inl, inr, false, true, List, [], ◌∷◌, Listed, Bool-cases,
}
use mathlib.Core.Path.{subst}
use aera_be.Prelude.{sym}
use aera_be.Prelude.Int.{ℤ}
use aera_be.Storage.{Database}
use aera_be.Case.Items.{StoreKey, StoreItem}
use aera_be.Case.Audit.{Draft}
use aera_be.Routing.Logic.{ApproverLimit, qualifies}
use aera_be.Routing.Logic.Approvers.{eligible-Listed}
use aera_be.Routing.Control.Items.{PartItem}
use aera_be.Routing.Control.Store.{missed, without, limits}
use aera_be.Routing.Control.Tick.{of_others, backups}

of_others-Listed :
    (user : String) (ls : List ApproverLimit) (l : ApproverLimit)
    → Listed l (of_others user ls)
    → Listed l ls × (str_eq l.user_id user ≡ false)
of_others-Listed user [] l m = absurd m
of_others-Listed user (x ∷ xs) l m = elim (Bool-cases (str_eq x.user_id user)) [
  | inl own ↦ let (k, n) = of_others-Listed user xs l (rw own at m) in (inr k, n)
  | inr other ↦ elim (rw other at m) [
    | inl e ↦ (inl e, subst (λ y. str_eq y.user_id user ≡ false) (sym e) other)
    | inr later ↦ let (k, n) = of_others-Listed user xs l later in (inr k, n)
  ]
]

without-Listed :
    (users : List String) (ls : List ApproverLimit) (l : ApproverLimit)
    → Listed l (without users ls)
    → Listed l ls × (contains l.user_id users ≡ false)
unfolding without
without-Listed users [] l m = absurd m
without-Listed users (x ∷ xs) l m = elim (Bool-cases (contains x.user_id users)) [
  | inl gone ↦ let (k, n) = without-Listed users xs l (rw (gone, without) at m) in (inr k, n)
  | inr kept ↦ elim (rw (kept, without) at m) [
    | inl e ↦ (inl e, subst (λ y. contains y.user_id users ≡ false) (sym e) kept)
    | inr later ↦ let (k, n) = without-Listed users xs l later in (inr k, n)
  ]
]

module _ (event_hash : Draft → String) (candidate clock : ℕ → ℕ) (db : Database StoreKey StoreItem)
    (others : ℕ → db.State → db.State) (during : db.State → db.State)
    (parts_of : db.State → String → List PartItem) (all_limits : db.State → List ApproverLimit)
    (day : ℤ → ℤ) (stamp : ℕ) where
  -- A backup for an approval is one of the stored limits, for the part's plant, valid on the day and
  -- sufficient for its cost, of a user other than its approver, who has let no approval of the case
  -- expire.
  pub backups-Listed :
      (case_id approver : String) (p : PartItem) (now : ℤ) (s : db.State) (l : ApproverLimit)
      → Listed l (
          backups event_hash candidate clock db others during parts_of all_limits day stamp case_id
            approver p now s)
      → Listed l (all_limits s)
        × (qualifies p.plant p.routed.cost (day now) l ≡ true)
        × (str_eq l.user_id approver ≡ false)
        × (contains l.user_id (missed (parts_of s case_id)) ≡ false)
  unfolding backups limits
  backups-Listed case_id approver p now s l m =
      let (in_eligible, other) = of_others-Listed approver _ l m in
      let (in_limits, enough) =
        eligible-Listed (limits (all_limits s) (parts_of s case_id)) p.plant p.routed.cost (day now)
          l in_eligible in
      let (stored, new) = without-Listed (missed (parts_of s case_id)) (all_limits s) l in_limits in
      (stored, enough, other, new)
