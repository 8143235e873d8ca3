-- ===== src/Execution/Ledger.antt =====
-- services/execution/ledger.py: reservations of stock against a versioned balance for each
-- material and plant. Both items of a reservation change in one conditional transaction.
pub mod Balanced
pub mod Views
pub mod Accounts
pub mod Races
use aera_be.Prelude.{
  String, String_discrete, str_eq, ℕ, ◌+◌, ◌-◌, ◌==◌, Bool, true, false, not, ◌&&◌, ◌||◌, Option,
  none, some, List, [], ◌∷◌, ite, ltb, if◌then◌else◌,
}
use aera_be.Prelude.Decimal.{Decimal, natural, is_whole}
use aera_be.Storage.{Write, Database}
use aera_be.Execution.Fault.{Result, ok, err, value_error, key_error, reservation_conflict}
use text.Mathlib.Text.{starts_with}

-- `PK` is `MAT#…#PLANT#…`, and `SK` is `BAL` or `RES#…`.
pub data LedgerKey : Type 0 where
  bal : (material plant : String) → LedgerKey
  res : (material plant reservation_id : String) → LedgerKey

unfoldable pub LedgerKey_discrete : Discrete LedgerKey
unfolding String_discrete
LedgerKey_discrete = hlevel String_discrete

pub data Hold : Type 0 where
  held released : Hold

unfoldable pub Hold_discrete : Discrete Hold
Hold_discrete = hlevel

pub record Balance : Type 0 where
  pub allocated : ℕ
  pub version : ℕ
  pub source_ref : String

pub record Reservation : Type 0 where
  pub case_id : String
  pub qty : ℕ
  pub status : Hold
  pub version : ℕ
  pub source_ref : String

pub data LedgerItem : Type 0 where
  balance : Balance → LedgerItem
  reservation : Reservation → LedgerItem

-- The arguments of `Ledger.reserve`.
pub record Demand : Type 0 where
  pub material : String
  pub plant : String
  pub reservation_id : String
  pub case_id : String
  pub quantity : Decimal
  pub available : Decimal
  pub source_ref : String

abbrev pub is_release : Hold → Bool
is_release held = false
is_release released = true

-- The conditions of the transactions.
abbrev pub missing : Option LedgerItem → Bool
missing none = true
missing (some i) = false

abbrev pub balance_at : ℕ → Option LedgerItem → Bool
balance_at v (some (balance b)) = b.version == v
balance_at v _ = false

abbrev pub held_at : ℕ → Option LedgerItem → Bool
held_at v (some (reservation r)) = r.version == v && not (is_release r.status)
held_at v _ = false

abbrev pub set_balance : ℕ → ℕ → Option LedgerItem → Option LedgerItem
set_balance left next (some (balance b)) =
    some (balance (record b { allocated = left; version = next }))
set_balance left next i = i

abbrev pub set_released : ℕ → Option LedgerItem → Option LedgerItem
set_released next (some (reservation r)) =
    some (reservation (record r { status = released; version = next }))
set_released next i = i

-- The checks on the amounts: the quantity and what is available, if they are usable.
unfoldable pub amounts : Demand → Option (ℕ × ℕ)
amounts d = elim (natural d.quantity) [
  | none ↦ none
  | some q ↦ elim (natural d.available) [
    | none ↦ none
    | some a ↦
        if not (q == 0) && is_whole q && starts_with d.source_ref "SAP:" then some (q, a) else none
  ]
]

abbrev pub raised : Demand → ℕ → (ℕ × ℕ) × (Option LedgerItem → Bool) → LedgerItem
raised d q b =
    balance (record { allocated = b.0.0 + q; version = b.0.1 + 1; source_ref = d.source_ref })

abbrev pub booked : Demand → ℕ → LedgerItem
booked d q =
    reservation (record {
      case_id = d.case_id;
      qty = q;
      status = held;
      version = 1;
      source_ref = d.source_ref;
    })

-- The two writes of a reservation.
abbrev pub hold_writes :
    Demand → ℕ → (ℕ × ℕ) × (Option LedgerItem → Bool) → List (Write LedgerKey LedgerItem)
hold_writes d q b =
    record { key = bal d.material d.plant; holds = b.1; item = λ _. some (raised d q b) }
    ∷ record {
      key = res d.material d.plant d.reservation_id;
      holds = missing;
      item = λ _. some (booked d q);
    }
    ∷ []

-- The two updates of a release.
abbrev pub unhold_writes :
    String → String → String → Reservation → Balance → List (Write LedgerKey LedgerItem)
unhold_writes material plant id r b =
    record {
      key = bal material plant;
      holds = balance_at b.version;
      item = set_balance (b.allocated - r.qty) (b.version + 1);
    }
    ∷ record {
      key = res material plant id;
      holds = held_at r.version;
      item = set_released (r.version + 1);
    }
    ∷ []

module _ (db : Database LedgerKey LedgerItem) where
  -- `allocated`: the units held at a plant.
  abbrev held_units : Option LedgerItem → Result ℕ
  held_units none = ok 0
  held_units (some (balance b)) = ok b.allocated
  held_units (some (reservation r)) = err key_error

  unfoldable pub allocated : String → String → db.State → Result ℕ
  allocated material plant s = held_units (db.get s (bal material plant))

  -- The balance that a reservation starts from, and the condition that it still stands.
  abbrev pub seen : Option LedgerItem → Result ((ℕ × ℕ) × (Option LedgerItem → Bool))
  seen none = ok ((0, 0), missing)
  seen (some (balance b)) = ok ((b.allocated, b.version), balance_at b.version)
  seen (some (reservation r)) = err key_error

  unfoldable pub hold :
      Demand → ℕ → (ℕ × ℕ) × (Option LedgerItem → Bool) → db.State → Result (Unit {0}) × db.State
  hold d q b s =
      let ws = hold_writes d q b in
      (if db.commit ws s then ok tt else err reservation_conflict, db.after ws s)

  -- A reservation that exists must be the same one, and not released.
  abbrev same_hold : Demand → ℕ → LedgerItem → Result (Unit {0})
  same_hold d q (balance b) = err key_error
  same_hold d q (reservation r) =
      if not (str_eq r.case_id d.case_id) || not (r.qty == q) || is_release r.status
      then err reservation_conflict
      else ok tt

  unfoldable pub reserve_new : Demand → ℕ → ℕ → db.State → Result (Unit {0}) × db.State
  unfolding hold
  reserve_new d q a s = elim (seen (db.get s (bal d.material d.plant))) [
    | err e ↦ (err e, s)
    | ok b ↦ if ltb a (q + b.0.0) then (err reservation_conflict, s) else hold d q b s
  ]

  unfoldable pub reserve_checked : Demand → ℕ × ℕ → db.State → Result (Unit {0}) × db.State
  unfolding reserve_new
  reserve_checked d (q, a) s = elim (db.get s (res d.material d.plant d.reservation_id)) [
    | some existing ↦ (same_hold d q existing, s)
    | none ↦ reserve_new d q a s
  ]

  unfoldable pub reserve : Demand → db.State → Result (Unit {0}) × db.State
  unfolding amounts reserve_checked
  reserve d s = elim (amounts d) [ none ↦ (err value_error, s) | some qa ↦ reserve_checked d qa s ]

  unfoldable pub unhold :
      String → String → String → Reservation → Balance → db.State → Result (Unit {0}) × db.State
  unhold material plant id r b s =
      let ws = unhold_writes material plant id r b in
      (if db.commit ws s then ok tt else err reservation_conflict, db.after ws s)

  unfoldable pub release_held :
      String
      → String
      → String
      → Reservation
      → Option LedgerItem
      → db.State
      → Result (Unit {0}) × db.State
  unfolding unhold
  release_held material plant id r none s = (err reservation_conflict, s)
  release_held material plant id r (some (reservation other)) s = (err key_error, s)
  release_held material plant id r (some (balance b)) s =
      if ltb b.allocated r.qty
      then (err reservation_conflict, s)
      else unhold material plant id r b s

  unfoldable pub release_read :
      String → String → String → Option LedgerItem → db.State → Result (Unit {0}) × db.State
  unfolding release_held
  release_read material plant id none s = (ok tt, s)
  release_read material plant id (some (balance b)) s = (err key_error, s)
  release_read material plant id (some (reservation r)) s =
      if is_release r.status
      then (ok tt, s)
      else release_held material plant id r (db.get s (bal material plant)) s

  unfoldable pub release : String → String → String → db.State → Result (Unit {0}) × db.State
  unfolding release_read
  release material plant id s = release_read material plant id (db.get s (res material plant id)) s
