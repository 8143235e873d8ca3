-- ===== src/Execution/Ledger/Views.antt =====
-- What the two transactions of the ledger leave at each key.
use aera_be.Prelude.{String, ℕ, ◌+◌, ◌-◌, ◌≡◌, ◌≢◌, Bool, true, false, Option, some, arith, ◌&&◌}
use aera_be.Storage.{Database}
use aera_be.Execution.Ledger.{
  LedgerKey, bal, res, LedgerItem, balance, Balance, reservation, Reservation, released, Demand,
  hold, unhold, missing, balance_at, held_at, raised, booked, hold_writes, unhold_writes,
}

module _ (db : Database LedgerKey LedgerItem) (s : db.State) where
  module _ (d : Demand) (q : ℕ) (b : (ℕ × ℕ) × (Option LedgerItem → Bool)) where
    abbrev pub hold_passes : Bool
    hold_passes =
        b.1 (db.get s (bal d.material d.plant))
        && missing (db.get s (res d.material d.plant d.reservation_id))

    pub hold-bal :
        hold_passes ≡ true
        → db.get (hold db d q b s).1 (bal d.material d.plant) ≡ some (raised d q b)
    unfolding hold
    hold-bal h = ground (arith, db.get-after (hold_writes d q b) s (bal d.material d.plant))

    pub hold-res :
        hold_passes ≡ true
        → db.get (hold db d q b s).1 (res d.material d.plant d.reservation_id) ≡ some (booked d q)
    unfolding hold
    hold-res h =
        ground (arith, db.get-after (hold_writes d q b) s (res d.material d.plant d.reservation_id))

    pub hold-other :
        (k : LedgerKey)
        → k ≢ bal d.material d.plant
        → k ≢ res d.material d.plant d.reservation_id
        → db.get (hold db d q b s).1 k ≡ db.get s k
    unfolding hold
    hold-other k n n' = ground (arith, db.get-after (hold_writes d q b) s k)

    pub hold_refused :
        (k : LedgerKey) → hold_passes ≡ false → db.get (hold db d q b s).1 k ≡ db.get s k
    unfolding hold
    hold_refused k h = ground (arith, db.get-after (hold_writes d q b) s k)

  module _ (m p id : String) (r : Reservation) (b : Balance) where
    abbrev pub unhold_passes : Bool
    unhold_passes =
        balance_at b.version (db.get s (bal m p)) && held_at r.version (db.get s (res m p id))

    pub unhold-bal :
        (old : Balance)
        → db.get s (bal m p) ≡ some (balance old)
        → unhold_passes ≡ true
        → db.get (unhold db m p id r b s).1 (bal m p)
          ≡ some (balance (record old { allocated = b.allocated - r.qty; version = b.version + 1 }))
    unfolding unhold
    unhold-bal old e h = ground (arith, db.get-after (unhold_writes m p id r b) s (bal m p))

    pub unhold-res :
        (old : Reservation)
        → db.get s (res m p id) ≡ some (reservation old)
        → unhold_passes ≡ true
        → db.get (unhold db m p id r b s).1 (res m p id)
          ≡ some (reservation (record old { status = released; version = r.version + 1 }))
    unfolding unhold
    unhold-res old e h = ground (arith, db.get-after (unhold_writes m p id r b) s (res m p id))

    pub unhold-other :
        (k : LedgerKey)
        → k ≢ bal m p
        → k ≢ res m p id
        → db.get (unhold db m p id r b s).1 k ≡ db.get s k
    unfolding unhold
    unhold-other k n n' = ground (arith, db.get-after (unhold_writes m p id r b) s k)

    pub unhold_refused :
        (k : LedgerKey) → unhold_passes ≡ false → db.get (unhold db m p id r b s).1 k ≡ db.get s k
    unfolding unhold
    unhold_refused k h = ground (arith, db.get-after (unhold_writes m p id r b) s k)
