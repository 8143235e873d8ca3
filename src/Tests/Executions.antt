-- ===== src/Tests/Executions.antt =====
-- The journal and the ledger at concrete inputs, on a database in memory.
use aera_be.Prelude.{String, ◌≡◌, ◌≢◌, refl, ◌+◌, ◌≤◌, Option, none, some, [], ◌∷◌, ite, arith}
use aera_be.Prelude.Int.{pos}
use aera_be.Prelude.Decimal.{exact}
use aera_be.Storage.{Database}
use aera_be.Storage.Memory.{memory}
use aera_be.Execution.Fault.{ok}
use aera_be.Execution.Journal.{
  JournalKey, exec_key, JournalKey_discrete, Entry, ready, document, Request, rolling_back, Undo,
  reverse_completed_actions, claim, claim_read, take, prepare, finish,
}
use aera_be.Execution.Journal
use aera_be.Execution.Journal.Once.{claim_once, prepared_undo_stays, none_yet, then, completes}
use aera_be.Execution.Ledger.{
  LedgerKey, bal, res, LedgerItem, LedgerKey_discrete, Demand, reserve, release, hold, missing,
  amounts, booked, reserve_checked, reserve_new,
}
use aera_be.Execution.Ledger.Balanced.{total}
use aera_be.Execution.Ledger.Accounts.{Accounts, reserve-Accounts, release-Accounts}
use aera_be.Execution.Ledger.Races
use aera_be.Execution.Ledger.Races.{stale_hold-within, reserve-within}

abbrev journal : Database JournalKey Entry
journal = memory JournalKey_discrete

abbrev digest : Request → Undo → String
digest r u = "digest"

abbrev key : JournalKey
key = exec_key "EXC-2026-0001" 1 "A"

abbrev entry : Entry
entry = record {
  request = rolling_back "v1";
  undo = reverse_completed_actions;
  fingerprint = "digest";
  status = ready;
  result = none;
}

abbrev prepared : JournalKey → Option Entry
prepared j = ite (JournalKey_discrete j key) (some entry) none

claim_once_example :
    (Journal.claim journal digest key (
      journal.after
        (finish key (document "done") ∷ [])
        (Journal.claim journal digest key prepared).1)).0
    ≢ ok none
unfolding claim claim_read take Journal.read JournalKey_discrete Journal.Status_discrete
claim_once_example =
    claim_once journal digest key prepared refl
      (then (finish key (document "done")) none_yet (completes key (document "done") refl) refl)

abbrev nothing : JournalKey → Option Entry
nothing j = none

prepared_undo_stays_example :
    (e : Entry) × ((Journal.prepare journal digest key
          (rolling_back "v1")
          reverse_completed_actions
          nothing).1
        key
      ≡ some e)
    × (e.undo ≡ reverse_completed_actions)
    × (e.fingerprint ≡ "digest")
prepared_undo_stays_example =
    prepared_undo_stays journal digest key (rolling_back "v1") reverse_completed_actions nothing
      refl none_yet

abbrev ledger : Database LedgerKey LedgerItem
ledger = memory LedgerKey_discrete

abbrev empty : LedgerKey → Option LedgerItem
empty k = none

abbrev five : Demand
five = record {
  material = "M1";
  plant = "1010";
  reservation_id = "A";
  case_id = "EXC-2026-0001";
  quantity = exact (pos 5000000);
  available = exact (pos 8000000);
  source_ref = "SAP:stock";
}

empty-Accounts : Accounts ledger "M1" "1010" empty
empty-Accounts = (
  [],
  record {
    distinct = tt;
    complete = λ id n. absurd (n refl);
    present = λ id m. absurd m;
    balanced = refl;
  },
)

reserve-Accounts_example : Accounts ledger "M1" "1010" (reserve ledger five empty).1
reserve-Accounts_example = reserve-Accounts ledger "M1" "1010" five empty empty-Accounts

release-Accounts_example :
    Accounts ledger "M1" "1010" (release ledger "M1" "1010" "A" (reserve ledger five empty).1).1
release-Accounts_example =
    release-Accounts ledger "M1" "1010" "M1" "1010" "A" (reserve ledger five empty).1
      (reserve-Accounts ledger "M1" "1010" five empty empty-Accounts)

reserve-within_example :
    let s' = (reserve ledger five empty).1 in
    (total (s' (bal "M1" "1010")) ≡ 0 + 5000000)
    × (total (s' (bal "M1" "1010")) ≤ 8000000)
    × (s' (res "M1" "1010" "A") ≡ some (booked five 5000000))
unfolding reserve amounts reserve_checked reserve_new hold
reserve-within_example = reserve-within ledger five 5000000 8000000 empty refl refl refl

stale_hold-within_example :
    let t' = (hold ledger five 5000000 ((0, 0), missing) empty).1 in
    (empty (bal "M1" "1010") ≡ empty (bal "M1" "1010"))
    × (total (t' (bal "M1" "1010")) ≡ total (empty (bal "M1" "1010")) + 5000000)
    × (total (t' (bal "M1" "1010")) ≤ 8000000)
    × (t' (res "M1" "1010" "A") ≡ some (booked five 5000000))
unfolding hold
stale_hold-within_example =
    stale_hold-within ledger five 5000000 8000000 {s = empty} {t = empty} {b = ((0, 0), missing)}
      refl (omega arith) Races.none_yet refl
