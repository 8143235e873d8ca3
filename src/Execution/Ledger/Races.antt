-- ===== src/Execution/Ledger/Races.antt =====
-- services/execution/ledger.py: executors that race for one balance. Each reads, decides, and commits
-- later; between the two any other executor may commit.
use aera_be.Prelude.{
  String, ℕ, ◌+◌, ◌≤◌, ◌<◌, ◌≡◌, ◌⊎◌, refl, sym, inl, inr, ap, ◌∙◌, Bool, true, Option, none, some,
  arith, Bool-cases, ltb, ltb-false,
}
use aera_be.Storage.{Database}
use aera_be.Execution.Fault.{Result, ok, err}
use aera_be.Execution.Ledger.{
  LedgerKey, LedgerKey_discrete, bal, res, LedgerItem, balance, Balance, reservation, Reservation,
  Demand, hold, unhold, reserve_new, reserve_checked, reserve, amounts, seen, booked, hold_writes,
}
use aera_be.Execution.Ledger.Views.{
  hold_passes, hold-bal, hold-res, hold-other, hold_refused, unhold_passes, unhold-bal,
  unhold-other, unhold_refused,
}
use aera_be.Execution.Ledger.Balanced.{total}
use aera_be.Execution.Ledger.Accounts.{seen-total}

abbrev pub version_of : Option LedgerItem → ℕ
version_of (some (balance b)) = b.version
version_of _ = 0

-- The item did not change, or its version grew.
abbrev pub SameOrNewer : Option LedgerItem → Option LedgerItem → Type 0
SameOrNewer i j = (j ≡ i) ⊎ (version_of i < version_of j)

SameOrNewer-trans :
    (i j k : Option LedgerItem) → SameOrNewer i j → SameOrNewer j k → SameOrNewer i k
SameOrNewer-trans i j k (inl e) (inl f) = inl (f ∙ e)
SameOrNewer-trans i j k (inl e) (inr g) = inr (rw (← e) g)
SameOrNewer-trans i j k (inr g) (inl f) = inr (rw f g)
SameOrNewer-trans i j k (inr g) (inr h) = inr (omega arith)

module _ (db : Database LedgerKey LedgerItem) where
  -- A commit of any executor, on whatever it has read.
  pub data Commit (s s' : db.State) : Type 0 where
    holds :
        (d : Demand) (q : ℕ) (i : Option LedgerItem) (b : (ℕ × ℕ) × (Option LedgerItem → Bool))
        → seen db i ≡ ok b
        → s' ≡ (hold db d q b s).1
        → Commit s s'
    unholds :
        (m p id : String) (r : Reservation) (b : Balance)
        → s' ≡ (unhold db m p id r b s).1
        → Commit s s'

  pub data Commits (s : db.State) : db.State → Type 0 where
    none_yet : Commits s s
    then : {t u : db.State} → Commits s t → Commit t u → Commits s u

  hold-SameOrNewer :
      (m p : String) (d : Demand) (q : ℕ) (i : Option LedgerItem)
      (b : (ℕ × ℕ) × (Option LedgerItem → Bool)) (s : db.State)
      → seen db i ≡ ok b
      → SameOrNewer (db.get s (bal m p)) (db.get (hold db d q b s).1 (bal m p))
  hold-SameOrNewer m p d q i b s e = elim (Bool-cases (hold_passes db s d q b)) [
    | inr n ↦ inl (hold_refused db s d q b (bal m p) n)
    | inl y ↦ elim (LedgerKey_discrete (bal m p) (bal d.material d.plant)) [
      | no n ↦ inl (hold-other db s d q b (bal m p) n (λ x. cc))
      | yes k ↦ inr (rw k (rw (hold-bal db s d q b y) (grows (ground arith))))
    ]
  ]
    where
      grows :
          b.1 (db.get s (bal d.material d.plant)) ≡ true
          → version_of (db.get s (bal d.material d.plant)) < b.0.1 + 1
      grows y = ground arith

  unhold-SameOrNewer :
      (m p m' p' id : String) (r : Reservation) (b : Balance) (s : db.State)
      → SameOrNewer (db.get s (bal m p)) (db.get (unhold db m' p' id r b s).1 (bal m p))
  unhold-SameOrNewer m p m' p' id r b s = elim (Bool-cases (unhold_passes db s m' p' id r b)) [
    | inr n ↦ inl (unhold_refused db s m' p' id r b (bal m p) n)
    | inl y ↦ elim (LedgerKey_discrete (bal m p) (bal m' p')) [
      | no n ↦ inl (unhold-other db s m' p' id r b (bal m p) n (λ x. cc))
      | yes k ↦ inr (rw k (newer (db.get s (bal m' p')) refl y))
    ]
  ]
    where
      newer :
          (i : Option LedgerItem)
          → db.get s (bal m' p') ≡ i
          → unhold_passes db s m' p' id r b ≡ true
          → version_of (db.get s (bal m' p'))
            < version_of (db.get (unhold db m' p' id r b s).1 (bal m' p'))
      newer (some (balance old)) e y = rw (unhold-bal db s m' p' id r b old e y, e) (ground arith)
      newer (some (reservation x)) e y = ground arith
      newer none e y = ground arith

  Commits-SameOrNewer :
      (m p : String) {s t : db.State}
      → Commits s t
      → SameOrNewer (db.get s (bal m p)) (db.get t (bal m p))
  Commits-SameOrNewer m p none_yet = inl refl
  Commits-SameOrNewer m p {s} (then {t = t} {u = u} c (holds d q i b e f)) =
      SameOrNewer-trans (db.get s (bal m p)) (db.get t (bal m p)) (db.get u (bal m p))
        (Commits-SameOrNewer m p c) (rw f (hold-SameOrNewer m p d q i b t e))
  Commits-SameOrNewer m p {s} (then {t = t} {u = u} c (unholds m' p' id r b f)) =
      SameOrNewer-trans (db.get s (bal m p)) (db.get t (bal m p)) (db.get u (bal m p))
        (Commits-SameOrNewer m p c) (rw f (unhold-SameOrNewer m p m' p' id r b t))

  -- What passes the condition of an old read is the item that was read.
  stands_same :
      (i j : Option LedgerItem) {b : (ℕ × ℕ) × (Option LedgerItem → Bool)}
      → seen db i ≡ ok b
      → SameOrNewer i j
      → b.1 j ≡ true
      → j ≡ i
  stands_same i j e (inl same) y = same
  stands_same i j e (inr newer) y = ground arith

  hold_done :
      (d : Demand) (q : ℕ) (b : (ℕ × ℕ) × (Option LedgerItem → Bool)) (t : db.State)
      → (hold db d q b t).0 ≡ ok tt
      → hold_passes db t d q b ≡ true
  unfolding hold
  hold_done d q b t h = ground (arith, db.commit-passes (hold_writes d q b) t)

  -- A reservation is decided on a read of the balance in state `s`; any executors commit what they
  -- like, and it commits in state `t`. If the commit succeeds then the balance in `t` is the one
  -- that was read, the units held grow by exactly the quantity, they stay within what the decision
  -- found available, and the reservation is on record.
  pub stale_hold-within :
      (d : Demand) (q a : ℕ) {s t : db.State} {b : (ℕ × ℕ) × (Option LedgerItem → Bool)}
      → seen db (db.get s (bal d.material d.plant)) ≡ ok b
      → q + b.0.0 ≤ a
      → Commits s t
      → (hold db d q b t).0 ≡ ok tt
      → let t' = (hold db d q b t).1 in
        (db.get t (bal d.material d.plant) ≡ db.get s (bal d.material d.plant))
        × (total (db.get t' (bal d.material d.plant))
            ≡ total (db.get t (bal d.material d.plant)) + q)
        × (total (db.get t' (bal d.material d.plant)) ≤ a)
        × (db.get t' (res d.material d.plant d.reservation_id) ≡ some (booked d q))
  stale_hold-within d q a {s} {t} {b} e fits c done =
      let y : hold_passes db t d q b ≡ true = hold_done d q b t done in
      let i : Option LedgerItem = db.get s (bal d.material d.plant) in
      let same : db.get t (bal d.material d.plant) ≡ i =
        stands_same i (db.get t (bal d.material d.plant)) e
          (Commits-SameOrNewer d.material d.plant c) (ground arith) in
      let now : total (db.get (hold db d q b t).1 (bal d.material d.plant)) ≡ b.0.0 + q =
        ap total (hold-bal db t d q b y) in
      let read : b.0.0 ≡ total i = seen-total db i e in
      (
        same,
        now ∙ ap (λ (n : ℕ). n + q) (read ∙ ap total (sym same)),
        omega arith,
        hold-res db t d q b y,
      )

  -- A new reservation that `reserve` grants: the units held grow by its quantity, stay within what
  -- is available, and the reservation is on record as held for the case.
  pub reserve-within :
      (d : Demand) (q a : ℕ) (s : db.State)
      → amounts d ≡ some (q, a)
      → db.get s (res d.material d.plant d.reservation_id) ≡ none
      → (reserve db d s).0 ≡ ok tt
      → let s' = (reserve db d s).1 in
        (total (db.get s' (bal d.material d.plant)) ≡ total (db.get s (bal d.material d.plant)) + q)
        × (total (db.get s' (bal d.material d.plant)) ≤ a)
        × (db.get s' (res d.material d.plant d.reservation_id) ≡ some (booked d q))
  unfolding reserve
  reserve-within d q a s ea er done =
      go (seen db (db.get s (bal d.material d.plant))) refl
        (rw (ea, reserve, er, reserve_checked) at done)
    where
      is_new : reserve db d s ≡ reserve_new db d q a s
      is_new = rw (reserve, ea, reserve_checked, er)

      go :
          (o : Result ((ℕ × ℕ) × (Option LedgerItem → Bool)))
          → seen db (db.get s (bal d.material d.plant)) ≡ o
          → (reserve_new db d q a s).0 ≡ ok tt
          → let s' = (reserve db d s).1 in
            (total (db.get s' (bal d.material d.plant))
              ≡ total (db.get s (bal d.material d.plant)) + q)
            × (total (db.get s' (bal d.material d.plant)) ≤ a)
            × (db.get s' (res d.material d.plant d.reservation_id) ≡ some (booked d q))
      go (err f) e h = cc (rw (reserve_new, e) at h)
      go (ok b) e h = elim (Bool-cases (ltb a (q + b.0.0))) [
        | inl over ↦ cc (rw (reserve_new, e, over) at h)
        | inr fits ↦
            let is_hold : reserve db d s ≡ hold db d q b s = is_new ∙ rw (reserve_new, e, fits) in
            let done' : (hold db d q b s).0 ≡ ok tt = sym (ap (λ r. r.0) is_hold) ∙ done in
            let all = stale_hold-within d q a e (ltb-false (q + b.0.0) a fits) none_yet done' in
            rw is_hold (all.1, all.2, all.3)
      ]
