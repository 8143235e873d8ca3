-- ===== src/Execution/Ledger/Accounts.antt =====
-- services/execution/ledger.py: the accounts of the ledger under its calls.
use aera_be.Prelude.{
  String, ℕ, ◌+◌, ◌≤◌, ◌≡◌, ◌≢◌, refl, ap, ◌∙◌, Bool, true, false, Option, none, some, List, ◌∷◌,
  arith, Bool-cases, Option-cases, inl, inr, ltb,
}
use mathlib.Core.Path.{subst₂}
use aera_be.Storage.{Database}
use aera_be.Execution.Fault.{Result, ok, err}
use aera_be.Execution.Ledger.{
  LedgerKey, LedgerKey_discrete, bal, res, LedgerItem, balance, Balance, reservation, Reservation,
  held, Demand, hold, unhold, reserve_new, reserve_checked, reserve, amounts, release_held,
  release_read, release, seen, is_release,
}
use aera_be.Execution.Ledger.Views.{
  hold_passes, hold-bal, hold-res, hold-other, hold_refused, unhold_passes, unhold-bal, unhold-res,
  unhold-other,
}
use aera_be.Execution.Ledger.Balanced.{IsBalanced, add_hold, change_hold, keep_hold, total, units}

module _ (db : Database LedgerKey LedgerItem) where
  -- Some list of all reservations adds up to the balance.
  abbrev pub Accounts : String → String → db.State → Type 0
  Accounts m p s = (ids : List String) × IsBalanced m p ids (db.get s)

  pub seen-total :
      (i : Option LedgerItem) {b : (ℕ × ℕ) × (Option LedgerItem → Bool)}
      → seen db i ≡ ok b
      → b.0.0 ≡ total i
  seen-total i e = ground arith

  hold_here :
      (d : Demand) (q : ℕ) (s : db.State) {b : (ℕ × ℕ) × (Option LedgerItem → Bool)}
      → seen db (db.get s (bal d.material d.plant)) ≡ ok b
      → hold_passes db s d q b ≡ true
      → Accounts d.material d.plant s
      → Accounts d.material d.plant (hold db d q b s).1
  hold_here d q s {b} e y (ids, h) =
      let id : String = d.reservation_id in
      (
        id ∷ ids,
        add_hold d.material d.plant id q ids (db.get s) (db.get (hold db d q b s).1) (ground arith)
            (λ j n.
              hold-other db s d q b (res d.material d.plant j) (λ x. cc) (λ x. n (ground arith)))
            (λ x. cc (hold-res db s d q b y)) (ap units (hold-res db s d q b y))
            (ap total (hold-bal db s d q b y) ∙ ap (λ (t : ℕ). t + q) (seen-total _ e)) h,
      )

  hold_elsewhere :
      (m p : String) (d : Demand) (q : ℕ) (s : db.State) (b : (ℕ × ℕ) × (Option LedgerItem → Bool))
      → bal m p ≢ bal d.material d.plant
      → Accounts m p s
      → Accounts m p (hold db d q b s).1
  hold_elsewhere m p d q s b n (ids, h) = (
    ids,
    keep_hold m p ids (db.get s) (db.get (hold db d q b s).1)
        (hold-other db s d q b (bal m p) n (λ x. cc))
        (λ id. hold-other db s d q b (res m p id) (λ x. cc) (λ x. n (ground arith))) h,
  )

  hold_not :
      (m p : String) (d : Demand) (q : ℕ) (s : db.State) (b : (ℕ × ℕ) × (Option LedgerItem → Bool))
      → hold_passes db s d q b ≡ false
      → Accounts m p s
      → Accounts m p (hold db d q b s).1
  hold_not m p d q s b x (ids, h) = (
    ids,
    keep_hold m p ids (db.get s) (db.get (hold db d q b s).1) (hold_refused db s d q b (bal m p) x)
        (λ id. hold_refused db s d q b (res m p id) x) h,
  )

  pub hold-Accounts :
      (m p : String) (d : Demand) (q : ℕ) (s : db.State) {b : (ℕ × ℕ) × (Option LedgerItem → Bool)}
      → seen db (db.get s (bal d.material d.plant)) ≡ ok b
      → Accounts m p s
      → Accounts m p (hold db d q b s).1
  hold-Accounts m p d q s {b} e a = elim (Bool-cases (hold_passes db s d q b)) [
    | inr n ↦ hold_not m p d q s b n a
    | inl y ↦ elim (LedgerKey_discrete (bal m p) (bal d.material d.plant)) [
      | no n ↦ hold_elsewhere m p d q s b n a
      | yes same ↦
          let em : d.material ≡ m = ground arith in
          let ep : d.plant ≡ p = ground arith in
          subst₂ (λ x y. Accounts x y s → Accounts x y (hold db d q b s).1) em ep
            (hold_here d q s e y) a
    ]
  ]

  -- A reservation that stands at its version and is held, with the balance that stands.
  module _ (m p id : String) (r : Reservation) (b : Balance) (s : db.State)
      (here : db.get s (res m p id) ≡ some (reservation r))
      (at_balance : db.get s (bal m p) ≡ some (balance b)) (is_held : r.status ≡ held)
      (covered : r.qty ≤ b.allocated) where
    unhold_stands : unhold_passes db s m p id r b ≡ true
    unhold_stands = rw (here, at_balance) (ground arith)

    unhold_here : Accounts m p s → Accounts m p (unhold db m p id r b s).1
    unhold_here (ids, h) = (
      ids,
      change_hold m p id ids (db.get s) (db.get (unhold db m p id r b s).1) (λ x. cc)
          (λ j n. unhold-other db s m p id r b (res m p j) (λ x. cc) (λ x. n (ground arith)))
          (λ x. cc (unhold-res db s m p id r b r here unhold_stands))
          (ground (
            arith,
            unhold-res db s m p id r b r here unhold_stands,
            unhold-bal db s m p id r b b at_balance unhold_stands,
          ))
          h,
    )

    unhold_elsewhere :
        (m' p' : String)
        → bal m' p' ≢ bal m p
        → Accounts m' p' s
        → Accounts m' p' (unhold db m p id r b s).1
    unhold_elsewhere m' p' n (ids, h) = (
      ids,
      keep_hold m' p' ids (db.get s) (db.get (unhold db m p id r b s).1)
          (unhold-other db s m p id r b (bal m' p') n (λ x. cc))
          (λ j. unhold-other db s m p id r b (res m' p' j) (λ x. cc) (λ x. n (ground arith))) h,
    )

    unhold-Accounts :
        (m' p' : String) → Accounts m' p' s → Accounts m' p' (unhold db m p id r b s).1
    unhold-Accounts m' p' a = elim (LedgerKey_discrete (bal m' p') (bal m p)) [
      | no n ↦ unhold_elsewhere m' p' n a
      | yes same ↦
          let em : m ≡ m' = ground arith in
          let ep : p ≡ p' = ground arith in
          subst₂ (λ x y. Accounts x y s → Accounts x y (unhold db m p id r b s).1) em ep unhold_here
            a
    ]

  reserve_new-Accounts :
      (m p : String) (d : Demand) (q a : ℕ) (s : db.State)
      → Accounts m p s
      → Accounts m p (reserve_new db d q a s).1
  unfolding reserve_new
  reserve_new-Accounts m p d q a s h = go (seen db (db.get s (bal d.material d.plant))) refl
    where
      go :
          (o : Result ((ℕ × ℕ) × (Option LedgerItem → Bool)))
          → seen db (db.get s (bal d.material d.plant)) ≡ o
          → Accounts m p (reserve_new db d q a s).1
      go (err f) e = rw (e, reserve_new) h
      go (ok b) e = elim (Bool-cases (ltb a (q + b.0.0))) [
        | inl over ↦ rw (e, reserve_new, over) h
        | inr fits ↦ rw (e, reserve_new, fits) (hold-Accounts m p d q s e h)
      ]

  reserve_checked-Accounts :
      (m p : String) (d : Demand) (qa : ℕ × ℕ) (s : db.State)
      → Accounts m p s
      → Accounts m p (reserve_checked db d qa s).1
  unfolding reserve_checked
  reserve_checked-Accounts m p d (q, a) s h =
      elim (Option-cases (db.get s (res d.material d.plant d.reservation_id))) [
        | inl e ↦ rw (e, reserve_checked) (reserve_new-Accounts m p d q a s h)
        | inr (i, e) ↦ rw (e, reserve_checked) h
      ]

  -- A reservation, granted or refused, keeps every balance equal to the sum of what is held.
  pub reserve-Accounts :
      (m p : String) (d : Demand) (s : db.State) → Accounts m p s → Accounts m p (reserve db d s).1
  unfolding reserve
  reserve-Accounts m p d s h = elim (Option-cases (amounts d)) [
    | inl e ↦ rw (e, reserve) h
    | inr (qa, e) ↦ rw (e, reserve) (reserve_checked-Accounts m p d qa s h)
  ]

  release_held-Accounts :
      (m p m' p' id : String) (r : Reservation) (o : Option LedgerItem) (s : db.State)
      → db.get s (res m' p' id) ≡ some (reservation r)
      → db.get s (bal m' p') ≡ o
      → r.status ≡ held
      → Accounts m p s
      → Accounts m p (release_held db m' p' id r o s).1
  unfolding release_held
  release_held-Accounts m p m' p' id r none s e f g h = h
  release_held-Accounts m p m' p' id r (some (reservation x)) s e f g h = h
  release_held-Accounts m p m' p' id r (some (balance b)) s e f g h =
      elim (Bool-cases (ltb b.allocated r.qty)) [
        | inl short ↦ rw short h
        | inr covered ↦ rw covered (unhold-Accounts m' p' id r b s e f g (ground arith) m p h)
      ]

  release_read-Accounts :
      (m p m' p' id : String) (o : Option LedgerItem) (s : db.State)
      → db.get s (res m' p' id) ≡ o
      → Accounts m p s
      → Accounts m p (release_read db m' p' id o s).1
  unfolding release_read
  release_read-Accounts m p m' p' id none s e h = h
  release_read-Accounts m p m' p' id (some (balance b)) s e h = h
  release_read-Accounts m p m' p' id (some (reservation r)) s e h =
      elim (Bool-cases (is_release r.status)) [
        | inl done ↦ rw done h
        | inr still ↦
            rw still (
              release_held-Accounts m p m' p' id r (db.get s (bal m' p')) s e refl (ground arith) h)
      ]

  -- A release, done, repeated or refused, keeps every balance equal to the sum of what is held.
  pub release-Accounts :
      (m p m' p' id : String) (s : db.State)
      → Accounts m p s
      → Accounts m p (release db m' p' id s).1
  unfolding release
  release-Accounts m p m' p' id s h =
      release_read-Accounts m p m' p' id (db.get s (res m' p' id)) s refl h
