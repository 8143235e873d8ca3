-- ===== src/Case/Audit/Commits.antt =====
-- services/shared/audit.py: the state that the transaction of `AuditWriter.record` is committed on,
-- among other writers.
use aera_be.Prelude.{
  String, ℕ, zero, suc, ◌≡◌, refl, sym, ◌∙◌, true, false, Option, none, some, List, Bool-cases, inl,
  inr,
}
use aera_be.Storage.{Write, Database, passes}
use aera_be.Case.Items.{StoreKey, head, StoreItem, AuditEvent}
use aera_be.Case.Audit.{
  Draft, Entry, event_of, attempts, new_event, audit_writes, head_of, extra_refused,
}

module _ (event_hash : Draft → String) (candidate clock : ℕ → ℕ) (db : Database StoreKey StoreItem)
    (others : ℕ → db.State → db.State) (x : Entry) (extra : List (Write StoreKey StoreItem)) where
  abbrev pub ws : ℕ → String × Option ℕ → List (Write StoreKey StoreItem)
  ws m previous = audit_writes event_hash candidate clock x m previous extra

  -- The transaction that goes through, from a state with some attempts left: the state that it is
  -- committed on, its attempt and the head that it read. Each attempt reads the head, the other
  -- writers go in between, and a transaction that is refused is followed by the next attempt.
  pub data CommitsOn : ℕ → db.State → db.State → ℕ → String × Option ℕ → Type 0 where
    goes_through :
        (n : ℕ) (s : db.State) (previous : String × Option ℕ)
        → head_of (db.get s (head x.chain_key)) ≡ some previous
        → passes (ws n previous) (db.get (others n s)) ≡ true
        → CommitsOn (suc n) s (others n s) n previous
    is_refused :
        (n : ℕ) (s t : db.State) (m : ℕ) (stale previous : String × Option ℕ)
        → head_of (db.get s (head x.chain_key)) ≡ some stale
        → passes (ws n stale) (db.get (others n s)) ≡ false
        → CommitsOn n (db.after (ws n stale) (others n s)) t m previous
        → CommitsOn (suc n) s t m previous

  -- What a run that answers the event `e` has committed, and on which state.
  abbrev pub Committed : ℕ → db.State → AuditEvent → db.State → Type 0
  Committed n s e s' =
      (t : db.State) × (m : ℕ) × (previous : String × Option ℕ) × CommitsOn n s t m previous
      × (passes (ws m previous) (db.get t) ≡ true)
      × (e ≡ new_event event_hash candidate clock x m previous)
      × (s' ≡ db.after (ws m previous) t)

  abbrev Promise : ℕ → Type 0
  Promise n =
      (s : db.State) (e : AuditEvent)
      → (attempts event_hash candidate clock db others n x extra s).0 ≡ event_of e
      → Committed n s e (attempts event_hash candidate clock db others n x extra s).1

  later :
      (n : ℕ) (s : db.State) (stale : String × Option ℕ) (e : AuditEvent) {s' : db.State}
      → head_of (db.get s (head x.chain_key)) ≡ some stale
      → passes (ws n stale) (db.get (others n s)) ≡ false
      → Committed n (db.after (ws n stale) (others n s)) e s'
      → Committed (suc n) s e s'
  later n s stale e read refused (t, m, previous, run, passed, same, left) =
      (t, m, previous, is_refused n s t m stale previous read refused run, passed, same, left)

  attempt : (n : ℕ) → Promise n → Promise (suc n)
  unfolding attempts
  attempt n ih s e done = go (head_of (db.get s (head x.chain_key))) refl done
    where
      go :
          (o : Option (String × Option ℕ))
          → head_of (db.get s (head x.chain_key)) ≡ o
          → (attempts event_hash candidate clock db others (suc n) x extra s).0 ≡ event_of e
          → Committed
              (suc n)
              s
              e
              (attempts event_hash candidate clock db others (suc n) x extra s).1
      go none read d = cc (rw (read, attempts) at d)
      go (some previous) read d =
          let t : db.State = others n s in
          let is : db.commit (ws n previous) t ≡ passes (ws n previous) (db.get t) =
            db.commit-passes (ws n previous) t in
          elim (Bool-cases (db.commit (ws n previous) t)) [
            | inl y ↦
                let p : passes (ws n previous) (db.get t) ≡ true = sym is ∙ y in
                let same : e ≡ new_event event_hash candidate clock x n previous =
                  cc (rw (read, attempts, y) at d) in
                rw (read, attempts, y)
                  (t, n, previous, goes_through n s previous read p, p, same, refl)
            | inr r ↦ elim (Bool-cases (extra_refused (db.refused (ws n previous) t))) [
              | inl conflict ↦ cc (rw (read, attempts, r, conflict) at d)
              | inr again ↦
                  let q : (attempts event_hash candidate clock db others n x extra
                        (db.after (ws n previous) t)).0
                      ≡ event_of e =
                    rw (read, attempts, r, again) at d in
                  let c = ih (db.after (ws n previous) t) e q in
                  let l = later n s previous e read (sym is ∙ r) c in
                  rw (attempts, read, r, again) l
            ]
          ]

  pub attempts-Committed : (n : ℕ) → Promise n
  unfolding attempts
  attempts-Committed zero s e done = cc done
  attempts-Committed (suc n) s e done = attempt n (attempts-Committed n) s e done
