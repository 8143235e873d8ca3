-- ===== src/Case/Audit/Linked.antt =====
-- services/shared/audit.py: the chain of a case or signal in the store, among other writers.
use mathlib.Core.Path.{subst}
use aera_be.Prelude.{
  String, ℕ, zero, suc, ◌≡◌, refl, sym, ◌∙◌, Option, none, some, List, [], ◌∷◌, ◌++◌, Bool-cases,
  inl, inr,
}
use aera_be.Storage.{Write, Database}
use aera_be.Case.Items.{Chain, StoreKey, head, StoreItem, AuditEvent}
use mathlib.Core.List.{append_assoc, append-nil}
use aera_be.Case.Audit.Commits.{CommitsOn, goes_through, is_refused, Committed, attempts-Committed}
use aera_be.Case.Audit.Links.{IsChain, Aside, Appends, appended, refused_same}
use aera_be.Case.Audit.{
  Draft, event_of, Recorded, transaction_conflict, contended, key_error, Entry, attempts, new_event,
  audit_writes, head_of, extra_refused,
}

module _ (event_hash : Draft → String) (c : Chain) (candidate now : ℕ → ℕ)
    (db : Database StoreKey StoreItem) where
  module _ (others : ℕ → db.State → db.State)
      (keep : (n : ℕ) → Appends event_hash c candidate now db (others n)) (x : Entry)
      (extra : List (Write StoreKey StoreItem)) where
    abbrev Run : ℕ → db.State → db.State → ℕ → String × Option ℕ → Type 0
    Run = CommitsOn event_hash candidate now db others x extra

    -- The state that the transaction is committed on has the chain, with what others appended.
    run-IsChain :
        {n m : ℕ} {s t : db.State} {previous : String × Option ℕ} (es : List AuditEvent)
        → Run n s t m previous
        → IsChain event_hash c es (db.get s)
        → (more : List AuditEvent) × IsChain event_hash c (es ++ more) (db.get t)
    run-IsChain es (goes_through n s previous read p) h = keep n es s h
    run-IsChain {t} es (is_refused n s _ m stale previous read r rest) h =
        let (more, h') = keep n es s h in
        let (others_more, k) = run-IsChain (es ++ more) rest (
          refused_same event_hash c candidate now db
            (audit_writes event_hash candidate now x n stale extra) (others n s) (es ++ more) r
            h') in
        (
          more ++ others_more,
          subst (λ l. IsChain event_hash c l (db.get t)) (append_assoc es more others_more) k,
        )

    -- The head that the transaction links to was read.
    run_read :
        {n m : ℕ} {s t : db.State} {previous : String × Option ℕ}
        → Run n s t m previous
        → (o : Option StoreItem) × (head_of o ≡ some previous)
    run_read (goes_through n s previous read p) = (db.get s (head x.chain_key), read)
    run_read (is_refused n s t m stale previous read r rest) = run_read rest

    module _ (mine : x.chain_key ≡ c) (aside : Aside event_hash c extra) where
      -- What a run that answers an event leaves, and on which state.
      abbrev pub Appended : ℕ → db.State → List AuditEvent → AuditEvent → db.State → Type 0
      Appended n s es e s' =
          (t : db.State) × (m : ℕ) × (previous : String × Option ℕ) × (more : List AuditEvent)
          × CommitsOn event_hash candidate now db others x extra n s t m previous
          × IsChain event_hash c (es ++ more) (db.get t)
          × (e ≡ new_event event_hash candidate now x m previous)
          × IsChain event_hash c ((es ++ more) ++ e ∷ []) (db.get s')

      Committed-Appended :
          (n : ℕ) (s : db.State) (es : List AuditEvent) (e : AuditEvent) {s' : db.State}
          → IsChain event_hash c es (db.get s)
          → Committed event_hash candidate now db others x extra n s e s'
          → Appended n s es e s'
      Committed-Appended n s es e {s'} h (t, m, previous, run, passed, same, left) =
          let (more, stands) = run-IsChain es run h in
          let (o, read) = run_read run in
          let done : IsChain event_hash c
              ((es ++ more) ++ new_event event_hash candidate now x m previous ∷ [])
              (db.get (db.after (audit_writes event_hash candidate now x m previous extra) t)) =
            appended event_hash c candidate now db m x extra previous t mine aside passed o
              (es ++ more) read stands in
          (t, m, previous, more, run, stands, same, rw (same, left) done)

      Kept : ℕ → Type 0
      Kept n =
          (s : db.State) (es : List AuditEvent)
          → IsChain event_hash c es (db.get s)
          → (more : List AuditEvent) × IsChain event_hash c (es ++ more)
              (db.get (attempts event_hash candidate now db others n x extra s).1)

      unchanged :
          (s : db.State) (es : List AuditEvent)
          → IsChain event_hash c es (db.get s)
          → (more : List AuditEvent) × IsChain event_hash c (es ++ more) (db.get s)
      unchanged s es h =
          ([], subst (λ l. IsChain event_hash c l (db.get s)) (sym (append-nil es)) h)

      extended :
          (es more rest : List AuditEvent) (s : db.State)
          → IsChain event_hash c ((es ++ more) ++ rest) (db.get s)
          → (all_of : List AuditEvent) × IsChain event_hash c (es ++ all_of) (db.get s)
      extended es more rest s h = (
        more ++ rest,
        subst (λ l. IsChain event_hash c l (db.get s)) (append_assoc es more rest) h,
      )

      attempt_keeps : (n : ℕ) → Kept n → Kept (suc n)
      unfolding attempts Kept
      attempt_keeps n ih s es h = go (head_of (db.get s (head x.chain_key))) refl
        where
          go :
              (o : Option (String × Option ℕ))
              → head_of (db.get s (head x.chain_key)) ≡ o
              → (more : List AuditEvent) × IsChain event_hash c
                  (es ++ more)
                  (db.get (attempts event_hash candidate now db others (suc n) x extra s).1)
          go none read = rw (read, attempts) (unchanged s es h)
          go (some previous) read =
              let t : db.State = others n s in
              let ws : List (Write StoreKey StoreItem) =
                audit_writes event_hash candidate now x n previous extra in
              let (more, h') = keep n es s h in
              elim (Bool-cases (db.commit ws t)) [
                | inl y ↦
                    rw (read, attempts, y)
                      (extended es more (new_event event_hash candidate now x n previous ∷ [])
                        (db.after ws t)
                        (appended event_hash c candidate now db n x extra previous t mine aside
                          (sym (db.commit-passes ws t) ∙ y) (db.get s (head x.chain_key))
                          (es ++ more) read h'))
                | inr r ↦
                    let k : IsChain event_hash c (es ++ more) (db.get (db.after ws t)) =
                      refused_same event_hash c candidate now db ws t (es ++ more)
                        (sym (db.commit-passes ws t) ∙ r) h' in
                    elim (Bool-cases (extra_refused (db.refused ws t))) [
                      | inl conflict ↦ rw (read, attempts, r, conflict) (more, k)
                      | inr again ↦
                          let (rest, q) = ih (db.after ws t) (es ++ more) k in
                          rw (read, attempts, r, again)
                            (extended es more rest
                              (attempts event_hash candidate now db others n x extra
                                (db.after ws t)).1
                              q)
                    ]
              ]

      keeps_all : (n : ℕ) → Kept n
      unfolding attempts Kept
      keeps_all zero s es h = unchanged s es h
      keeps_all (suc n) s es h = attempt_keeps n (keeps_all n) s es h

      -- What a run with `n` attempts from `s` leaves of the chain `es`, by what it ends in.
      abbrev pub Ended : ℕ → db.State → List AuditEvent → Recorded → db.State → Type 0
      Ended n s es (event_of e) s' = Appended n s es e s'
      Ended n s es _ s' = (more : List AuditEvent) × IsChain event_hash c (es ++ more) (db.get s')

      -- On a chain that stands linked and stored, with other writers that only append to it and
      -- with own writes of the caller that touch neither its head nor its events, `record` only
      -- appends too, whatever it ends in. An event that it answers was committed on a state
      -- that the run of attempts came to, and there the chain stood with what the others had
      -- appended; the commit leaves just these events and the new one after them, linked from
      -- the genesis hash on, all stored and the head on the new event. When it ends in a refused
      -- condition of the caller, an unreadable head or too many attempts, the chain stands with
      -- all its events first.
      pub attempts-appends :
          (n : ℕ) (s : db.State) (es : List AuditEvent)
          → IsChain event_hash c es (db.get s)
          → Ended n s es
              (attempts event_hash candidate now db others n x extra s).0
              (attempts event_hash candidate now db others n x extra s).1
      unfolding Kept
      attempts-appends n s es h =
          go (attempts event_hash candidate now db others n x extra s).0 refl
        where
          go :
              (r : Recorded)
              → (attempts event_hash candidate now db others n x extra s).0 ≡ r
              → Ended n s es r (attempts event_hash candidate now db others n x extra s).1
          go (event_of e) done =
              Committed-Appended n s es e h
                (attempts-Committed event_hash candidate now db others x extra n s e done)
          go transaction_conflict done = keeps_all n s es h
          go contended done = keeps_all n s es h
          go key_error done = keeps_all n s es h
