-- ===== src/Execution/Journal/Once.antt =====
-- services/execution/journal.py: writes to the journal by any executors, in any order.
use mathlib.Core.Path.{subst₂}
use aera_be.Prelude.{
  String, ◌≡◌, ◌≢◌, refl, ◌∙◌, true, Option, none, some, [], ◌∷◌, arith, Bool-cases, inl, inr,
}
use aera_be.Storage.{Write, Database}
use aera_be.Execution.Fault.{ok}
use aera_be.Execution.Journal.{
  JournalKey, Entry, Status, ready, pending, succeeded, rejected, undone, Payload, Request, Undo,
  put_new, move, finish, fresh, claim, claim_read, prepare, is_status, with_status, with_result,
  absent, JournalKey_discrete,
}

module _ (db : Database JournalKey Entry) (digest : Request → Undo → String) where
  -- The writes of `Journal`: `prepare`, `claim`, `complete`, `rejected` and `mark_undone`.
  pub data IsWrite (w : Write JournalKey Entry) : Type 0 where
    prepares :
        (k : JournalKey) (r : Request) (u : Undo) → w ≡ put_new k (fresh db digest r u) → IsWrite w
    claims : (k : JournalKey) → w ≡ move k ready pending → IsWrite w
    completes : (k : JournalKey) (p : Payload) → w ≡ finish k p → IsWrite w
    rejects : (k : JournalKey) → w ≡ move k pending rejected → IsWrite w
    undoes : (k : JournalKey) → w ≡ move k succeeded undone → IsWrite w

  -- Any number of them, whoever makes them; one whose condition fails changes nothing.
  pub data Writes (s : db.State) : db.State → Type 0 where
    none_yet : Writes s s
    then :
        {t u : db.State} (w : Write JournalKey Entry)
        → Writes s t
        → IsWrite w
        → u ≡ db.after (w ∷ []) t
        → Writes s u

  -- What may become of an item: it stays, with its request, undo and fingerprint, and it does not
  -- become ready again.
  abbrev pub Evolves : Option Entry → Option Entry → Type 0
  Evolves none o = Unit
  Evolves (some e) none = ⊥
  Evolves (some e) (some f) =
      (f.request ≡ e.request)
      × (f.undo ≡ e.undo)
      × (f.fingerprint ≡ e.fingerprint)
      × (f.status ≡ ready → e.status ≡ ready)

  Evolves-refl : (o : Option Entry) → Evolves o o
  Evolves-refl none = tt
  Evolves-refl (some e) = (refl, refl, refl, λ x. x)

  Evolves-trans : (o p q : Option Entry) → Evolves o p → Evolves p q → Evolves o q
  Evolves-trans none p q h k = tt
  Evolves-trans (some e) none q h k = absurd h
  Evolves-trans (some e) (some f) none h k = absurd k
  Evolves-trans (some e) (some f) (some g) h k = (k.0 ∙ h.0, k.1 ∙ h.1, k.2 ∙ h.2, λ x. h.3 (k.3 x))

  moves :
      (a b : Status)
      → b ≢ ready
      → (o : Option Entry) → is_status a o ≡ true
      → Evolves o (with_status b o)
  moves a b n none h = tt
  moves a b n (some f) h = (refl, refl, refl, λ x. absurd (n x))

  -- A write that lets the item at its own key evolve lets every item evolve.
  write-Evolves :
      (w : Write JournalKey Entry) (k : JournalKey) (s : db.State)
      → ((o : Option Entry) → w.holds o ≡ true → Evolves o (w.item o))
      → Evolves (db.get s k) (db.get (db.after (w ∷ []) s) k)
  write-Evolves w k s own = elim (Bool-cases (w.holds (db.get s w.key))) [
    | inr x ↦
        let same : db.get (db.after (w ∷ []) s) k ≡ db.get s k =
          ground (arith, db.get-after (w ∷ []) s k) in
        rw same (Evolves-refl (db.get s k))
    | inl y ↦ elim (JournalKey_discrete w.key k) [
      | no n ↦
          let same : db.get (db.after (w ∷ []) s) k ≡ db.get s k =
            ground (arith, db.get-after (w ∷ []) s k) in
          rw same (Evolves-refl (db.get s k))
      | yes e ↦
          let now : db.get (db.after (w ∷ []) s) k ≡ w.item (db.get s k) =
            ground (arith, db.get-after (w ∷ []) s k) in
          rw now (own (db.get s k) (rw e at y))
    ]
  ]

  pub IsWrite-Evolves :
      {w : Write JournalKey Entry} (k : JournalKey) (s : db.State)
      → IsWrite w
      → Evolves (db.get s k) (db.get (db.after (w ∷ []) s) k)
  IsWrite-Evolves {w} k s (prepares j r u e) = write-Evolves w k s (rw e own)
    where
      own : (o : Option Entry) → absent o ≡ true → Evolves o (some (fresh db digest r u))
      own none h = tt
      own (some f) h = cc
  IsWrite-Evolves {w} k s (claims j e) = write-Evolves w k s (rw e (moves ready pending (λ x. cc)))
  IsWrite-Evolves {w} k s (completes j p e) = write-Evolves w k s (rw e own)
    where
      own : (o : Option Entry) → is_status pending o ≡ true → Evolves o (with_result p o)
      own none h = tt
      own (some f) h = (refl, refl, refl, λ x. cc)
  IsWrite-Evolves {w} k s (rejects j e) =
      write-Evolves w k s (rw e (moves pending rejected (λ x. cc)))
  IsWrite-Evolves {w} k s (undoes j e) =
      write-Evolves w k s (rw e (moves succeeded undone (λ x. cc)))

  pub Writes-Evolves :
      (k : JournalKey) {s t : db.State} → Writes s t → Evolves (db.get s k) (db.get t k)
  Writes-Evolves k {s} none_yet = Evolves-refl (db.get s k)
  Writes-Evolves k {s} (then {t = t} {u = u} w r i e) =
      Evolves-trans (db.get s k) (db.get t k) (db.get u k) (Writes-Evolves k r)
        (rw e (IsWrite-Evolves k t i))

  -- What a granted claim found, and what it left.
  pub claim_granted :
      (k : JournalKey) (s : db.State)
      → (claim db digest k s).0 ≡ ok none
      → (e : Entry) × (db.get s k ≡ some e)
        × (e.status ≡ ready)
        × (db.get (claim db digest k s).1 k ≡ some (record e { status = pending }))
  unfolding claim
  claim_granted k s h = go (db.get s k) refl h
    where
      go :
          (o : Option Entry)
          → db.get s k ≡ o
          → (claim_read db digest k o s).0 ≡ ok none
          → (e : Entry) × (o ≡ some e)
            × (e.status ≡ ready)
            × (db.get (claim_read db digest k o s).1 k ≡ some (record e { status = pending }))
      go none eq h = cc
      go (some e) eq h = (
        e,
        refl,
        ground arith,
        ground (
          arith,
          db.commit-passes (move k ready pending ∷ []) s,
          db.get-after (move k ready pending ∷ []) s k,
        ),
      )

  -- Once a claim of a key has been granted, whatever any executors write to the journal after it,
  -- no other claim of that key is granted.
  pub claim_once :
      (k : JournalKey) (s : db.State) {t : db.State}
      → (claim db digest k s).0 ≡ ok none
      → Writes (claim db digest k s).1 t
      → (claim db digest k t).0 ≢ ok none
  claim_once k s {t} granted ws again =
      let (e, found, was, left) = claim_granted k s granted in
      let (f, found', is_ready, _) = claim_granted k t again in
      let grew : Evolves (some (record e { status = pending })) (some f) =
        subst₂ (λ x y. Evolves x y) left found' (Writes-Evolves k ws) in
      cc (grew.3 is_ready)

  stays :
      (e : Entry) (o : Option Entry)
      → Evolves (some e) o
      → (f : Entry) × (o ≡ some f) × (f.undo ≡ e.undo) × (f.fingerprint ≡ e.fingerprint)
  stays e none h = absurd h
  stays e (some f) h = (f, refl, h.1, h.2)

  -- What `prepare` has saved under a new key stays: after any writes of any executors the record
  -- has the undo and the fingerprint that were saved.
  pub prepared_undo_stays :
      (k : JournalKey) (r : Request) (u : Undo) (s : db.State) {t : db.State}
      → db.get s k ≡ none
      → Writes (prepare db digest k r u s).1 t
      → (e : Entry) × (db.get t k ≡ some e) × (e.undo ≡ u) × (e.fingerprint ≡ digest r u)
  prepared_undo_stays k r u s {t} new ws =
      stays (fresh db digest r u) (db.get t k) (rw saved at (Writes-Evolves k ws))
    where
      saved : db.get (prepare db digest k r u s).1 k ≡ some (fresh db digest r u)
      saved =
          unfold prepare in ground (arith, db.get-after (put_new k (fresh db digest r u) ∷ []) s k)
