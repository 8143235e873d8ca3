-- ===== src/Routing/Control/Grown.antt =====
-- services/routing/store.py: the life of a part by its revisions, among other writers.
use mathlib.Core.Path.{subst}
use aera_be.Prelude.{
  String, ℕ, zero, suc, ◌<◌, ◌≡◌, ◌≢◌, refl, sym, ◌∙◌, ◌⊎◌, inl, inr, Bool, true, false, Option,
  none, some, List, [], ◌∷◌, arith, All, Bool-cases, ite,
}
use aera_be.Storage.{Write, Database, passes, written}
use aera_be.Case.Items.{
  StoreKey, head, event, approval, StoreItem, case_item, run_item, head_item, event_item,
  counter_item, approval_item,
}
use aera_be.Case.Audit.{
  Draft, Entry, attempts, audit_writes, head_of, head_stands, extra_refused, record_event,
  new_event, unused,
}
use aera_be.Routing.Control.Items.{
  part, PartItem, route_item, part_item, plan_item, outbox_item, limit_item, kill_item,
}
use aera_be.Routing.Control.Store.{as_part, check, vacant, at_revision, put_part}
use aera_be.Routing.Control.Reallocate.{is_final}

-- A part is as it was, or it was neither decided nor expired and its revision has risen.
abbrev Later : PartItem → PartItem → Type 0
Later p q = (q ≡ p) ⊎ ((p.revision < q.revision) × (is_final p ≡ false))

abbrev pub Grown : PartItem → Option PartItem → Type 0
Grown p o = (q : PartItem) × (o ≡ some q) × Later p q

Later-trans : (p q r : PartItem) → Later p q → Later q r → Later p r
Later-trans p q r (inl e) m = rw e at m
Later-trans p q r (inr (n, o)) (inl e) = inr (ground arith)
Later-trans p q r (inr (n, o)) (inr (k, l)) = inr (ground arith)

-- The same revision is the same part.
pub Later-same : (p q : PartItem) → Later p q → q.revision ≡ p.revision → q ≡ p
Later-same p q (inl e) h = e
Later-same p q (inr (n, o)) h = absurd (omega arith)

pub Later-final : (p q : PartItem) → Later p q → is_final p ≡ true → q ≡ p
Later-final p q (inl e) h = e
Later-final p q (inr (n, o)) h = cc

pub as_part-item :
    (o : Option StoreItem) (p : PartItem)
    → as_part o ≡ some p
    → o ≡ some (approval_item (part_item p))
as_part-item none p h = cc h
as_part-item (some (case_item x)) p h = cc h
as_part-item (some (run_item x)) p h = cc h
as_part-item (some (head_item x)) p h = cc h
as_part-item (some (event_item x)) p h = cc h
as_part-item (some (counter_item x)) p h = cc h
as_part-item (some (approval_item (route_item x))) p h = cc h
as_part-item (some (approval_item (part_item x))) p h = cc h
as_part-item (some (approval_item (plan_item x))) p h = cc h
as_part-item (some (approval_item (outbox_item x))) p h = cc h
as_part-item (some (approval_item (limit_item x))) p h = cc h
as_part-item (some (approval_item (kill_item x))) p h = cc h

-- A write that leaves a part that meets its condition as it was, or later.
abbrev pub Fair : Option StoreItem → Write StoreKey StoreItem → Type 0
Fair o w = (p : PartItem) → w.holds o ≡ true → as_part o ≡ some p → Grown p (as_part (w.item o))

-- A write whose condition no part meets.
pub Fair-aside :
    (o : Option StoreItem) (w : Write StoreKey StoreItem)
    → ((p : PartItem) → w.holds (some (approval_item (part_item p))) ≡ false)
    → Fair o w
Fair-aside o w never p h a = let e = as_part-item o p a in cc (rw e at h, never p)

pub vacant-no_part : (o : Option StoreItem) (p : PartItem) → vacant o ≡ true → as_part o ≢ some p
vacant-no_part o p h a = cc (rw (as_part-item o p a) at h)

Fair-check :
    (o : Option StoreItem) (k : StoreKey) (c : Option StoreItem → Bool) → Fair o (check k c)
Fair-check o k c p h a = (p, a, inl refl)

pub some_injective : (p q : PartItem) → some p ≡ some q → p ≡ q
some_injective p q e = cc

pub revision_of :
    (o : Option StoreItem) (p : PartItem) (n : ℕ)
    → at_revision n o ≡ true
    → as_part o ≡ some p
    → p.revision ≡ n
revision_of o p n h a = ground arith

-- A put of a later part on the revision that was read.
pub Fair-put :
    (o : Option StoreItem) (case_id part_id : String) (read q : PartItem)
    → Grown read (as_part o)
    → Later read q
    → Fair o (put_part case_id part_id read.revision q)
Fair-put o case_id part_id read q (now, e, l) later p h a =
    let same : p ≡ read =
      Later-same read p (rw (sym (some_injective now p (sym e ∙ a))) l)
        (revision_of o p read.revision h a) in
    (q, refl, rw same later)

unused-no_part : (o : Option StoreItem) (p : PartItem) → unused o ≡ true → as_part o ≢ some p
unused-no_part o p h a = cc (rw (as_part-item o p a) at h)

stands-no_part :
    (o : Option StoreItem) (previous : String × Option ℕ) (p : PartItem)
    → head_stands previous o ≡ true
    → as_part o ≢ some p
stands-no_part o (g, none) p h a = cc (rw (as_part-item o p a) at h)
stands-no_part o (g, some l) p h a = cc (rw (as_part-item o p a) at h)

abbrev pub AllFair : (StoreKey → Option StoreItem) → List (Write StoreKey StoreItem) → Type 0
AllFair view ws = All (λ w. Fair (view w.key) w) ws

-- A transaction whose writes are fair.
written-Grown :
    (dec : Discrete StoreKey) (ws : List (Write StoreKey StoreItem))
    (view : StoreKey → Option StoreItem) (k : StoreKey) (p : PartItem)
    → AllFair view ws
    → passes ws view ≡ true
    → as_part (view k) ≡ some p
    → Grown p (as_part (written dec ws view k))
written-Grown dec [] view k p fair h a = (p, a, inl refl)
written-Grown dec (w ∷ ws) view k p fair h a =
    elim (dec w.key k)
      as (λ d. Grown p (as_part (ite d (w.item (view k)) (written dec ws view k)))) [
        | yes e ↦
            subst (λ j. as_part (view j) ≡ some p → Grown p (as_part (w.item (view j)))) e
              (fair.0 p (ground arith)) a
        | no n ↦ written-Grown dec ws view k p fair.1 (ground arith) a
      ]

module _ (db : Database StoreKey StoreItem) where
  abbrev pub Keeps : db.State → db.State → Type 0
  Keeps s t =
      (case_id part_id : String) (p : PartItem)
      → as_part (db.get s (approval (part case_id part_id))) ≡ some p
      → Grown p (as_part (db.get t (approval (part case_id part_id))))

  pub Keeps-refl : (s : db.State) → Keeps s s
  Keeps-refl s case_id part_id p a = (p, a, inl refl)

  pub Keeps-trans : (s t u : db.State) → Keeps s t → Keeps t u → Keeps s u
  Keeps-trans s t u h k case_id part_id p a =
      let (q, b, l) = h case_id part_id p a in
      let (r, c, m) = k case_id part_id q b in (r, c, Later-trans p q r l m)

  pub after-Keeps :
      (ws : List (Write StoreKey StoreItem)) (s : db.State)
      → AllFair (db.get s) ws
      → Keeps s (db.after ws s)
  after-Keeps ws s fair case_id part_id p a = elim (Bool-cases (passes ws (db.get s))) [
    | inl y ↦
        rw (db.get-after ws s (approval (part case_id part_id)), y)
          (written-Grown db.same ws (db.get s) (approval (part case_id part_id)) p fair y a)
    | inr n ↦ rw (db.get-after ws s (approval (part case_id part_id)), n) (p, a, inl refl)
  ]

  module _ (event_hash : Draft → String) (candidate clock : ℕ → ℕ)
      (others : ℕ → db.State → db.State) (rely : (n : ℕ) (s : db.State) → Keeps s (others n s))
      (x : Entry) (extra : List (Write StoreKey StoreItem)) (read : db.State)
      (fair : (t : db.State) → Keeps read t → AllFair (db.get t) extra) where
    pub audit-AllFair :
        (n : ℕ) (previous : String × Option ℕ) (t : db.State)
        → Keeps read t
        → AllFair (db.get t) (audit_writes event_hash candidate clock x n previous extra)
    audit-AllFair n previous t k = (
      λ p h a. absurd (
          unused-no_part
            (db.get t
              (event x.chain_key (new_event event_hash candidate clock x n previous).event_id))
            p h a),
      (λ p h a. absurd (stands-no_part (db.get t (head x.chain_key)) previous p h a), fair t k),
    )

    abbrev Promise : ℕ → Type 0
    Promise n =
        (s : db.State)
        → Keeps read s
        → Keeps read (attempts event_hash candidate clock db others n x extra s).1

    attempt : (n : ℕ) → Promise n → Promise (suc n)
    unfolding attempts
    attempt n ih s k = go (head_of (db.get s (head x.chain_key))) refl
      where
        go :
            (o : Option (String × Option ℕ))
            → head_of (db.get s (head x.chain_key)) ≡ o
            → Keeps read (attempts event_hash candidate clock db others (suc n) x extra s).1
        go none e = rw (e, attempts) k
        go (some previous) e =
            let t : db.State = others n s in
            let ws : List (Write StoreKey StoreItem) =
              audit_writes event_hash candidate clock x n previous extra in
            let before : Keeps read t = Keeps-trans read s t k (rely n s) in
            let later : Keeps read (db.after ws t) =
              Keeps-trans read t (db.after ws t) before
                (after-Keeps ws t (audit-AllFair n previous t before)) in
            elim (Bool-cases (db.commit ws t)) [
              | inl y ↦ rw (e, attempts, y) later
              | inr r ↦ elim (Bool-cases (extra_refused (db.refused ws t))) [
                | inl conflict ↦ rw (e, attempts, r, conflict) later
                | inr again ↦ rw (e, attempts, r, again) (ih (db.after ws t) later)
              ]
            ]

    pub attempts-Keeps : (n : ℕ) → Promise n
    unfolding attempts
    attempts-Keeps zero s k = k
    attempts-Keeps (suc n) s k = attempt n (attempts-Keeps n) s k

    pub record-Keeps :
        (s : db.State)
        → Keeps read s
        → Keeps read (record_event event_hash candidate clock db others x extra s).1
    unfolding record_event
    record-Keeps s k = attempts-Keeps 5 s k
