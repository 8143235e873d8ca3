-- ===== src/Routing/Control/Reallocate/Kept.antt =====
-- services/routing/store.py: the parts of a case under `ControlStore.reallocate`, while other writers
-- do the same.
use mathlib.Core.Path.{subst}
use aera_be.Prelude.{
  String, ℕ, ◌==◌, ◌≡◌, refl, sym, ◌∙◌, inl, inr, true, false, not, ◌&&◌, Option, none, some, List,
  [], ◌∷◌, ◌++◌, map, arith, All, Bool-cases, Option-cases, ite,
}
use aera_be.Storage.{Database}
use aera_be.Case.Status.{CaseStatus_discrete, awaiting_approval}
use aera_be.Case.Items.{StoreKey, meta, approval, StoreItem, Case}
use aera_be.Case.Audit.{Draft}
use aera_be.Routing.Logic.{Part}
use aera_be.Routing.Control.Items.{route, part, PartItem, RouteItem}
use aera_be.Routing.Control.Store.{as_part, as_route}
use aera_be.Routing.Control.Reallocate.{
  reallocate, commit_reallocation, pending_of, Pending, pending, refused, no_revision, add_pending,
  add_missing, supersede, plan_writes, reallocate_writes, entry_of, target_of, following_of,
  is_final, await_write, on_part, superseded_part,
}
use aera_be.Routing.Control.Grown.{
  Later-same, some_injective, revision_of, as_part-item, vacant-no_part, Fair, Fair-aside, AllFair,
  Keeps, Keeps-refl, record-Keeps,
}

module _ (db : Database StoreKey StoreItem) where
  -- The parts stand under their ids.
  abbrev pub IsKeyed : db.State → Type 0
  IsKeyed s =
      (case_id part_id : String) (p : PartItem)
      → as_part (db.get s (approval (part case_id part_id))) ≡ some p
      → p.routed.id ≡ part_id

module _ (event_hash : Draft → String) (candidate clock : ℕ → ℕ) (db : Database StoreKey StoreItem)
    (others : ℕ → db.State → db.State) (during : db.State → db.State)
    (rely : (n : ℕ) (s : db.State) → Keeps db s (others n s))
    (rely_during : (s : db.State) → Keeps db s (during s)) where
  module _ (case_id : String) (s : db.State) (keyed : IsKeyed db s) where
    -- The parts to supersede as they were read.
    abbrev Open : String × ℕ → Type 0
    Open x =
        (p : PartItem) × (as_part (db.get s (approval (part case_id x.0))) ≡ some p)
        × (p.revision ≡ x.1)
        × (is_final p ≡ false)

    added :
        (x : String × ℕ) (o : Pending) (ys : List (String × ℕ))
        → add_pending x o ≡ pending ys
        → (zs : List (String × ℕ)) × (o ≡ pending zs) × (ys ≡ x ∷ zs)
    added x (pending zs) ys h = (zs, refl, cc h)
    added x refused ys h = cc h
    added x no_revision ys h = cc h

    not_missing : (o : Pending) (ys : List (String × ℕ)) → add_missing o ≡ pending ys → ⊥
    not_missing (pending zs) ys h = cc h
    not_missing refused ys h = cc h
    not_missing no_revision ys h = cc h

    abbrev pend : List Part → Pending
    pend xs = pending_of event_hash candidate clock db others during case_id xs s

    pending-Open : (xs : List Part) (ys : List (String × ℕ)) → pend xs ≡ pending ys → All Open ys
    unfolding pending_of
    pending-Open [] ys h = let e : [] ≡ ys = cc h in rw (sym e) tt
    pending-Open (x ∷ xs) ys h = elim (Bool-cases (x.tier == 1)) [
      | inl first ↦ cc (rw (first, pending_of) at h)
      | inr a ↦ elim (Option-cases (as_part (db.get s (approval (part case_id x.id))))) [
        | inl missing ↦ elim (Bool-cases (x.tier == 2)) [
          | inl second ↦
              absurd (not_missing (pend xs) ys (rw (a, missing, pending_of, second) at h))
          | inr third ↦ pending-Open xs ys (rw (a, missing, pending_of, third) at h)
        ]
        | inr (p, found) ↦ elim (Bool-cases (is_final p)) [
          | inl final ↦ cc (rw (a, found, pending_of, final) at h)
          | inr o ↦ elim (Bool-cases (x.tier == 2 && not p.superseded)) [
            | inr other ↦ pending-Open xs ys (rw (a, found, pending_of, o, other) at h)
            | inl second ↦
                let (zs, e, f) =
                  added (p.routed.id, p.revision) (pend xs) ys
                    (rw (a, found, pending_of, o, second) at h) in
                rw f (
                  (
                    p,
                    subst (λ i. as_part (db.get s (approval (part case_id i))) ≡ some p)
                        (sym (keyed case_id x.id p found)) found,
                    refl,
                    o,
                  ),
                  pending-Open xs zs e,
                )
          ]
        ]
      ]
    ]

    superseded_as :
        (o : Option StoreItem) (p : PartItem) (f : PartItem → PartItem)
        → as_part o ≡ some p
        → as_part (on_part f o) ≡ some (f p)
    superseded_as o p f a = rw (as_part-item o p a) refl

    supersede-Fair :
        (following : ℕ) (x : String × ℕ)
        → Open x
        → (t : db.State) → Keeps db s t
        → Fair (db.get t (approval (part case_id x.0))) (supersede case_id following x)
    supersede-Fair following (part_id, n) (p, a, r, o) t k q h b =
        let (now, c, later) = k case_id part_id p a in
        let i : now ≡ q = some_injective now q (sym c ∙ b) in
        let same : q ≡ p =
          Later-same p q (rw (sym i) later)
            (revision_of (db.get t (approval (part case_id part_id))) q n h b ∙ sym r) in
        (
          superseded_part following q,
          superseded_as (db.get t (approval (part case_id part_id))) q (superseded_part following)
              b,
          inr (omega arith, rw same o),
        )

    supersedes-AllFair :
        (following : ℕ) (fields : Option (List String)) (version : ℕ) (ys : List (String × ℕ))
        → All Open ys
        → (t : db.State) → Keeps db s t
        → AllFair
            (db.get t)
            (map (supersede case_id following) ys ++ plan_writes case_id fields version)
    supersedes-AllFair following none version [] h t k =
        ((λ q c a. absurd (vacant-no_part _ q c a)), tt)
    supersedes-AllFair following (some f) version [] h t k =
        (λ q c a. absurd (vacant-no_part _ q c a), ((λ q c a. absurd (vacant-no_part _ q c a)), tt))
    supersedes-AllFair following fields version (y ∷ ys) h t k =
        (supersede-Fair following y h.0 t k, supersedes-AllFair following fields version ys h.1 t k)

    commit-Keeps :
        (fields : Option (List String)) (version now : ℕ) (payload : List String)
        (ys : List (String × ℕ))
        → All Open ys
        → Keeps db s
            (commit_reallocation event_hash candidate clock db others during case_id fields version
              now payload ys s).1
    unfolding commit_reallocation
    commit-Keeps fields version now payload ys h =
        record-Keeps db event_hash candidate clock others rely
          (entry_of case_id (target_of fields) payload)
          (reallocate_writes case_id fields version now ys) s
          (λ t k. (
            Fair-aside (db.get t (meta case_id))
                (await_write case_id (target_of fields) version (following_of fields version) now)
                (λ p. refl),
            supersedes-AllFair (following_of fields version) fields version ys h t k,
          ))
          (during s) (rely_during s)

  pub reallocate-Keeps :
      (c : Case) (fields : Option (List String)) (portfolio_id trigger : String) (now : ℕ)
      (s : db.State)
      → IsKeyed db s
      → Keeps db s
          (reallocate event_hash candidate clock db others during c fields portfolio_id trigger now
            s).1
  unfolding reallocate
  reallocate-Keeps c fields portfolio_id trigger now s keyed =
      elim (Bool-cases (ite (CaseStatus_discrete c.status awaiting_approval) true false)) [
        | inr elsewhere ↦ rw (elsewhere, reallocate) (Keeps-refl db s)
        | inl awaits ↦
            elim (Option-cases (as_route (db.get s (approval (route c.case_id c.plan_version))))) [
              | inl unrouted ↦ rw (awaits, reallocate, unrouted) (Keeps-refl db s)
              | inr (r, found) ↦ go awaits r found (pend c.case_id s keyed r.parts) refl
            ]
      ]
    where
      go :
          ite (CaseStatus_discrete c.status awaiting_approval) true false ≡ true
          → (r : RouteItem)
          → as_route (db.get s (approval (route c.case_id c.plan_version))) ≡ some r
          → (o : Pending) → pend c.case_id s keyed r.parts ≡ o
          → Keeps db s
              (reallocate event_hash candidate clock db others during c fields portfolio_id trigger
                now s).1
      go awaits r found (pending ys) e =
          rw (awaits, reallocate, found, e)
            (commit-Keeps c.case_id s keyed fields c.plan_version now
              ("PORTFOLIO_REALLOCATED" ∷ portfolio_id ∷ trigger ∷ []) ys
              (pending-Open c.case_id s keyed r.parts ys e))
      go awaits r found refused e = rw (awaits, reallocate, found, e) (Keeps-refl db s)
      go awaits r found no_revision e = rw (awaits, reallocate, found, e) (Keeps-refl db s)
