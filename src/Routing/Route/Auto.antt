-- ===== src/Routing/Route/Auto.antt =====
-- services/routing/logic.py: what may go without approval: the automatic parts.
use mathlib.Core.Path.{subst}
use aera_be.Prelude.{
  String, contains, ◌≡◌, ◌≢◌, refl, sym, ◌∙◌, inl, inr, ℕ, Bool, true, Option, none, some, List, [],
  ◌∷◌, arith, all, All, Bool-cases, length,
}
use aera_be.Prelude.Int.{ℤ, pos, ◌≤ℤ◌, leb_ℤ, leb_ℤ→≤ℤ}
use aera_be.Prelude.Decimal.{Decimal, natural}
use aera_be.Verify.{Plan, Verification, Value, is_reversible}
use aera_be.Routing.Logic.{
  Policy, Part, Pick, ids, cost_of, best_from, better, satisfying, reaches, up_to,
}
use aera_be.Routing.Route.Sets.{Planned, kept-All, chosen-All, up_to-All}
use aera_be.Routing.Route.{
  without_ids, auto, auto_part, immediate, best, is_urgent, confidence_in, relevant_checks,
  concerns, select,
}

satisfying-All :
    (p : List Pick → Bool) (cs : List (List Pick)) → All (λ c. p c ≡ true) (satisfying p cs)
unfolding satisfying
satisfying-All p [] = tt
satisfying-All p (c ∷ cs) = elim (Bool-cases (p c)) [
  | inl y ↦ rw (y, satisfying) (y, satisfying-All p cs)
  | inr n ↦ rw (n, satisfying) (satisfying-All p cs)
]

best_from-All :
    (p : List Pick → Bool) (b : List Pick) (cs : List (List Pick))
    → p b ≡ true
    → All (λ c. p c ≡ true) cs
    → p (best_from b cs) ≡ true
unfolding best_from
best_from-All p b [] h a = h
best_from-All p b (c ∷ cs) h a = elim (Bool-cases (better b c)) [
  | inl y ↦ rw (y, best_from) (best_from-All p c cs a.0 a.1)
  | inr n ↦ rw (n, best_from) (best_from-All p b cs h a.1)
]

module _ (plan_hash : Plan → String) (part_hash : String → List String → String)
    (sample : String → ℕ) (day_of : ℤ → ℤ) (hours : Decimal → ℤ)
    (moment_of number_of : Value → Option ℤ) (equal : Value → Value → Bool)
    (known : String → Bool) where
  abbrev autos : Policy → Verification → List Pick → Bool
  autos policy v ps =
      auto plan_hash part_hash sample day_of hours moment_of number_of equal known policy v ps

  abbrev now_part : Policy → Verification → (now stockout : ℤ) → List Pick → List Pick
  now_part = immediate plan_hash part_hash sample day_of hours moment_of number_of equal known

  best-auto :
      (policy : Policy) (v : Verification) (cs : List (List Pick))
      → All (λ c. autos policy v c ≡ true) cs
      → best plan_hash part_hash sample day_of hours moment_of number_of equal known cs ≢ []
      → autos policy v
          (best plan_hash part_hash sample day_of hours moment_of number_of equal known cs)
        ≡ true
  best-auto policy v [] a n = absurd (n refl)
  best-auto policy v (c ∷ cs) a n = best_from-All (autos policy v) c cs a.0 a.1

  -- The part that goes now may go without approval.
  pub immediate-auto :
      (policy : Policy) (v : Verification) (now stockout : ℤ) (ps : List Pick)
      → now_part policy v now stockout ps ≢ []
      → autos policy v (now_part policy v now stockout ps) ≡ true
  unfolding immediate
  immediate-auto policy v now stockout [] n = absurd (n refl)
  immediate-auto policy v now stockout (p ∷ ps) n =
      elim (Bool-cases (
        is_urgent plan_hash part_hash sample day_of hours moment_of number_of equal known policy now
          stockout (p ∷ ps))) [
            | inl y ↦
                let is : now_part policy v now stockout (p ∷ ps)
                    ≡ best plan_hash part_hash sample day_of hours moment_of number_of equal known
                        (satisfying (autos policy v) (up_to (length ps) (p ∷ ps))) =
                  rw (y, immediate) refl in
                subst (λ c. autos policy v c ≡ true) (sym is)
                  (best-auto policy v (satisfying (autos policy v) (up_to (length ps) (p ∷ ps)))
                    (satisfying-All (autos policy v) (up_to (length ps) (p ∷ ps)))
                    (λ e. n (is ∙ e)))
            | inr z ↦ absurd (n (rw (z, immediate) refl))
          ]

  best-All :
      (Q : Pick → Type 0) (cs : List (List Pick))
      → All (All Q) cs
      → All Q (best plan_hash part_hash sample day_of hours moment_of number_of equal known cs)
  best-All Q [] h = tt
  best-All Q (c ∷ cs) h = chosen-All Q c cs h.0 h.1

  -- What goes now is taken from the picks.
  pub immediate-All :
      (Q : Pick → Type 0) (policy : Policy) (v : Verification) (now stockout : ℤ) (ps : List Pick)
      → All Q ps
      → All Q (now_part policy v now stockout ps)
  unfolding immediate
  immediate-All Q policy v now stockout [] h = tt
  immediate-All Q policy v now stockout (p ∷ ps) h =
      elim (Bool-cases (
        is_urgent plan_hash part_hash sample day_of hours moment_of number_of equal known policy now
          stockout (p ∷ ps))) [
            | inl y ↦
                rw (y, immediate)
                  (best-All Q (satisfying (autos policy v) (up_to (length ps) (p ∷ ps))) (
                    kept-All Q (autos policy v) (up_to (length ps) (p ∷ ps))
                      (up_to-All Q (length ps) (p ∷ ps) h)))
            | inr z ↦ rw (z, immediate) tt
          ]

  pub without_ids-All :
      (Q : Pick → Type 0) (xs : List String) (ps : List Pick)
      → All Q ps
      → All Q (
          without_ids plan_hash part_hash sample day_of hours moment_of number_of equal known xs ps)
  without_ids-All Q xs [] h = tt
  without_ids-All Q xs (p ∷ ps) h = elim (Bool-cases (contains p.option.id xs)) [
    | inl y ↦ rw y (without_ids-All Q xs ps h.1)
    | inr n ↦ rw n (h.0, without_ids-All Q xs ps h.1)
  ]

  -- What makes a part automatic: its options are chosen ones of the plan, all of them reversible by
  -- their evidence, their cost is within the limit, the confidence in them is at least the minimum,
  -- and each check of them or of the whole plan has passed.
  abbrev pub Automatic : Policy → Verification → Part → Type 0
  Automatic policy v p =
      (ps : List Pick) × (p.options ≡ ids ps)
      × All (Planned v) ps
      × (p.cost ≡ cost_of ps)
      × ((l : ℕ) × (natural policy.auto_limit ≡ some l) × (p.cost ≤ℤ pos l))
      × (all (λ q. is_reversible q.option q.evidence) ps ≡ true)
      × (p.confidence
          ≡ confidence_in plan_hash part_hash sample day_of hours moment_of number_of equal known v
              ps)
      × (reaches p.confidence policy.confidence_min ≡ true)
      × (all (λ c. c.passed) (select (concerns p.options) (relevant_checks v)) ≡ true)

  pub auto-Automatic :
      (policy : Policy) (v : Verification) (digest : String) (ps : List Pick)
      → All (Planned v) ps
      → autos policy v ps ≡ true
      → Automatic policy v (
          auto_part plan_hash part_hash sample day_of hours moment_of number_of equal known policy v
            digest ps)
  unfolding auto auto_part
  auto-Automatic policy v digest ps a h = go (natural policy.auto_limit) refl
    where
      go :
          (o : Option ℕ)
          → natural policy.auto_limit ≡ o
          → Automatic policy v (
              auto_part plan_hash part_hash sample day_of hours moment_of number_of equal known
                policy v digest ps)
      go none e = absurd (ground arith)
      go (some l) e =
          let cheap : leb_ℤ (cost_of ps) (pos l) ≡ true = ground arith in
          let back : all (λ q. is_reversible q.option q.evidence) ps ≡ true = ground arith in
          let sure : reaches
                (confidence_in plan_hash part_hash sample day_of hours moment_of number_of equal
                  known v ps)
                policy.confidence_min
              ≡ true =
            ground arith in
          let passes : all (λ c. c.passed) (select (concerns (ids ps)) (relevant_checks v)) ≡ true =
            ground arith in
          (ps, refl, a, refl, (l, e, leb_ℤ→≤ℤ (cost_of ps) (pos l) cheap), back, refl, sure, passes)
