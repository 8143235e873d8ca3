-- ===== src/Verify/Checks/Routed.antt =====
-- services/verifier/logic.py and services/routing/logic.py together: what `verify` has found of a
-- plan that `route` does not block.
use mathlib.Core.Path.{subst}
use aera_be.Prelude.{
  String, contains, ◌≡◌, ◌≢◌, refl, sym, ◌∙◌, ap, inl, inr, ℕ, Bool, true, false, not, ◌&&◌, ◌||◌,
  Option, some, List, [], ◌∷◌, ◌++◌, any, arith, Listed, Bool-cases, Option-cases,
}
use aera_be.Prelude.Int.{ℤ, pos, leb_ℤ}
use aera_be.Prelude.Decimal.{Decimal}
use aera_be.Verify.{Value, Instant, Plan, PlanOption, Check, OptionEvidence, Verification}
use aera_be.Verify.Checks.{Terms, all_checks, combined_checks, plan_checks, as_cover, verify}
use aera_be.Verify.Checks.Vetted.{
  blocks, any-append, IsVetted, option-IsVetted, all_checks-option, of_or_free, both, checks_of-id,
  IsWhole, plan-IsWhole,
}
use aera_be.Routing.Logic.{Policy, ApproverLimit, Route, routed}
use aera_be.Routing.Route.{select, concerns, relevant_checks, route}
use aera_be.Routing.Route.Parts.{route_parts}

some_injective {ℓ} : {A : Type ℓ} (a b : A) → some a ≡ some b → a ≡ b
some_injective a b h = cc h

any-select :
    {A : Type 0} (q p : A → Bool) (xs : List A) → any p (select q xs) ≡ any (λ x. q x && p x) xs
any-select q p [] = refl
any-select q p (x ∷ xs) = ground (arith, any-select q p xs)

abbrev chosen_in : Plan → String → Bool
chosen_in p id = contains id p.chosen

module _ (moment_of number_of : Value → Option ℤ) (equal : Value → Value → Bool)
    (arrival_text : Instant → String) (today : ℤ → ℕ) (hours : Decimal → ℤ)
    (evidence : String → Option OptionEvidence) (t : Terms) where
  -- The checks of the whole plan concern every choice.
  combined-free :
      (cover : ℤ) (facts : List OptionEvidence) (ts : List ((String × String) × ℤ))
      (q : String → Bool) (rest : List Check)
      → any (both (of_or_free q) blocks) rest ≡ any blocks rest
      → any (both (of_or_free q) blocks) (
          combined_checks moment_of number_of equal arrival_text today hours cover facts ts ++ rest)
        ≡ any blocks (
            combined_checks moment_of number_of equal arrival_text today hours cover facts ts
            ++ rest)
  unfolding combined_checks
  combined-free cover facts [] q rest h = h
  combined-free cover facts ((k, qty) ∷ ts) q rest h =
      rw (combined-free cover facts ts q rest h) refl

  plan-free :
      (cover : ℤ) (p : Plan) (q : String → Bool)
      → any
          (both (of_or_free q) blocks)
          (plan_checks moment_of number_of equal arrival_text today hours evidence cover t p)
        ≡ any blocks
            (plan_checks moment_of number_of equal arrival_text today hours evidence cover t p)
  unfolding plan_checks
  plan-free cover p q = rw (combined-free cover _ _ q _ refl) refl

  abbrev pub built : (cover : ℤ) → (plan_hash : Plan → String) → Plan → Verification
  built cover plan_hash p = record {
    plan_record = record {
      plan = p;
      checks =
          all_checks moment_of number_of equal arrival_text today hours evidence cover t p.options
          ++ plan_checks moment_of number_of equal arrival_text today hours evidence cover t p;
      verified_at = some t.now.at;
    };
    version_hash = plan_hash p;
    evidence = evidence;
    corroboration = t.corroboration;
    grounding = t.grounding;
  }

  -- What `verify` makes.
  made :
      (plan_hash : Plan → String) (p : Plan) {v : Verification}
      → verify moment_of number_of equal arrival_text today hours plan_hash p evidence t ≡ some v
      → (cover : ℤ) × (as_cover moment_of number_of equal arrival_text today hours t.minimum_cover
          ≡ some cover)
        × (v.plan_record.plan ≡ p)
        × (v.plan_record.checks
            ≡ all_checks moment_of number_of equal arrival_text today hours evidence cover t
                p.options
              ++ plan_checks moment_of number_of equal arrival_text today hours evidence cover t p)
  unfolding verify
  made plan_hash p {v} h =
      elim (Option-cases
        (as_cover moment_of number_of equal arrival_text today hours t.minimum_cover)) [
          | inl bad ↦ cc (rw (bad, verify) at h)
          | inr (cover, c) ↦ elim (Bool-cases (not t.now.has_zone || leb_ℤ t.max_age (pos 0))) [
            | inl invalid ↦ cc (rw (c, verify, invalid) at h)
            | inr fine ↦
                let i : built cover plan_hash p ≡ v =
                  some_injective (built cover plan_hash p) v (rw (c, verify, fine) at h) in
                (
                  cover,
                  c,
                  ap (λ x. x.plan_record.plan) (sym i),
                  ap (λ x. x.plan_record.checks) (sym i),
                )
          ]
        ]

  -- A plan whose relevant checks have no failed blocking one.
  module _ (p : Plan) (cover : ℤ) (v : Verification) (plan_is : v.plan_record.plan ≡ p)
      (checks_are : v.plan_record.checks
        ≡ all_checks moment_of number_of equal arrival_text today hours evidence cover t p.options
          ++ plan_checks moment_of number_of equal arrival_text today hours evidence cover t p)
      (clear : any blocks (relevant_checks v) ≡ false) where
    none_blocks :
        any (both (of_or_free (chosen_in p)) blocks) (
          all_checks moment_of number_of equal arrival_text today hours evidence cover t p.options
          ++ plan_checks moment_of number_of equal arrival_text today hours evidence cover t p)
        ≡ false
    unfolding relevant_checks
    none_blocks =
        subst (λ cs. any (both (of_or_free (chosen_in p)) blocks) cs ≡ false) checks_are
          (subst (λ x. any (both (of_or_free (chosen_in x)) blocks) v.plan_record.checks ≡ false)
            plan_is
            (sym (any-select (concerns v.plan_record.plan.chosen) blocks v.plan_record.checks)
              ∙ clear))

    option_clear :
        (o : PlanOption)
        → Listed o p.options
        → contains o.id p.chosen ≡ true
        → IsVetted moment_of number_of equal arrival_text today hours evidence t cover o
    option_clear o m c =
        option-IsVetted moment_of number_of equal arrival_text today hours evidence t cover o (
          sym (
            checks_of-id moment_of number_of equal arrival_text today hours evidence t cover o
              (chosen_in p) c)
          ∙ all_checks-option moment_of number_of equal arrival_text today hours evidence t cover
              p.options o m (both (of_or_free (chosen_in p)) blocks)
              (any-append (both (of_or_free (chosen_in p)) blocks)
                (all_checks moment_of number_of equal arrival_text today hours evidence cover t
                  p.options)
                (plan_checks moment_of number_of equal arrival_text today hours evidence cover t p)
                none_blocks).0)

    plan_clear : IsWhole moment_of number_of equal arrival_text today hours evidence t cover p
    plan_clear =
        plan-IsWhole moment_of number_of equal arrival_text today hours evidence t cover p (
          sym (plan-free cover p (chosen_in p))
          ∙ (any-append (both (of_or_free (chosen_in p)) blocks)
              (all_checks moment_of number_of equal arrival_text today hours evidence cover t
                p.options)
              (plan_checks moment_of number_of equal arrival_text today hours evidence cover t p)
              none_blocks).1)

  module _ (plan_hash : Plan → String) (part_hash : String → List String → String)
      (sample : String → ℕ) (day_of : ℤ → ℤ) (known : String → Bool) where
    -- A plan that was verified and that gets a part in its route, without or for approval: every
    -- chosen option of it had fresh evidence and passed V-01 to V-12, and the plan as a whole has
    -- its totals, a cost below the revenue that it protects, transfers that the donors can give
    -- together, and no more than its allocation.
    pub routed-IsVetted :
        (p : Plan) {v : Verification} (policy : Policy) (now stockout : Instant) (plant : String)
        (limits : List ApproverLimit) (without : String → Option (Option ℤ)) {r : Route}
        (o : PlanOption)
        → verify moment_of number_of equal arrival_text today hours plan_hash p evidence t ≡ some v
        → route plan_hash part_hash sample day_of hours moment_of number_of equal known policy v now
            stockout plant limits without
          ≡ routed r
        → r.parts ≢ []
        → Listed o p.options
        → contains o.id p.chosen ≡ true
        → (cover : ℤ) × (as_cover moment_of number_of equal arrival_text today hours t.minimum_cover
            ≡ some cover)
          × IsVetted moment_of number_of equal arrival_text today hours evidence t cover o
          × IsWhole moment_of number_of equal arrival_text today hours evidence t cover p
    routed-IsVetted p {v} policy now stockout plant limits without {r} o verified routed_as
          some_part m c =
        let (cover, cover_is, plan_is, checks_are) = made plan_hash p verified in
        elim (route_parts plan_hash part_hash sample day_of hours moment_of number_of equal known
          policy v now stockout plant limits without routed_as).1 [
            | inl nothing ↦ absurd (some_part nothing)
            | inr (kill, limit, hash, clear) ↦ (
              cover,
              cover_is,
              option_clear p cover v plan_is checks_are clear o m c,
              plan_clear p cover v plan_is checks_are clear,
            )
          ]
