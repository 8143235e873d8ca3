-- ===== src/Routing/Route/Parts.antt =====
-- services/routing/logic.py: the parts of a route.
use mathlib.Core.Path.{subst}
use aera_be.Prelude.{
  String, str_eq, ◌≡◌, ◌≢◌, refl, ap, ◌∙◌, ◌⊎◌, inl, inr, ℕ, Bool, true, false, not, ◌&&◌, Option,
  none, some, List, [], ◌∷◌, ◌++◌, arith, any, All, Listed, Bool-cases,
}
use aera_be.Prelude.Int.{ℤ}
use aera_be.Prelude.Decimal.{Decimal}
use aera_be.Verify.{Plan, Verification, Value}
use aera_be.Routing.Logic.{
  Policy, Part, Route, Routed, routed, value_error, key_error, ApproverLimit, qualifies, eligible,
  Pick, ids, cost_of, is_empty, Reason, kill_switch_on, run_limit, stale_verification,
  incomplete_verification, blocking_check, low_confidence, no_sufficient_approver,
}
use aera_be.Routing.Route.{
  auto, auto_part, approval_part, immediate, without_ids, immediate_parts, route_picks,
  route_checked, route, guards, unless_any, block, first, picks, relevant_checks,
}
use aera_be.Verify.{Instant}
use aera_be.Routing.Logic.Approvers.{eligible-Listed}
use aera_be.Routing.Route.Auto.{
  without_ids-All, immediate-All, Automatic, auto-Automatic, immediate-auto,
}
use aera_be.Routing.Route.Sets.{Planned, picks-Planned, all_Listed}

module _ (plan_hash : Plan → String) (part_hash : String → List String → String)
    (sample : String → ℕ) (day_of : ℤ → ℤ) (hours : Decimal → ℤ)
    (moment_of number_of : Value → Option ℤ) (equal : Value → Value → Bool)
    (known : String → Bool) where
  abbrev autos : Policy → Verification → List Pick → Bool
  autos policy v ps =
      auto plan_hash part_hash sample day_of hours moment_of number_of equal known policy v ps

  abbrev now_part : Policy → Verification → (now stockout : ℤ) → List Pick → List Pick
  now_part = immediate plan_hash part_hash sample day_of hours moment_of number_of equal known

  -- A part of tier 1 is automatic; a part of tier 2 has chosen options of the plan and an approver
  -- whose limit covers their cost.
  abbrev pub PartKept : Policy → Verification → ℤ → String → List ApproverLimit → Part → Type 0
  PartKept policy v now plant limits p =
      ((p.tier ≡ 1)
        × Automatic plan_hash part_hash sample day_of hours moment_of number_of equal known policy v
            p)
      ⊎ ((p.tier ≡ 2)
          × ((ps : List Pick) × (p.options ≡ ids ps) × All (Planned v) ps × (p.cost ≡ cost_of ps))
          × ((l : ApproverLimit) × Listed l limits
              × (qualifies plant p.cost (day_of now) l ≡ true)
              × (p.approver ≡ some l.user_id)))

  module _ (policy : Policy) (v : Verification) (digest : String) (now stockout : ℤ)
      (plant : String) (limits : List ApproverLimit) (without : String → Option (Option ℤ)) where
    abbrev Kept : Part → Type 0
    Kept = PartKept policy v now plant limits

    abbrev automatic : List Pick → Part
    automatic ps =
        auto_part plan_hash part_hash sample day_of hours moment_of number_of equal known policy v
          digest ps

    abbrev approved : List Pick → Part
    approved ps =
        approval_part plan_hash part_hash sample day_of hours moment_of number_of equal known policy
          v digest now stockout plant limits without ps

    automatic-Kept :
        (ps : List Pick) → All (Planned v) ps → autos policy v ps ≡ true → Kept (automatic ps)
    unfolding auto_part
    automatic-Kept ps a h = inl (
      refl,
      auto-Automatic plan_hash part_hash sample day_of hours moment_of number_of equal known policy
          v digest ps a h,
    )

    first-Listed :
        (cost : ℤ) (people : List ApproverLimit) (u : String)
        → eligible limits plant cost (day_of now) ≡ people
        → first plan_hash part_hash sample day_of hours moment_of number_of equal known people
          ≡ some u
        → (l : ApproverLimit) × Listed l limits
          × (qualifies plant cost (day_of now) l ≡ true)
          × (u ≡ l.user_id)
    first-Listed cost [] u e h = cc h
    first-Listed cost (l ∷ rest) u e h =
        let (m, q) = eligible-Listed limits plant cost (day_of now) l (rw e (inl refl)) in
        (l, m, q, cc h)

    approved-Kept :
        (ps : List Pick) (u : String)
        → All (Planned v) ps
        → (approved ps).approver ≡ some u
        → Kept (approved ps)
    unfolding approval_part
    approved-Kept ps u a h =
        let (l, m, q, e) =
          first-Listed (cost_of ps) (eligible limits plant (cost_of ps) (day_of now)) u refl h in
        inr (refl, (ps, refl, a, refl), (l, m, q, h ∙ ap some e))

    parts-Kept :
        (q : List Pick) (rest : Part)
        → All (Planned v) q
        → (q ≢ [] → autos policy v q ≡ true)
        → Kept rest
        → All Kept (
            immediate_parts plan_hash part_hash sample day_of hours moment_of number_of equal known
              policy v digest q
            ++ rest ∷ [])
    parts-Kept [] rest a h k = (k, tt)
    parts-Kept (p ∷ ps) rest a h k = (automatic-Kept (p ∷ ps) a (h (λ e. cc)), (k, tt))

    -- The parts of an answer are kept.
    Good : Routed → Type 0
    Good (routed r) = All Kept r.parts
    Good value_error = Unit
    Good key_error = Unit

    pending-Good :
        (q ps : List Pick)
        → All (Planned v) q
        → All (Planned v) ps
        → (q ≢ [] → autos policy v q ≡ true)
        → Good (elim (approved ps).approver [
          | none ↦
              block plan_hash part_hash sample day_of hours moment_of number_of equal known digest
                no_sufficient_approver
          | some u ↦ routed (record {
            tier = 2;
            version_hash = digest;
            parts =
                immediate_parts plan_hash part_hash sample day_of hours moment_of number_of equal
                  known policy v digest q
                ++ approved ps ∷ [];
            reason = none;
          })
        ])
    unfolding Good
    pending-Good q ps a b h = go (approved ps).approver refl
      where
        go :
            (o : Option String)
            → (approved ps).approver ≡ o
            → Good (elim o [
              | none ↦
                  block plan_hash part_hash sample day_of hours moment_of number_of equal known
                    digest no_sufficient_approver
              | some u ↦ routed (record {
                tier = 2;
                version_hash = digest;
                parts =
                    immediate_parts plan_hash part_hash sample day_of hours moment_of number_of
                      equal known policy v digest q
                    ++ approved ps ∷ [];
                reason = none;
              })
            ])
        go none e = tt
        go (some u) e = parts-Kept q (approved ps) a h (approved-Kept ps u b e)

    abbrev routes : List Pick → Routed
    routes ps =
        route_picks plan_hash part_hash sample day_of hours moment_of number_of equal known policy v
          digest now stockout plant limits without ps

    route_picks-Good : (ps : List Pick) → All (Planned v) ps → Good (routes ps)
    unfolding route_picks
    route_picks-Good ps a = elim (Bool-cases (autos policy v ps)) [
      | inl y ↦ rw (y, route_picks) (unfold Good in (automatic-Kept ps a y, tt))
      | inr z ↦ elim (Bool-cases (is_empty ps)) [
        | inl y ↦ rw (z, y, route_picks) (unfold Good in tt)
        | inr x ↦
            rw (z, x, route_picks)
              (pending-Good (now_part policy v now stockout ps)
                (without_ids plan_hash part_hash sample day_of hours moment_of number_of equal known
                  (ids (now_part policy v now stockout ps)) ps)
                (immediate-All plan_hash part_hash sample day_of hours moment_of number_of equal
                  known (Planned v) policy v now stockout ps a)
                (without_ids-All plan_hash part_hash sample day_of hours moment_of number_of equal
                  known (Planned v) (ids (now_part policy v now stockout ps)) ps a)
                (immediate-auto plan_hash part_hash sample day_of hours moment_of number_of equal
                  known policy v now stockout ps))
      ]
    ]

  -- What stands when a route has parts.
  abbrev pub Clear : Policy → Verification → Type 0
  Clear policy v =
      (policy.kill_switch ≡ false)
      × (policy.limit_hit ≡ false)
      × (str_eq (plan_hash v.plan_record.plan) v.version_hash ≡ true)
      × (any (λ c. c.blocking && not c.passed) (relevant_checks v) ≡ false)

  module _ (policy : Policy) (v : Verification) (now stockout : Instant) (plant : String)
      (limits : List ApproverLimit) (without : String → Option (Option ℤ)) where
    abbrev digest_of : String
    digest_of = plan_hash v.plan_record.plan

    Safe : Routed → Type 0
    Safe (routed r) =
        All (PartKept policy v now.at plant limits) r.parts × ((r.parts ≡ []) ⊎ Clear policy v)
    Safe value_error = Unit
    Safe key_error = Unit

    Good-Safe :
        (x : Routed)
        → Clear policy v
        → Good policy v digest_of now.at stockout.at plant limits without x
        → Safe x
    unfolding Good Safe
    Good-Safe (routed r) c g = (g, inr c)
    Good-Safe value_error c g = tt
    Good-Safe key_error c g = tt

    unless_any-Safe :
        (gs : List (Bool × Routed)) (x : Routed)
        → All (λ g. Safe g.1) gs
        → (All (λ g. g.0 ≡ false) gs → Safe x)
        → Safe (unless_any gs x)
    unless_any-Safe [] x a k = k tt
    unless_any-Safe ((true, y) ∷ gs) x a k = a.0
    unless_any-Safe ((false, y) ∷ gs) x a k = unless_any-Safe gs x a.1 (λ h. k (refl, h))

    blocked :
        (reason : Reason)
        → Safe (
            block plan_hash part_hash sample day_of hours moment_of number_of equal known digest_of
              reason)
    unfolding Safe
    blocked reason = (tt, inl refl)

    raised : Safe value_error
    unfolding Safe
    raised = tt

    route_checked-Safe :
        Clear policy v
        → Safe (
            route_checked plan_hash part_hash sample day_of hours moment_of number_of equal known
              policy v digest_of now.at stockout.at plant limits without)
    unfolding route_checked
    route_checked-Safe c = go (picks v v.plan_record.plan.chosen) refl
      where
        go :
            (o : Option (List Pick))
            → picks v v.plan_record.plan.chosen ≡ o
            → Safe (elim o [
              | none ↦ key_error
              | some ps ↦
                  route_picks plan_hash part_hash sample day_of hours moment_of number_of equal
                    known policy v digest_of now.at stockout.at plant limits without ps
            ])
        go none e = unfold Safe in tt
        go (some ps) e =
            Good-Safe
              (route_picks plan_hash part_hash sample day_of hours moment_of number_of equal known
                policy v digest_of now.at stockout.at plant limits without ps)
              c
              (route_picks-Good policy v digest_of now.at stockout.at plant limits without ps (
                picks-Planned v v.plan_record.plan.chosen ps (all_Listed v.plan_record.plan.chosen)
                  e))

    not-not : (b : Bool) → not b ≡ false → b ≡ true
    not-not b h = ground arith

    route-Safe : Safe (
        route plan_hash part_hash sample day_of hours moment_of number_of equal known policy v now
          stockout plant limits without)
    unfolding route
    route-Safe =
        unless_any-Safe
          (guards plan_hash part_hash sample day_of hours moment_of number_of equal known policy v
            now stockout)
          (route_checked plan_hash part_hash sample day_of hours moment_of number_of equal known
            policy v digest_of now.at stockout.at plant limits without)
          (
            raised,
            (
              raised,
              (
                blocked kill_switch_on,
                (
                  blocked run_limit,
                  (
                    blocked stale_verification,
                    (
                      blocked stale_verification,
                      (
                        blocked incomplete_verification,
                        (
                          blocked incomplete_verification,
                          (
                            blocked incomplete_verification,
                            (blocked blocking_check, (blocked low_confidence, tt)),
                          ),
                        ),
                      ),
                    ),
                  ),
                ),
              ),
            ),
          )
          (λ h. route_checked-Safe (
            h.1.1.0,
            h.1.1.1.0,
            not-not (str_eq digest_of v.version_hash) h.1.1.1.1.0,
            h.1.1.1.1.1.1.1.1.1.0,
          ))

    -- Each part of tier 1 of a route has only options that the plan has chosen, all reversible by the
    -- evidence that the verification has of them, with their cost together, which is within the
    -- limit, their confidence, which is enough, and only passed checks. Each part of tier 2 has only
    -- options that the plan has chosen, with their cost together, and an approver whose limit for
    -- the plant covers that cost on the day. A route has parts only if neither the kill switch nor
    -- the run limit is on, the plan is the one that was verified, and no blocking check has failed.
    pub route_parts :
        {r : Route}
        → route plan_hash part_hash sample day_of hours moment_of number_of equal known policy v now
            stockout plant limits without
          ≡ routed r
        → All (PartKept policy v now.at plant limits) r.parts × ((r.parts ≡ []) ⊎ Clear policy v)
    unfolding Safe
    route_parts {r} e = subst Safe e route-Safe
