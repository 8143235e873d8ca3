-- ===== src/Routing/Route.antt =====
-- `route` of services/routing/logic.py.
pub mod Sets
pub mod Auto
pub mod Parts
use aera_be.Prelude.{
  String, str_eq, contains, ℕ, ◌==◌, Bool, true, false, not, ◌&&◌, ◌||◌, Option, none, some, List,
  [], ◌∷◌, ◌++◌, map, all, any, length, if◌then◌else◌,
}
use aera_be.Prelude.Int.{ℤ, pos, ◌+ℤ◌, ◌-ℤ◌, leb_ℤ, ltb_ℤ}
use aera_be.Prelude.Decimal.{Decimal, exact, natural}
use aera_be.Verify.{
  Instant, Plan, PlanOption, Check, PlanRecord, OptionEvidence, Verification, Fraction, Value,
  confidence_for, is_reversible, valid, finite, within_one,
}
use aera_be.Routing.Logic.{
  Policy, Part, Reason, kill_switch_on, run_limit, stale_verification, incomplete_verification,
  blocking_check, low_confidence, no_sufficient_approver, Route, Routed, routed, value_error,
  key_error, ApproverLimit, eligible, Pick, find_option, ids, cost_of, is_empty, up_to, best_from,
  satisfying, minimum, half, below_share, reaches, check_ids,
}

abbrev one_minute : ℤ
one_minute = pos 60000000

abbrev valid_policy : Policy → Bool
valid_policy p =
    finite p.auto_limit
    && within_one p.confidence_min
    && within_one p.audit_share
    && ltb_ℤ (pos 0) p.approval_window

abbrev is_fresh : ℤ → Option ℤ → Bool
is_fresh now none = false
is_fresh now (some at) = leb_ℤ (pos 0) (now -ℤ at) && leb_ℤ (now -ℤ at) one_minute

abbrev repeated : List String → Bool
repeated [] = false
repeated (x ∷ xs) = contains x xs || repeated xs

abbrev is_for : Option String → String → Bool
is_for none id = false
is_for (some o) id = str_eq o id

abbrev is_global : Option String → Bool
is_global none = true
is_global (some o) = false

abbrev pub select {ℓ} : {A : Type ℓ} → (A → Bool) → List A → List A
select p [] = []
select p (x ∷ xs) = if p x then x ∷ select p xs else select p xs

abbrev check_id_list : List Check → List String
check_id_list cs = map (λ c. c.check_id) cs

abbrev same_set : List String → List String → Bool
same_set xs ys = all (λ x. contains x ys) xs && all (λ y. contains y xs) ys

abbrev has {ℓ} : {A : Type ℓ} → Option A → Bool
has none = false
has (some a) = true

-- A chosen option has all its checks and its evidence.
abbrev complete : Verification → String → Bool
complete v id =
    same_set (check_id_list (select (λ c. is_for c.option_id id) v.plan_record.checks)) check_ids
    && has (v.evidence id)

-- A check of the whole plan, or of a chosen option.
abbrev pub concerns : List String → Check → Bool
concerns chosen c = elim c.option_id [ none ↦ true | some o ↦ contains o chosen ]

unfoldable pub relevant_checks : Verification → List Check
relevant_checks v = select (concerns v.plan_record.plan.chosen) v.plan_record.checks

abbrev has_global_checks : List Check → Bool
has_global_checks cs =
    let gs = check_id_list (select (λ c. is_global c.option_id) cs) in
    contains "V-01" gs && contains "V-09" gs

abbrev picked : Option PlanOption → Option OptionEvidence → Option (List Pick) → Option (List Pick)
picked (some o) (some e) (some ps) = some (record { option = o; evidence = e } ∷ ps)
picked _ _ _ = none

-- Early returns: the answer of the first test that holds.
abbrev pub unless_any : List (Bool × Routed) → Routed → Routed
unless_any [] otherwise = otherwise
unless_any ((test, answer) ∷ rest) otherwise = if test then answer else unless_any rest otherwise

-- The chosen options; none where `options[i]` or `evidence[i]` is a `KeyError`.
unfoldable pub picks : Verification → List String → Option (List Pick)
picks v [] = some []
picks v (i ∷ is) = picked (find_option v.plan_record.plan.options i) (v.evidence i) (picks v is)

module _ (plan_hash : Plan → String) (part_hash : String → List String → String)
    (sample : String → ℕ) (day_of : ℤ → ℤ) (hours : Decimal → ℤ)
    (moment_of number_of : Value → Option ℤ) (equal : Value → Value → Bool)
    (known : String → Bool) where
  abbrev pub confidence_in : Verification → List Pick → Fraction
  confidence_in v ps = confidence_for moment_of number_of equal known v (ids ps)

  -- `auto`: the picks may be executed without approval.
  unfoldable pub auto : Policy → Verification → List Pick → Bool
  unfolding relevant_checks
  auto policy v ps =
      not (is_empty ps)
      && elim (natural policy.auto_limit) [ none ↦ false | some l ↦ leb_ℤ (cost_of ps) (pos l) ]
      && all (λ p. is_reversible p.option p.evidence) ps
      && reaches (confidence_in v ps) policy.confidence_min
      && all (λ c. c.passed) (select (concerns (ids ps)) (relevant_checks v))

  -- `part` of tier 1.
  unfoldable pub auto_part : Policy → Verification → String → List Pick → Part
  auto_part policy v digest ps =
      let id = part_hash digest (ids ps) in
      record {
        id = id;
        options = ids ps;
        tier = 1;
        cost = cost_of ps;
        confidence = confidence_in v ps;
        sampled = below_share (sample id) policy.audit_share;
        approver = none;
        backup = none;
        deadline = none;
        reminder = none;
      }

  abbrev pub first : List ApproverLimit → Option String
  first [] = none
  first (l ∷ ls) = some l.user_id

  abbrev pub another : String → List ApproverLimit → Option String
  another u [] = none
  another u (l ∷ ls) = if str_eq l.user_id u then another u ls else some l.user_id

  abbrev pub backup_of : List ApproverLimit → Option String
  backup_of [] = none
  backup_of (l ∷ ls) = another l.user_id (l ∷ ls)

  -- An action must be approved by the time it can still arrive before the plant runs out.
  abbrev pub latest : ℤ → (String → Option (Option ℤ)) → List Pick → List ℤ
  latest stockout without [] = []
  latest stockout without (p ∷ ps) =
      let rest = latest stockout without ps in
      elim (without p.option.id) [
        | none ↦ (stockout -ℤ hours p.evidence.lead_hours) ∷ rest
        | some horizon ↦ elim horizon [
          | none ↦ rest
          | some h ↦ (h -ℤ hours p.evidence.lead_hours) ∷ rest
        ]
      ]

  -- `part` of tier 2.
  unfoldable pub approval_part :
      Policy
      → Verification
      → String
      → (now stockout : ℤ) → (plant : String) → List ApproverLimit
      → (String → Option (Option ℤ))
      → List Pick
      → Part
  approval_part policy v digest now stockout plant limits without ps =
      let people = eligible limits plant (cost_of ps) (day_of now) in
      let deadline = minimum (now +ℤ policy.approval_window) (latest stockout without ps) in
      record {
        id = part_hash digest (ids ps);
        options = ids ps;
        tier = 2;
        cost = cost_of ps;
        confidence = confidence_in v ps;
        sampled = false;
        approver = first people;
        backup = backup_of people;
        deadline = some deadline;
        reminder = some (now +ℤ half (deadline -ℤ now));
      }

  abbrev shorter : Decimal → Decimal → Decimal
  shorter (exact a) (exact b) = if ltb_ℤ b a then exact b else exact a
  shorter a b = a

  abbrev fastest : Decimal → List Pick → Decimal
  fastest d [] = d
  fastest d (p ∷ ps) = fastest (shorter d p.evidence.lead_hours) ps

  abbrev pub is_urgent : Policy → (now stockout : ℤ) → List Pick → Bool
  is_urgent policy now stockout [] = false
  is_urgent policy now stockout (p ∷ ps) =
      ltb_ℤ (stockout -ℤ now) (policy.approval_window +ℤ hours (fastest p.evidence.lead_hours ps))

  abbrev pub best : List (List Pick) → List Pick
  best [] = []
  best (c ∷ cs) = best_from c cs

  -- The part that cannot wait for an approval: the best proper subset that may go now.
  unfoldable pub immediate : Policy → Verification → (now stockout : ℤ) → List Pick → List Pick
  unfolding auto
  immediate policy v now stockout [] = []
  immediate policy v now stockout (p ∷ ps) =
      if is_urgent policy now stockout (p ∷ ps)
      then best (satisfying (auto policy v) (up_to (length ps) (p ∷ ps)))
      else []

  abbrev pub without_ids : List String → List Pick → List Pick
  without_ids xs [] = []
  without_ids xs (p ∷ ps) =
      if contains p.option.id xs then without_ids xs ps else p ∷ without_ids xs ps

  abbrev pub block : String → Reason → Routed
  block digest r = routed (record { tier = 3; version_hash = digest; parts = []; reason = some r })

  abbrev pub immediate_parts : Policy → Verification → String → List Pick → List Part
  immediate_parts policy v digest [] = []
  immediate_parts policy v digest (p ∷ ps) = auto_part policy v digest (p ∷ ps) ∷ []

  -- The parts of a plan that passed every check.
  unfoldable pub route_picks :
      Policy
      → Verification
      → String
      → (now stockout : ℤ) → (plant : String) → List ApproverLimit
      → (String → Option (Option ℤ))
      → List Pick
      → Routed
  unfolding auto auto_part approval_part immediate
  route_picks policy v digest now stockout plant limits without ps =
      if auto policy v ps
      then routed (record {
        tier = 1;
        version_hash = digest;
        parts = auto_part policy v digest ps ∷ [];
        reason = none;
      })
      else if is_empty ps
      then value_error
      else (let now_part = immediate policy v now stockout ps in
          let pending =
            approval_part policy v digest now stockout plant limits without
              (without_ids (ids now_part) ps) in
          elim pending.approver [
            | none ↦ block digest no_sufficient_approver
            | some u ↦ routed (record {
              tier = 2;
              version_hash = digest;
              parts = immediate_parts policy v digest now_part ++ pending ∷ [];
              reason = none;
            })
          ])

  unfoldable pub route_checked :
      Policy
      → Verification
      → String
      → (now stockout : ℤ) → (plant : String) → List ApproverLimit
      → (String → Option (Option ℤ))
      → Routed
  unfolding route_picks picks
  route_checked policy v digest now stockout plant limits without =
      elim (picks v v.plan_record.plan.chosen) [
        | none ↦ key_error
        | some ps ↦ route_picks policy v digest now stockout plant limits without ps
      ]

  -- The early returns before the parts, in order.
  abbrev pub guards : Policy → Verification → (now stockout : Instant) → List (Bool × Routed)
  guards policy v now stockout =
      let digest = plan_hash v.plan_record.plan in
      let chosen = v.plan_record.plan.chosen in
      (not (now.has_zone && stockout.has_zone), value_error)
      ∷ (not (valid_policy policy), value_error)
      ∷ (policy.kill_switch, block digest kill_switch_on)
      ∷ (policy.limit_hit, block digest run_limit)
      ∷ (not (str_eq digest v.version_hash), block digest stale_verification)
      ∷ (not (is_fresh now.at v.plan_record.verified_at), block digest stale_verification)
      ∷ (repeated chosen || not (valid v.grounding), block digest incomplete_verification)
      ∷ (not (all (complete v) chosen), block digest incomplete_verification)
      ∷ (not (has_global_checks (relevant_checks v)), block digest incomplete_verification)
      ∷ (any (λ c. c.blocking && not c.passed) (relevant_checks v), block digest blocking_check)
      ∷ (
        not (
            reaches (confidence_for moment_of number_of equal known v chosen)
              policy.confidence_min),
        block digest low_confidence,
      )
      ∷ []

  unfoldable pub route :
      Policy
      → Verification
      → (now stockout : Instant) → (plant : String) → List ApproverLimit
      → (String → Option (Option ℤ))
      → Routed
  unfolding route_checked
  route policy v now stockout plant limits without = unless_any (guards policy v now stockout) (
      route_checked policy v (plan_hash v.plan_record.plan) now.at stockout.at plant limits without)
