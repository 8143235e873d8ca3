-- ===== src/Verify/Checks/Vetted.antt =====
-- services/verifier/logic.py: a plan without a failed blocking check.
use aera_be.Prelude.{
  String, String_discrete, ◌≡◌, ◌≢◌, refl, inl, inr, ℕ, Bool, true, false, not, ◌&&◌, Option, none,
  some, List, [], ◌∷◌, ◌++◌, any, arith, Listed, Bool-cases, Option-cases,
}
use aera_be.Prelude.Int.{ℤ}
use aera_be.Prelude.Decimal.{Decimal}
use aera_be.Verify.{Value, Instant, Plan, PlanOption, Check, OptionEvidence, transfers}
use aera_be.Verify.Portfolio.{valid_quantities, portfolio_check}
use aera_be.Verify.Facts.{
  actions_ok, masters_ok, compliance_ok, donors_ok, unreserved_ok, cost_ok, recipients_ok,
  confirmed_ok,
}
use aera_be.Verify.Checks.{
  Terms, is_fresh, sources_ok, dates_ok, lead_ok, option_checks, all_checks, plan_checks,
  selected_of, facts_of, totals_ok, combined_cost_ok, combined_checks, stale_checks, fresh_checks,
}

abbrev pub blocks : Check → Bool
blocks c = c.blocking && not c.passed

-- A check of the whole plan, or of an option that `q` holds of.
abbrev pub of_or_free : (String → Bool) → Check → Bool
of_or_free q c = elim c.option_id [ none ↦ true | some id ↦ q id ]

abbrev pub both : (Check → Bool) → (Check → Bool) → Check → Bool
both p q c = p c && q c

pub any-append :
    {A : Type 0} (p : A → Bool) (xs ys : List A)
    → any p (xs ++ ys) ≡ false
    → (any p xs ≡ false) × (any p ys ≡ false)
any-append p [] ys h = (refl, h)
any-append p (x ∷ xs) ys h = let (a, b) = any-append p xs ys (ground arith) in (ground arith, b)

no_both : true ≢ false
no_both h = cc h

-- A blocking check of the whole plan.
abbrev global : String → Bool → Check
global id passed = record { check_id = id; passed = passed; blocking = true; option_id = none }

first_two :
    (a b : Bool) (rest : List Check)
    → any blocks (global "V-01" a ∷ global "V-09" b ∷ rest) ≡ false
    → (a ≡ true) × (b ≡ true) × (any blocks rest ≡ false)
first_two a b rest h = (ground arith, ground arith, ground arith)

last_one : (a : Bool) → any blocks (global "V-15" a ∷ []) ≡ false → a ≡ true
last_one a h = ground arith

module _ (moment_of number_of : Value → Option ℤ) (equal : Value → Value → Bool)
    (arrival_text : Instant → String) (today : ℤ → ℕ) (hours : Decimal → ℤ)
    (evidence : String → Option OptionEvidence) (t : Terms) where
  -- The evidence of an option is there and fresh, and the option passes V-01 to V-12.
  pub record IsVetted (cover : ℤ) (o : PlanOption) : Type 0 where
    pub e : OptionEvidence
    pub found : evidence o.id ≡ some e
    pub fresh : is_fresh moment_of number_of equal arrival_text today hours t e ≡ true
    pub sources : sources_ok moment_of number_of equal arrival_text today hours o e ≡ true
    pub quantities : valid_quantities o ≡ true
    pub dates : dates_ok moment_of number_of equal arrival_text today hours t.now o e ≡ true
    pub actions : actions_ok o e ≡ true
    pub masters : masters_ok o e ≡ true
    pub compliance : compliance_ok o e ≡ true
    pub donors : donors_ok cover o e ≡ true
    pub unreserved : unreserved_ok o e ≡ true
    pub cost : cost_ok o e ≡ true
    pub lead :
        lead_ok moment_of number_of equal arrival_text today hours t.now t.max_price_age o e ≡ true
    pub recipients : recipients_ok e ≡ true
    pub confirmed : confirmed_ok e ≡ true

  abbrev checks_of : (cover : ℤ) → PlanOption → List Check
  checks_of cover o =
      option_checks moment_of number_of equal arrival_text today hours evidence cover t o

  fresh-IsVetted :
      (cover : ℤ) (o : PlanOption) (e : OptionEvidence)
      → evidence o.id ≡ some e
      → is_fresh moment_of number_of equal arrival_text today hours t e ≡ true
      → any blocks (fresh_checks moment_of number_of equal arrival_text today hours cover t o e)
        ≡ false
      → IsVetted cover o
  fresh-IsVetted cover o e f g h = record {
    e = e;
    found = f;
    fresh = g;
    sources = ground arith;
    quantities = ground arith;
    dates = ground arith;
    actions = ground arith;
    masters = ground arith;
    compliance = ground arith;
    donors = ground arith;
    unreserved = ground arith;
    cost = ground arith;
    lead = ground arith;
    recipients = ground arith;
    confirmed = ground arith;
  }

  stale_blocks :
      (o : PlanOption)
      → any blocks (stale_checks moment_of number_of equal arrival_text today hours o) ≢ false
  unfolding String_discrete
  stale_blocks o h = no_both h

  pub option-IsVetted :
      (cover : ℤ) (o : PlanOption) → any blocks (checks_of cover o) ≡ false → IsVetted cover o
  unfolding option_checks
  option-IsVetted cover o h = elim (Option-cases (evidence o.id)) [
    | inl missing ↦ absurd (stale_blocks o (rw (missing, option_checks) at h))
    | inr (e, found) ↦
        elim (Bool-cases (is_fresh moment_of number_of equal arrival_text today hours t e)) [
          | inr stale ↦ absurd (stale_blocks o (rw (found, option_checks, stale) at h))
          | inl fresh ↦ fresh-IsVetted cover o e found fresh (rw (found, option_checks, fresh) at h)
        ]
  ]

  pub all_checks-option :
      (cover : ℤ) (os : List PlanOption) (o : PlanOption)
      → Listed o os
      → (p : Check → Bool)
      → any p (all_checks moment_of number_of equal arrival_text today hours evidence cover t os)
        ≡ false
      → any p (checks_of cover o) ≡ false
  unfolding all_checks
  all_checks-option cover [] o m p h = absurd m
  all_checks-option cover (x ∷ xs) o (inl e) p h = rw e (any-append p (checks_of cover x) _ h).0
  all_checks-option cover (x ∷ xs) o (inr m) p h =
      all_checks-option cover xs o m p (any-append p (checks_of cover x) _ h).1

  pub checks_of-id :
      (cover : ℤ) (o : PlanOption) (q : String → Bool)
      → q o.id ≡ true
      → any (both (of_or_free q) blocks) (checks_of cover o) ≡ any blocks (checks_of cover o)
  unfolding option_checks
  checks_of-id cover o q h = elim (Option-cases (evidence o.id)) [
    | inl missing ↦ rw (missing, option_checks, h) refl
    | inr (e, found) ↦
        elim (Bool-cases (is_fresh moment_of number_of equal arrival_text today hours t e)) [
          | inr stale ↦ rw (found, option_checks, stale, h) refl
          | inl fresh ↦ rw (found, option_checks, fresh, h) refl
        ]
  ]

  abbrev pub chosen_of : Plan → List PlanOption
  chosen_of p = selected_of moment_of number_of equal arrival_text today hours p.chosen p.options

  abbrev chosen_facts : Plan → List OptionEvidence
  chosen_facts p =
      facts_of moment_of number_of equal arrival_text today hours evidence (chosen_of p)

  abbrev combined : (cover : ℤ) → Plan → List Check
  combined cover p =
      combined_checks moment_of number_of equal arrival_text today hours cover (chosen_facts p)
        (transfers (chosen_of p))

  -- The checks of the whole plan passed.
  pub record IsWhole (cover : ℤ) (p : Plan) : Type 0 where
    pub totals : totals_ok moment_of number_of equal arrival_text today hours p (chosen_of p) ≡ true
    pub combined_cost :
        combined_cost_ok moment_of number_of equal arrival_text today hours p (chosen_facts p)
        ≡ true
    pub combined_transfers : any blocks (combined cover p) ≡ false
    pub allocated : portfolio_check t.allocation (chosen_of p) ≡ true

  pub plan-IsWhole :
      (cover : ℤ) (p : Plan)
      → any blocks
          (plan_checks moment_of number_of equal arrival_text today hours evidence cover t p)
        ≡ false
      → IsWhole cover p
  unfolding plan_checks
  plan-IsWhole cover p h =
      let allocated : Bool = portfolio_check t.allocation (chosen_of p) in
      let (a, b, rest) = first_two _ _ (combined cover p ++ global "V-15" allocated ∷ []) h in
      let (transferred, last) =
        any-append blocks (combined cover p) (global "V-15" allocated ∷ []) rest in
      record {
        totals = a;
        combined_cost = b;
        combined_transfers = transferred;
        allocated = last_one allocated last;
      }
