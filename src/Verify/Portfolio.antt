-- ===== src/Verify/Portfolio.antt =====
-- services/verifier/logic.py: `_quantities`, the quantities of V-02, and `_portfolio_check` of V-15.
use aera_be.Prelude.{
  String, ℕ, suc, ◌*◌, ◌/◌, ◌%◌, ◌-◌, ap, ◌==◌, ◌≡◌, ◌≢◌, refl, Bool, true, false, not, ◌&&◌,
  Option, none, some, List, [], ◌∷◌, ◌++◌, arith, all, All, map, &&→both,
}
use aera_be.Prelude.Int.{ℤ, pos, negsuc, ◌≤ℤ◌, leb_ℤ, leb_ℤ→≤ℤ, sum_ℤ, int_laws}
use aera_be.Prelude.Decimal.{is_whole}
use aera_be.Plan.{
  LinePart, Action, create_sto, change_po_date, split_po_schedule_line, book_air_freight,
  create_po_alternate,
}
use aera_be.Verify.{PlanOption}

abbrev action_quantities : Action → List ℤ
action_quantities (create_sto _ _ _ qty _) = qty ∷ []
action_quantities (change_po_date _ _ _ _) = []
action_quantities (split_po_schedule_line _ _ _ parts) = map (λ p. p.qty) parts
action_quantities (book_air_freight _ _ _ qty _) = qty ∷ []
action_quantities (create_po_alternate _ _ _ qty _) = qty ∷ []

abbrev pub all_quantities : List Action → List ℤ
all_quantities [] = []
all_quantities (a ∷ rest) = action_quantities a ++ all_quantities rest

unfoldable pub quantities : PlanOption → List ℤ
quantities o = o.coverage_units ∷ all_quantities o.actions

-- Positive, and a whole number of units.
abbrev is_quantity : ℤ → Bool
is_quantity (pos n) = not (n == 0) && is_whole n
is_quantity _ = false

-- The test of V-02.
unfoldable pub valid_quantities : PlanOption → Bool
unfolding quantities
valid_quantities o = all is_quantity (quantities o)

all-append :
    {A : Type 0} (p : A → Bool) (xs ys : List A)
    → all p (xs ++ ys) ≡ true
    → (all p xs ≡ true) × (all p ys ≡ true)
all-append p [] ys h = (refl, h)
all-append p (x ∷ xs) ys h =
    let (a, rest) = &&→both (p x) (all p (xs ++ ys)) h in
    let (b, c) = all-append p xs ys rest in (ground arith, c)

-- A positive whole number of units.
abbrev pub WholeUnits : ℤ → Type 0
WholeUnits q = (n : ℕ) × (q ≡ pos (suc n * 1000000))

-- Each quantity that an action has is positive and whole; a split line has one for each part.
abbrev pub InUnits : Action → Type 0
InUnits (create_sto _ _ _ qty _) = WholeUnits qty
InUnits (change_po_date _ _ _ _) = Unit
InUnits (split_po_schedule_line _ _ _ parts) = All (λ p. WholeUnits p.qty) parts
InUnits (book_air_freight _ _ _ qty _) = WholeUnits qty
InUnits (create_po_alternate _ _ _ qty _) = WholeUnits qty

is_quantity-WholeUnits : (q : ℤ) → is_quantity q ≡ true → WholeUnits q
is_quantity-WholeUnits (pos n) h =
    let (positive, whole) = &&→both (not (n == 0)) (is_whole n) h in
    let off : n ≢ 0 = ground arith in
    let even : n % 1000000 ≡ 0 = ground arith in (n / 1000000 - 1, ap pos (omega arith))
is_quantity-WholeUnits (negsuc n) h = cc h

parts-WholeUnits :
    (parts : List LinePart)
    → all is_quantity (map (λ p. p.qty) parts) ≡ true
    → All (λ p. WholeUnits p.qty) parts
parts-WholeUnits [] h = tt
parts-WholeUnits (p ∷ ps) h =
    let (a, rest) = &&→both (is_quantity p.qty) (all is_quantity (map (λ x. x.qty) ps)) h in
    (is_quantity-WholeUnits p.qty a, parts-WholeUnits ps rest)

one_quantity : (q : ℤ) → all is_quantity (q ∷ []) ≡ true → WholeUnits q
one_quantity q h = is_quantity-WholeUnits q (&&→both (is_quantity q) true h).0

action-InUnits : (a : Action) → all is_quantity (action_quantities a) ≡ true → InUnits a
action-InUnits (create_sto _ _ _ qty _) h = one_quantity qty h
action-InUnits (change_po_date _ _ _ _) h = tt
action-InUnits (split_po_schedule_line _ _ _ parts) h = parts-WholeUnits parts h
action-InUnits (book_air_freight _ _ _ qty _) h = one_quantity qty h
action-InUnits (create_po_alternate _ _ _ qty _) h = one_quantity qty h

actions-InUnits :
    (acts : List Action) → all is_quantity (all_quantities acts) ≡ true → All InUnits acts
actions-InUnits [] h = tt
actions-InUnits (a ∷ rest) h =
    let (b, c) = all-append is_quantity (action_quantities a) (all_quantities rest) h in
    (action-InUnits a b, actions-InUnits rest c)

-- An option that passes V-02 has a coverage of a positive whole number of units, and so are all the
-- quantities of its actions, those of the parts of a split line included.
pub valid_quantities-InUnits :
    (o : PlanOption)
    → valid_quantities o ≡ true
    → WholeUnits o.coverage_units × All InUnits o.actions
unfolding valid_quantities quantities
valid_quantities-InUnits o h =
    let (a, rest) =
      &&→both (is_quantity o.coverage_units) (all is_quantity (all_quantities o.actions)) h in
    (is_quantity-WholeUnits o.coverage_units a, actions-InUnits o.actions rest)

-- `allocation.get(option.id, ZERO)`
abbrev pub allocated : (String → Option ℤ) → PlanOption → ℤ
allocated allocation o = elim (allocation o.id) [ none ↦ pos 0 | some q ↦ q ]

abbrev within : (String → Option ℤ) → PlanOption → Bool
within allocation o = leb_ℤ o.coverage_units (allocated allocation o)

abbrev has_any : List PlanOption → Bool
has_any [] = false
has_any (o ∷ os) = true

unfoldable pub portfolio_check : Option (String → Option ℤ) → List PlanOption → Bool
portfolio_check none selected = true
portfolio_check (some allocation) selected = all (within allocation) selected && has_any selected

sum-within :
    (allocation : String → Option ℤ) (os : List PlanOption)
    → all (within allocation) os ≡ true
    → sum_ℤ (λ o. o.coverage_units) os ≤ℤ sum_ℤ (allocated allocation) os
unfolding sum_ℤ
sum-within allocation [] h = omega arith
sum-within allocation (o ∷ os) h =
    let (a, rest) = &&→both (within allocation o) (all (within allocation) os) h in
    let here : o.coverage_units ≤ℤ allocated allocation o =
      leb_ℤ→≤ℤ o.coverage_units (allocated allocation o) a in
    let there : sum_ℤ (λ p. p.coverage_units) os ≤ℤ sum_ℤ (allocated allocation) os =
      sum-within allocation os rest in
    omega int_laws

-- A choice that passes V-15 against an allocation has an option, and all its options together use
-- no more than what is allocated to them together.
pub portfolio_check-within :
    (allocation : String → Option ℤ) (selected : List PlanOption)
    → portfolio_check (some allocation) selected ≡ true
    → (selected ≢ [])
      × (sum_ℤ (λ o. o.coverage_units) selected ≤ℤ sum_ℤ (allocated allocation) selected)
unfolding portfolio_check
portfolio_check-within allocation [] h = cc h
portfolio_check-within allocation (o ∷ os) h =
    let (a, rest) = &&→both (all (within allocation) (o ∷ os)) (has_any (o ∷ os)) h in
    ((λ e. cc e), sum-within allocation (o ∷ os) a)
