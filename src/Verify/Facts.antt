-- ===== src/Verify/Facts.antt =====
-- services/verifier/logic.py: the tests behind the checks V-04 to V-13 of an option. A comparison with
-- NaN is false here, where Python raises an exception.
use aera_be.Prelude.{
  String, str_eq, contains, ℕ, ◌==◌, Bool, true, false, not, ◌&&◌, Option, none, some, List, [],
  ◌∷◌, ◌++◌, map, all, if◌then◌else◌,
}
use aera_be.Prelude.Int.{ℤ, pos, leb_ℤ, ltb_ℤ, eq_ℤ}
use aera_be.Prelude.Decimal.{Decimal, exact, infinite, nan}
use aera_be.Plan.{
  LinePart, Action, create_sto, change_po_date, split_po_schedule_line, book_air_freight,
  create_po_alternate,
}
use aera_be.Verify.{
  Value, Figure, Instant, PlanOption, Donor, OptionEvidence, Grounding, valid, transfers, donor_ok,
}

abbrev pub equals : ℤ → Decimal → Bool
equals n (exact m) = eq_ℤ n m
equals n _ = false

abbrev pub below : ℤ → Decimal → Bool
below n (exact m) = ltb_ℤ n m
below n infinite = true
below n nan = false

abbrev pub at_least : Decimal → ℤ → Bool
at_least (exact m) n = leb_ℤ n m
at_least infinite n = true
at_least nan n = false

abbrev pub is_positive : Decimal → Bool
is_positive (exact n) = ltb_ℤ (pos 0) n
is_positive _ = false

abbrev pub not_negative : ℤ → Bool
not_negative n = leb_ℤ (pos 0) n

abbrev pub same_bool : Bool → Bool → Bool
same_bool true b = b
same_bool false b = not b

abbrev pub same_instant : Instant → Instant → Bool
same_instant a b = eq_ℤ a.at b.at && same_bool a.has_zone b.has_zone

abbrev pub same_parts : List LinePart → List LinePart → Bool
same_parts [] [] = true
same_parts (a ∷ as_) (b ∷ bs) =
    eq_ℤ a.qty b.qty && a.delivery_date == b.delivery_date && same_parts as_ bs
same_parts _ _ = false

-- Equal `model_dump`s.
abbrev pub same_action : Action → Action → Bool
same_action (create_sto f t m q d) (create_sto f' t' m' q' d') =
    str_eq f f' && str_eq t t' && str_eq m m' && eq_ℤ q q' && d == d'
same_action (change_po_date n i s d) (change_po_date n' i' s' d') =
    str_eq n n' && str_eq i i' && str_eq s s' && d == d'
same_action (split_po_schedule_line n i s ps) (split_po_schedule_line n' i' s' ps') =
    str_eq n n' && str_eq i i' && str_eq s s' && same_parts ps ps'
same_action (book_air_freight u n i q a) (book_air_freight u' n' i' q' a') =
    str_eq u u' && str_eq n n' && str_eq i i' && eq_ℤ q q' && a == a'
same_action (create_po_alternate u m p q d) (create_po_alternate u' m' p' q' d') =
    str_eq u u' && str_eq m m' && str_eq p p' && eq_ℤ q q' && d == d'
same_action _ _ = false

abbrev pub same_actions : List Action → List Action → Bool
same_actions [] [] = true
same_actions (a ∷ as_) (b ∷ bs) = same_action a b && same_actions as_ bs
same_actions _ _ = false

abbrev pub texts_of : Action → List String
texts_of (create_sto f t m q d) = f ∷ t ∷ m ∷ []
texts_of (change_po_date n i s d) = n ∷ i ∷ s ∷ []
texts_of (split_po_schedule_line n i s ps) = n ∷ i ∷ s ∷ []
texts_of (book_air_freight u n i q a) = u ∷ n ∷ i ∷ []
texts_of (create_po_alternate u m p q d) = u ∷ m ∷ p ∷ []

abbrev pub no_empty_text : Action → Bool
no_empty_text a = all (λ t. not (str_eq t "")) (texts_of a)

abbrev pub dates_of : Action → List ℕ
dates_of (create_sto f t m q d) = d ∷ []
dates_of (change_po_date n i s d) = d ∷ []
dates_of (split_po_schedule_line n i s ps) = map (λ p. p.delivery_date) ps
dates_of (book_air_freight u n i q a) = []
dates_of (create_po_alternate u m p q d) = d ∷ []

abbrev pub all_dates : List Action → List ℕ
all_dates [] = []
all_dates (a ∷ rest) = dates_of a ++ all_dates rest

-- `figure_values.get(name)`: the last figure of the name.
abbrev pub figure_value : String → List Figure → Option Value
figure_value name [] = none
figure_value name (f ∷ fs) = elim (figure_value name fs) [
  | some v ↦ some v
  | none ↦ if str_eq f.name name then some f.value else none
]

abbrev pub any_figures : List Figure → Bool
any_figures [] = false
any_figures (f ∷ fs) = true

-- V-04
unfoldable pub actions_ok : PlanOption → OptionEvidence → Bool
actions_ok o e = elim e.expected_actions [
  | none ↦ false
  | some [] ↦ false
  | some (a ∷ rest) ↦ same_actions o.actions (a ∷ rest) && all no_empty_text o.actions
]

-- V-05, for one action.
abbrev pub action_masters : OptionEvidence → Action → Bool
action_masters e (create_sto f t m q d) =
    contains f e.plants && str_eq t e.plant && str_eq m e.material
action_masters e (book_air_freight u n i q a) = contains u e.suppliers
action_masters e (create_po_alternate u m p q d) =
    contains u e.suppliers && str_eq p e.plant && str_eq m e.material
action_masters e _ = true

unfoldable pub masters_ok : PlanOption → OptionEvidence → Bool
masters_ok o e = contains e.plant e.plants && all (action_masters e) o.actions

-- V-06, for one action.
abbrev pub is_approved : Option String → Bool
is_approved none = false
is_approved (some status) = str_eq status "APPROVED"

abbrev pub action_compliant : OptionEvidence → Action → Bool
action_compliant e (create_po_alternate u m p q d) = is_approved (e.compliance u)
action_compliant e _ = true

unfoldable pub compliance_ok : PlanOption → OptionEvidence → Bool
compliance_ok o e = all (action_compliant e) o.actions

-- V-07
unfoldable pub donors_ok : (minimum_cover : ℤ) → PlanOption → OptionEvidence → Bool
donors_ok minimum_cover o e =
    all (λ x. donor_ok (e.donors x.0) x.1 minimum_cover) (transfers (o ∷ []))

abbrev pub has_unreserved : ℤ → Option Donor → Bool
has_unreserved qty none = false
has_unreserved qty (some d) = at_least d.unreserved qty

-- V-08
unfoldable pub unreserved_ok : PlanOption → OptionEvidence → Bool
unreserved_ok o e = all (λ x. has_unreserved x.1 (e.donors x.0)) (transfers (o ∷ []))

-- V-09
unfoldable pub cost_ok : PlanOption → OptionEvidence → Bool
cost_ok o e =
    not_negative o.cost_usd && is_positive e.rar_protected && below o.cost_usd e.rar_protected

-- V-11
unfoldable pub recipients_ok : OptionEvidence → Bool
recipients_ok e = all (λ r. contains r e.allowed_recipients) e.recipients

-- V-12
unfoldable pub confirmed_ok : OptionEvidence → Bool
confirmed_ok e = elim e.unconfirmed_fields [ [] ↦ true | f ∷ fs ↦ false ]

abbrev pub seven_tenths : ℤ
seven_tenths = pos 700000

-- V-13
unfoldable pub grounding_ok : Grounding → Bool
grounding_ok g = valid g && at_least g.score seven_tenths && at_least g.relevance seven_tenths
