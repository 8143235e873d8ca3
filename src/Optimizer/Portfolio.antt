-- ===== src/Optimizer/Portfolio.antt =====
-- services/optimizer/portfolio.py: the cases that compete for a resource, as connected components. A
-- set is a list; the texts of cases are in their order, so the unseen cases stay sorted.
pub mod Walk
pub mod Reach
pub mod Apart
use aera_be.Prelude.{
  String, str_eq, contains, codes, ℕ, zero, suc, ◌+◌, Bool, true, false, not, ◌&&◌, ◌||◌, Option,
  none, some, List, [], ◌∷◌, ◌++◌, map, any, leb, ite, length, if◌then◌else◌,
}
use aera_be.Prelude.Int.{ℤ, pos, ◌+ℤ◌, leb_ℤ}
use aera_be.Plan.{
  Action, create_sto, change_po_date, split_po_schedule_line, book_air_freight, create_po_alternate,
}
use aera_be.Case.Status.{CaseStatus, CaseStatus_discrete, closed, rolled_back, failed_rolled_back}
use aera_be.Routing.Logic.{text_le}

-- `STOCK#…`, `DONOR#…`, `FREIGHT#…` and `PARTIAL#…`.
pub data Resource : Type 0 where
  stock_of donor_of freight_of partial_of : String → String → Resource

abbrev pub same_resource : Resource → Resource → Bool
same_resource (stock_of a b) (stock_of c d) = str_eq a c && str_eq b d
same_resource (donor_of a b) (donor_of c d) = str_eq a c && str_eq b d
same_resource (freight_of a b) (freight_of c d) = str_eq a c && str_eq b d
same_resource (partial_of a b) (partial_of c d) = str_eq a c && str_eq b d
same_resource _ _ = false

-- A candidate option: its actions and its arrival, in microseconds.
pub record Offer : Type 0 where
  pub actions : List Action
  pub arrival : ℤ

-- The fields of a case and its candidates that are read here.
pub record PortfolioCase : Type 0 where
  pub case_id : String
  pub material : String
  pub plant : String
  pub status : CaseStatus
  pub candidates : List Offer

pub record Portfolio : Type 0 where
  pub case_ids : List String
  pub shared_resources : List Resource

-- `HORIZON`, thirty days.
abbrev pub horizon : ℤ
horizon = pos 2592000000000

abbrev action_resources : PortfolioCase → Action → List Resource
action_resources e (create_sto from_plant to_plant material qty date) =
    donor_of material from_plant ∷ []
action_resources e (book_air_freight supplier number item qty arrival) =
    freight_of supplier e.plant ∷ partial_of supplier e.material ∷ []
action_resources e (create_po_alternate supplier material plant qty date) =
    partial_of supplier e.material ∷ []
action_resources e _ = []

abbrev actions_resources : PortfolioCase → List Action → List Resource
actions_resources e [] = []
actions_resources e (a ∷ rest) = action_resources e a ++ actions_resources e rest

abbrev offers_resources : PortfolioCase → (now : ℤ) → List Offer → List Resource
offers_resources e now [] = []
offers_resources e now (o ∷ os) =
    let rest = offers_resources e now os in
    if leb_ℤ now o.arrival && leb_ℤ o.arrival (now +ℤ horizon)
    then actions_resources e o.actions ++ rest
    else rest

-- `resources`
unfoldable pub resources : PortfolioCase → (now : ℤ) → List Resource
resources e now = stock_of e.material e.plant ∷ offers_resources e now e.candidates

abbrev pub holds : Resource → List Resource → Bool
holds r rs = any (same_resource r) rs

unfoldable pub overlap : List Resource → List Resource → List Resource
overlap [] ys = []
overlap (x ∷ xs) ys = let rest = overlap xs ys in if holds x ys then x ∷ rest else rest

abbrev pub any_left {ℓ} : {A : Type ℓ} → List A → Bool
any_left [] = false
any_left (x ∷ xs) = true

abbrev is_case : CaseStatus → CaseStatus → Bool
is_case a b = ite (CaseStatus_discrete a b) true false

abbrev is_closed : CaseStatus → Bool
is_closed s = is_case s closed || is_case s rolled_back || is_case s failed_rolled_back

-- The active cases, sorted by their ids.
unfoldable insert_case : PortfolioCase → List PortfolioCase → List PortfolioCase
unfolding text_le
insert_case e [] = e ∷ []
insert_case e (x ∷ xs) =
    let rest = insert_case e xs in
    if text_le (codes e.case_id) (codes x.case_id) then e ∷ x ∷ xs else x ∷ rest

unfoldable pub active_of : List PortfolioCase → List PortfolioCase
unfolding insert_case
active_of [] = []
active_of (e ∷ es) =
    let rest = active_of es in if is_closed e.status then rest else insert_case e rest

-- `neighbours`: two cases with a resource in common.
unfoldable pub competes : (now : ℤ) → PortfolioCase → PortfolioCase → Bool
unfolding resources overlap
competes now a b =
    not (str_eq a.case_id b.case_id) && any_left (overlap (resources a now) (resources b now))

module _ {ℓ} {A : Type ℓ} (adjacent : A → A → Bool) where
  -- The unseen neighbours of a node, and the others.
  abbrev pub next_to : A → List A → List A
  next_to node [] = []
  next_to node (u ∷ us) = if adjacent node u then u ∷ next_to node us else next_to node us

  abbrev pub apart_from : A → List A → List A
  apart_from node [] = []
  apart_from node (u ∷ us) = if adjacent node u then apart_from node us else u ∷ apart_from node us

  abbrev pub onto : List A → List A → List A
  onto [] stack = stack
  onto (x ∷ xs) stack = onto xs (x ∷ stack)

  -- The inner loop, on fuel: the stack with its top first, the component so far and the unseen
  -- cases. It ends in the component and the cases that are still unseen.
  unfoldable pub walk : (fuel : ℕ) → (pending component unseen : List A) → Option (List A × List A)
  walk zero pending component unseen = none
  walk (suc n) [] component unseen = some (component, unseen)
  walk (suc n) (node ∷ pending) component unseen =
      walk n (onto (next_to node unseen) pending) (component ++ next_to node unseen)
        (apart_from node unseen)

  -- The outer loop: the least unseen case is the root of the next component.
  unfoldable pub components : (fuel : ℕ) → List A → Option (List (List A))
  unfolding walk
  components zero unseen = none
  components (suc n) [] = some []
  components (suc n) (root ∷ unseen) =
      elim (walk (suc (suc (length unseen))) (root ∷ []) (root ∷ []) unseen) [
        | none ↦ none
        | some (component, left) ↦ elim (components n left) [
          | none ↦ none
          | some later ↦ some (component ∷ later)
        ]
      ]

-- Every resource once.
unfoldable union : List Resource → List Resource → List Resource
union [] ys = ys
union (x ∷ xs) ys = let rest = union xs ys in if holds x rest then rest else x ∷ rest

abbrev shared_with : (now : ℤ) → PortfolioCase → List PortfolioCase → List Resource
shared_with now e [] = []
shared_with now e (x ∷ xs) =
    union (overlap (resources e now) (resources x now)) (shared_with now e xs)

-- What the pairs of a component share.
unfoldable pub shared : (now : ℤ) → List PortfolioCase → List Resource
unfolding union overlap resources
shared now [] = []
shared now (e ∷ es) = union (shared_with now e es) (shared now es)

abbrev sorted : List PortfolioCase → List PortfolioCase
sorted [] = []
sorted (e ∷ es) = insert_case e (sorted es)

-- Single cases are not portfolios.
unfoldable pub portfolios_of : (now : ℤ) → List (List PortfolioCase) → List Portfolio
unfolding insert_case shared
portfolios_of now [] = []
portfolios_of now (c ∷ cs) =
    let rest = portfolios_of now cs in
    if leb 2 (length c)
    then record {
      case_ids = map (λ e. e.case_id) (sorted c);
      shared_resources = shared now (sorted c);
    }
      ∷ rest
    else rest

-- The roots ascend, so the portfolios are in the order of their cases.
unfoldable pub detect : (fuel : ℕ) → List PortfolioCase → (now : ℤ) → Option (List Portfolio)
unfolding active_of competes components portfolios_of
detect fuel entries now = elim (components (competes now) fuel (active_of entries)) [
  | none ↦ none
  | some cs ↦ some (portfolios_of now cs)
]
