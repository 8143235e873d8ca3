-- ===== src/Tests/Portfolios.antt =====
-- Competing cases at concrete inputs.
use aera_be.Prelude.{String_discrete, ◌≡◌, refl, inl, inr, some, List, [], ◌∷◌, Listed, arith}
use aera_be.Prelude.Int.{pos, ◌+ℤ◌}
use aera_be.Plan.{create_sto}
use aera_be.Case.Status.{investigating, CaseStatus_discrete}
use aera_be.Routing.Logic.{text_le}
use aera_be.Optimizer.Portfolio.{
  Offer, PortfolioCase, Portfolio, active_of, competes, components, detect,
}
use aera_be.Optimizer.Portfolio.Walk.{detect-ends}
use aera_be.Optimizer.Portfolio.Apart.{components-one}

-- A transfer from the plant 2020.
abbrev from_2020 : Offer
from_2020 = record {
  actions = create_sto "2020" "1010" "M1" (pos 5000000) 20260301 ∷ [];
  arrival = pos 1000;
}

abbrev one : PortfolioCase
one = record {
  case_id = "C1";
  material = "M1";
  plant = "1010";
  status = investigating;
  candidates = from_2020 ∷ [];
}

abbrev two : PortfolioCase
two = record {
  case_id = "C2";
  material = "M1";
  plant = "3030";
  status = investigating;
  candidates = from_2020 ∷ [];
}

abbrev three : PortfolioCase
three = record {
  case_id = "C3";
  material = "M9";
  plant = "1010";
  status = investigating;
  candidates = [];
}

abbrev entries : List PortfolioCase
entries = two ∷ three ∷ one ∷ []

detect-ends_example : (ps : List Portfolio) × (detect 4 entries (pos 0) ≡ some ps)
unfolding active_of text_le CaseStatus_discrete
detect-ends_example = detect-ends 4 entries (pos 0) (omega arith)

components-one_example :
    (c : List PortfolioCase) × Listed c ((one ∷ two ∷ []) ∷ (three ∷ []) ∷ [])
    × Listed one c
    × Listed two c
unfolding active_of competes components String_discrete ◌+ℤ◌ text_le CaseStatus_discrete
components-one_example =
    components-one 4 entries (pos 0) {cs = (one ∷ two ∷ []) ∷ (three ∷ []) ∷ []} one two refl
      (inl refl) (inr (inl refl)) refl
