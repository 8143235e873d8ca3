-- ===== src/Storage.antt =====
-- DynamoDB, as services/shared/dynamo.py and the stores use it: consistent reads and conditional
-- writes. The service is not part of the repository, so it is a parameter: a record of its
-- operations with the behaviour that its documentation promises. A single conditional put or
-- update is a transaction of one write.
pub mod Memory
pub mod Values
use aera_be.Prelude.{◌≡◌, Bool, not, Option, List, [], ◌∷◌, map, ite, all, if◌then◌else◌}

-- One item of a transaction: its key, its ConditionExpression as a test of the item that stands
-- there, and the item that it leaves. A ConditionCheck leaves the item as it was.
pub record Write (K V : Type 0) : Type 0 where
  pub key : K
  pub holds : Option V → Bool
  pub item : Option V → Option V

module _ {K V : Type 0} where
  -- Every condition is tested against the items as they stand before the transaction.
  abbrev pub passes : List (Write K V) → (K → Option V) → Bool
  passes ws view = all (λ w. w.holds (view w.key)) ws

  -- The items after the transaction. The service refuses two writes of one key.
  abbrev pub written : Discrete K → List (Write K V) → (K → Option V) → K → Option V
  written dec [] view j = view j
  written dec (w ∷ ws) view j = ite (dec w.key j) (w.item (view j)) (written dec ws view j)

-- All or nothing: a transaction answers whether its conditions held, and then every write of it
-- has taken place, or none.
pub record Database (K V : Type 0) : Type 1 where
  pub State : Type 0
  pub same : Discrete K
  pub get : State → K → Option V
  pub commit : List (Write K V) → State → Bool
  pub after : List (Write K V) → State → State
  -- The `CancellationReasons`: which of the conditions failed.
  pub refused : List (Write K V) → State → List Bool
  pub refused-holds :
      (ws : List (Write K V)) (s : State) → refused ws s ≡ map (λ w. not (w.holds (get s w.key))) ws
  pub commit-passes : (ws : List (Write K V)) (s : State) → commit ws s ≡ passes ws (get s)
  pub get-after :
      (ws : List (Write K V)) (s : State) (j : K)
      → get (after ws s) j ≡ (if passes ws (get s) then written same ws (get s) j else get s j)
