-- ===== src/Optimizer/Projection.antt =====
-- services/optimizer/projection.py: `project`, the stock of a plant over time. Instants are
-- microseconds. An amount is in 3600ths of a millionth, so that what an hourly rate uses up in whole
-- seconds is exact, where Python's quotients keep 28 digits.
pub mod Windows
use aera_be.Prelude.{
  String, ℕ, zero, suc, ◌+◌, ◌-◌, ◌*◌, ◌/◌, ◌%◌, ◌==◌, Bool, true, false, not, ◌&&◌, Option, none,
  some, List, [], ◌∷◌, ◌++◌, map, leb, ltb, if◌then◌else◌,
}
use aera_be.Prelude.Int.{ℤ, pos, negsuc, ◌+ℤ◌, ◌-ℤ◌, leb_ℤ, ltb_ℤ}

-- `Movement`
pub record Movement : Type 0 where
  pub at : ℤ
  pub qty : ℤ
  pub label : String
  pub source_ref : String

pub record Requirement : Type 0 where
  pub order : String
  pub at : ℤ
  pub qty : ℤ
  pub source_ref : String

-- `PlantInputs`; the rate is what an hour uses, in millionths.
pub record PlantInputs : Type 0 where
  pub plant : String
  pub on_hand : ℤ
  pub rate : ℤ
  pub movements : List Movement
  pub requirements : List Requirement
  pub source_refs : List String

-- `plus`
unfoldable pub plus : PlantInputs → List Movement → PlantInputs
plus p more = record p {
  movements = p.movements ++ more;
  source_refs = p.source_refs ++ map (λ m. m.source_ref) more;
}

pub record Window : Type 0 where
  pub start : ℤ
  pub end_ : Option ℤ
  pub orders : List String
  pub units_short : ℕ

pub record Projection : Type 0 where
  pub plant : String
  pub points : List (ℤ × ℕ)
  pub stockouts : List ℤ
  pub windows : List Window
  pub source_refs : List String

-- `max(x, ZERO)`
abbrev pub at_least_zero : ℤ → ℕ
at_least_zero (pos n) = n
at_least_zero (negsuc n) = 0

abbrev pub second : ℕ
second = 1000000

-- The whole seconds of a length of time.
abbrev pub seconds : ℤ → ℕ
seconds d = at_least_zero d / second

-- To the nearest whole number, a half to the even one.
abbrev pub rounded : (amount rate : ℕ) → ℕ
rounded amount rate =
    let q = amount / rate in
    let r = amount % rate in
    if ltb (r + r) rate then q else if ltb rate (r + r) then q + 1 else q + q % 2

-- `_after(stock / rate)`: how long the stock lasts.
abbrev pub lasts : (stock rate : ℕ) → ℤ
lasts stock rate = pos (rounded stock rate * second)

abbrev pub later : ℤ → ℤ → ℤ
later a b = if leb_ℤ a b then b else a

-- A stable sort by the instant, none before `now`.
unfoldable insert_movement : Movement → List Movement → List Movement
insert_movement m [] = m ∷ []
insert_movement m (x ∷ xs) =
    let rest = insert_movement m xs in if leb_ℤ m.at x.at then m ∷ x ∷ xs else x ∷ rest

unfoldable pub events_of : (now end_ : ℤ) → List Movement → List Movement
unfolding insert_movement
events_of now end_ [] = []
events_of now end_ (m ∷ ms) =
    let rest = events_of now end_ ms in
    let moved : Movement = record m { at = later m.at now } in
    if leb_ℤ moved.at end_ then insert_movement moved rest else rest

-- The variables of the loop.
pub record Course : Type 0 where
  pub t : ℤ
  pub stock : ℕ
  pub stopped_since : Option ℤ
  pub breaks : List (ℤ × ℕ)
  pub stockouts : List ℤ
  pub windows : List (ℤ × Option ℤ)

abbrev runs_dry : (rate : ℕ) → Course → ℤ → Course
runs_dry rate c dry = record c {
  stock = 0;
  breaks = c.breaks ++ (dry, 0) ∷ [];
  stockouts = c.stockouts ++ dry ∷ [];
  stopped_since = some dry;
}

-- The stock falls until the next event.
unfoldable pub fall : (rate : ℕ) → (until : ℤ) → Course → Course
fall rate until c =
    if ltb 0 c.stock && ltb 0 rate
    then if leb_ℤ (c.t +ℤ lasts c.stock rate) until
      then runs_dry rate c (c.t +ℤ lasts c.stock rate)
      else record c { stock = c.stock - rate * seconds (until -ℤ c.t) }
    else c

-- A receipt ends a stop, an issue can begin one.
abbrev pub stop_at : (rate : ℕ) → ℤ → Course → Course
stop_at rate at c = elim c.stopped_since [
  | some since ↦ c
  | none ↦
      if ltb 0 rate
      then record c { stopped_since = some at; stockouts = c.stockouts ++ at ∷ [] }
      else c
]

abbrev pub resume_at : ℤ → Course → Course
resume_at at c = elim c.stopped_since [
  | none ↦ c
  | some since ↦ record c { windows = c.windows ++ (since, some at) ∷ []; stopped_since = none }
]

abbrev pub with_break : ℤ → Course → Course
with_break at c = record c { breaks = c.breaks ++ (at, c.stock) ∷ [] }

unfoldable pub receive : (rate : ℕ) → Movement → Course → Course
receive rate m c =
    let total = pos c.stock +ℤ m.qty in
    if leb_ℤ total (pos 0)
    then with_break m.at (stop_at rate m.at (record c { t = m.at; stock = 0 }))
    else with_break m.at (resume_at m.at (record c { t = m.at; stock = at_least_zero total }))

unfoldable pub follow : (rate : ℕ) → (end_ : ℤ) → List Movement → Course → Course
unfolding fall receive
follow rate end_ [] c = fall rate end_ c
follow rate end_ (m ∷ ms) c = follow rate end_ ms (receive rate m (fall rate m.at c))

abbrev pub begun : (rate : ℕ) → (now : ℤ) → (stock : ℕ) → Course
begun rate now stock =
    let stopped = stock == 0 && ltb 0 rate in
    record {
      t = now;
      stock = stock;
      stopped_since = if stopped then some now else none;
      breaks = (now, stock) ∷ [];
      stockouts = if stopped then now ∷ [] else [];
      windows = [];
    }

-- A stop that lasts is a window without an end.
abbrev pub open_window : Option ℤ → List (ℤ × Option ℤ)
open_window none = []
open_window (some since) = (since, none) ∷ []

-- The last breakpoint that is not after the moment, or else the first.
abbrev break_at : ℤ → (ℤ × ℕ) → List (ℤ × ℕ) → ℤ × ℕ
break_at moment found [] = found
break_at moment found (b ∷ bs) = break_at moment (if leb_ℤ b.0 moment then b else found) bs

abbrev first_break : List (ℤ × ℕ) → ℤ × ℕ
first_break [] = (pos 0, 0)
first_break (b ∷ bs) = b

unfoldable pub value : (rate : ℕ) → List (ℤ × ℕ) → ℤ → ℕ
value rate breaks moment =
    let (start, level) = break_at moment (first_break breaks) breaks in
    level - rate * seconds (moment -ℤ start)

abbrev hour : ℕ
hour = 3600 * second

abbrev pub day : ℕ
day = 24 * hour

-- `n` instants from the `k`-th on, a step apart.
abbrev samples : (now : ℤ) → (step k n : ℕ) → List ℤ
samples now step k zero = []
samples now step k (suc n) = (now +ℤ pos (k * step)) ∷ samples now step (suc k) n

-- The orders whose requirement falls into a window.
unfoldable insert_requirement : Requirement → List Requirement → List Requirement
insert_requirement r [] = r ∷ []
insert_requirement r (x ∷ xs) =
    let rest = insert_requirement r xs in if leb_ℤ r.at x.at then r ∷ x ∷ xs else x ∷ rest

unfoldable affected : (start stop : ℤ) → List Requirement → List Requirement
unfolding insert_requirement
affected start stop [] = []
affected start stop (r ∷ rs) =
    let rest = affected start stop rs in
    if leb_ℤ start r.at && ltb_ℤ r.at stop then insert_requirement r rest else rest

abbrev or_end : Option ℤ → ℤ → ℤ
or_end none end_ = end_
or_end (some stop) end_ = stop

unfoldable pub window_of : (rate : ℕ) → (end_ : ℤ) → List Requirement → ℤ × Option ℤ → Window
unfolding affected
window_of rate end_ requirements (start, stop) = record {
  start = start;
  end_ = stop;
  orders = map (λ r. r.order) (affected start (or_end stop end_) requirements);
  units_short = rate * seconds (or_end stop end_ -ℤ start);
}

unfoldable pub course_of : PlantInputs → (now : ℤ) → (days : ℕ) → Course
unfolding events_of follow
course_of inputs now days =
    let end_ = now +ℤ pos (days * day) in
    let rate = at_least_zero inputs.rate in
    follow rate end_ (events_of now end_ inputs.movements)
      (begun rate now (at_least_zero inputs.on_hand))

unfoldable pub project : PlantInputs → (now : ℤ) → (days : ℕ) → Projection
unfolding course_of value window_of
project inputs now days =
    let end_ = now +ℤ pos (days * day) in
    let rate = at_least_zero inputs.rate in
    let c : Course = course_of inputs now days in
    record {
      plant = inputs.plant;
      points =
          map (λ moment. (moment, value rate c.breaks moment))
            (samples now hour 0 73 ++ samples now day 4 (days - 3));
      stockouts = c.stockouts;
      windows =
          map (window_of rate end_ inputs.requirements) (c.windows ++ open_window c.stopped_since);
      source_refs = inputs.source_refs;
    }
