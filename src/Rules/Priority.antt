-- ===== src/Rules/Priority.antt =====
-- services/rules/br_13.py: the score of a case is its revenue at risk times its urgency. Hours and
-- amounts are millionths.
use native.Mathlib.Nat.{mul-le-mul_left}
use aera_be.Prelude.{ℕ, ◌≤◌, Option, none, some, arith, if◌then◌else◌}
use aera_be.Prelude.Int.{ℤ, pos, ◌-ℤ◌, ◌*ℤ◌, ◌≤ℤ◌, ltb_ℤ, int_laws}

unfoldable pub urgency : Option ℤ → ℕ
urgency none = 1
urgency (some h) = if ltb_ℤ h (pos 24000000) then 3 else if ltb_ℤ h (pos 72000000) then 2 else 1

unfoldable pub priority_score : ℤ → Option ℤ → ℤ
unfolding urgency
priority_score rar h = rar *ℤ pos (urgency h)

-- The second part of a key: none is infinity.
unfoldable pub board_key : ℤ → Option ℤ → ℤ × Option ℤ
unfolding priority_score
board_key rar h = (pos 0 -ℤ priority_score rar h, h)

-- The order of keys.
abbrev pub Sooner : Option ℤ → Option ℤ → Type 0
Sooner (some a) (some b) = a ≤ℤ b
Sooner (some a) none = Unit
Sooner none (some b) = ⊥
Sooner none none = Unit

-- Less time to the stock-out never makes a case less urgent, and an urgency is 1, 2 or 3.
urgency-antitone :
    (a b : Option ℤ) → Sooner a b → (urgency b ≤ urgency a) × (1 ≤ urgency b) × (urgency a ≤ 3)
unfolding urgency
urgency-antitone (some a) (some b) h = (ground arith, ground arith, ground arith)
urgency-antitone (some a) none h = (ground arith, ground arith, ground arith)
urgency-antitone none (some b) h = absurd h
urgency-antitone none none h = (ground arith, ground arith, ground arith)

score-urgency : (rar u w : ℕ) → u ≤ w → pos rar *ℤ pos u ≤ℤ pos rar *ℤ pos w
unfolding ◌*ℤ◌
score-urgency rar u w h = ground (arith, mul-le-mul_left rar h)

-- Of two cases with the same revenue at risk, not below 0, the one that runs out sooner is not
-- behind the other on the board: its key is below, or the first parts are equal and its hours are
-- no more.
pub board_key-Sooner :
    (rar : ℕ) (a b : Option ℤ)
    → Sooner a b
    → ((board_key (pos rar) a).0 ≤ℤ (board_key (pos rar) b).0)
      × Sooner (board_key (pos rar) a).1 (board_key (pos rar) b).1
unfolding board_key priority_score
board_key-Sooner rar a b h =
    let (le, low, high) = urgency-antitone a b h in
    let scores = score-urgency rar (urgency b) (urgency a) le in (omega int_laws, h)
