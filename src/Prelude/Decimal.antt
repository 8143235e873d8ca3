-- ===== src/Prelude/Decimal.antt =====
-- Python's `Decimal`: an amount in millionths, or one of the values that are not finite.
use aera_be.Prelude.{ℕ, ◌%◌, Bool, Option, none, some, ◌==◌}
use aera_be.Prelude.Int.{ℤ, pos}

pub data Decimal : Type 0 where
  exact : (millionths : ℤ) → Decimal
  infinite nan : Decimal

-- The finite amounts that are not negative, as natural numbers.
abbrev pub natural : Decimal → Option ℕ
natural (exact (pos n)) = some n
natural _ = none

-- A whole number of units: `value == value.to_integral_value()`.
abbrev pub is_whole : ℕ → Bool
is_whole n = n % 1000000 == 0
