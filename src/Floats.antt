-- ===== src/Floats.antt =====
-- What the program does with binary64 numbers: Python's operations on floats are a parameter.
use payment_recovery_opportu.Base.{Bool, Option}
use payment_recovery_opportu.Models.{Float, ℤ, pos}

-- The comparisons are false where an operand is a NaN. `of_int` rounds to the nearest number.
pub record FloatOps : Type 0 where
  pub add : Float → Float → Float
  pub sub : Float → Float → Float
  pub mul : Float → Float → Float
  pub div : Float → Float → Float
  pub lt : Float → Float → Bool
  pub of_int : ℤ → Float
  -- `m / n` of two ints
  pub ratio : ℤ → ℤ → Float
  -- `x == n` for an int
  pub eq_int : Float → ℤ → Bool
  -- `int(x)`, which raises at a NaN and at an infinity
  pub trunc : Float → Option ℤ

-- `n / 100.0` for an amount in paise.
abbrev pub in_rupees : FloatOps → ℤ → Float
in_rupees fl n = fl.div (fl.of_int n) (fl.of_int (pos 100))
