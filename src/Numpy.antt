-- ===== src/Numpy.antt =====
-- What the learner's diagnostics and the analyses do with arrays: numpy's operations, and the
-- `spearmanr` of scipy, are a parameter. An array of numbers is a list of them.
use payment_recovery_opportu.Base.{Bool, List}
use payment_recovery_opportu.Models.{Float}
use payment_recovery_opportu.Session.{Result}
use payment_recovery_opportu.Floats.{FloatOps}

pub record Numpy : Type 0 where
  pub floats : FloatOps
  -- `x <= y`, which is false where an operand is a NaN
  pub le : Float → Float → Bool
  pub abs : Float → Float
  pub neg : Float → Float
  pub log : Float → Float
  -- `np.sign`
  pub sign : Float → Float
  -- `x == y`
  pub eq : Float → Float → Bool
  -- `np.clip(x, a, b)`
  pub clip : Float → Float → Float → Float
  pub sum : List Float → Float
  pub mean : List Float → Float
  -- `np.mean` of an array of truth values
  pub share : List Bool → Float
  pub median : List Float → Float
  pub std : List Float → Float
  -- which raise a ValueError at an empty array
  pub min : List Float → Result Float
  pub max : List Float → Result Float
  -- the correlation and its p-value; arrays that are too short may raise
  pub spearmanr : List Float → List Float → Result (Float × Float)
