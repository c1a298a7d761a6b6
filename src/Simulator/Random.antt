-- ===== src/Simulator/Random.antt =====
-- What the simulator does with Python's `random`, `math` and `hashlib`: a parameter. `S` is the
-- state of a `random.Random`.
use payment_recovery_opportu.Base.{ℕ, zero, suc, String, Option, List, [], ◌∷◌}
use payment_recovery_opportu.Models.{Float}
use payment_recovery_opportu.Floats.{FloatOps}

pub record Randomness (S : Type 0) : Type 0 where
  pub floats : FloatOps
  -- `random.Random(seed)`
  pub seeded : ℕ → S
  pub randint : ℕ → ℕ → S → ℕ × S
  -- `choice`, by the number of elements: the index that is drawn
  pub choice : ℕ → S → ℕ × S
  -- `choices(...)[0]`, by the weights, whose sum is positive: the index that is drawn
  pub choices : List Float → S → ℕ × S
  pub gauss : Float → Float → S → Float × S
  pub random : S → Float × S
  pub neg : Float → Float
  -- `math.exp`, which raises an OverflowError
  pub exp : Float → Option Float
  -- the first eight bytes of the SHA-256 digest
  pub hidden_seed : String → ℕ

-- The element at an index, which is below the length.
abbrev pub element : {A : Type 0} → A → List A → ℕ → A
element x [] i = x
element x (y ∷ ys) zero = x
element x (y ∷ ys) (suc i) = element y ys i
