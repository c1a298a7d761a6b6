-- ===== src/Experiment.antt =====
-- app/experiment.py: the assignment of a variant.
pub mod Share
use Prim.Native.String.{◌++◌}
use payment_recovery_opportu.Base.{
  ℕ, ◌%◌, min, String, not, ◌||◌, Option, none, some, ltb, ◌==◌, if◌then◌else◌,
}
use payment_recovery_opportu.Base.Text.{truthy}
use payment_recovery_opportu.Models.{Variant, control, treatment, ℤ, pos, negsuc}

pub record ExperimentEngine : Type 0 where
  pub experiment_name : Option String
  pub control_percentage : ℕ

-- `max(0, min(100, control_percentage))`
unfoldable pub clamp_percentage : ℤ → ℕ
clamp_percentage (pos n) = min 100 n
clamp_percentage (negsuc n) = 0

unfoldable pub experiment_engine : Option String → ℤ → ExperimentEngine
unfolding clamp_percentage
experiment_engine name percentage = record {
  experiment_name = name;
  control_percentage = clamp_percentage percentage;
}

abbrev name_text : Option String → String
name_text none = ""
name_text (some t) = t

-- The text that is hashed: `f"{experiment_name}:{identifier}"`.
abbrev pub hash_input : ExperimentEngine → String → String
hash_input e identifier = name_text e.experiment_name ++ ":" ++ identifier

unfoldable pub assign_variant : (String → ℕ) → ExperimentEngine → String → Variant
assign_variant sha256_int e identifier =
    if not (truthy e.experiment_name) || e.control_percentage == 0
    then treatment
    else if e.control_percentage == 100
    then control
    else if ltb (sha256_int (hash_input e identifier) % 100) e.control_percentage
    then control
    else treatment
