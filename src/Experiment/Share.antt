-- ===== src/Experiment/Share.antt =====
-- The share of the hash values that are assigned to the control group.
use payment_recovery_opportu.Base.{
  ℕ, ◌%◌, ◌≤◌, ◌<◌, ◌≡◌, String, true, some, ltb, arith, ◌==◌, if◌then◌else◌,
}
use payment_recovery_opportu.Base.Text.{truthy}
use payment_recovery_opportu.Models.{control, treatment, ℤ, pos, negsuc}
use payment_recovery_opportu.Experiment.{
  experiment_engine, clamp_percentage, hash_input, assign_variant,
}

pub clamp_percentage-bounded : (z : ℤ) → clamp_percentage z ≤ 100
unfolding clamp_percentage
clamp_percentage-bounded (pos n) = omega arith
clamp_percentage-bounded (negsuc n) = omega arith

shortcuts :
    (h c : ℕ)
    → h < 100
    → c ≤ 100
    → (if c == 0
        then treatment
        else if c == 100
        then control
        else if ltb h c
        then control
        else treatment)
      ≡ (if ltb h c then control else treatment)
shortcuts h c below bounded = ground arith

-- For every experiment with a name, whatever the configured percentage: an identifier is in the
-- control group exactly if its hash modulo 100 is below the percentage, cut to 0 to 100. The
-- shortcuts for 0 and for 100 percent assign what the hash would.
pub assign_variant_lem :
    (sha256_int : String → ℕ) (name : String) (percentage : ℤ) (identifier : String)
    → truthy (some name) ≡ true
    → (let e = experiment_engine (some name) percentage in
        assign_variant sha256_int e identifier ≡ (
          if ltb (sha256_int (hash_input e identifier) % 100) (clamp_percentage percentage)
          then control
          else treatment))
unfolding assign_variant experiment_engine
assign_variant_lem sha256_int name percentage identifier named =
    rw named (shortcuts _ _ (omega arith) (clamp_percentage-bounded percentage))
