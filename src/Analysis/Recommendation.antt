-- ===== src/Analysis/Recommendation.antt =====
-- analysis/phase3_policy_sensitivity.py: the threshold that is recommended from the sweep.
use payment_recovery_opportu.Base.{
  String, Bool, ◌&&◌, Option, none, some, List, [], ◌∷◌, map, text_eq, if◌then◌else◌,
}
use payment_recovery_opportu.Models.{Float, bits}
use payment_recovery_opportu.Floats.{FloatOps}
use payment_recovery_opportu.Numpy.{Numpy}
use payment_recovery_opportu.Simulator.Constants.{float_0_5}
use payment_recovery_opportu.Analysis.Sensitivity.{
  Row, QuadrantResult, SweepResult, evaluate_threshold,
}

abbrev float_0_8 : Float
float_0_8 = bits 4605380978949069210

abbrev minus_infinity : Float
minus_infinity = bits 18442240474082181120

abbrev not_a_number : Float
not_a_number = bits 9221120237041090560

abbrev rate_in : String → List (String × QuadrantResult) → Float
rate_in q [] = not_a_number
rate_in q ((k, r) ∷ rest) = if text_eq k q then r.action_rate else rate_in q rest

-- The action rate of a quadrant, a NaN where it has no entry.
unfoldable pub q_rate : SweepResult → String → Float
q_rate s q = rate_in q s.quadrants

-- The results by their thresholds, in the order of the thresholds.
unfoldable pub sweep : Numpy → List Float → List Row → List (Float × SweepResult)
unfolding evaluate_threshold
sweep np thresholds rs = map (λ thr. (thr, evaluate_threshold np thr rs)) thresholds

module _ (fl : FloatOps) (unconstrained : Float) where
  -- Persuadable customers are reached, lost causes are left alone, and it pays off.
  unfoldable pub is_candidate : SweepResult → Bool
  unfolding q_rate
  is_candidate s =
      fl.lt float_0_8 (q_rate s "Persuadable")
      && fl.lt (q_rate s "Lost Cause") float_0_5
      && fl.lt unconstrained s.ana_inc_net_inr

  -- The loop, with the best threshold so far and its net.
  unfoldable pub best_from :
      Option Float → Float → List (Float × SweepResult) → Option Float × Float
  unfolding is_candidate
  best_from best net [] = (best, net)
  best_from best net ((thr, s) ∷ rest) =
      let (best', net') =
        (if is_candidate s && fl.lt net s.ana_inc_net_inr
          then (some thr, s.ana_inc_net_inr)
          else (best, net)) in
      best_from best' net' rest

  unfoldable pub recommend : List (Float × SweepResult) → Option Float
  unfolding best_from
  recommend results = (best_from none minus_infinity results).0
