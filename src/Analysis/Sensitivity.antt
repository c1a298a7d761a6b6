-- ===== src/Analysis/Sensitivity.antt =====
-- analysis/phase3_policy_sensitivity.py: the policy swept over thresholds of P1, on the columns of
-- all payments at once. The columns are lists of rows; numpy's 64-bit sums of paise are those of
-- the ints, since there are 10,000 amounts of at most 500,000 paise.
use payment_recovery_opportu.Base.{
  ℕ, ◌+◌, String, Bool, true, ◌&&◌, List, [], ◌∷◌, map, text_eq, ◌==◌, if◌then◌else◌,
}
use payment_recovery_opportu.Base.Table.{length, count_if}
use payment_recovery_opportu.Models.{RecoveryAction, Float, ℤ, pos}
use payment_recovery_opportu.Models.Integers.{minus, int_of, ◌+ℤ◌, ◌-ℤ◌, ◌*ℤ◌}
use payment_recovery_opportu.Floats.{in_rupees}
use payment_recovery_opportu.Numpy.{Numpy}
use payment_recovery_opportu.Policy.{intervention_cost, expected_net, is_positive}
use payment_recovery_opportu.Simulator.{SimulatedContext, GroundTruth}
use payment_recovery_opportu.Simulator.Constants.{float_0, float_1}

-- What the columns hold of one payment.
pub record Row : Type 0 where
  pub amount : ℕ
  pub quadrant : String
  pub p0_true : Float
  pub p1_true : Float
  pub y_do_nothing : Bool
  pub y_link : Bool
  pub p0 : Float
  pub p1 : Float

unfoldable pub row_of : SimulatedContext → GroundTruth → Float → Float → Row
row_of c gt p0 p1 = record {
  amount = c.amount_paise;
  quadrant = gt.derived_quadrant;
  p0_true = gt.p_recovery_do_nothing;
  p1_true = gt.p_recovery_link;
  y_do_nothing = gt.y_do_nothing;
  y_link = gt.y_link;
  p0 = p0;
  p1 = p1;
}

abbrev pub link_cost_paise : ℕ
unfolding intervention_cost
link_cost_paise = intervention_cost RecoveryAction.send_payment_link

abbrev pub quad_names : List String
quad_names = "Persuadable" ∷ "Sure Thing" ∷ "Lost Cause" ∷ "Sleeping Dog" ∷ []

pub record QuadrantResult : Type 0 where
  pub count : ℕ
  pub action_rate : Float
  pub ana_inc_net_inr : Float
  pub emp_inc_net_inr : Float

pub record SweepResult : Type 0 where
  pub action_rate : Float
  pub link_count : ℕ
  pub cost_inr : Float
  pub emp_inc_gross_inr : Float
  pub emp_inc_net_inr : Float
  pub ana_inc_gross_inr : Float
  pub ana_inc_net_inr : Float
  pub quadrants : List (String × QuadrantResult)

-- `.sum()` of a column of ints.
unfoldable pub sum_ints : List ℤ → ℤ
sum_ints [] = pos 0
sum_ints (z ∷ zs) = z +ℤ sum_ints zs

unfoldable pub sum_counts : List ℕ → ℕ
sum_counts [] = 0
sum_counts (n ∷ ns) = n + sum_counts ns

unfoldable pub masked : String → List Row → List Row
masked q [] = []
masked q (r ∷ rs) = if text_eq r.quadrant q then r ∷ masked q rs else masked q rs

-- The columns that a column of decisions makes: `np.where(send_link, ..., ...)`.
abbrev pub cost_paise : (Row → Bool) → Row → ℕ
cost_paise send r = if send r then link_cost_paise else 0

abbrev pub row_inc_gross : (Row → Bool) → Row → ℤ
row_inc_gross send r =
    minus (int_of (if send r then r.y_link else r.y_do_nothing)) (int_of r.y_do_nothing) *ℤ r.amount

abbrev pub row_inc_net : (Row → Bool) → Row → ℤ
row_inc_net send r = row_inc_gross send r -ℤ cost_paise send r

module _ (np : Numpy) where
  abbrev row_ana_gross : (Row → Bool) → Row → Float
  row_ana_gross send r =
      let fl = np.floats in
      fl.mul (fl.of_int (pos r.amount)) (fl.sub (if send r then r.p1_true else r.p0_true) r.p0_true)

  abbrev row_ana_net : (Row → Bool) → Row → Float
  row_ana_net send r =
      let fl = np.floats in fl.sub (row_ana_gross send r) (fl.of_int (pos (cost_paise send r)))

  -- `float(column.sum() / 100)`
  abbrev sum_in_rupees : List Float → Float
  sum_in_rupees xs = let fl = np.floats in fl.div (np.sum xs) (fl.of_int (pos 100))

  abbrev quadrant_result : (Row → Bool) → List Row → QuadrantResult
  quadrant_result send rs = record {
    count = length rs;
    action_rate = np.share (map send rs);
    ana_inc_net_inr = sum_in_rupees (map (row_ana_net send) rs);
    emp_inc_net_inr = in_rupees np.floats (sum_ints (map (row_inc_net send) rs));
  }

  -- `for q in QUAD_NAMES`: a quadrant that no row is in has no entry.
  unfoldable pub quadrant_results :
      (List Row → QuadrantResult) → List String → List Row → List (String × QuadrantResult)
  unfolding masked
  quadrant_results result [] rs = []
  quadrant_results result (q ∷ qs) rs =
      let rest = quadrant_results result qs rs in
      let mine = masked q rs in if length mine == 0 then rest else (q, result mine) ∷ rest

  -- SEND_LINK exactly if P1 reaches the threshold and the expected increment is positive.
  unfoldable pub send_link : Float → Row → Bool
  unfolding expected_net
  send_link min_p1 r =
      np.le min_p1 r.p1 && is_positive np.floats (expected_net np.floats r.amount r.p0 r.p1)

  unfoldable pub evaluate_threshold : Float → List Row → SweepResult
  unfolding send_link sum_ints sum_counts quadrant_results
  evaluate_threshold min_p1 rs =
      let fl = np.floats in
      let send = send_link min_p1 in
      record {
        action_rate = np.share (map send rs);
        link_count = count_if send rs;
        cost_inr = in_rupees fl (pos (sum_counts (map (cost_paise send) rs)));
        emp_inc_gross_inr = in_rupees fl (sum_ints (map (row_inc_gross send) rs));
        emp_inc_net_inr = in_rupees fl (sum_ints (map (row_inc_net send) rs));
        ana_inc_gross_inr = sum_in_rupees (map (row_ana_gross send) rs);
        ana_inc_net_inr = sum_in_rupees (map (row_ana_net send) rs);
        quadrants = quadrant_results (quadrant_result send) quad_names rs;
      }

  unfoldable pub evaluate_always_nothing : List Row → SweepResult
  unfolding quadrant_results
  evaluate_always_nothing rs = record {
    action_rate = float_0;
    link_count = 0;
    cost_inr = float_0;
    emp_inc_gross_inr = float_0;
    emp_inc_net_inr = float_0;
    ana_inc_gross_inr = float_0;
    ana_inc_net_inr = float_0;
    quadrants =
        quadrant_results
          (λ mine. record {
            count = length mine;
            action_rate = float_0;
            ana_inc_net_inr = float_0;
            emp_inc_net_inr = float_0;
          })
          quad_names rs;
  }

  -- `EVAL_N` is the number of the rows.
  unfoldable pub evaluate_always_link : List Row → SweepResult
  unfolding quadrant_results sum_ints sum_counts
  evaluate_always_link rs =
      let fl = np.floats in
      let send = λ (r : Row). true in
      record {
        action_rate = float_1;
        link_count = length rs;
        cost_inr = in_rupees fl (pos (sum_counts (map (cost_paise send) rs)));
        emp_inc_gross_inr = in_rupees fl (sum_ints (map (row_inc_gross send) rs));
        emp_inc_net_inr = in_rupees fl (sum_ints (map (row_inc_net send) rs));
        ana_inc_gross_inr = sum_in_rupees (map (row_ana_gross send) rs);
        ana_inc_net_inr = sum_in_rupees (map (row_ana_net send) rs);
        quadrants =
            quadrant_results
              (λ mine. record {
                count = length mine;
                action_rate = float_1;
                ana_inc_net_inr = sum_in_rupees (map (row_ana_net send) mine);
                emp_inc_net_inr = in_rupees fl (sum_ints (map (row_inc_net send) mine));
              })
              quad_names rs;
      }
