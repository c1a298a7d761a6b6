-- ===== src/Simulator/Engine.antt =====
-- app/simulator/engine.py: the synthetic contexts, and the hidden truth of a context.
use Prim.Native.String.{◌++◌}
use payment_recovery_opportu.Base.{
  ℕ, zero, suc, String, Bool, true, false, ◌&&◌, ◌||◌, Option, none, some, List, [], ◌∷◌, ltb, leb,
  ◌==◌, text_eq, if◌then◌else◌,
}
use payment_recovery_opportu.Base.Table.{length}
use payment_recovery_opportu.Base.Text.{decimal}
use payment_recovery_opportu.Models.{Float}
use payment_recovery_opportu.Session.{other, Result, ok, err}
use payment_recovery_opportu.Json.{◌>>=◌}
use payment_recovery_opportu.Simulator.{SimulatedContext, GroundTruth}
use payment_recovery_opportu.Simulator.Random.{Randomness, element}
use payment_recovery_opportu.Simulator.Constants.{
  minus_3_5, minus_2_5, minus_1_5, minus_1, minus_0_05, float_0, float_0_1, float_0_2, float_0_4,
  float_0_5, float_1, float_1_5, float_2, float_2_5,
}

-- What goes wrong with the simulated payment.
pub record Failure : Type 0 where
  pub reason : String
  pub code : String
  pub source : String
  pub at_step : String

module _ {S : Type 0} (rng : Randomness S) where
  abbrev chosen : String → List String → S → String × S
  chosen t ts s = let (i, s) = rng.choice (suc (length ts)) s in (element t ts i, s)

  -- The three categories of errors, by the index that is drawn.
  abbrev failure_of : ℕ → S → Failure × S
  failure_of zero s =
      let (reason, s) = chosen "card_expired" ("invalid_otp" ∷ "fraud_blocked" ∷ []) s in
      (
        record {
          reason = reason;
          code = "BAD_REQUEST_ERROR";
          source = "customer";
          at_step = "payment_authentication";
        },
        s,
      )
  failure_of (suc zero) s =
      let (reason, s) = chosen "gateway_timed_out" ("processing_failed" ∷ []) s in
      (
        record {
          reason = reason;
          code = "GATEWAY_ERROR";
          source = "gateway";
          at_step = "payment_processing";
        },
        s,
      )
  failure_of (suc (suc i)) s = (
    record {
      reason = "insufficient_funds";
      code = "BAD_REQUEST_ERROR";
      source = "customer";
      at_step = "payment_authorization";
    },
    s,
  )

  -- One round of the loop, the draws in the order of the source.
  unfoldable pub generate_context : ℕ → ℕ → S → SimulatedContext × S
  generate_context seed i s =
      let (customer, s) = rng.randint 1000 9999 s in
      let (a, s) = rng.choice 5 s in
      let (m, s) = rng.choices (float_0_4 ∷ float_0_4 ∷ float_0_1 ∷ float_0_1 ∷ []) s in
      let (category, s) = rng.choices (float_0_2 ∷ float_0_4 ∷ float_0_4 ∷ []) s in
      let (failure, s) = failure_of category s in
      let (failures, s) = rng.randint 0 10 s in
      let (successes, s) = rng.randint 0 30 s in
      (
        record {
          transaction_id = "sim_tx_" ++ decimal seed ++ "_" ++ decimal i;
          amount_paise = element 10000 (25000 ∷ 50000 ∷ 150000 ∷ 500000 ∷ []) a;
          currency = "INR";
          method = some (element "card" ("upi" ∷ "netbanking" ∷ "wallet" ∷ []) m);
          error_code = some failure.code;
          error_reason = some failure.reason;
          error_source = some failure.source;
          error_step = some failure.at_step;
          prior_failure_count = some failures;
          prior_success_count = some successes;
          customer_identifier = some ("cust_" ++ decimal customer ++ "@example.com");
        },
        s,
      )

  -- `for i in range(n)`, with the rounds that are left.
  unfoldable pub contexts_from : ℕ → ℕ → ℕ → S → List SimulatedContext
  unfolding generate_context
  contexts_from seed i zero s = []
  contexts_from seed i (suc left) s =
      let (c, s) = generate_context seed i s in c ∷ contexts_from seed (suc i) left s

  unfoldable pub generate_contexts : ℕ → ℕ → List SimulatedContext
  unfolding contexts_from
  generate_contexts n seed = contexts_from seed 0 n (rng.seeded seed)

  abbrev exponential : Option Float → Result Float
  exponential none = err (other "OverflowError")
  exponential (some x) = ok x

  -- `_sigmoid`
  unfoldable pub sigmoid : Float → Result Float
  sigmoid x = do
    e ← exponential (rng.exp (rng.neg x))
    ok (rng.floats.div float_1 (rng.floats.add float_1 e))

  abbrev is_one_of : List String → Option String → Bool
  is_one_of ts none = false
  is_one_of [] (some t) = false
  is_one_of (u ∷ us) (some t) = text_eq t u || is_one_of us (some t)

  -- A comparison of a count, which raises where there is none.
  abbrev compared : (ℕ → Bool) → Option ℕ → Result Bool
  compared test none = err (other "TypeError")
  compared test (some n) = ok (test n)

  -- `a and m`, `a or m`, where `m` is not evaluated if `a` decides.
  abbrev and_then : Bool → Result Bool → Result Bool
  and_then false m = ok false
  and_then true m = m

  abbrev or_else_test : Bool → Result Bool → Result Bool
  or_else_test true m = ok true
  or_else_test false m = m

  unfoldable pub is_sure_thing : SimulatedContext → Result Bool
  is_sure_thing c =
      and_then (is_one_of ("gateway_timed_out" ∷ "processing_failed" ∷ []) c.error_reason)
        (compared (ltb 3) c.prior_success_count)

  unfoldable pub is_lost_cause : SimulatedContext → Result Bool
  is_lost_cause c =
      or_else_test
        (is_one_of ("card_expired" ∷ "invalid_otp" ∷ "fraud_blocked" ∷ []) c.error_reason)
        (compared (ltb 5) c.prior_failure_count >>= λ many.
          and_then many (compared (λ n. n == 0) c.prior_success_count))

  unfoldable pub is_persuadable : SimulatedContext → Result Bool
  is_persuadable c = and_then (is_one_of ("insufficient_funds" ∷ []) c.error_reason) (
      compared (ltb 0) c.prior_success_count >>= λ some_paid.
      ok (some_paid && leb 50000 c.amount_paise))

  unfoldable pub is_sleeping_dog : SimulatedContext → Bool
  is_sleeping_dog c = ltb c.amount_paise 20000 && is_one_of ("upi" ∷ "wallet" ∷ []) c.method

  -- The logits `z0` and `z1` of the observable part.
  unfoldable pub base_logits : SimulatedContext → Result (Float × Float)
  unfolding is_sure_thing is_lost_cause is_persuadable is_sleeping_dog
  base_logits c = do
    sure ← is_sure_thing c
    if sure then ok (float_2, float_0_1) else (do
      lost ← is_lost_cause c
      if lost then ok (minus_3_5, float_0_2) else (do
        persuadable ← is_persuadable c
        if persuadable
            then ok (minus_1_5, float_2_5)
            else if is_sleeping_dog c
            then ok (float_1_5, minus_2_5)
            else ok (minus_1, float_1)))

  -- The quadrant, from the uplift and the probability without a link.
  unfoldable pub derive_quadrant : Float → Float → String
  derive_quadrant uplift p0 =
      if rng.floats.lt uplift minus_0_05
      then "Sleeping Dog"
      else if rng.floats.lt float_0_1 uplift
      then "Persuadable"
      else if rng.floats.lt float_0_5 p0
      then "Sure Thing"
      else "Lost Cause"

  -- What is known once the probabilities are: the uplift, the quadrant, and the sampled outcomes.
  unfoldable pub truth_of : Float → Float → Float → Float → S → GroundTruth
  unfolding derive_quadrant
  truth_of responsiveness annoyance p0 p1 s =
      let u = (rng.random s).0 in
      record {
        p_recovery_do_nothing = p0;
        p_recovery_link = p1;
        p_recovery_discount = float_0;
        derived_quadrant = derive_quadrant (rng.floats.sub p1 p0) p0;
        y_do_nothing = rng.floats.lt u p0;
        y_link = rng.floats.lt u p1;
        y_discount = false;
        latent_responsiveness = responsiveness;
        latent_annoyance = annoyance;
      }

  -- The rest, from the latent variables and the base logits on.
  unfoldable pub truth_from : Float → Float → Float × Float → S → Result GroundTruth
  unfolding sigmoid truth_of
  truth_from responsiveness annoyance (b0, b1) s = do
    let z0 = rng.floats.add b0 (rng.floats.mul responsiveness float_0_5)
    let z1 =
        rng.floats.sub (rng.floats.add b1 (rng.floats.mul responsiveness float_1))
          (rng.floats.mul annoyance float_1_5)
    p0 ← sigmoid z0
    p1 ← sigmoid (rng.floats.add z0 z1)
    ok (truth_of responsiveness annoyance p0 p1 s)

  unfoldable pub generate_ground_truth : SimulatedContext → Result GroundTruth
  unfolding base_logits truth_from
  generate_ground_truth c = do
    let (responsiveness, s) =
        rng.gauss float_0 float_1 (rng.seeded (rng.hidden_seed c.transaction_id))
    let (annoyance, s) = rng.gauss float_0 float_1 s
    logits ← base_logits c
    truth_from responsiveness annoyance logits s
