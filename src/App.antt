-- ===== src/App.antt =====
-- `app.state` and the settings of app/config.py, with the functions that the program takes from
-- Python and does not define: what they answer is a parameter.
use payment_recovery_opportu.Base.{ℕ, String, Option, some, ◌≡◌, ◌⊎◌}
use payment_recovery_opportu.Models.{DecisionStatus, ℤ}
use payment_recovery_opportu.Crud.{PolicyPrediction}
use payment_recovery_opportu.Features.{PaymentFeatures}
use payment_recovery_opportu.Session.{Result, ok}
use payment_recovery_opportu.Executor.{PaymentLinkProvider}

-- `predict` of the predictor that app/main.py has loaded: it answers, with a prediction or `None`,
-- or raises. A prediction is DECIDED or PENDING_POLICY, as those of app/ml/policy.py and of
-- app/ml/predictor.py are.
pub record PolicyPredictor : Type 0 where
  pub predict : PaymentFeatures → Result (Option PolicyPrediction)
  pub status_made :
      (f : PaymentFeatures) (p : PolicyPrediction)
      → predict f ≡ ok (some p)
      → (p.decision_status ≡ DecisionStatus.decided)
        ⊎ (p.decision_status ≡ DecisionStatus.pending_policy)

pub record App : Type 0 where
  pub predictor : PolicyPredictor
  pub executor : PaymentLinkProvider
  -- `str.lower`
  pub lower : String → String
  -- `int(hashlib.sha256(t.encode()).hexdigest()[:8], 16)`
  pub sha256_int : String → ℕ
  -- `random.random() * 2 ** 53`, at each call
  pub random : ℕ → ℕ
  pub experiment_name : Option String
  pub control_percentage : ℤ
  pub cooldown_hours : ℕ
  pub execution_stale_after_seconds : ℕ
  pub worker_batch_size : ℕ
