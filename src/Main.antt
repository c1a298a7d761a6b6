-- ===== src/Main.antt =====
-- app/main.py: what the service is put together from at its start, and the endpoint that looks up
-- an event. The background thread is a flag: whether the start has started it.
pub mod Lookup
use payment_recovery_opportu.Base.{
  ℕ, String, Bool, true, false, not, ◌||◌, Option, none, some, text_eq, if◌then◌else◌,
}
use payment_recovery_opportu.Base.Table.{find_first}
use payment_recovery_opportu.Models.{Database, WebhookEvent, WebhookProcessingStatus, ℤ, Float}
use payment_recovery_opportu.Session.{M, Error, Result, ok, err, other, pure, ◌>>=◌, database}
use payment_recovery_opportu.Crud.{has_event_id}
use payment_recovery_opportu.Features.{PaymentFeatures}
use payment_recovery_opportu.Floats.{FloatOps}
use payment_recovery_opportu.Executor.{PaymentLinkProvider, mock_payment_link_provider}
use payment_recovery_opportu.App.{App, PolicyPredictor}
use payment_recovery_opportu.Razorpay.{razorpay_payment_link_provider}
use payment_recovery_opportu.Razorpay.Http.{HttpClient}
use payment_recovery_opportu.Learner.{SLearner}
use payment_recovery_opportu.Policy.{economic_policy_predictor, placeholder_predictor}

-- The settings of app/config.py that a start reads.
pub record Settings : Type 0 where
  pub razorpay_key_id : String
  pub razorpay_key_secret : String
  pub app_env : String
  pub executor_mode : String
  pub execution_stale_after_seconds : ℕ
  pub worker_enabled : Bool
  pub worker_batch_size : ℕ
  pub cooldown_hours : ℕ
  pub experiment_name : Option String
  pub control_percentage : ℤ

-- Code and services outside the repository: `joblib.load`, the HTTP client of a key, the SHA-1 of
-- the mock executor, and what App takes of Python.
pub record Environment : Type 0 where
  pub load_model : Result SLearner
  pub floats : FloatOps
  pub describe : PaymentFeatures → Float → Float → String
  pub http_client : String → String → HttpClient
  pub sha1_prefix : String → String
  pub lower : String → String
  pub sha256_int : String → ℕ
  pub random : ℕ → ℕ

-- A model that is not fitted raises in the constructor of the policy: that is caught too.
unfoldable pub predictor_of : Environment → Result SLearner → PolicyPredictor
predictor_of env (err e) = placeholder_predictor
predictor_of env (ok s) =
    if s.is_fitted
    then economic_policy_predictor
        (record { model = s; floats = env.floats; describe = env.describe })
    else placeholder_predictor

abbrev pub has_keys : Settings → Bool
has_keys s = not (text_eq s.razorpay_key_id "" || text_eq s.razorpay_key_secret "")

abbrev pub is_razorpay : Environment → Settings → Bool
is_razorpay env s = text_eq (env.lower s.executor_mode) "razorpay"

unfoldable pub executor_of : Environment → Settings → Result PaymentLinkProvider
executor_of env s =
    if is_razorpay env s
    then (if has_keys s
        then ok (
            razorpay_payment_link_provider
              (env.http_client s.razorpay_key_id s.razorpay_key_secret))
        else err (other "RuntimeError"))
    else ok (mock_payment_link_provider env.sha1_prefix)

pub record Started : Type 0 where
  pub app : App
  pub worker : Bool

abbrev with_executor : Environment → Settings → Result PaymentLinkProvider → Result Started
with_executor env s (err e) = err e
with_executor env s (ok x) = ok (record {
  app = record {
    predictor = predictor_of env env.load_model;
    executor = x;
    lower = env.lower;
    sha256_int = env.sha256_int;
    random = env.random;
    experiment_name = s.experiment_name;
    control_percentage = s.control_percentage;
    cooldown_hours = s.cooldown_hours;
    execution_stale_after_seconds = s.execution_stale_after_seconds;
    worker_batch_size = s.worker_batch_size;
  };
  worker = s.worker_enabled;
})

-- `lifespan`, up to its `yield`.
unfoldable pub start : Environment → Settings → Result Started
unfolding predictor_of executor_of
start env s = with_executor env s (executor_of env s)

-- The response of GET /events/{event_id}.
pub record EventDetail : Type 0 where
  pub event_id : String
  pub event_type : String
  pub received_at : ℕ
  pub processing_status : WebhookProcessingStatus
  pub signature_verified : Bool

abbrev pub detail_of : WebhookEvent → EventDetail
detail_of w = record {
  event_id = w.event_id;
  event_type = w.event_type;
  received_at = w.received_at;
  processing_status = w.processing_status;
  signature_verified = w.signature_verified;
}

abbrev found_detail : Option WebhookEvent → Option EventDetail
found_detail none = none
found_detail (some w) = some (detail_of w)

-- `none` is the 404.
unfoldable pub get_event : String → M (Option EventDetail)
get_event event_id = do
  db ← database
  pure (found_detail (find_first (has_event_id event_id) db.webhook_events))

-- The response of GET /health.
pub record HealthResponse : Type 0 where
  pub status : String
  pub version : String
  pub environment : String

unfoldable pub health : Settings → HealthResponse
health s = record { status = "ok"; version = "0.5.0"; environment = s.app_env }
