-- ===== src/Razorpay.antt =====
-- app/executor_razorpay.py: the executor that calls Razorpay's payment link API. The HTTP client is
-- a parameter: what the API answers to each request, in each call of the executor. The header with
-- the credentials is the same in each request and is left out.
pub mod Http
pub mod Create
pub mod Reconcile
pub mod Answers
pub mod Links
unfoldable pub use Http.*
unfoldable pub use Create.*
unfoldable pub use Reconcile.*
use payment_recovery_opportu.Executor.{PaymentLinkProvider}

-- The executor that app/main.py makes for EXECUTOR_MODE=razorpay.
unfoldable pub razorpay_payment_link_provider : HttpClient → PaymentLinkProvider
razorpay_payment_link_provider c = record {
  create_payment_link = create_payment_link c;
  reconcile_duplicate_reference = reconcile_duplicate_reference c;
  elapsed = c.elapsed;
}
