-- ===== src/Execution/Remote.antt =====
-- An execution by the Razorpay executor: what it comes to where the reference is taken already.
use payment_recovery_opportu.Base.{
  ℕ, suc, ◌≤◌, ◌<◌, ◌≡◌, refl, subst, String, true, false, Option, leb, arith,
}
use Prim.Native.String.{◌++◌}
use payment_recovery_opportu.Base.Text.{exec_reference, decimal}
use payment_recovery_opportu.Models.{RecoveryDecision, PaymentRecord, DecisionStatus}
use payment_recovery_opportu.Session.{Session, ok, err, permanent, duplicate_reference}
use payment_recovery_opportu.Retry.{max_execution_attempts}
use payment_recovery_opportu.Razorpay.Reconcile.{fetched, poll, reconcile_duplicate_reference}
use payment_recovery_opportu.App.{App}
use payment_recovery_opportu.Execution.{payment_of, execute_recovery_decision}
use payment_recovery_opportu.Execution.Outcome.{
  HasRow, IsSettled, execute_recovery_decision-IsSettled,
}
use payment_recovery_opportu.Razorpay.{razorpay_payment_link_provider}
use payment_recovery_opportu.Razorpay.Http.{
  HttpClient, HttpResponse, response, reference_of, status_message,
}
use payment_recovery_opportu.Razorpay.Create.{is_duplicate_body, refused, on_reply}
use payment_recovery_opportu.Razorpay.Answers.{
  Sends, create_payment_link-Sends, IsUnknown, on_reply-unknown,
}
use payment_recovery_opportu.Razorpay.Links.{
  IsEmpty, missing_link, reconcile_duplicate_reference-missing,
}

abbrev pub with_razorpay : HttpClient → App → App
with_razorpay c app = record app { executor = razorpay_payment_link_provider c }

-- The answer to a POST says that the reference is taken.
pub record IsTaken (c : HttpClient) (a : HttpResponse) : Type 0 where
  pub bad_request : a.status_code ≡ 400
  pub recognized : is_duplicate_body c a.json ≡ ok true

taken-duplicate :
    (c : HttpClient) (a : HttpResponse)
    → IsTaken c a
    → on_reply c (response a)
      ≡ err (duplicate_reference (status_message "Razorpay API" a) "DUPLICATE_REFERENCE_ID")
unfolding on_reply refused
taken-duplicate c a taken = rw taken.bad_request (rw taken.recognized refl)

-- Where the API says that the reference of a decision is taken, and its next three answers hold no
-- link, the execution raises an ambiguous state, and the decision is left EXECUTING.
pub execute_recovery_decision-missing :
    (c : HttpClient) (app : App) (id : ℕ) (d : RecoveryDecision) (payment : PaymentRecord)
    (s : Session) (a : HttpResponse)
    → HasRow id d s.current
    → d.decision_status ≡ DecisionStatus.executing
    → Sends c s.ticks d (payment_of d s.current) (exec_reference id) (response a)
    → IsTaken c a
    → ((i : ℕ) → i < 3 → IsEmpty c (c.fetch (suc s.ticks) i (reference_of d.id)))
    → IsSettled id
        (err (missing_link (reference_of d.id)), DecisionStatus.executing)
        (execute_recovery_decision (with_razorpay c app) id payment s)
unfolding razorpay_payment_link_provider
execute_recovery_decision-missing c app id d payment s a row busy sent taken empty =
    subst (λ ends. IsSettled id ends (execute_recovery_decision (with_razorpay c app) id payment s))
      (rw (create_payment_link-Sends c s.ticks d _ _ _ sent) (
        rw (taken-duplicate c a taken)
          (rw (reconcile_duplicate_reference-missing c (suc s.ticks) d _ _ empty) refl)))
      (execute_recovery_decision-IsSettled (with_razorpay c app) id d payment s row busy)

-- The first answer of the lookup is a server error that the code does not know.
lookup-unknown :
    (c : HttpClient) (k : ℕ) (d : RecoveryDecision) (r : Option PaymentRecord) (ref : String)
    (u : HttpResponse)
    → c.fetch k 0 (reference_of d.id) ≡ response u
    → IsUnknown u
    → (msg type : String) × (reconcile_duplicate_reference c k d r ref ≡ err (permanent msg type))
unfolding reconcile_duplicate_reference poll fetched
lookup-unknown c k d r ref u answered unknown = (
  status_message "Razorpay GET" u,
  "HTTP_" ++ decimal u.status_code,
  rw answered (rw (at_least unknown.server_error, unknown.unnamed) refl),
)
  where
    at_least : 500 ≤ u.status_code → leb 400 u.status_code ≡ true
    at_least h = ground arith

-- A server error that the code does not know, a status from 500 on which is none of 500, 502, 503 and
-- 504, has opposite effects on an execution before its fifth attempt. As the answer to the creation of
-- the link, it leaves the decision DECIDED, to be tried again. As the answer to the lookup of the
-- link, where the API has said that the reference of the decision is taken, it leaves it FAILED.
pub execute_recovery_decision-unknown :
    (c c' : HttpClient) (app : App) (id : ℕ) (d : RecoveryDecision) (payment : PaymentRecord)
    (s : Session) (a u : HttpResponse)
    → HasRow id d s.current
    → d.decision_status ≡ DecisionStatus.executing
    → d.execution_attempts < 5
    → IsUnknown u
    → Sends c s.ticks d (payment_of d s.current) (exec_reference id) (response u)
    → Sends c' s.ticks d (payment_of d s.current) (exec_reference id) (response a)
    → IsTaken c' a
    → c'.fetch (suc s.ticks) 0 (reference_of d.id) ≡ response u
    → IsSettled id
        (ok tt, DecisionStatus.decided)
        (execute_recovery_decision (with_razorpay c app) id payment s)
      × IsSettled id
          (ok tt, DecisionStatus.failed)
          (execute_recovery_decision (with_razorpay c' app) id payment s)
unfolding razorpay_payment_link_provider
execute_recovery_decision-unknown c c' app id d payment s a u row busy more unknown sent sent' taken
      answered =
    let (msg, type, refused_for_now) = on_reply-unknown c u unknown in
    let (msg', type', refused_for_good) =
      lookup-unknown c' (suc s.ticks) d (payment_of d s.current) (exec_reference id) u answered
        unknown in
    (
      subst
          (λ ends. IsSettled id ends (execute_recovery_decision (with_razorpay c app) id payment s))
          (rw (create_payment_link-Sends c s.ticks d _ _ _ sent)
            (rw refused_for_now (rw (below_limit more) refl)))
          (execute_recovery_decision-IsSettled (with_razorpay c app) id d payment s row busy),
      subst
          (λ ends.
            IsSettled id ends (execute_recovery_decision (with_razorpay c' app) id payment s))
          (rw (create_payment_link-Sends c' s.ticks d _ _ _ sent')
            (rw (taken-duplicate c' a taken) (rw refused_for_good refl)))
          (execute_recovery_decision-IsSettled (with_razorpay c' app) id d payment s row busy),
    )
  where
    below_limit : d.execution_attempts < 5 → leb max_execution_attempts d.execution_attempts ≡ false
    below_limit h = ground arith
