-- ===== src/Examples/Remote.antt =====
-- Calls of the Razorpay executor, answered by small servers.
use payment_recovery_opportu.Base.{
  text_eq, ℕ, ◌<◌, ◌≡◌, ltb, ◌&&◌, String, refl, Option, none, some, [], ◌∷◌, arith,
}
use payment_recovery_opportu.Base.Table.{find_first}
use payment_recovery_opportu.Base.Text.{decimal, exec_reference}
use payment_recovery_opportu.Models.{pos, DecisionStatus, RecoveryDecision, PaymentRecord}
use payment_recovery_opportu.Session.{Error, ok, err}
use payment_recovery_opportu.Json.{
  Json, int, text, array, object, nil, cons, end, field, field_of, get, get_or, len, first,
}
use payment_recovery_opportu.Schemas.{RazorpayPaymentLinkEntity}
use payment_recovery_opportu.Retry.{calculate_retry}
use payment_recovery_opportu.Execution.{payment_of, execute_recovery_decision}
use payment_recovery_opportu.Execution.Outcome.{HasRow, IsSettled}
use payment_recovery_opportu.Execution.Remote.{
  with_razorpay, IsTaken, execute_recovery_decision-missing, execute_recovery_decision-unknown,
}
use payment_recovery_opportu.Invariant.Decisions.{DecisionsValid}
use payment_recovery_opportu.Processor.{observe_link}
use payment_recovery_opportu.Processor.Paid.{observe_link-paid}
use payment_recovery_opportu.Crud.{observed}
use payment_recovery_opportu.Razorpay.Http.{
  HttpClient, HttpResponse, response, RequestBody, reference_of, build_request_body, link_id,
}
use payment_recovery_opportu.Razorpay.Create.{
  is_duplicate_body, created, on_reply, create_payment_link,
}
use payment_recovery_opportu.Razorpay.Reconcile.{fetched, reconcile_duplicate_reference}
use payment_recovery_opportu.Razorpay.Answers.{
  IsUnknown, is_retried, Sends, IsCreated, create_payment_link-retried,
  create_payment_link-IsCreated,
}
use payment_recovery_opportu.Razorpay.Links.{
  IsFound, IsEmpty, missing_link, reconcile_duplicate_reference-IsFound,
}
use payment_recovery_opportu.System.{session_at}
use payment_recovery_opportu.Examples.{
  toy_floats, predictor, app_with, old_payment, decision_in, database_with, stored,
}

abbrev text_or_empty : Json → String
text_or_empty (text t) = t
text_or_empty _ = ""

-- A server that answers each POST and each GET alike.
abbrev pub server : HttpResponse → HttpResponse → HttpClient
server to_post to_get = record {
  post = λ k body. response to_post;
  fetch = λ k attempt ref. response to_get;
  elapsed = λ k. 0;
  floats = toy_floats;
  lower = λ t. t;
  str = text_or_empty;
}

abbrev answer : ℕ → Option Json → HttpResponse
answer status json = record { status_code = status; body_text = "{}"; json = json }

abbrev pub no_links : HttpResponse
no_links = answer 200 (some (object (field "items" (array nil) end)))

abbrev link : Json
link = object (
    field "reference_id" (text "roe_rd_1") (
      field "amount" (int (pos 50000))
        (field "currency" (text "INR") (field "id" (text "plink_1") end))))

abbrev one_link : HttpResponse
one_link = answer 200 (some (object (field "payment_links" (array (cons link nil)) end)))

abbrev pub new_link : HttpResponse
new_link = answer 200 (some (object (field "id" (text "plink_1") end)))

abbrev taken_reference : HttpResponse
taken_reference = answer 400 (
    some (
      object (
        field "error"
          (object
            (field "code" (text "BAD_REQUEST_ERROR") (field "field" (text "reference_id") end)))
          end)))

abbrev claimed_decision : RecoveryDecision
claimed_decision = decision_in DecisionStatus.executing 1

busy-Sends :
    Sends
      (server (answer 429 none) no_links)
      0
      claimed_decision
      (some old_payment)
      "exec_rd_1"
      (response (answer 429 none))
unfolding build_request_body
busy-Sends = (_, refl, refl)

create_payment_link-retried_example :
    (e : Error) × (create_payment_link
        (server (answer 429 none) no_links)
        0
        claimed_decision
        (some old_payment)
        "exec_rd_1"
      ≡ err e)
    × ((attempt now draw : ℕ)
        → (calculate_retry attempt e now draw).retryable ≡ (is_retried 429 && ltb attempt 5))
create_payment_link-retried_example =
    create_payment_link-retried (server (answer 429 none) no_links) 0 claimed_decision
      (some old_payment) "exec_rd_1" (answer 429 none) busy-Sends (omega arith)

link_made :
    create_payment_link (server new_link no_links) 0 claimed_decision (some old_payment) "exec_rd_1"
    ≡ ok "plink_1"
unfolding create_payment_link build_request_body on_reply created link_id get field_of text_eq
link_made = refl

create_payment_link-IsCreated_example :
    (body : RequestBody) × (build_request_body claimed_decision (some old_payment) "exec_rd_1"
      ≡ ok body)
    × IsCreated (server new_link no_links) (response new_link) "plink_1"
create_payment_link-IsCreated_example =
    create_payment_link-IsCreated (server new_link no_links) 0 claimed_decision (some old_payment)
      "exec_rd_1" "plink_1" link_made

link_found :
    reconcile_duplicate_reference
      (server new_link one_link)
      0
      claimed_decision
      (some old_payment)
      "exec_rd_1"
    ≡ ok "plink_1"
unfolding reconcile_duplicate_reference link_id get field_of text_eq reference_of decimal get_or len
    first
link_found = refl

reconcile_duplicate_reference-IsFound_example :
    (p : PaymentRecord) × (some old_payment ≡ some p)
    × IsFound (server new_link one_link) 0 claimed_decision p "plink_1"
reconcile_duplicate_reference-IsFound_example =
    reconcile_duplicate_reference-IsFound (server new_link one_link) 0 claimed_decision
      (some old_payment) "exec_rd_1" "plink_1" link_found

nothing_there : (i : ℕ) → i < 3 → IsEmpty (server new_link no_links) (response no_links)
unfolding fetched get_or get field_of text_eq
nothing_there i below = (array nil, refl, refl)

taken_reference-IsTaken : IsTaken (server taken_reference no_links) taken_reference
unfolding is_duplicate_body get_or get field_of text_eq
taken_reference-IsTaken = record { bad_request = refl; recognized = refl }

claimed_row : HasRow 1 claimed_decision stored
unfolding find_first
claimed_row = refl

taken-Sends :
    Sends
      (server taken_reference no_links)
      0
      claimed_decision
      (payment_of claimed_decision stored)
      (exec_reference 1)
      (response taken_reference)
unfolding build_request_body find_first
taken-Sends = (_, refl, refl)

nothing_behind : (i : ℕ) → i < 3 → IsEmpty (server taken_reference no_links) (response no_links)
unfolding fetched get_or get field_of text_eq
nothing_behind i below = (array nil, refl, refl)

execute_recovery_decision-missing_example :
    IsSettled 1
      (err (missing_link (reference_of 1)), DecisionStatus.executing)
      (execute_recovery_decision
        (with_razorpay (server taken_reference no_links) (app_with predictor))
        1
        old_payment
        (session_at stored 0))
execute_recovery_decision-missing_example =
    execute_recovery_decision-missing (server taken_reference no_links) (app_with predictor) 1
      claimed_decision old_payment (session_at stored 0) taken_reference claimed_row refl
      taken-Sends taken_reference-IsTaken nothing_behind

abbrev unknown_error : HttpResponse
unknown_error = answer 520 none

unknown_error-IsUnknown : IsUnknown unknown_error
unknown_error-IsUnknown = record { server_error = omega arith; unnamed = refl }

failing-Sends :
    Sends
      (server unknown_error no_links)
      0
      claimed_decision
      (payment_of claimed_decision stored)
      (exec_reference 1)
      (response unknown_error)
unfolding build_request_body find_first
failing-Sends = (_, refl, refl)

half_known-Sends :
    Sends
      (server taken_reference unknown_error)
      0
      claimed_decision
      (payment_of claimed_decision stored)
      (exec_reference 1)
      (response taken_reference)
unfolding build_request_body find_first
half_known-Sends = (_, refl, refl)

half_known-IsTaken : IsTaken (server taken_reference unknown_error) taken_reference
unfolding is_duplicate_body get_or get field_of text_eq
half_known-IsTaken = record { bad_request = refl; recognized = refl }

execute_recovery_decision-unknown_example :
    IsSettled 1
      (ok tt, DecisionStatus.decided)
      (execute_recovery_decision
        (with_razorpay (server unknown_error no_links) (app_with predictor))
        1
        old_payment
        (session_at stored 0))
    × IsSettled 1
        (ok tt, DecisionStatus.failed)
        (execute_recovery_decision
          (with_razorpay (server taken_reference unknown_error) (app_with predictor))
          1
          old_payment
          (session_at stored 0))
execute_recovery_decision-unknown_example =
    execute_recovery_decision-unknown (server unknown_error no_links)
      (server taken_reference unknown_error) (app_with predictor) 1 claimed_decision old_payment
      (session_at stored 0) taken_reference unknown_error claimed_row refl (omega arith)
      unknown_error-IsUnknown failing-Sends half_known-Sends half_known-IsTaken refl

abbrev executed_decision : RecoveryDecision
executed_decision = record (decision_in DecisionStatus.executed 1) {
  execution_reference_id = some (exec_reference 1);
}

abbrev paid_link : RazorpayPaymentLinkEntity
paid_link = record {
  id = "plink_1";
  notes = ("execution_reference_id", exec_reference 1) ∷ ("recovery_decision_id", decimal 1) ∷ [];
}

abbrev sent_body : RequestBody
sent_body = record {
  amount = 50000;
  currency = "INR";
  description = "Payment recovery link";
  reference_id = reference_of 1;
  notes = paid_link.notes;
  customer = some (record { email = none; contact = some "+910000000000" });
}

body_sent : build_request_body claimed_decision (some old_payment) (exec_reference 1) ≡ ok sent_body
unfolding build_request_body text_eq
body_sent = refl

executed_valid : DecisionsValid (database_with executed_decision)
executed_valid = ((omega arith, omega arith, refl), tt)

executed_row : HasRow 1 executed_decision (database_with executed_decision)
unfolding find_first
executed_row = refl

observe_link-paid_example :
    ((observe_link paid_link (session_at (database_with executed_decision) 7)).0 ≡ ok tt)
    × HasRow 1
        (observed 7 executed_decision)
        (observe_link paid_link (session_at (database_with executed_decision) 7)).1.current
observe_link-paid_example =
    observe_link-paid claimed_decision (some old_payment) sent_body paid_link
      (session_at (database_with executed_decision) 7) executed_decision body_sent refl
      executed_valid executed_row refl
