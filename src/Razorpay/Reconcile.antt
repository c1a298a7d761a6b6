-- ===== src/Razorpay/Reconcile.antt =====
-- app/executor_razorpay.py: `reconcile_duplicate_reference`.
use Prim.Native.String.{◌++◌}
use payment_recovery_opportu.Base.{
  ℕ, zero, suc, String, Option, none, some, leb, ltb, if◌then◌else◌,
}
use payment_recovery_opportu.Base.Text.{decimal}
use payment_recovery_opportu.Models.{RecoveryDecision, PaymentRecord}
use payment_recovery_opportu.Session.{
  Error, Result, ok, err, transient, permanent, reconciliation, ambiguous,
}
use payment_recovery_opportu.Json.{
  Json, array, nil, ◌>>=◌, attribute_error, get, get_or, is_truthy, is_text, is_number, len, first,
}
use payment_recovery_opportu.Razorpay.Http.{
  HttpResponse, Reply, timeout, request_error, response, HttpClient, reference_of, is_passing,
  status_message, malformed, json_or, str_of, link_id,
}

module _ (c : HttpClient) where
  -- `data.get("payment_links", data.get("items", []))`
  unfoldable pub links_in : HttpResponse → Result Json
  links_in r = do
    j ← json_or r.json (malformed "Razorpay GET" r)
    items ← get_or "items" (array nil) j
    get_or "payment_links" items j

  -- One GET.
  unfoldable pub fetched : Reply → Result Json
  unfolding links_in
  fetched (timeout e) = err (transient ("Razorpay GET request timed out: " ++ e) "TIMEOUT")
  fetched (request_error e) = err (transient ("Razorpay GET request failed: " ++ e) "NETWORK_ERROR")
  fetched (response r) =
      let msg = status_message "Razorpay GET" r in
      let type = "HTTP_" ++ decimal r.status_code in
      if leb 400 r.status_code
      then err (if is_passing r.status_code then transient msg type else permanent msg type)
      else links_in r

  -- `for attempt in range(max_attempts)`, with the attempts that are left, and its `else`.
  unfoldable pub poll : (ℕ → Reply) → String → ℕ → ℕ → Result Json
  unfolding fetched
  poll answer ref zero attempt = err (
      ambiguous ("No payment link found for reference_id=" ++ ref ++ " after 3 attempts")
        "MISSING_LINK")
  poll answer ref (suc left) attempt =
      let rest = poll answer ref left (suc attempt) in
      (fetched (answer attempt) >>= λ items. if is_truthy c.floats items then ok items else rest)

  mismatch : String → String → Option Json → String → Error
  mismatch what expected got type =
      reconciliation
        ("Mismatched " ++ what ++ ": expected " ++ expected ++ ", got " ++ str_of c got) type

  -- The amount, the currency and the id of a link, against the payment.
  unfoldable pub verify_terms : Option PaymentRecord → Json → Result String
  unfolding link_id mismatch
  verify_terms none link = err attribute_error
  verify_terms (some r) link = do
    amount ← get "amount" link
    if is_number c.floats r.amount amount
        then (do
          currency ← get "currency" link
          if is_text r.currency currency
              then link_id c link (reconciliation "Payment link object missing 'id'" "MISSING_ID")
              else err (mismatch "currency" r.currency currency "MISMATCHED_CURRENCY"))
        else err (mismatch "amount" (decimal r.amount) amount "MISMATCHED_AMOUNT")

  -- The checks of a single link, in the order of the source.
  unfoldable pub verify_link : RecoveryDecision → Option PaymentRecord → Json → Result String
  unfolding verify_terms
  verify_link d r link = do
    ref ← get "reference_id" link
    if is_text (reference_of d.id) ref
        then verify_terms r link
        else err (mismatch "reference_id" (reference_of d.id) ref "MISMATCHED_REFERENCE")

  -- What was found must be one link.
  unfoldable pub single_link : RecoveryDecision → Option PaymentRecord → Json → Result String
  unfolding verify_link
  single_link d r items = do
    n ← len items
    if ltb 1 n
        then err (
            reconciliation ("Multiple payment links found for reference_id=" ++ reference_of d.id)
              "MULTIPLE_LINKS")
        else first items >>= verify_link d r

  unfoldable pub reconcile_duplicate_reference :
      ℕ → RecoveryDecision → Option PaymentRecord → String → Result String
  unfolding poll single_link
  reconcile_duplicate_reference k d r ref =
      poll (λ attempt. c.fetch k attempt (reference_of d.id)) (reference_of d.id) 3 0
      >>= single_link d r
