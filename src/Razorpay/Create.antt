-- ===== src/Razorpay/Create.antt =====
-- app/executor_razorpay.py: `create_payment_link`.
use Prim.Native.String.{◌++◌}
use payment_recovery_opportu.Base.{
  ℕ, String, Bool, true, false, ◌||◌, Option, none, some, leb, ◌==◌, if◌then◌else◌,
}
use payment_recovery_opportu.Base.Text.{decimal}
use payment_recovery_opportu.Models.{RecoveryDecision, PaymentRecord}
use payment_recovery_opportu.Session.{
  Error, Result, ok, err, transient, permanent, duplicate_reference,
}
use payment_recovery_opportu.Json.{
  Json, text, object, end, ◌>>=◌, attribute_error, get, get_or, is_text, is_dict, contains,
}
use payment_recovery_opportu.Razorpay.Http.{
  HttpResponse, Reply, timeout, request_error, response, HttpClient, build_request_body, is_passing,
  is_lasting, status_message, malformed, json_or, link_id,
}

-- An error response that names no duplicate, by its status.
unfoldable pub http_error : String → ℕ → Error
http_error msg status =
    if is_passing status
    then transient msg ("HTTP_" ++ decimal status)
    else if is_lasting status
    then permanent msg ("HTTP_" ++ decimal status)
    else if leb 500 status
    then transient msg ("HTTP_" ++ decimal status ++ "_UNKNOWN")
    else permanent msg ("HTTP_" ++ decimal status ++ "_UNKNOWN")

module _ (c : HttpClient) where
  -- `description.lower()` names the reference, or says that it exists.
  names_reference : Json → Result Bool
  names_reference (text t) =
      ok (contains (c.lower t) "reference_id" || contains (c.lower t) "already exists")
  names_reference _ = err attribute_error

  -- The test on the `error` object of a 400.
  unfoldable pub is_duplicate : Json → Result Bool
  unfolding names_reference
  is_duplicate e = do
    code ← get "code" e
    if is_text "BAD_REQUEST_ERROR" code
        then (do
          f ← get "field" e
          if is_text "reference_id" f
              then ok true
              else (do d ← get_or "description" (text "") e; names_reference d))
        else ok false

  -- A 400 with a JSON body.
  unfoldable pub is_duplicate_body : Option Json → Result Bool
  unfolding is_duplicate
  is_duplicate_body none = ok false
  is_duplicate_body (some value) = do
    e ← get_or "error" (object end) value
    if is_dict e then is_duplicate e else ok false

  -- A response with a status from 400 on.
  unfoldable pub refused : HttpResponse → Result String
  unfolding http_error
  refused r = do
    taken ← if r.status_code == 400 then is_duplicate_body r.json else ok false
    let msg = status_message "Razorpay API" r
    if taken
        then err (duplicate_reference msg "DUPLICATE_REFERENCE_ID")
        else err (http_error msg r.status_code)

  unfoldable pub created : HttpResponse → Result String
  unfolding link_id
  created r = do
    j ← json_or r.json (malformed "Razorpay API" r)
    link_id c j (permanent ("Razorpay API response missing 'id' field: " ++ c.str j) "MISSING_ID")

  unfoldable pub on_reply : Reply → Result String
  unfolding refused created
  on_reply (timeout _) = err (transient "Razorpay API request timed out after 10.0s" "TIMEOUT")
  on_reply (request_error e) =
      err (transient ("Razorpay API request failed: " ++ e) "NETWORK_ERROR")
  on_reply (response r) = if leb 400 r.status_code then refused r else created r

  unfoldable pub create_payment_link :
      ℕ → RecoveryDecision → Option PaymentRecord → String → Result String
  unfolding build_request_body on_reply
  create_payment_link k d r ref = do body ← build_request_body d r ref; on_reply (c.post k body)
