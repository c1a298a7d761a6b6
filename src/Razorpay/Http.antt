-- ===== src/Razorpay/Http.antt =====
-- The requests and the answers of app/executor_razorpay.py, and what both calls do with an answer.
use Prim.Native.String.{◌++◌}
use payment_recovery_opportu.Base.{
  ℕ, String, Bool, ◌||◌, Option, none, some, List, [], ◌∷◌, ◌==◌, if◌then◌else◌,
}
use payment_recovery_opportu.Base.Text.{decimal, truthy}
use payment_recovery_opportu.Models.{RecoveryDecision, PaymentRecord}
use payment_recovery_opportu.Session.{Error, Result, ok, err, permanent}
use payment_recovery_opportu.Floats.{FloatOps}
use payment_recovery_opportu.Json.{
  Json, null, ◌>>=◌, attribute_error, get, or_default, is_truthy, prefix,
}

-- `json` is `none` where `response.json()` raises a ValueError.
pub record HttpResponse : Type 0 where
  pub status_code : ℕ
  pub body_text : String
  pub json : Option Json

pub data Reply : Type 0 where
  timeout : String → Reply
  request_error : String → Reply
  response : HttpResponse → Reply

pub record Customer : Type 0 where
  pub email : Option String
  pub contact : Option String

pub record RequestBody : Type 0 where
  pub amount : ℕ
  pub currency : String
  pub description : String
  pub reference_id : String
  pub notes : List (String × String)
  pub customer : Option Customer

-- The answers of the API to the POST of a call, and to the GET number `attempt` of a call; what a
-- call takes, its `time.sleep` included; and what Python makes of a value in a text.
pub record HttpClient : Type 0 where
  pub post : ℕ → RequestBody → Reply
  pub fetch : ℕ → ℕ → String → Reply
  pub elapsed : ℕ → ℕ
  pub floats : FloatOps
  pub lower : String → String
  pub str : Json → String

-- f"roe_rd_{decision.id}"
unfoldable pub reference_of : ℕ → String
reference_of id = "roe_rd_" ++ decimal id

-- The value of a text column, if there is one that is not empty.
abbrev non_empty : Option String → Option String
non_empty o = if truthy o then o else none

abbrev customer_of : Option String → Option String → Option Customer
customer_of none none = none
customer_of email contact = some (record { email = email; contact = contact })

unfoldable pub build_request_body :
    RecoveryDecision → Option PaymentRecord → String → Result RequestBody
unfolding reference_of
build_request_body d none ref = err attribute_error
build_request_body d (some r) ref = ok (record {
  amount = r.amount;
  currency = r.currency;
  description = "Payment recovery link";
  reference_id = reference_of d.id;
  notes = ("execution_reference_id", ref) ∷ ("recovery_decision_id", decimal d.id) ∷ [];
  customer = customer_of (non_empty r.customer_email) (non_empty r.customer_contact);
})

-- `status in (429, 500, 502, 503, 504)`
abbrev pub is_passing : ℕ → Bool
is_passing status =
    status == 429 || status == 500 || status == 502 || status == 503 || status == 504

-- `status in (400, 401, 403, 422)`
abbrev pub is_lasting : ℕ → Bool
is_lasting status = status == 400 || status == 401 || status == 403 || status == 422

-- f"{what} returned HTTP {status}: {text}"
abbrev pub status_message : String → HttpResponse → String
status_message what r = what ++ " returned HTTP " ++ decimal r.status_code ++ ": " ++ r.body_text

-- f"{what} returned non-JSON response: {text[:200]}"
abbrev pub malformed : String → HttpResponse → Error
malformed what r =
    permanent (what ++ " returned non-JSON response: " ++ prefix 200 r.body_text)
      "MALFORMED_RESPONSE"

abbrev pub json_or : Option Json → Error → Result Json
json_or none e = err e
json_or (some j) e = ok j

module _ (c : HttpClient) where
  -- A value that may be missing, as `None` is in a text.
  abbrev pub str_of : Option Json → String
  str_of none = c.str null
  str_of (some j) = c.str j

  -- `plink_id = value.get("id")`, unless it is falsy
  unfoldable pub link_id : Json → Error → Result String
  link_id j missing = do
    found ← get "id" j
    let id = or_default found null
    if is_truthy c.floats id then ok (c.str id) else err missing
