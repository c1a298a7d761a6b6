-- ===== src/Webhooks.antt =====
-- app/webhooks.py: the endpoint, from the raw body to the response, and the record of a rejected
-- delivery. A raw body is a text; how it decodes is a parameter of the endpoint.
pub mod Closed
use Prim.Native.String.{◌++◌}
use payment_recovery_opportu.Base.{
  String, Bool, true, false, Option, none, some, text_eq, if◌then◌else◌, ℕ,
}
use payment_recovery_opportu.Base.Text.{truthy}
use payment_recovery_opportu.Models.{WebhookEvent}
use payment_recovery_opportu.Schemas.{RazorpayWebhookPayload, Extracted, absent, invalid, entity}
use payment_recovery_opportu.Session.{
  M, Done, Error, Result, ok, other, pure, raise, or_raise, ◌>>=◌, ◌>>◌, try_except, commit,
  rollback, outside, if_none,
}
use payment_recovery_opportu.Crud.{append_audit_log, create_webhook_event}
use payment_recovery_opportu.App.{App}
use payment_recovery_opportu.Security.{verify_webhook_signature}
use payment_recovery_opportu.Processor.{process_webhook_event}

-- What json and pydantic make of a body. One that is no UTF-8 raises a UnicodeDecodeError, which is
-- not caught: in `json.loads`, or where the body is decoded to be stored.
pub data Parsed : Type 0 where
  undecodable invalid_json invalid_schema : Parsed
  payload : RazorpayWebhookPayload → Parsed

-- The endpoint's settings and the code outside the repository that it calls.
pub record Endpoint : Type 0 where
  pub app : App
  pub razorpay_webhook_secret : String
  pub hmac_hex : String → String → Option String
  pub parse : String → Parsed
  -- `payload_dict.get("id")` and `.get("event", "unknown")` of a rejected body, where they are texts
  pub rejected_id : String → Option String
  pub rejected_event : String → Option String
  -- `uuid4().hex`, at each call
  pub uuid : ℕ → String

pub data Response : Type 0 where
  processed duplicate : String → Response
  empty_body invalid_signature invalid_json_body schema_mismatch processing_failed : Response

-- `if not isinstance(t, str) or not t: t = default`
abbrev pub text_or : Option String → String → String
text_or none default = default
text_or (some t) default = if text_eq t "" then default else t

unfoldable pub local_id : Endpoint → M String
local_id e = do hex ← outside (λ _. 0) (λ k. ok (e.uuid k)); pure ("invalid_signature_" ++ hex)

-- The id that the body names, or a local identifier.
unfoldable pub rejected_event_id : Endpoint → String → M String
unfolding local_id
rejected_event_id e raw_body =
    if_none (e.rejected_id raw_body) (local_id e) λ t. if text_eq t "" then local_id e else pure t

unfoldable pub persist_rejected_webhook : Endpoint → String → M Done
unfolding rejected_event_id
persist_rejected_webhook e raw_body = do
  event_id ← rejected_event_id e raw_body
  try_except
      (do
        _ ←
            create_webhook_event event_id (text_or (e.rejected_event raw_body) "unknown") raw_body
              false
        append_audit_log "WEBHOOK_REJECTED" "INVALID_SIGNATURE" none
        commit)
      (λ _. rollback)

-- The nested entities are validated before anything is stored.
abbrev pub is_valid : {A : Type 0} → Extracted A → Bool
is_valid absent = true
is_valid invalid = false
is_valid (entity _) = true

abbrev id_of : Option WebhookEvent → M ℕ
id_of none = raise (other "AttributeError")
id_of (some w) = pure w.id

-- Step 6, and the response.
unfoldable pub process_event : App → RazorpayWebhookPayload → ℕ → M Response
process_event app p event =
    try_except (process_webhook_event app event p >> commit >> pure (processed p.id))
      (λ _. rollback >> pure processing_failed)

-- Step 5: the event is committed as received, and then processed.
unfoldable pub receive_new : App → RazorpayWebhookPayload → Option WebhookEvent → M Response
unfolding process_event
receive_new app p w = do
  append_audit_log "WEBHOOK_RECEIVED" "SIGNATURE_VERIFIED" none
  commit
  event ← id_of w
  process_event app p event

-- A duplicate is acknowledged and not processed.
unfoldable pub receive_stored :
    App → RazorpayWebhookPayload → Option WebhookEvent × Bool → M Response
unfolding receive_new
receive_stored app p (w, true) = commit >> pure (duplicate p.id)
receive_stored app p (w, false) = receive_new app p w

-- Step 4.
unfoldable pub receive_payload : App → String → RazorpayWebhookPayload → M Response
unfolding receive_stored
receive_payload app raw_body p =
    create_webhook_event p.id p.event raw_body true >>= receive_stored app p

-- Step 3.
unfoldable pub receive_parsed : App → String → Parsed → M Response
unfolding receive_payload
receive_parsed app raw_body undecodable = raise (other "UnicodeDecodeError")
receive_parsed app raw_body invalid_json = pure invalid_json_body
receive_parsed app raw_body invalid_schema = pure schema_mismatch
receive_parsed app raw_body (payload p) =
    if is_valid p.payment
    then (if is_valid p.order then receive_payload app raw_body p else pure schema_mismatch)
    else pure schema_mismatch

abbrev header_text : Option String → String
header_text none = ""
header_text (some t) = t

abbrev pub is_signed : Endpoint → String → Option String → Bool
is_signed e raw_body header =
    verify_webhook_signature e.hmac_hex e.razorpay_webhook_secret raw_body (header_text header)

unfoldable pub receive_razorpay_webhook : Endpoint → String → Option String → M Response
unfolding persist_rejected_webhook receive_parsed
receive_razorpay_webhook e raw_body header =
    if text_eq raw_body ""
    then pure empty_body
    else if is_signed e raw_body header
    then receive_parsed e.app raw_body (e.parse raw_body)
    else (persist_rejected_webhook e raw_body >> pure invalid_signature)
