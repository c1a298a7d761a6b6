-- ===== src/Security.antt =====
-- app/security.py: the signature of a webhook.
use payment_recovery_opportu.Base.{String, Bool, false, text_eq, if◌then◌else◌}
-- `hmac_hex secret body` is the hexadecimal HMAC-SHA256 of the body, or `none` where computing it,
-- or comparing it, raises: that is taken for an invalid signature.
use payment_recovery_opportu.Base.{Option, none, some}

abbrev digest_matches : Option String → String → Bool
digest_matches none header = false
digest_matches (some digest) header = text_eq digest header

unfoldable pub verify_webhook_signature :
    (String → String → Option String) → String → String → String → Bool
verify_webhook_signature hmac_hex webhook_secret raw_body signature_header =
    if text_eq webhook_secret ""
    then false
    else if text_eq signature_header ""
    then false
    else digest_matches (hmac_hex webhook_secret raw_body) signature_header
