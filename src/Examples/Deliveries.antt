-- ===== src/Examples/Deliveries.antt =====
-- Deliveries of one event: signed, repeated, and forged.
use payment_recovery_opportu.Base.{text_eq, ◌≡◌, refl, false, some, ◌∷◌}
use payment_recovery_opportu.Session.{ok}
use payment_recovery_opportu.Security.{verify_webhook_signature}
use payment_recovery_opportu.Webhooks.{duplicate, invalid_signature}
use payment_recovery_opportu.System.{deliver, respond, step, run, session_at}
use payment_recovery_opportu.System.Delivery.{Accepted, redelivery-duplicate}
use payment_recovery_opportu.System.Rejection.{
  Rejected, SameRecovery, rejection-SameRecovery, rejection-takes_id,
}
use payment_recovery_opportu.Examples.{failed_event, endpoint, stored, calls}

genuine : Accepted endpoint "{}" (some "digest") failed_event
unfolding verify_webhook_signature text_eq
genuine = record {
  nonempty = refl;
  signed = refl;
  decoded = refl;
  payment_valid = refl;
  order_valid = refl;
}

forged : Rejected endpoint "{}" (some "forgery")
unfolding verify_webhook_signature text_eq
forged = record { nonempty = refl; unsigned = refl }

id_there : text_eq "evt_2" "" ≡ false
unfolding text_eq
id_there = refl

redelivery-duplicate_example :
    respond endpoint "{}"
      (some "digest")
      (run endpoint (session_at stored 0) (deliver "{}" (some "digest") ∷ calls))
    ≡ (
      ok (duplicate "evt_2"),
      (let s' = run endpoint (session_at stored 0) (deliver "{}" (some "digest") ∷ calls) in
          record s' { current = s'.committed }),
    )
redelivery-duplicate_example =
    redelivery-duplicate endpoint "{}" "{}" (some "digest") (some "digest") failed_event
      failed_event genuine genuine refl (session_at stored 0) calls

rejection-SameRecovery_example :
    ((respond endpoint "{}" (some "forgery") (session_at stored 0)).0 ≡ ok invalid_signature)
    × SameRecovery stored (respond endpoint "{}" (some "forgery") (session_at stored 0)).1.committed
rejection-SameRecovery_example =
    rejection-SameRecovery endpoint "{}" (some "forgery") forged (session_at stored 0)

rejection-takes_id_example :
    respond endpoint "{}"
      (some "digest")
      (step endpoint (session_at stored 0) (deliver "{}" (some "forgery")))
    ≡ (
      ok (duplicate "evt_2"),
      (let s' = step endpoint (session_at stored 0) (deliver "{}" (some "forgery")) in
          record s' { current = s'.committed }),
    )
rejection-takes_id_example =
    rejection-takes_id endpoint "{}" "{}" (some "forgery") (some "digest") failed_event forged refl
      id_there genuine (session_at stored 0)
