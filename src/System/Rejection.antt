-- ===== src/System/Rejection.antt =====
-- A delivery whose signature does not verify: what it leaves alone, and what it does to a later
-- delivery of the event that it names.
use payment_recovery_opportu.Base.{
  ◌≡◌, refl, sym, ap, subst, String, false, Option, some, text_eq, text_eq_iff, inl, inr,
  Option-cases, Bool-cases, ℕ,
}
use payment_recovery_opportu.Base.Table.{find_first, find_first-append_new}
use payment_recovery_opportu.Models.{Database, WebhookEvent}
use payment_recovery_opportu.Schemas.{RazorpayWebhookPayload}
use payment_recovery_opportu.Session.{
  Session, Done, Result, ok, err, Error, integrity, ◌>>=◌, commit, rollback, outside, handle,
}
use payment_recovery_opportu.Session.Keeps.{Keeps, keeps_rules}
use payment_recovery_opportu.Crud.{
  has_event_id, existing_event, insert_event, create_webhook_event, append_audit_log,
}
use payment_recovery_opportu.Invariant.Events.{HasEvent}
use payment_recovery_opportu.Webhooks.{
  Endpoint, is_signed, invalid_signature, duplicate, persist_rejected_webhook,
  receive_razorpay_webhook,
}
use payment_recovery_opportu.Worker.{in_session}
use payment_recovery_opportu.System.{deliver, respond, step}
use payment_recovery_opportu.System.Delivery.{Accepted, respond-known}

-- The signature of a body that is there does not verify.
pub record Rejected (e : Endpoint) (raw_body : String) (header : Option String) : Type 0 where
  pub nonempty : text_eq raw_body "" ≡ false
  pub unsigned : is_signed e raw_body header ≡ false

-- The tables that the recovery works on are those of `db`.
pub record SameRecovery (db db' : Database) : Type 0 where
  pub same_payments : db'.payment_records ≡ db.payment_records
  pub same_decisions : db'.recovery_decisions ≡ db.recovery_decisions
  pub same_outreach : db'.outreach_events ≡ db.outreach_events

module _ (db : Database) where
  append_audit_log-SameRecovery :
      (event_type kind : String) (id : Option ℕ)
      → Keeps (SameRecovery db) (append_audit_log event_type kind id)
  unfolding append_audit_log ◌>>=◌
  append_audit_log-SameRecovery event_type kind id = record {
    at = λ s h. record {
      in_committed = h.in_committed;
      in_current = record {
        same_payments = h.in_current.same_payments;
        same_decisions = h.in_current.same_decisions;
        same_outreach = h.in_current.same_outreach;
      };
    };
  }

  insert_event-SameRecovery : (w : WebhookEvent) → Keeps (SameRecovery db) (insert_event w)
  unfolding insert_event ◌>>=◌
  insert_event-SameRecovery w = record {
    at = λ s h.
        elim (Option-cases (find_first (has_event_id w.event_id) s.current.webhook_events)) [
          | inl free ↦ rw free (record {
            in_committed = h.in_committed;
            in_current = record {
              same_payments = h.in_current.same_payments;
              same_decisions = h.in_current.same_decisions;
              same_outreach = h.in_current.same_outreach;
            };
          })
          | inr (x, taken) ↦ rw taken h
        ];
  }

  existing_event-SameRecovery :
      (event_id : String) (e : Error) → Keeps (SameRecovery db) (existing_event event_id e)
  existing_event-SameRecovery event_id integrity = search keeps_rules
  existing_event-SameRecovery event_id _ = search keeps_rules

  persist_rejected_webhook-SameRecovery :
      (e : Endpoint) (raw_body : String)
      → Keeps (SameRecovery db) (persist_rejected_webhook e raw_body)
  unfolding persist_rejected_webhook create_webhook_event
  persist_rejected_webhook-SameRecovery e raw_body =
      search
        (
          keeps_rules, insert_event-SameRecovery, existing_event-SameRecovery,
          append_audit_log-SameRecovery,
        )
        depth 9

handle-rollback : (r : Result Done) (s : Session) → (handle r (λ _. rollback) s).0 ≡ ok tt
unfolding rollback ◌>>=◌
handle-rollback (ok a) s = refl
handle-rollback (err e) s = refl

-- The record of a rejected delivery never raises.
persist_rejected_webhook-ok :
    (e : Endpoint) (raw_body : String) (s : Session)
    → (persist_rejected_webhook e raw_body s).0 ≡ ok tt
unfolding persist_rejected_webhook outside ◌>>=◌
persist_rejected_webhook-ok e raw_body s = elim (Option-cases (e.rejected_id raw_body)) [
  | inl unnamed ↦ rw unnamed (handle-rollback _ _)
  | inr (t, named) ↦ elim (Bool-cases (text_eq t "")) [
    | inl blank ↦ rw named (rw blank (handle-rollback _ _))
    | inr there ↦ rw named (rw there (handle-rollback _ _))
  ]
]

module _ (e : Endpoint) (raw_body : String) (header : Option String)
    (rejected : Rejected e raw_body header) where
  receive-rejected :
      (s : Session)
      → receive_razorpay_webhook e raw_body header s
        ≡ (ok invalid_signature, (persist_rejected_webhook e raw_body s).1)
  unfolding receive_razorpay_webhook ◌>>=◌
  receive-rejected s =
      rw rejected.nonempty
        (rw rejected.unsigned (rw (persist_rejected_webhook-ok e raw_body s) refl))

  -- What is committed when the event that the body names is recorded.
  persist_rejected_webhook-HasEvent :
      (i : String)
      → e.rejected_id raw_body ≡ some i
      → text_eq i "" ≡ false
      → (s : Session) → HasEvent i (persist_rejected_webhook e raw_body s).1.committed
  unfolding persist_rejected_webhook create_webhook_event commit append_audit_log outside ◌>>=◌
  persist_rejected_webhook-HasEvent i named there s = rw named (
      rw there (elim (Option-cases (find_first (has_event_id i) s.current.webhook_events)) [
        | inl free ↦ rw free (
          _,
          find_first-append_new (has_event_id i) s.current.webhook_events _ free
              ((text_eq_iff i i).1 refl),
        )
        | inr (w, hit) ↦ rw hit (w, hit)
      ]))

  step-rejected :
      (s : Session)
      → (step e s (deliver raw_body header)).committed
        ≡ (persist_rejected_webhook e raw_body (record s { current = s.committed })).1.committed
  unfolding step respond in_session rollback ◌>>=◌
  step-rejected s = ap (λ r. r.1.committed) (receive-rejected (record s { current = s.committed }))

-- A delivery whose body is there and whose signature does not verify is answered as an invalid
-- signature, and it changes no payment record, no recovery decision and no outreach event.
pub rejection-SameRecovery :
    (e : Endpoint) (raw_body : String) (header : Option String)
    → Rejected e raw_body header
    → (s : Session)
    → ((respond e raw_body header s).0 ≡ ok invalid_signature)
      × SameRecovery s.committed (respond e raw_body header s).1.committed
unfolding respond in_session rollback ◌>>=◌
rejection-SameRecovery e raw_body header rejected s =
    let s0 : Session = record s { current = s.committed } in
    let same : SameRecovery s.committed s.committed = record {
      same_payments = refl;
      same_decisions = refl;
      same_outreach = refl;
    } in
    rw (receive-rejected e raw_body header rejected s0) (
      refl,
      ((persist_rejected_webhook-SameRecovery s.committed e raw_body).at s0
          (record { in_committed = same; in_current = same })).in_committed,
    )

-- An unsigned body that names an event id takes the id: a delivery of the event that passes every
-- check of the endpoint is answered as a duplicate after it, and nothing is done about it.
pub rejection-takes_id :
    (e : Endpoint) (forged body : String) (header header_of_body : Option String)
    (p : RazorpayWebhookPayload)
    → Rejected e forged header
    → e.rejected_id forged ≡ some p.id
    → text_eq p.id "" ≡ false
    → Accepted e body header_of_body p
    → (s : Session)
    → respond e body header_of_body (step e s (deliver forged header)) ≡ (
      ok (duplicate p.id),
      (let s' = step e s (deliver forged header) in record s' { current = s'.committed }),
    )
rejection-takes_id e forged body header header_of_body p rejected named there accepted s =
    respond-known e body header_of_body p accepted _ (
      subst (HasEvent p.id) (sym (step-rejected e forged header rejected s)) (
        persist_rejected_webhook-HasEvent e forged header rejected p.id named there
          (record s { current = s.committed })))
