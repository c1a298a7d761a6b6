-- ===== src/System/History.antt =====
-- What holds of the database after any history of calls.
use payment_recovery_opportu.Base.{ℕ, String, List, [], ◌∷◌}
use payment_recovery_opportu.Models.{Database}
use payment_recovery_opportu.Session.{Session}
use payment_recovery_opportu.Session.Keeps.{Holds}
use payment_recovery_opportu.Change.{IsClosed, Changes, here, Changes-closed}
use payment_recovery_opportu.Invariant.Decisions.{DecisionsValid, DecisionsValid-closed}
use payment_recovery_opportu.Invariant.Payments.{
  HasReached, HasReached-closed, PaymentsUnique, PaymentsUnique-closed,
}
use payment_recovery_opportu.Invariant.Events.{
  HasEvent, HasEvent-closed, EventsUnique, EventsUnique-closed,
}
use payment_recovery_opportu.Invariant.Audit.{TrailExtends, TrailExtends-closed, Extends-refl}
use payment_recovery_opportu.Worker.Closed.{in_session-Keeps, run_worker_cycle-Keeps}
use payment_recovery_opportu.Webhooks.{Endpoint}
use payment_recovery_opportu.Webhooks.Closed.{receive_razorpay_webhook-Keeps}
use payment_recovery_opportu.System.{Call, deliver, cycle, pass, step, run, session_at}

module _ {P : Database → Type 0} (closed : IsClosed P) (e : Endpoint) where
  pub step-Holds : (s : Session) (c : Call) → Holds P s → Holds P (step e s c)
  unfolding step
  step-Holds s (deliver raw_body header) h =
      (in_session-Keeps _ (receive_razorpay_webhook-Keeps closed e raw_body header)).at s h
  step-Holds s (cycle rounds) h =
      (in_session-Keeps _ (run_worker_cycle-Keeps closed rounds e.app)).at s h
  step-Holds s (pass elapsed) h = record {
    in_committed = h.in_committed;
    in_current = h.in_current;
  }

  pub run-Holds : (cs : List Call) (s : Session) → Holds P s → Holds P (run e s cs)
  unfolding run
  run-Holds [] s h = h
  run-Holds (c ∷ cs) s h = run-Holds cs (step e s c) (step-Holds s c h)

  pub run-committed :
      (cs : List Call) (db : Database) (now : ℕ) → P db → P (run e (session_at db now) cs).committed
  run-committed cs db now p =
      (run-Holds cs (session_at db now) (record { in_committed = p; in_current = p })).in_committed

-- Whatever is delivered and however often the worker runs, what is committed to the database is
-- reached from what it held before by changes that the specification allows.
pub run-Changes :
    (e : Endpoint) (cs : List Call) (db : Database) (now : ℕ)
    → Changes db (run e (session_at db now) cs).committed
run-Changes e cs db now = run-committed (Changes-closed db) e cs db now here

-- After any history every decision is valid, if every one was before: a decision has had at most 5
-- attempts, fewer than 5 while it is DECIDED and at least one once it has been claimed; it has no
-- execution reference until it is executed, and from then on its own, exec_rd_<id>.
pub run-DecisionsValid :
    (e : Endpoint) (cs : List Call) (db : Database) (now : ℕ)
    → DecisionsValid db
    → DecisionsValid (run e (session_at db now) cs).committed
run-DecisionsValid e cs db now = run-committed DecisionsValid-closed e cs db now

-- A payment that has been recorded stays recorded, and the priority of its status never falls below
-- one that it has reached: no history takes a captured payment back to failed or authorized.
pub run-HasReached :
    (e : Endpoint) (cs : List Call) (db : Database) (now : ℕ) (payment_id : String) (priority : ℕ)
    → HasReached payment_id priority db
    → HasReached payment_id priority (run e (session_at db now) cs).committed
run-HasReached e cs db now payment_id priority =
    run-committed (HasReached-closed payment_id priority) e cs db now

-- After any history no two webhook events have one event id and no two payment records have one
-- Razorpay payment id, if that was so before.
pub run_unique :
    (e : Endpoint) (cs : List Call) (db : Database) (now : ℕ)
    → EventsUnique db
    → PaymentsUnique db
    → EventsUnique (run e (session_at db now) cs).committed
      × PaymentsUnique (run e (session_at db now) cs).committed
run_unique e cs db now u v = (
  run-committed EventsUnique-closed e cs db now u,
  run-committed PaymentsUnique-closed e cs db now v,
)

-- The audit trail and the outreach events are append-only: after any history both tables begin
-- with all the rows that they held before, unchanged and in their order.
pub run-TrailExtends :
    (e : Endpoint) (cs : List Call) (db : Database) (now : ℕ)
    → TrailExtends db (run e (session_at db now) cs).committed
run-TrailExtends e cs db now =
    run-committed (TrailExtends-closed db) e cs db now (Extends-refl _, Extends-refl _)

-- A stored event id stays stored.
pub run-HasEvent :
    (e : Endpoint) (cs : List Call) (s : Session) (event_id : String)
    → Holds (HasEvent event_id) s
    → Holds (HasEvent event_id) (run e s cs)
run-HasEvent e cs s event_id = run-Holds (HasEvent-closed event_id) e cs s
