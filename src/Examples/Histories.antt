-- ===== src/Examples/Histories.antt =====
-- Histories of the service: a delivery, the time that passes, and a cycle of the worker.
use payment_recovery_opportu.Base.{text_eq, ℕ, refl, arith}
use payment_recovery_opportu.Base.Table.{find_first}
use payment_recovery_opportu.Models.{status_priority}
use payment_recovery_opportu.Change.{Changes}
use payment_recovery_opportu.Invariant.Decisions.{DecisionsValid}
use payment_recovery_opportu.Invariant.Payments.{HasReached, PaymentsUnique}
use payment_recovery_opportu.Invariant.Events.{EventsUnique}
use payment_recovery_opportu.Invariant.Audit.{TrailExtends}
use payment_recovery_opportu.System.{run, session_at}
use payment_recovery_opportu.System.History.{
  run-Changes, run-DecisionsValid, run-HasReached, run_unique, run-TrailExtends,
}
use payment_recovery_opportu.Examples.{endpoint, old_payment, stored, calls}

run-Changes_example : Changes stored (run endpoint (session_at stored 0) calls).committed
run-Changes_example = run-Changes endpoint calls stored 0

stored-valid : DecisionsValid stored
stored-valid = ((omega arith, omega arith, refl), tt)

run-DecisionsValid_example : DecisionsValid (run endpoint (session_at stored 0) calls).committed
run-DecisionsValid_example = run-DecisionsValid endpoint calls stored 0 stored-valid

abbrev captured_priority : ℕ
captured_priority = 3

stored-captured : HasReached "pay_1" captured_priority stored
unfolding find_first text_eq status_priority
stored-captured = (old_payment, refl, omega arith)

run-HasReached_example :
    HasReached "pay_1" captured_priority (run endpoint (session_at stored 0) calls).committed
run-HasReached_example =
    run-HasReached endpoint calls stored 0 "pay_1" captured_priority stored-captured

stored-events : EventsUnique stored
unfolding find_first
stored-events = (refl, tt)

stored-payments : PaymentsUnique stored
unfolding find_first
stored-payments = (refl, tt)

run_unique_example :
    EventsUnique (run endpoint (session_at stored 0) calls).committed
    × PaymentsUnique (run endpoint (session_at stored 0) calls).committed
run_unique_example = run_unique endpoint calls stored 0 stored-events stored-payments

run-TrailExtends_example : TrailExtends stored (run endpoint (session_at stored 0) calls).committed
run-TrailExtends_example = run-TrailExtends endpoint calls stored 0
