-- ===== src/System.antt =====
-- The whole service as a history of calls: deliveries to the endpoint, cycles of the worker, and
-- time that passes between them. Each call has database sessions of its own (`get_db` of
-- app/database.py for a delivery), and the calls are served one after another.
pub mod History
pub mod Delivery
pub mod Rejection
use payment_recovery_opportu.Base.{ℕ, ◌+◌, String, Option, List, [], ◌∷◌, ◌≡◌}
use payment_recovery_opportu.Models.{Database}
use payment_recovery_opportu.Session.{Session, Result, M}
use payment_recovery_opportu.Worker.{in_session, run_worker_cycle}
use payment_recovery_opportu.Webhooks.{Endpoint, Response, receive_razorpay_webhook}

pub data Call : Type 0 where
  deliver : String → Option String → Call
  cycle : ℕ → Call
  pass : ℕ → Call

-- A delivery in a session of its own, with its response.
unfoldable pub respond : Endpoint → String → Option String → M Response
unfolding in_session
respond e raw_body header = in_session (receive_razorpay_webhook e raw_body header)

unfoldable pub step : Endpoint → Session → Call → Session
unfolding respond
step e s (deliver raw_body header) = (respond e raw_body header s).1
step e s (cycle rounds) = (in_session (run_worker_cycle rounds e.app) s).1
step e s (pass elapsed) = record s { now = s.now + elapsed }

unfoldable pub run : Endpoint → Session → List Call → Session
unfolding step
run e s [] = s
run e s (c ∷ cs) = run e (step e s c) cs

-- The service over a database, at a time, with nothing uncommitted.
abbrev pub session_at : Database → ℕ → Session
session_at db now = record { committed = db; current = db; now = now; ticks = 0; metrics = [] }
