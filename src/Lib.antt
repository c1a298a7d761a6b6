-- ===== src/Lib.antt =====
-- The payment recovery engine: a service that receives the webhooks of Razorpay, records payments,
-- decides for a failed payment whether the customer gets a payment link, creates the link, and tries
-- again what failed for a passing reason.
--
-- The parts, and the files that model them:
-- - Models is app/models.py: the tables are lists of rows in the order of insertion, the enums are
--   data types. The columns updated_at, reason and metadata_json are not modelled.
-- - Session is a session of SQLAlchemy: the tables that are committed and those that the session
--   sees, the clock in microseconds, the number of calls of outside services, and the counters of
--   app/metrics.py. A method takes a session to a result, or an exception, and a session.
-- - Crud is app/crud.py, one function per function: Events, Payments, Decisions, Transitions (the ways
--   out of EXECUTING) and Trail (audit log and outreach events).
-- - Schemas is app/schemas.py, Features app/ml/features.py, Experiment app/experiment.py, Guardrails
--   app/guardrails.py, Retry app/retry_policy.py, Security app/security.py.
-- - Executor is app/executor.py: the provider of payment links is a record of functions, the mock an
--   instance. Razorpay is the other instance, app/executor_razorpay.py: Http has the requests and what
--   both calls make of an answer, Create and Reconcile the two calls. Json has the values of
--   json.loads and what the code does with them.
-- - Learner is app/ml/training.py and app/ml/models/s_learner.py; Policy is app/ml/predictor.py and
--   app/ml/policy.py, the two predictors; Floats has the operations on binary64 numbers, Numpy those on
--   arrays of them, Models/Integers Python's ints.
-- - App holds what app/main.py puts into app.state, and the settings. Main is app/main.py: the start,
--   which fills App, and the endpoints /health and /events/{event_id}.
-- - Execution is app/execution.py, Stale app/stale_recovery.py, Worker app/worker.py.
-- - Processor and Processor/PaymentFailed are app/event_processor.py, Webhooks is app/webhooks.py.
-- - Learner/Agreement sets the diagnostic of a batch against the predictions of its single payments.
-- - Dashboard is app/dashboard_metrics.py: a query is a function of the database, a join a list of
--   pairs of rows. Dashboard/Page has the figures of app/dashboard.py and app/simulation_evidence.py.
-- - Simulator is app/simulator/schemas.py, and its children the other files of app/simulator: Engine
--   draws payments and their hidden truth, Runner lets a policy act on them, Evaluator sums up.
--   Matched sets the evaluations of two policies on one population side by side.
-- - Scripts is scripts/evaluate_phase3.py (EvaluatePhase3, Calibration, Criteria),
--   scripts/train_phase3.py and scripts/evaluate_experiment.py: what they compute, not what they
--   print. Analysis is analysis/phase3_policy_sensitivity.py.
-- - System puts them together: a history is a list of deliveries, worker cycles and time that passes,
--   each call in sessions of its own, one after another.
-- Change is the specification of what may happen to the database; the modules named Closed show that
-- each method keeps to it, and Invariant what every allowed change keeps. Session/Keeps, Session/Yields
-- and Session/Leads are the rules for methods; Stale/Pace and Stale/Timing count the stale decisions
-- and the time of a recovery, Stale/Race lets workers race for one. Examples applies the theorems at
-- concrete inputs.
--
-- Code outside the repository is a parameter: HMAC and SHA-256, str.lower, uuid4, random.random,
-- json and pydantic (a raw body has an outcome: not JSON, not UTF-8, not a payload, or a payload),
-- the HTTP client of Razorpay (an answer to each request of each call, and the time that a call
-- takes), the operations on binary64 numbers, the pipeline of scikit-learn and its fit,
-- joblib.load, numpy and scipy's spearmanr, and Python's random, math.exp and hashlib. The
-- theorems on deliveries and the worker hold for every predictor that answers DECIDED or
-- PENDING_POLICY, and for every provider of payment links, whose answer may differ from call to
-- call.
--
-- The loop over stale decisions of the worker runs on fuel, the rounds of a cycle, and answers whether
-- it came to its break. The invariants hold for every number of rounds. A row that was claimed is stale
-- again only after the threshold, so one round more than there are decisions in EXECUTING is enough
-- where the calls for all of them take no longer than the threshold; where they take longer, the code
-- itself may go on for ever (Worker/Starvation).
--
-- Not modelled: interleavings of two sessions, but for the claims of one decision, failures of the
-- database, logging, the latency histogram, the rounding of the jitter of the retry delay (the
-- model floors to a microsecond), times of payments that are negative or out of the range of
-- datetime.fromtimestamp, settings below 0 (worker_batch_size, cooldown_hours,
-- execution_stale_after_seconds), the endpoint /metrics, the layout and the texts of the
-- dashboard, migrations, and the scripts that only call a running service or the provider and
-- print what they see (scripts/live_roe_test.py, scripts/validate_end_to_end.py,
-- scripts/verify_real_razorpay.py, query_rzp.py, verify_metrics.py).
pub mod Base
pub mod Models
pub mod Session
pub mod Schemas
pub mod Crud
pub mod Change
pub mod Retry
pub mod Features
pub mod Executor
pub mod App
pub mod Floats
pub mod Numpy
pub mod Json
pub mod Razorpay
pub mod Learner
pub mod Policy
pub mod Experiment
pub mod Guardrails
pub mod Execution
pub mod Stale
pub mod Worker
pub mod Processor
pub mod Security
pub mod Webhooks
pub mod Invariant
pub mod System
pub mod Main
pub mod Dashboard
pub mod Simulator
pub mod Scripts
pub mod Analysis
mod Examples
