-- ===== src/Scripts.antt =====
-- The scripts around the service that compute something of their own.
pub mod EvaluatePhase3
pub mod Calibration
pub mod Criteria
pub mod TrainPhase3
pub mod EvaluateExperiment
