-- ===== src/Analysis.antt =====
-- The analyses that are kept beside the program.
pub mod Sensitivity
pub mod Sweep
pub mod Learnt
pub mod Recommendation
