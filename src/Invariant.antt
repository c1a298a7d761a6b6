-- ===== src/Invariant.antt =====
-- Invariants of the database that every change of the specification keeps.
pub mod Decisions
pub mod Payments
pub mod Events
pub mod Recorded
pub mod Audit
