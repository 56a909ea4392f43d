-- ===== src/Diagnostic.antt =====
-- Deterministic diagnostics and the accounting of what they propose (internal/diagnostic).
pub mod Types
pub mod Candidates
pub mod Accounting
pub mod Accounted
pub mod Proposed
pub mod Scheduling
pub mod Evidence
pub mod ImagePull
pub mod ServicePort
pub mod Planner
