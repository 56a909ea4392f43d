-- ===== src/Guardrails.antt =====
-- Approval decisions (internal/guardrails).
pub mod Engine
pub mod Policy
pub mod Resolve
pub mod Decisions
pub mod Rules
pub mod Selection
pub mod AutoApproval
