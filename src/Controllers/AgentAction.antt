-- ===== src/Controllers/AgentAction.antt =====
-- `AgentActionReconciler` (internal/controllers/agentaction_controller.go).
pub mod Env
pub mod Approval
pub mod Pending
pub mod Execution
pub mod Baseline
pub mod Statuses
pub mod Outcomes
pub mod Inquiry
pub mod Verification
pub mod Ttl
pub mod Reconcile
pub mod Watches
