-- ===== src/Controllers/RemediationPlan.antt =====
-- `RemediationPlanReconciler` and `RemediationPlanTTLReconciler`
-- (internal/controllers/remediationplan_controller.go, remediationplan_ttl_controller.go).
pub mod Env
pub mod Derive
pub mod Statuses
pub mod Admission
pub mod Protocol
pub mod Reconcile
pub mod Ttl
