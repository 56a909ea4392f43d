-- ===== src/Controllers.antt =====
-- The reconcilers (internal/controllers).
pub mod Flow
pub mod Events
pub mod Equality
pub mod AgentAction
pub mod Effectiveness
pub mod Dispatches
pub mod Triples
pub mod RemediationPlan
