-- ===== src/Escalation.antt =====
-- Escalation chains (internal/escalation/router.go).
pub mod Router
pub mod Selection
