-- ===== src/StatusBudget.antt =====
-- The size budget of a status (internal/statusbudget/limits.go).
pub mod Limits
pub mod Truncation
pub mod Trimming
pub mod Enforcement
