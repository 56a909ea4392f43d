-- ===== src/Thresholds.antt =====
-- The limits of a namespace (internal/thresholds).
pub mod Enforcer
pub mod Limits
