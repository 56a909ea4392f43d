-- ===== src/Executor.antt =====
-- The executors of approved actions (internal/executor).
pub mod Contract
pub mod Router
pub mod Kubernetes
pub mod Restart
pub mod Simulated
pub mod Notification
pub mod Coherence
pub mod Sends
pub mod Recovery
pub mod Uncertain
