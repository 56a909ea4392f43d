-- ===== src/Api.antt =====
-- The custom resources (api/v1alpha1).
pub mod Meta
pub mod Evidence
pub mod Action
pub mod Policy
pub mod Investigation
