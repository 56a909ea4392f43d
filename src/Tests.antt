-- ===== src/Tests.antt =====
-- Tests: the theorems applied to concrete inputs.
mod Worlds
mod Policies
mod Restarts
mod Actions
mod Timeouts
mod Chains
mod Limits
mod PlanWorlds
mod Plans
mod Budgets
mod Evidence
mod Diagnostics
