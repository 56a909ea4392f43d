-- ===== src/Classification.antt =====
-- The classification of evidence, and what a model provider may be sent
-- (internal/dataclassification/classification.go).
pub mod Levels
pub mod Bundle
pub mod Egress
