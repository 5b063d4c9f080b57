-- ===== src/Validation.antt =====
-- pkg/validation: the rule engine that vessel and office share.
pub mod Finding
pub mod Report
pub mod Policy
pub mod Regulatory
pub mod Config
pub mod TimeParse
pub mod FieldRules
pub mod Plausibility
pub mod Continuity
pub mod Cascade
pub mod Precheck
