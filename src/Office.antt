-- ===== src/Office.antt =====
-- The office: how the assignments that a company makes for its fleet, its groups and its vessels
-- become one vessel's configuration; what the office stores of what vessels push, and what it answers
-- when they pull.
pub mod Scope
pub mod Severities
pub mod Profiles
pub mod Cadence
pub mod FieldPolicy
pub mod Vessels
pub mod Enrollment
pub mod Landing
pub mod Bundles
pub mod Attachments
pub mod Inbox
