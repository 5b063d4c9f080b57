-- ===== src/Domain.antt =====
-- pkg/domain: the report aggregate, its lifecycle and its audit events, and the
-- messages that vessel and office exchange.
pub mod State
pub mod Event
pub mod Report
pub mod Lifecycle
pub mod Message
