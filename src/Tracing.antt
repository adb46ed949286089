-- ===== src/Tracing.antt =====
-- Tracing (events-processor/config/tracing).
pub mod Span
pub mod Writes
pub mod Tags
pub mod Attributes
pub mod Backends
pub mod Provider
pub mod Choice
pub mod Global
