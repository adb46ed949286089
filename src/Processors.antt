-- ===== src/Processors.antt =====
-- The processing of events (events-processor/processors/events_processor/).
pub mod Enricher
pub mod Charges
pub mod Enrichment
pub mod Effect
pub mod Interleaving
pub mod Producer
pub mod Services
pub mod Processor
pub mod Calls
