-- ===== src/Kafka.antt =====
-- The Kafka side of the events processor (events-processor/config/kafka/).
pub mod Commit
pub mod Group
pub mod Producer
