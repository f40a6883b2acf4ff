-- ===== src/Streaming.antt =====
-- src/streaming: the consumers of change events.
pub mod Debezium
pub mod Bronze
pub mod Kafka
