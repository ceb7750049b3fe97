-- ===== src/Ingestion.antt =====
-- ingestion/: from an MQTT message to a row of the readings table.
pub mod Reading
pub mod DbWriter
pub mod ThreadPool
pub mod ReadingParser
pub mod Service
