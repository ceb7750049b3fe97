-- ===== src/Ingestion/Reading.antt =====
-- ingestion/include/ingestion/reading.h, and the polled rows of
-- alarm-engine/include/alarm-engine/reading_cursor.h and api/include/api/device_service.h.
use forge_sight.Prelude.{Bool, Text, ℤ}

pub record Reading (D : Type 0) : Type 0 where
  pub device_id : Text
  pub sensor : Text
  pub value : D
  pub unit : Text
  pub timestamp : Text
  pub anomaly : Bool

pub record PolledReading (D : Type 0) : Type 0 where
  pub id : ℤ
  pub reading : Reading D
