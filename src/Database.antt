-- ===== src/Database.antt =====
-- PostgreSQL, reached through libpq: a parameter of the model. `Server` is the whole of it as the
-- program sees it: a state and the answer to each statement. The statements are the SQL texts of the
-- source with their parameters. An id travels as the number whose decimal digits are sent, and a
-- BIGINT, DOUBLE PRECISION or BOOLEAN cell as the value that is read from its text.
pub mod Laws
pub mod Follow
pub mod Connections
use forge_sight.Prelude.{ℕ, Bool, true, false, Option, none, some, List, [], ◌∷◌, Text, ℤ}
use forge_sight.Ingestion.Reading.{Reading, PolledReading}

pub record RuleRow (D : Type 0) : Type 0 where
  pub id : ℤ
  pub device_id : Text
  pub sensor : Text
  pub condition : Text
  pub threshold : D
  pub severity : Text

pub record AlarmRow (D : Type 0) : Type 0 where
  pub id : ℤ
  pub rule_id : Option ℤ
  pub device_id : Text
  pub sensor : Text
  pub value : D
  pub severity : Text
  pub message : Text
  pub timestamp : Text
  pub acknowledged : Bool

-- A row of the query of `list_devices`: the latest reading of a device and sensor, with its place.
pub record DeviceRow (D : Type 0) : Type 0 where
  pub device_id : Text
  pub sensor : Text
  pub value : D
  pub unit : Text
  pub timestamp : Text
  pub anomaly : Bool
  pub plant : Text
  pub floor : Text

-- The tables and indexes that the program creates at its start.
pub data Ddl : Type 0 where
  alarm_rules_table alarms_table migrate_fk alarms_timestamp_index alarms_acknowledged_index : Ddl
  device_metadata_table : Ddl
  readings_table readings_history_index readings_latest_index readings_timestamp_index : Ddl

-- A row that INSERT sends, with its double as text.
pub record SentReading : Type 0 where
  pub device_id : Text
  pub sensor : Text
  pub value : Text
  pub unit : Text
  pub timestamp : Text
  pub anomaly : Bool

pub data Statement : Type 0 where
  create : Ddl → Statement
  begin commit rollback : Statement
  -- device_id, sensor, condition, threshold, severity, message_template
  insert_rule : Text → Text → Text → Text → Text → Text → Statement
  -- the same without a template, RETURNING id
  insert_rule_returning : Text → Text → Text → Text → Text → Statement
  -- id, then the new device_id, sensor, condition, threshold, severity
  update_rule : ℤ → Text → Text → Text → Text → Text → Statement
  -- UPDATE alarms SET rule_id = NULL WHERE rule_id = $1
  detach_alarms : ℤ → Statement
  -- DELETE FROM alarm_rules WHERE id = $1
  remove_rule : ℤ → Statement
  -- SELECT ... FROM alarm_rules, all by id, or one
  select_rules : Statement
  select_rule : ℤ → Statement
  -- rule_id, device_id, sensor, value, severity, message, timestamp
  insert_alarm : ℤ → Text → Text → Text → Text → Text → Text → Statement
  -- the alarms in order of id, all or the unacknowledged; or the latest 200
  select_alarms : Bool → Statement
  select_latest_alarms : Bool → Statement
  -- WHERE id > $1 ORDER BY id
  select_alarms_after : ℤ → Statement
  -- acknowledged = TRUE WHERE id = $1, and only where it was FALSE
  ack_alarm : ℤ → Statement
  ack_new_alarm : ℤ → Statement
  -- COALESCE of the id before the first row since $1, and the greatest id
  alarm_cursor : Text → Statement
  max_alarm_id : Statement
  insert_readings : List SentReading → Statement
  select_readings_after : ℤ → Statement
  reading_cursor : Text → Statement
  max_reading_id : Statement
  -- device_id, plant, floor: ON CONFLICT (device_id) DO UPDATE, or DO NOTHING
  upsert_location insert_location : Text → Text → Text → Statement
  select_devices : Statement
  -- device_id, sensor, since: all rows; or with max_points, a part of them
  select_history : Text → Text → Text → Statement
  select_history_part : Text → Text → Text → ℤ → Statement

-- PQresultStatus with what the caller reads: PQcmdTuples, or the rows.
pub data Reply (D : Type 0) : Type 0 where
  failed : Reply D
  command_ok : ℕ → Reply D
  rule_rows : List (RuleRow D) → Reply D
  alarm_rows : List (AlarmRow D) → Reply D
  reading_rows : List (PolledReading D) → Reply D
  device_rows : List (DeviceRow D) → Reply D
  history_rows : List (Reading D) → Reply D
  -- one column, NULL as `none`
  id_cells : List (Option ℤ) → Reply D

-- The connections: the alarm engine's for its store and for polling, the writer's, the
-- server's, and the one of its gRPC service.
pub data Session : Type 0 where
  store_conn poll_conn ingest_conn api_conn grpc_conn : Session

-- `wait` is what happens to the database while the program sleeps.
pub record Server (D : Type 0) : Type 1 where
  pub World : Type 0
  pub exec : Session → Statement → World → Reply D × World
  pub wait : World → World

-- PQresultStatus(res) == PGRES_COMMAND_OK
abbrev pub is_command_ok : {D : Type 0} → Reply D → Bool
is_command_ok (command_ok n) = true
is_command_ok _ = false

abbrev pub readings_of : {D : Type 0} → Reply D → List (PolledReading D)
readings_of (reading_rows rows) = rows
readings_of _ = []

-- The first cell of the answer; no row, and a NULL that std::stoll would refuse, give nothing.
abbrev pub id_of : {D : Type 0} → Reply D → Option ℤ
id_of (id_cells (some id ∷ rest)) = some id
id_of _ = none

-- Code that talks to the database returns its result and leaves the database changed.
abbrev pub Run : Type 0 → Type 0 → Type 0
Run W A = W → A × W

abbrev pub pure : {W A : Type 0} → A → Run W A
pure a w = (a, w)

infixl 5 ◌>>=◌ ◌>>◌
abbrev pub ◌>>=◌ : {W A B : Type 0} → Run W A → (A → Run W B) → Run W B
◌>>=◌ m f w = let r = m w in f r.0 r.1

abbrev pub ◌>>◌ : {W A B : Type 0} → Run W A → Run W B → Run W B
m >> k = m >>= λ _. k
