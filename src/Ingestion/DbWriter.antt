-- ===== src/Ingestion/DbWriter.antt =====
-- ingestion/include/ingestion/db_writer.h and ingestion/src/db_writer.cpp. A method takes the state of
-- the database and returns it with its result and the writer.
pub mod Batches
use forge_sight.Prelude.{
  ℕ, Bool, true, false, not, ◌&&◌, ◌||◌, leb, Option, none, some, List, [], ◌∷◌, ◌++◌, map, length,
  is_empty, Doubles, if◌then◌else◌,
}
use forge_sight.Ingestion.Reading.{Reading}
use forge_sight.Database.{
  Server, Session, SentReading, Statement, create, insert_readings, readings_table,
  readings_history_index, readings_latest_index, readings_timestamp_index, is_command_ok, Run, pure,
  ◌>>=◌,
}

-- `conn` is `none` where conn_ is null.
pub record DbWriter (D : Type 0) : Type 0 where
  pub conn : Option Session
  pub batch_size : ℕ
  pub buffer : List (Reading D)

module _ (F : Doubles) (S : Server (F.Double)) where
  open F use {Double, to_string}
  open S use {World, exec}

  abbrev run_ddl : Session → Statement → Run World Bool
  run_ddl c st = do r ← exec c st; pure (is_command_ok r)

  ensure_table : Session → Run World Bool
  ensure_table c = do
    ok ← run_ddl c (create readings_table)
    ok1 ← run_ddl c (create readings_history_index)
    ok2 ← run_ddl c (create readings_latest_index)
    ok3 ← run_ddl c (create readings_timestamp_index)
    pure (ok && (ok1 && (ok2 && ok3)))

  -- The constructor; the connection attempt gives a session or fails.
  pub open_writer : Option Session → ℕ → Run World (DbWriter Double)
  unfolding ensure_table
  open_writer none batch_size = pure (record { conn = none; batch_size = batch_size; buffer = [] })
  open_writer (some c) batch_size = do
    ok ← ensure_table c
    pure (record { conn = some c; batch_size = batch_size; buffer = [] })

  -- The six parameters of a row.
  abbrev pub sent : Reading Double → SentReading
  sent r = record {
    device_id = r.device_id;
    sensor = r.sensor;
    value = to_string r.value;
    unit = r.unit;
    timestamp = r.timestamp;
    anomaly = r.anomaly;
  }

  -- `insert_batch(buffer_)`, which clears the buffer once the statement was sent.
  unfoldable pub insert_batch : DbWriter Double → Run World (Bool × DbWriter Double)
  insert_batch d = elim d.conn [
    | none ↦ pure (true, d)
    | some c ↦ if is_empty d.buffer then pure (true, d) else do
      res ← exec c (insert_readings (map sent d.buffer))
      pure (is_command_ok res, record d { buffer = [] })
  ]

  unfoldable pub write : Reading Double → DbWriter Double → Run World (Bool × DbWriter Double)
  unfolding insert_batch
  write reading d = elim d.conn [
    | none ↦ pure (false, d)
    | some c ↦
        let pushed = record d { buffer = d.buffer ++ (reading ∷ []) } in
        if leb pushed.batch_size (length pushed.buffer)
        then insert_batch pushed
        else pure (true, pushed)
  ]

  unfoldable pub flush : DbWriter Double → Run World (ℕ × DbWriter Double)
  unfolding insert_batch
  flush d =
      if is_empty d.buffer
      then pure (0, d)
      else do inserted ← insert_batch d; pure (length d.buffer, inserted.1)

  -- The destructor.
  unfoldable pub close : DbWriter Double → Run World (DbWriter Double)
  unfolding flush
  close d = elim d.conn [ none ↦ pure d | some c ↦ do flushed ← flush d; pure flushed.1 ]

  -- The readings that reach the writer while the service runs, and its end.
  pub write_all : List (Reading Double) → DbWriter Double → Run World (DbWriter Double)
  write_all [] d = close d
  write_all (r ∷ readings) d = do written ← write r d; write_all readings written.1
