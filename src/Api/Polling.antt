-- ===== src/Api/Polling.antt =====
-- The poll timer of ApiServer::start in api/src/api_server.cpp, with the two queries of
-- api/src/device_service.cpp that it runs. A broadcast is the list of what is sent to every client,
-- before it is printed as JSON; MqttBridge broadcasts the readings that arrive over MQTT as well, and
-- its event stands where the lambda that it queues runs. The clock's text for ten seconds ago is an
-- argument.
pub mod Cover
pub mod Bridged
use forge_sight.Prelude.{Option, none, some, List, [], ◌∷◌, ◌++◌, map, Text, ℤ, back_id, Doubles}
use forge_sight.Ingestion.Reading.{Reading, PolledReading}
use forge_sight.Ingestion.ReadingParser.{Json, reading, error, thrown, parse}
use forge_sight.Database.{
  Server, Session, api_conn, reading_cursor, max_reading_id, select_readings_after, readings_of,
  id_of, Run, pure, ◌>>=◌,
}
use forge_sight.Database.Follow.{id_of_row}
use forge_sight.AlarmEngine.Types.{Alarm}
use forge_sight.Api.RuleService.{alarm_poll_cursor, alarms_after}

pub record Cursors : Type 0 where
  pub last_reading_id : Option ℤ
  pub last_alarm_id : Option ℤ

pub data Message (D : Type 0) : Type 0 where
  reading_message : Reading D → Message D
  alarm_message : Alarm D → Message D

abbrev pub broadcast_readings : {D : Type 0} → List (PolledReading D) → List (Message D)
broadcast_readings rows = map (λ row. reading_message (row.reading)) rows

abbrev pub id_of_alarm : {D : Type 0} → Alarm D → ℤ
id_of_alarm a = a.id

module _ (F : Doubles) (S : Server (F.Double)) where
  open F use {Double}
  open S use {World, exec, wait}

  reading_cursor_from : Session → Option ℤ → Run World (Option ℤ)
  reading_cursor_from c (some cursor) = pure (some cursor)
  reading_cursor_from c none = do res ← exec c max_reading_id; pure (id_of res)

  pub reading_poll_cursor : Option Session → Text → Run World (Option ℤ)
  unfolding reading_cursor_from
  reading_poll_cursor none catchup_since = pure none
  reading_poll_cursor (some c) catchup_since = do
    res ← exec c (reading_cursor catchup_since)
    reading_cursor_from c (id_of res)

  pub readings_after : Option Session → ℤ → Run World (List (PolledReading Double))
  readings_after none after_id = pure []
  readings_after (some c) after_id = do
    res ← exec c (select_readings_after after_id)
    pure (readings_of res)

  -- Each half of the timer's lambda: the cursor that is kept or looked up, then the rows above it.
  abbrev reading_cursor_for : Text → Option ℤ → Run World (Option ℤ)
  reading_cursor_for catchup (some id) = pure (some id)
  reading_cursor_for catchup none = reading_poll_cursor (some api_conn) catchup

  abbrev alarm_cursor_for : Text → Option ℤ → Run World (Option ℤ)
  alarm_cursor_for catchup (some id) = pure (some id)
  alarm_cursor_for catchup none = alarm_poll_cursor F S (some api_conn) catchup

  follow_readings : Option ℤ → Run World (List (Message Double) × Option ℤ)
  follow_readings none = pure ([], none)
  follow_readings (some id) = do
    readings ← readings_after (some api_conn) id
    pure (broadcast_readings readings, some (back_id id_of_row id readings))

  follow_alarms : Option ℤ → Run World (List (Message Double) × Option ℤ)
  follow_alarms none = pure ([], none)
  follow_alarms (some id) = do
    alarms ← alarms_after F S (some api_conn) id
    pure (map alarm_message alarms, some (back_id id_of_alarm id alarms))

  -- The timer runs out.
  pub tick : Text → Cursors → Run World (List (Message Double) × Cursors)
  unfolding follow_readings follow_alarms
  tick catchup k = do
    reading_id ← reading_cursor_for catchup k.last_reading_id
    readings ← follow_readings reading_id
    alarm_id ← alarm_cursor_for catchup k.last_alarm_id
    alarms ← follow_alarms alarm_id
    pure (readings.0 ++ alarms.0, record { last_reading_id = readings.1; last_alarm_id = alarms.1 })

  -- A tick for each of the times, with the database going on between them.
  pub ticks : List Text → Cursors → Run World (List (Message Double) × Cursors)
  ticks [] k w = (([], k), w)
  ticks (catchup ∷ times) k w =
      let first = tick catchup k (wait w) in
      let others = ticks times first.0.1 first.1 in
      ((first.0.0 ++ others.0.0, others.0.1), others.1)

-- What is broadcast, and whether the poll timer or the MQTT bridge does it; the clients cannot tell.
pub data Broadcast (D : Type 0) : Type 0 where
  polled : Message D → Broadcast D
  bridged : Reading D → Broadcast D

-- The poll timer runs out, or a message arrives at MqttBridge.
pub data ServerEvent : Type 0 where
  polls hears : Text → ServerEvent

module _ (F : Doubles) (S : Server (F.Double)) (J : Json (F.Double)) where
  open F use {Double}
  open S use {World, wait}

  abbrev pub Sent : Type 0
  Sent = List (Broadcast Double) × Cursors

  -- Some events of the thread of Qt, until an exception of the JSON library ends the process.
  unfoldable pub server_events : List ServerEvent → Cursors → Run World Sent
  unfolding tick
  server_events [] k w = (([], k), w)
  server_events (polls catchup ∷ events) k w =
      let first = tick F S catchup k (wait w) in
      let others = server_events events first.0.1 first.1 in
      ((map polled first.0.0 ++ others.0.0, others.0.1), others.1)
  server_events (hears payload ∷ events) k w = elim (parse J payload) [
    | thrown ↦ (([], k), w)
    | error reason ↦ server_events events k w
    | reading r ↦
        let others = server_events events k w in ((bridged r ∷ others.0.0, others.0.1), others.1)
  ]
