-- ===== src/AlarmEngine/Poll.antt =====
-- alarm-engine/src/reading_cursor.cpp, alarm-engine/include/alarm-engine/rule_reload.h and the loop
-- of alarm-engine/main.cpp. A poll returns the readings that it evaluated and the number of alarms
-- written, both of which the source logs.
pub mod Cover
pub mod Writes
pub mod Rounds
use forge_sight.Prelude.{
  ℕ, zero, suc, ◌+◌, ◌++◌, Bool, true, false, Option, none, some, List, [], ◌∷◌, Text, lit, ℤ, pos,
  Doubles, if◌then◌else◌,
}
use forge_sight.Ingestion.Reading.{PolledReading}
use forge_sight.Database.{
  Server, Session, store_conn, poll_conn, Reply, select_readings_after, max_reading_id,
  reading_rows, readings_of, id_of, Run, pure, ◌>>=◌, ◌>>◌,
}
use forge_sight.AlarmEngine.Types.{
  Rule, Alarm, greater_than, less_than, warning, critical, condition_to_string,
}
use forge_sight.AlarmEngine.Evaluator.{evaluate_all}
use forge_sight.AlarmEngine.Store.{try_load_rules, load_rules, write_alarm, add_rule}

pub rules_for_poll : {D : Type 0} → Option (List (Rule D)) → List (Rule D) → List (Rule D)
rules_for_poll (some loaded) previous = loaded
rules_for_poll none previous = previous

-- The variables of main that live across polls.
pub record Engine (D : Type 0) : Type 0 where
  pub last_id : Option ℤ
  pub rules : List (Rule D)

-- What a poll did: the readings that it evaluated and the alarms that it wrote.
pub record Polled (D : Type 0) : Type 0 where
  pub evaluated : List (PolledReading D)
  pub alarm_count : ℕ

module _ (F : Doubles) (S : Server (F.Double)) where
  open F use {Double}
  open S use {World, exec, wait}

  pub fetch_readings_after : Option Session → ℤ → Run World (List (PolledReading Double))
  fetch_readings_after none after_id = pure []
  fetch_readings_after (some c) after_id = do
    res ← exec c (select_readings_after after_id)
    pure (readings_of res)

  unfoldable pub catch_up_reading_id : Option Session → Run World (Option ℤ)
  catch_up_reading_id none = pure none
  catch_up_reading_id (some c) = do res ← exec c max_reading_id; pure (id_of res)

  -- for (const auto& a : alarms) if (store.write_alarm(a)) ++alarm_count
  pub write_alarms : List (Alarm Double) → ℕ → Run World ℕ
  write_alarms [] alarm_count = pure alarm_count
  write_alarms (a ∷ alarms) alarm_count = do
    written ← write_alarm F S (some store_conn) a
    write_alarms alarms (if written then alarm_count + 1 else alarm_count)

  -- The loop over the readings of a poll, from the cursor that it leaves behind.
  pub evaluate_readings :
      List (Rule Double) → List (PolledReading Double) → ℤ → ℕ → Run World (ℤ × ℕ)
  evaluate_readings rules [] last_id alarm_count = pure (last_id, alarm_count)
  evaluate_readings rules (row ∷ readings) last_id alarm_count = do
    let r = row.reading
    count ← write_alarms (evaluate_all F rules r.device_id r.sensor r.value r.timestamp) alarm_count
    evaluate_readings rules readings row.id count

  -- The cursor of a poll: the engine's, or a new attempt to read it.
  abbrev cursor_for_poll : Option ℤ → Run World (Option ℤ)
  cursor_for_poll (some id) = pure (some id)
  cursor_for_poll none = catch_up_reading_id (some poll_conn)

  -- The rest of the body of the loop, once there is a cursor.
  poll_from : List (Rule Double) → ℤ → Run World (Polled Double × Engine Double)
  poll_from previous last_id = do
    loaded ← try_load_rules F S (some store_conn)
    let rules = rules_for_poll loaded previous
    readings ← fetch_readings_after (some poll_conn) last_id
    done ← evaluate_readings rules readings last_id 0
    pure (
      record { evaluated = readings; alarm_count = done.1 },
      record { last_id = some done.0; rules = rules },
    )

  -- One round of the loop of main, after its sleep.
  pub poll : Engine Double → Run World (Polled Double × Engine Double)
  unfolding poll_from
  poll e = do
    cursor ← cursor_for_poll e.last_id
    elim cursor [
      | none ↦ pure (record { evaluated = []; alarm_count = 0 }, record e { last_id = none })
      | some last_id ↦ poll_from e.rules last_id
    ]

  -- `n` rounds of the loop; the readings that they evaluated, in order.
  pub poll_rounds : ℕ → Engine Double → Run World (List (PolledReading Double) × Engine Double)
  poll_rounds zero e w = (([], e), w)
  poll_rounds (suc n) e w =
      let first = poll e (wait w) in
      let others = poll_rounds n first.0.1 first.1 in
      ((first.0.0.evaluated ++ others.0.0, others.0.1), others.1)
