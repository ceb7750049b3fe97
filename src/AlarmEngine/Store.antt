-- ===== src/AlarmEngine/Store.antt =====
-- alarm-engine/src/alarm_store.cpp. The connection is `none` where conn_ is null.
pub mod Delete
use forge_sight.Prelude.{
  Bool, true, false, not, ◌&&◌, Option, none, some, List, [], map, ℤ, pos, Doubles, if◌then◌else◌,
}
use forge_sight.Database.{
  Server, Session, Statement, Reply, RuleRow, AlarmRow, create, begin, commit, rollback,
  insert_rule, update_rule, detach_alarms, remove_rule, select_rules, insert_alarm, select_alarms,
  ack_alarm, alarm_rules_table, alarms_table, migrate_fk, alarms_timestamp_index,
  alarms_acknowledged_index, rule_rows, alarm_rows, is_command_ok, Run, pure, ◌>>=◌, ◌>>◌,
}
use forge_sight.AlarmEngine.Types.{
  Rule, Alarm, condition_to_string, severity_to_string, condition_from_string, severity_from_string,
}

-- The Rule that a row of the query is read into.
unfoldable pub rule_of_row : {D : Type 0} → RuleRow D → Rule D
rule_of_row r = record {
  id = r.id;
  device_id = r.device_id;
  sensor = r.sensor;
  condition = condition_from_string r.condition;
  threshold = r.threshold;
  severity = severity_from_string r.severity;
  message_template = [];
}

-- The Alarm that a row is read into; a NULL rule_id becomes 0.
pub alarm_of_row : {D : Type 0} → AlarmRow D → Alarm D
alarm_of_row r = record {
  id = r.id;
  rule_id = elim r.rule_id [ none ↦ pos 0 | some i ↦ i ];
  device_id = r.device_id;
  sensor = r.sensor;
  value = r.value;
  severity = severity_from_string r.severity;
  message = r.message;
  timestamp = r.timestamp;
  acknowledged = r.acknowledged;
}

module _ (F : Doubles) (S : Server (F.Double)) where
  open F use {Double, to_string}
  open S use {World, exec}

  -- PQexec of one DDL text, and whether it succeeded.
  abbrev run_ddl : Session → Statement → Run World Bool
  run_ddl c st = do r ← exec c st; pure (is_command_ok r)

  pub create_tables : Option Session → Run World Bool
  create_tables none = pure false
  create_tables (some c) = do
    ok1 ← run_ddl c (create alarm_rules_table)
    ok2 ← run_ddl c (create alarms_table)
    ok_fk ← run_ddl c (create migrate_fk)
    ok3 ← run_ddl c (create alarms_timestamp_index)
    ok4 ← run_ddl c (create alarms_acknowledged_index)
    pure (ok1 && (ok2 && (ok_fk && (ok3 && ok4))))

  unfoldable pub add_rule : Option Session → Rule Double → Run World Bool
  add_rule none rule = pure false
  add_rule (some c) rule = do
    res ← exec c (
        insert_rule rule.device_id rule.sensor (condition_to_string rule.condition)
          (to_string rule.threshold) (severity_to_string rule.severity) rule.message_template)
    pure (is_command_ok res)

  pub update_rule_by_id : Option Session → Rule Double → Run World Bool
  update_rule_by_id none rule = pure false
  update_rule_by_id (some c) rule = do
    res ← exec c (
        update_rule rule.id rule.device_id rule.sensor (condition_to_string rule.condition)
          (to_string rule.threshold) (severity_to_string rule.severity))
    pure (is_command_ok res)

  -- The lambda `rollback` followed by `return false`.
  unfoldable pub roll_back : Session → Run World Bool
  roll_back c = do exec c rollback; pure false

  unfoldable pub delete_rule : Option Session → ℤ → Run World Bool
  unfolding roll_back
  delete_rule none id = pure false
  delete_rule (some c) id = do
    begun ← exec c begin
    if not (is_command_ok begun) then pure false else do
      upd ← exec c (detach_alarms id)
      if not (is_command_ok upd) then roll_back c else do
        res ← exec c (remove_rule id)
        if not (is_command_ok res) then roll_back c else do
          committed ← exec c commit
          if not (is_command_ok committed) then roll_back c else pure true

  -- The rows of a query for rules, if that is what came back.
  abbrev rules_of : Reply Double → Option (List (Rule Double))
  rules_of (rule_rows rows) = some (map rule_of_row rows)
  rules_of _ = none

  unfoldable pub try_load_rules : Option Session → Run World (Option (List (Rule Double)))
  try_load_rules none = pure none
  try_load_rules (some c) = do res ← exec c select_rules; pure (rules_of res)

  abbrev value_or_empty : Option (List (Rule Double)) → List (Rule Double)
  value_or_empty none = []
  value_or_empty (some rules) = rules

  unfoldable pub load_rules : Option Session → Run World (List (Rule Double))
  unfolding try_load_rules
  load_rules conn = do loaded ← try_load_rules conn; pure (value_or_empty loaded)

  unfoldable pub write_alarm : Option Session → Alarm Double → Run World Bool
  write_alarm none alarm = pure false
  write_alarm (some c) alarm = do
    res ← exec c (
        insert_alarm alarm.rule_id alarm.device_id alarm.sensor (to_string alarm.value)
          (severity_to_string alarm.severity) alarm.message alarm.timestamp)
    pure (is_command_ok res)

  abbrev alarms_of : Reply Double → List (Alarm Double)
  alarms_of (alarm_rows rows) = map alarm_of_row rows
  alarms_of _ = []

  pub load_alarms : Option Session → Bool → Run World (List (Alarm Double))
  load_alarms none unacknowledged_only = pure []
  load_alarms (some c) unacknowledged_only = do
    res ← exec c (select_alarms unacknowledged_only)
    pure (alarms_of res)

  pub acknowledge_alarm : Option Session → ℤ → Run World Bool
  acknowledge_alarm none id = pure false
  acknowledge_alarm (some c) id = do res ← exec c (ack_alarm id); pure (is_command_ok res)
