-- ===== src/Api/RuleService.antt =====
-- api/src/rule_service.cpp. The connection is `none` where conn_ is null, and the -1 of `create_rule`
-- is written as it is.
pub mod Acknowledge
pub mod Delete
use forge_sight.Prelude.{
  ◌==◌, ◌&&◌, Bool, true, false, not, Option, none, some, List, [], ◌∷◌, map, Text, ℤ, pos, negsuc,
  Doubles, if◌then◌else◌,
}
use forge_sight.Database.{
  Server, Session, Reply, begin, commit, rollback, insert_rule_returning, update_rule,
  detach_alarms, remove_rule, select_rules, select_rule, select_alarms_after, select_latest_alarms,
  ack_new_alarm, alarm_cursor, max_alarm_id, command_ok, rule_rows, alarm_rows, id_of,
  is_command_ok, Run, pure, ◌>>=◌, ◌>>◌,
}
use forge_sight.AlarmEngine.Types.{Rule, Alarm, condition_to_string, severity_to_string}
use forge_sight.AlarmEngine.Store.{rule_of_row, alarm_of_row}

module _ (F : Doubles) (S : Server (F.Double)) where
  open F use {Double, to_string}
  open S use {World, exec}

  abbrev rules_of : Reply Double → List (Rule Double)
  rules_of (rule_rows rows) = map rule_of_row rows
  rules_of _ = []

  abbrev alarms_of : Reply Double → List (Alarm Double)
  alarms_of (alarm_rows rows) = map alarm_of_row rows
  alarms_of _ = []

  pub list_rules : Option Session → Run World (List (Rule Double))
  list_rules none = pure []
  list_rules (some c) = do res ← exec c select_rules; pure (rules_of res)

  abbrev first_rule : List (Rule Double) → Option (Rule Double)
  first_rule [] = none
  first_rule (r ∷ rules) = some r

  pub get_rule : Option Session → ℤ → Run World (Option (Rule Double))
  get_rule none id = pure none
  get_rule (some c) id = do res ← exec c (select_rule id); pure (first_rule (rules_of res))

  abbrev or_minus_one : Option ℤ → ℤ
  or_minus_one none = negsuc 0
  or_minus_one (some id) = id

  pub create_rule : Option Session → Rule Double → Run World ℤ
  create_rule none rule = pure (negsuc 0)
  create_rule (some c) rule = do
    res ← exec c (
        insert_rule_returning rule.device_id rule.sensor (condition_to_string rule.condition)
          (to_string rule.threshold) (severity_to_string rule.severity))
    pure (or_minus_one (id_of res))

  pub update_service_rule : Option Session → Rule Double → Run World Bool
  update_service_rule none rule = pure false
  update_service_rule (some c) rule = do
    res ← exec c (
        update_rule rule.id rule.device_id rule.sensor (condition_to_string rule.condition)
          (to_string rule.threshold) (severity_to_string rule.severity))
    pure (is_command_ok res)

  roll_back : Session → Run World Bool
  roll_back c = do exec c rollback; pure false

  pub delete_service_rule : Option Session → ℤ → Run World Bool
  unfolding roll_back
  delete_service_rule none id = pure false
  delete_service_rule (some c) id = do
    begun ← exec c begin
    if not (is_command_ok begun) then pure false else do
      upd ← exec c (detach_alarms id)
      if not (is_command_ok upd) then roll_back c else do
        res ← exec c (remove_rule id)
        if not (is_command_ok res) then roll_back c else do
          committed ← exec c commit
          if not (is_command_ok committed) then roll_back c else pure true

  -- The second query, when the first gave no id.
  unfoldable pub alarm_cursor_from : Session → Option ℤ → Run World (Option ℤ)
  alarm_cursor_from c (some cursor) = pure (some cursor)
  alarm_cursor_from c none = do res ← exec c max_alarm_id; pure (id_of res)

  unfoldable pub alarm_poll_cursor : Option Session → Text → Run World (Option ℤ)
  unfolding alarm_cursor_from
  alarm_poll_cursor none catchup_since = pure none
  alarm_poll_cursor (some c) catchup_since = do
    res ← exec c (alarm_cursor catchup_since)
    alarm_cursor_from c (id_of res)

  unfoldable pub alarms_after : Option Session → ℤ → Run World (List (Alarm Double))
  alarms_after none after_id = pure []
  alarms_after (some c) after_id = do
    res ← exec c (select_alarms_after after_id)
    pure (alarms_of res)

  pub list_alarms : Option Session → Bool → Run World (List (Alarm Double))
  list_alarms none unacknowledged_only = pure []
  list_alarms (some c) unacknowledged_only = do
    res ← exec c (select_latest_alarms unacknowledged_only)
    pure (alarms_of res)

  -- PGRES_COMMAND_OK with one row changed.
  abbrev changed_one : Reply Double → Bool
  changed_one (command_ok n) = n == 1
  changed_one _ = false

  unfoldable pub acknowledge_service_alarm : Option Session → ℤ → Run World Bool
  acknowledge_service_alarm none id = pure false
  acknowledge_service_alarm (some c) id = do res ← exec c (ack_new_alarm id); pure (changed_one res)
