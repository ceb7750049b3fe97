-- ===== src/Ui/AlarmModel/Runs.antt =====
-- The alarm model over a run of calls.
use forge_sight.Prelude.{List, [], ◌∷◌}
use forge_sight.Ui.AlarmModel.{AlarmEntry, clear}
use forge_sight.Ui.AlarmModel.Rows.{Distinct, add_alarm-Distinct, acknowledge-Distinct}
use forge_sight.Ui.AlarmModel.Counts.{Call, adds, acks, clears, call}

module _ {D : Type 0} where
  unfoldable pub run_calls : List (Call D) → List (AlarmEntry D) → List (AlarmEntry D)
  run_calls [] alarms = alarms
  run_calls (c ∷ calls) alarms = run_calls calls (call c alarms).0

  call-Distinct :
      (c : Call D) (alarms : List (AlarmEntry D)) → Distinct alarms → Distinct (call c alarms).0
  unfolding clear
  call-Distinct (adds a) alarms d = add_alarm-Distinct a alarms d
  call-Distinct (acks id) alarms d = acknowledge-Distinct id alarms d
  call-Distinct clears [] d = d
  call-Distinct clears (a ∷ alarms) d = tt

  -- A model that has one row for each id, as an empty one has, keeps this over any run of adding,
  -- acknowledging and clearing alarms.
  pub run_calls-Distinct :
      (calls : List (Call D)) (alarms : List (AlarmEntry D))
      → Distinct alarms
      → Distinct (run_calls calls alarms)
  unfolding run_calls
  run_calls-Distinct [] alarms d = d
  run_calls-Distinct (c ∷ calls) alarms d =
      run_calls-Distinct calls (call c alarms).0 (call-Distinct c alarms d)
