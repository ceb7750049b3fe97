-- ===== src/Ui/AlarmModel.antt =====
-- ui/include/ui/alarm_model.h and ui/src/alarm_model.cpp. A method returns the new model and the
-- signals that it emits, in order.
pub mod Counts
pub mod Runs
pub mod Rows
use forge_sight.Prelude.{
  ℕ, zero, suc, ◌+◌, Bool, true, false, not, ◌&&◌, ◌||◌, Option, none, some, List, [], ◌∷◌, ◌++◌,
  Text, text_eq, ℤ, int_eq, length, get_elem?, set, bool_ne, is_empty, if◌then◌else◌,
}

pub record AlarmEntry (D : Type 0) : Type 0 where
  pub id : ℤ
  pub device_id : Text
  pub sensor : Text
  pub value : D
  pub severity : Text
  pub message : Text
  pub timestamp : Text
  pub acknowledged : Bool

pub data Signal : Type 0 where
  data_changed : ℕ → Signal
  rows_inserted : ℕ → Signal
  model_reset : Signal
  alarm_added : Signal
  alarm_acknowledged : ℤ → Signal
  count_changed : Signal
  unacknowledged_count_changed : Signal

pub data Role : Type 0 where
  id_role device_id_role sensor_role value_role severity_role message_role timestamp_role : Role
  acknowledged_role : Role

-- QVariant, as far as `data` returns one.
pub data Variant (D : Type 0) : Type 0 where
  invalid : Variant D
  long : ℤ → Variant D
  text : Text → Variant D
  double : D → Variant D
  bool : Bool → Variant D

module _ {D : Type 0} where
  -- The row of an alarm, `none` for the source's -1.
  unfoldable pub find_alarm : ℤ → List (AlarmEntry D) → Option ℕ
  find_alarm id [] = none
  find_alarm id (a ∷ alarms) =
      if int_eq a.id id
      then some 0
      else elim (find_alarm id alarms) [ none ↦ none | some i ↦ some (suc i) ]

  variant_of : AlarmEntry D → Role → Variant D
  variant_of a id_role = long a.id
  variant_of a device_id_role = text a.device_id
  variant_of a sensor_role = text a.sensor
  variant_of a value_role = double a.value
  variant_of a severity_role = text a.severity
  variant_of a message_role = text a.message
  variant_of a timestamp_role = text a.timestamp
  variant_of a acknowledged_role = bool a.acknowledged

  pub model_data : List (AlarmEntry D) → ℕ → Role → Variant D
  unfolding variant_of
  model_data alarms row role = elim (get_elem? alarms row) [
    | none ↦ invalid
    | some a ↦ variant_of a role
  ]

  -- The alarm that stands in a row, and what `add_alarm` signals when it overwrites it.
  overwrite : List (AlarmEntry D) → ℕ → AlarmEntry D → List (AlarmEntry D) × List Signal
  overwrite alarms row a = elim (get_elem? alarms row) [
    | none ↦ (alarms, [])
    | some old ↦ (
      set alarms row a,
      if bool_ne (not old.acknowledged) (not a.acknowledged)
          then data_changed row ∷ unacknowledged_count_changed ∷ []
          else data_changed row ∷ [],
    )
  ]

  unfoldable pub add_alarm : AlarmEntry D → List (AlarmEntry D) → List (AlarmEntry D) × List Signal
  unfolding overwrite
  add_alarm a alarms = elim (find_alarm a.id alarms) [
    | some row ↦ overwrite alarms row a
    | none ↦ (
      alarms ++ (a ∷ []),
      rows_inserted (length alarms)
          ∷ alarm_added
          ∷ count_changed
          ∷ unacknowledged_count_changed
          ∷ [],
    )
  ]

  acknowledge_row : List (AlarmEntry D) → ℕ → List (AlarmEntry D)
  acknowledge_row [] row = []
  acknowledge_row (a ∷ alarms) zero = record a { acknowledged = true } ∷ alarms
  acknowledge_row (a ∷ alarms) (suc row) = a ∷ acknowledge_row alarms row

  unfoldable pub acknowledge : ℤ → List (AlarmEntry D) → List (AlarmEntry D) × List Signal
  unfolding acknowledge_row
  acknowledge id alarms = elim (find_alarm id alarms) [
    | none ↦ (alarms, [])
    | some row ↦ (
      acknowledge_row alarms row,
      data_changed row ∷ alarm_acknowledged id ∷ unacknowledged_count_changed ∷ [],
    )
  ]

  pub count_matching : List (AlarmEntry D) → Text → Bool → ℕ
  count_matching [] severity unacknowledged_only = 0
  count_matching (a ∷ alarms) severity unacknowledged_only =
      let n = count_matching alarms severity unacknowledged_only in
      if not (is_empty severity) && not (text_eq a.severity severity)
      then n
      else if unacknowledged_only && a.acknowledged
      then n
      else n + 1

  unfoldable pub clear : List (AlarmEntry D) → List (AlarmEntry D) × List Signal
  clear [] = ([], [])
  clear (a ∷ alarms) = ([], model_reset ∷ count_changed ∷ unacknowledged_count_changed ∷ [])

  pub unacknowledged_count : List (AlarmEntry D) → ℕ
  unacknowledged_count [] = 0
  unacknowledged_count (a ∷ alarms) =
      let count = unacknowledged_count alarms in if not a.acknowledged then count + 1 else count
