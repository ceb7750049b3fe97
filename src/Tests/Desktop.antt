-- ===== src/Tests/Desktop.antt =====
-- The desktop client's models.
use forge_sight.Prelude.{
  ◌≡◌, refl, ℕ, ◌+◌, ◌%◌, Bool, true, false, Option, none, some, List, [], ◌∷◌, ◌++◌, map, Text,
  lit, pos, arith,
}
use forge_sight.Ui.AlarmModel.{AlarmEntry, find_alarm, add_alarm, unacknowledged_count}
use forge_sight.Ui.AlarmModel.Rows.{Distinct}
use forge_sight.Ui.AlarmModel.Counts.{notifies, adds, unacknowledged_count_announced}
use forge_sight.Ui.DeviceModel.{DeviceState, Update, Model, update_device, update_device_meta}
use forge_sight.Ui.DeviceModel.Selectors.{SortLaws}
use forge_sight.Ui.DeviceFilterModel.{
  RowSignal, data_changed, filter_model, count_critical, visible, critical_count,
}
use forge_sight.Ui.DeviceFilterModel.Critical.{
  FilterEvent, changes_rows, sets_plant, reads_count, times_out, ProxyLaws, filter_run,
  critical_count-filter_run,
}
use forge_sight.Ui.DeviceModel.Runs.{
  Slot, updates, locates, clears, IsLocated, run_slots, run_slots-IsLocated,
}
use forge_sight.Ui.DeviceModel.Location.{update_device-update_device_meta}
use forge_sight.Ui.WsClient.{
  Event, connects, disconnects, timeout, unconnected, disconnect_from_server, set_url, initial, run,
}
use forge_sight.Ui.WsClient.Backoff.{online, retries, run_backoff}
use forge_sight.Ui.WsClient.Connection.{opens, IsSound, run-IsSound, run_closed}
use forge_sight.Ui.Csv.{has, HistoryPoint, to_string}
use forge_sight.Ui.Csv.Parser.{read_csv}
use forge_sight.Ui.Csv.Reading.{IsPlain, header, fields, read_csv-to_string}

abbrev alarm : ℕ → Bool → AlarmEntry ℕ
alarm n acknowledged = record {
  id = pos n;
  device_id = lit "p";
  sensor = lit "t";
  value = 5;
  severity = lit "critical";
  message = lit "m";
  timestamp = lit "T";
  acknowledged = acknowledged;
}

abbrev alarms : List (AlarmEntry ℕ)
alarms = alarm 1 false ∷ alarm 2 false ∷ []

alarms-Distinct : Distinct alarms
alarms-Distinct = ground arith

unacknowledged_count_announced_example :
    unacknowledged_count (add_alarm (alarm 2 false) alarms).0 ≡ unacknowledged_count alarms
unacknowledged_count_announced_example =
    unacknowledged_count_announced (adds (alarm 2 false)) alarms
      (unfold find_alarm add_alarm notifies in refl)

abbrev update : Update ℕ
update = record {
  device_id = lit "p";
  sensor = lit "t";
  value = 5;
  unit = lit "C";
  timestamp = lit "T";
  anomaly = true;
}

abbrev empty : Model ℕ
empty = record { devices = []; location = λ j. none }

update_device-update_device_meta_example :
    (update_device update (update_device_meta (lit "p") (lit "A") (lit "1") empty).0).0
    ≡ (update_device_meta (lit "p") (lit "A") (lit "1") (update_device update empty).0).0
update_device-update_device_meta_example =
    update_device-update_device_meta update (lit "p") (lit "A") (lit "1") empty

abbrev slots : List (Slot ℕ)
slots = updates update ∷ locates (lit "p") (lit "A") (lit "1") ∷ updates update ∷ clears ∷ []

empty-IsLocated : IsLocated empty
empty-IsLocated = record { rows = tt }

run_slots-IsLocated_example : IsLocated (run_slots slots empty)
run_slots-IsLocated_example = run_slots-IsLocated slots empty empty-IsLocated

abbrev row_of : Text → DeviceState ℕ
row_of plant = record {
  device_id = lit "p";
  sensor = lit "t";
  value = 5;
  unit = lit "C";
  timestamp = lit "T";
  anomaly = true;
  status = lit "critical";
  plant = plant;
  floor = lit "1";
}

abbrev never : Text → Text → Bool
never text part = false

-- A proxy that announces more than it must.
abbrev always : List (DeviceState ℕ) → List (DeviceState ℕ) → List RowSignal
always before after = data_changed ∷ []

always_laws : ProxyLaws always
always_laws = record { announced = λ before after e. cc }

abbrev filter_events : List (FilterEvent ℕ)
filter_events =
    changes_rows (row_of (lit "A") ∷ row_of (lit "B") ∷ [])
    ∷ reads_count
    ∷ sets_plant (lit "A")
    ∷ times_out
    ∷ []

critical_count-filter_run_example :
    let m = filter_run never always filter_events filter_model in
    (critical_count never m).0 ≡ count_critical (visible never m)
critical_count-filter_run_example = critical_count-filter_run never always always_laws filter_events

abbrev with_key : Text → Text → Text
with_key url key = url ++ (lit "?api_key=" ++ key)

abbrev no_json : Text → Option (Text → Bool)
no_json message = none

run_backoff_example :
    (run with_key no_json
      (disconnects ∷ retries 3 (lit "refused"))
      (online 119 (lit "s") [] false)).0.timer
    ≡ some 8000
run_backoff_example = run_backoff with_key no_json 119 (lit "s") [] false (lit "refused") 3

abbrev events : List Event
events = set_url (lit "ws") ∷ connects ∷ disconnects ∷ timeout unconnected ∷ disconnects ∷ []

run_closed_example :
    opens (run with_key no_json (disconnect_from_server ∷ events) initial).1 ≡ false
run_closed_example = run_closed with_key no_json events initial (ground arith)

initial-IsSound : IsSound initial
initial-IsSound = record { armed = λ delay e. cc }

run-IsSound_example : IsSound (run with_key no_json events initial).0
run-IsSound_example = run-IsSound with_key no_json events initial initial-IsSound

abbrev digit : ℕ → Text
digit n = (48 + n % 10) ∷ []

digit-IsPlain : (n : ℕ) → IsPlain (digit n)
unfolding has
digit-IsPlain n = ground arith

abbrev constant : Bool → Text
constant b = lit "T"

constant-IsPlain : (b : Bool) → IsPlain (constant b)
unfolding has
constant-IsPlain b = refl

abbrev points : List (HistoryPoint ℕ Bool)
points =
    record {
      device_id = lit "p,\"1\"";
      sensor = lit "t\nu";
      value = 5;
      unit = lit "C";
      timestamp = true;
      anomaly = false;
    }
    ∷ []

read_csv-to_string_example :
    read_csv (to_string digit constant points)
    ≡ header ∷ (map (fields digit constant) points ++ (([] ∷ []) ∷ []))
read_csv-to_string_example = read_csv-to_string digit constant digit-IsPlain constant-IsPlain points

abbrev unsorted : List Text → List Text
unsorted names = names

abbrev unsorted_laws : SortLaws unsorted
unsorted_laws = record { permutes = λ t names. refl }

abbrev placed : List (DeviceState ℕ)
placed = row_of (lit "B") ∷ row_of (lit "A") ∷ row_of (lit "B") ∷ []
