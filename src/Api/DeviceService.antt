-- ===== src/Api/DeviceService.antt =====
-- api/include/api/device_service.h and api/src/device_service.cpp, but for the two queries of the poll
-- timer, which stand in Api/Polling. The connection is `none` where conn_ is null.
pub mod History
pub mod Bounds
use forge_sight.Prelude.{
  Bool, true, false, Option, none, some, List, [], ◌∷◌, map, Text, lit, ℤ, pos, int_lt, Doubles,
  if◌then◌else◌,
}
use forge_sight.Ingestion.Reading.{Reading}
use forge_sight.Database.{
  Server, Session, Reply, DeviceRow, create, device_metadata_table, upsert_location,
  insert_location, select_devices, select_history, select_history_part, device_rows, history_rows,
  is_command_ok, Run, pure, ◌>>=◌,
}

pub record DeviceInfo (D : Type 0) : Type 0 where
  pub id : Text
  pub name : Text
  pub sensor : Text
  pub last_reading_time : Text
  pub last_value : D
  pub last_unit : Text
  pub anomaly : Bool
  pub plant : Text
  pub floor : Text

module _ {D : Type 0} where
  abbrev pub device_of_row : DeviceRow D → DeviceInfo D
  device_of_row r = record {
    id = r.device_id;
    name = r.device_id;
    sensor = r.sensor;
    last_reading_time = r.timestamp;
    last_value = r.value;
    last_unit = r.unit;
    anomaly = r.anomaly;
    plant = r.plant;
    floor = r.floor;
  }

  abbrev pub reading_of_device : DeviceInfo D → Reading D
  reading_of_device d = record {
    device_id = d.id;
    sensor = d.sensor;
    value = d.last_value;
    unit = d.last_unit;
    timestamp = d.last_reading_time;
    anomaly = d.anomaly;
  }

  -- The loops over the rows of an answer; any other answer gives none.
  abbrev pub devices_of : Reply D → List (DeviceInfo D)
  devices_of (device_rows rows) = map device_of_row rows
  devices_of _ = []

  abbrev pub history_of : Reply D → List (Reading D)
  history_of (history_rows rows) = rows
  history_of _ = []

module _ (F : Doubles) (S : Server (F.Double)) where
  open F use {Double}
  open S use {World, exec}

  unfoldable pub ensure_metadata_table : Option Session → World → World
  ensure_metadata_table none w = w
  ensure_metadata_table (some c) w = (exec c (create device_metadata_table) w).1

  unfoldable pub set_device_location : Option Session → Text → Text → Text → Run World Bool
  set_device_location none device_id plant floor = pure false
  set_device_location (some c) device_id plant floor = do
    res ← exec c (upsert_location device_id plant floor)
    pure (is_command_ok res)

  unfoldable pub seed_default_location : Option Session → Text → Text → Text → Run World Bool
  seed_default_location none device_id plant floor = pure false
  seed_default_location (some c) device_id plant floor = do
    res ← exec c (insert_location device_id plant floor)
    pure (is_command_ok res)

  unfoldable pub list_devices : Option Session → Run World (List (DeviceInfo Double))
  list_devices none = pure []
  list_devices (some c) = do res ← exec c select_devices; pure (devices_of res)

  unfoldable pub list_latest_readings : Option Session → Run World (List (Reading Double))
  unfolding list_devices
  list_latest_readings c = do devices ← list_devices c; pure (map reading_of_device devices)

  unfoldable pub get_history :
      Option Session → Text → Text → Text → ℤ → Run World (List (Reading Double))
  get_history none device_id sensor since max_points = pure []
  get_history (some c) device_id sensor since max_points = do
    res ← exec c (
        if int_lt (pos 0) max_points
        then select_history_part device_id sensor since max_points
        else select_history device_id sensor since)
    pure (history_of res)

  -- ApiServer::seed_default_device_locations of api/src/api_server.cpp.
  abbrev pub known_devices : List (Text × Text × Text)
  known_devices =
      (lit "pump-001", lit "Plant A", lit "Floor 1")
      ∷ (lit "compressor-001", lit "Plant A", lit "Floor 2")
      ∷ []

  unfoldable pub seed_locations : Option Session → List (Text × Text × Text) → World → World
  unfolding seed_default_location
  seed_locations c [] w = w
  seed_locations c ((id, plant, floor) ∷ devices) w =
      seed_locations c devices (seed_default_location c id plant floor w).1

  unfoldable pub seed_default_device_locations : Option Session → World → World
  unfolding seed_locations
  seed_default_device_locations c = seed_locations c known_devices
