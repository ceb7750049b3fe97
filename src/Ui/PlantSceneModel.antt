-- ===== src/Ui/PlantSceneModel.antt =====
-- ui/include/ui/plant_scene_model.h and ui/src/plant_scene_model.cpp. The rows of the DeviceModel stand
-- for it, none for a source that is not set; every change of its rows comes with a signal that is
-- connected to `schedule`, one for each change. `timer` is timer_.isActive().
pub mod Fresh
use forge_sight.Prelude.{
  ℕ, suc, ◌+◌, Bool, true, false, Option, none, some, List, [], ◌∷◌, ◌++◌, map, Text, lit, text_eq,
  length, if◌then◌else◌,
}
use forge_sight.Ui.DeviceModel.{DeviceState}
use forge_sight.Ui.PlantLayout.{
  PlantDevice, PlacedDevice, PlantScene, PlantLayout, Platform, Value, Length, plant_layout,
}
use forge_sight.Ui.PlantLayout.Scene.{layout, nearest, no_scene}

pub record PlantSceneModel (D R : Type 0) : Type 0 where
  pub source : List (DeviceState D)
  pub layout : PlantLayout D R
  pub scene : PlantScene D R
  pub timer : Bool

pub data SceneSignal : Type 0 where
  source_devices_changed scene_changed : SceneSignal

-- What rebuild reads of a row.
unfoldable pub plant_device : {D : Type 0} → DeviceState D → PlantDevice D
plant_device d = record {
  device_id = d.device_id;
  sensor = d.sensor;
  plant = d.plant;
  floor = d.floor;
  value = d.value;
  critical = text_eq d.status (lit "critical");
}

module _ (P : Platform) where
  abbrev pub Scenery : Type 0
  Scenery = PlantSceneModel (Value P) (Length P)

  abbrev pub scene_model : Scenery
  scene_model = record { source = []; layout = plant_layout P; scene = no_scene P; timer = false }

  unfoldable pub schedule : Scenery → Scenery
  schedule m = if m.timer then m else record m { timer = true }

  unfoldable pub rebuild : Scenery → Scenery × List SceneSignal
  rebuild m =
      let laid = layout P (map plant_device m.source) m.layout in
      (record m { scene = laid.0; layout = laid.1 }, scene_changed ∷ [])

  -- setSourceDevices with another model than the present one, given by its rows.
  unfoldable pub set_source : List (DeviceState (Value P)) → Scenery → Scenery × List SceneSignal
  unfolding rebuild
  set_source rows m =
      let rebuilt = rebuild (record m { source = rows }) in
      (rebuilt.0, rebuilt.1 ++ (source_devices_changed ∷ []))

  -- A change of the rows, with its signal.
  unfoldable pub rows_changed : List (DeviceState (Value P)) → Scenery → Scenery
  unfolding schedule
  rows_changed rows m = schedule (record m { source = rows })

  -- The single-shot timer runs out, if it is running.
  unfoldable pub timeout : Scenery → Scenery × List SceneSignal
  unfolding rebuild
  timeout m = if m.timer then rebuild (record m { timer = false }) else (m, [])

  unfoldable pub device_count : Scenery → ℕ
  device_count m = length m.scene.devices

  unfoldable pub count_placed : List (PlacedDevice (Value P) (Length P)) → ℕ
  count_placed [] = 0
  count_placed (d ∷ devices) = (if d.critical then 1 else 0) + count_placed devices

  unfoldable pub critical_devices : Scenery → ℕ
  unfolding count_placed
  critical_devices m = count_placed m.scene.devices

  unfoldable pub pick : Scenery → Length P → Length P → Length P → Option ℕ
  pick m x z max_dist = nearest P m.scene x z max_dist

  -- The loop of indexOfKey, from the device `i` on; `none` stands for -1.
  unfoldable pub key_from : Text → ℕ → List (PlacedDevice (Value P) (Length P)) → Option ℕ
  key_from key i [] = none
  key_from key i (d ∷ devices) =
      let rest = key_from key (suc i) devices in
      if text_eq (d.device_id ++ (lit "|" ++ d.sensor)) key then some i else rest

  unfoldable pub index_of_key : Scenery → Text → Option ℕ
  unfolding key_from
  index_of_key m key = key_from key 0 m.scene.devices
