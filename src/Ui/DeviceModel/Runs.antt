-- ===== src/Ui/DeviceModel/Runs.antt =====
-- The device model over a run of slots.
use forge_sight.Prelude.{Option, List, [], ◌∷◌, Text}
use forge_sight.Ui.DeviceModel.{
  DeviceState, Update, Model, update_device, update_device_meta, clear,
}
use forge_sight.Ui.DeviceModel.Location.{Located, update_device-Located, update_device_meta-Located}

pub data Slot (D : Type 0) : Type 0 where
  updates : Update D → Slot D
  locates : Text → Text → Text → Slot D
  clears : Slot D

-- Every row of the model stands where the metadata of its device says.
pub record IsLocated {D : Type 0} (m : Model D) : Type 0 where
  pub rows : Located m.location m.devices

module _ {D : Type 0} where
  pub slot : Slot D → Model D → Model D
  slot (updates u) m = (update_device u m).0
  slot (locates dev plant floor) m = (update_device_meta dev plant floor m).0
  slot clears m = (clear m).0

  pub run_slots : List (Slot D) → Model D → Model D
  unfolding slot
  run_slots [] m = m
  run_slots (s ∷ slots) m = run_slots slots (slot s m)

  clear-IsLocated :
      (location : Text → Option (Text × Text)) (devices : List (DeviceState D))
      → IsLocated (record { devices = devices; location = location })
      → IsLocated (clear (record { devices = devices; location = location })).0
  unfolding clear
  clear-IsLocated location [] h = h
  clear-IsLocated location (d ∷ devices) h = record { rows = tt }

  slot-IsLocated : (s : Slot D) (m : Model D) → IsLocated m → IsLocated (slot s m)
  unfolding slot
  slot-IsLocated (updates u) m h = record { rows = update_device-Located u m h.rows }
  slot-IsLocated (locates dev plant floor) m h = record {
    rows = update_device_meta-Located dev plant floor m h.rows;
  }
  slot-IsLocated clears m h = clear-IsLocated m.location m.devices h

  -- A model whose rows stand where the metadata says, as an empty one, stays such a model over any run
  -- of readings, metadata and clearing.
  pub run_slots-IsLocated :
      (slots : List (Slot D)) (m : Model D) → IsLocated m → IsLocated (run_slots slots m)
  unfolding run_slots
  run_slots-IsLocated [] m h = h
  run_slots-IsLocated (s ∷ slots) m h = run_slots-IsLocated slots (slot s m) (slot-IsLocated s m h)
