-- ===== src/Ui/DeviceModel/Places.antt =====
-- plants() and floors() of ui/src/device_model.cpp. `sort` is std::sort on a QStringList.
use forge_sight.Prelude.{
  Bool, false, not, ◌&&◌, ◌||◌, List, [], ◌∷◌, ◌++◌, Text, text_eq, if◌then◌else◌,
}
use forge_sight.Ui.DeviceModel.{DeviceState}

-- QStringList::contains
unfoldable pub contains : Text → List Text → Bool
contains t [] = false
contains t (s ∷ names) = text_eq s t || contains t names

module _ {D : Type 0} where
  -- The loop of plants().
  unfoldable pub collect_plants : List (DeviceState D) → List Text → List Text
  collect_plants [] result = result
  collect_plants (d ∷ devices) result =
      collect_plants devices
        (if not (contains d.plant result) then result ++ (d.plant ∷ []) else result)

  -- The loop of floors().
  unfoldable pub collect_floors : Text → List (DeviceState D) → List Text → List Text
  collect_floors plant [] result = result
  collect_floors plant (d ∷ devices) result = collect_floors plant devices (
      if text_eq d.plant plant && not (contains d.floor result)
      then result ++ (d.floor ∷ [])
      else result)

  module _ (sort : List Text → List Text) where
    unfoldable pub plants : List (DeviceState D) → List Text
    plants devices = sort (collect_plants devices [])

    unfoldable pub floors : Text → List (DeviceState D) → List Text
    floors plant devices = sort (collect_floors plant devices [])
