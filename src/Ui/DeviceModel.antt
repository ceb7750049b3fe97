-- ===== src/Ui/DeviceModel.antt =====
-- ui/include/ui/device_model.h and ui/src/device_model.cpp. The hash of locations is a function; a
-- slot returns the new model and the signals that it emits, in order.
pub mod Rows
pub mod Location
pub mod Runs
pub mod Signals
pub mod Shown
pub mod Places
pub mod Selectors
use forge_sight.Prelude.{
  ℕ, zero, suc, Bool, true, false, not, ◌&&◌, Option, none, some, List, [], ◌∷◌, ◌++◌, Text, lit,
  text_eq, length, get_elem?, if◌then◌else◌,
}

pub record DeviceState (D : Type 0) : Type 0 where
  pub device_id : Text
  pub sensor : Text
  pub value : D
  pub unit : Text
  pub timestamp : Text
  pub anomaly : Bool
  pub status : Text
  pub plant : Text
  pub floor : Text

-- The arguments of `updateDevice`.
pub record Update (D : Type 0) : Type 0 where
  pub device_id : Text
  pub sensor : Text
  pub value : D
  pub unit : Text
  pub timestamp : Text
  pub anomaly : Bool

pub record Model (D : Type 0) : Type 0 where
  pub devices : List (DeviceState D)
  pub location : Text → Option (Text × Text)

pub data Signal (D : Type 0) : Type 0 where
  data_changed : ℕ → ℕ → Signal D
  rows_inserted : ℕ → Signal D
  model_reset : Signal D
  count_changed : Signal D
  device_updated : Update D → Text → Text → Signal D

abbrev pub unassigned : Text
unassigned = lit "Unassigned"

unfoldable pub compute_status : Bool → Text
compute_status true = lit "critical"
compute_status false = lit "normal"

abbrev pub located : Option (Text × Text) → Text × Text
located none = (unassigned, unassigned)
located (some l) = l

module _ {D : Type 0} where
  abbrev pub is_key : Text → Text → DeviceState D → Bool
  is_key dev sen d = text_eq d.device_id dev && text_eq d.sensor sen

  -- The row of a device and sensor, `none` for the source's -1.
  find_device : Text → Text → List (DeviceState D) → Option ℕ
  find_device dev sen [] = none
  find_device dev sen (d ∷ devices) =
      if is_key dev sen d
      then some 0
      else elim (find_device dev sen devices) [ none ↦ none | some i ↦ some (suc i) ]

  -- The reading that `updateDevice` writes into a row that exists.
  abbrev pub refresh : Update D → DeviceState D → DeviceState D
  refresh u d = record d {
    value = u.value;
    unit = u.unit;
    timestamp = u.timestamp;
    anomaly = u.anomaly;
    status = compute_status u.anomaly;
  }

  -- The row that it appends, located by the metadata if there is any.
  abbrev pub fresh : Update D → Text → Text → DeviceState D
  fresh u plant floor = record {
    device_id = u.device_id;
    sensor = u.sensor;
    value = u.value;
    unit = u.unit;
    timestamp = u.timestamp;
    anomaly = u.anomaly;
    status = compute_status u.anomaly;
    plant = plant;
    floor = floor;
  }

  set_row : List (DeviceState D) → ℕ → (DeviceState D → DeviceState D) → List (DeviceState D)
  set_row [] row f = []
  set_row (d ∷ devices) zero f = f d ∷ devices
  set_row (d ∷ devices) (suc row) f = d ∷ set_row devices row f

  -- The branch for a row that exists.
  update_row : Update D → Model D → ℕ → Model D × List (Signal D)
  unfolding set_row
  update_row u m row = (
    record m { devices = set_row m.devices row (refresh u) },
    elim (get_elem? m.devices row) [
      | none ↦ []
      | some d ↦ data_changed row row ∷ device_updated u d.plant d.floor ∷ []
    ],
  )

  -- The branch for a new row.
  insert_row : Update D → Model D → Model D × List (Signal D)
  insert_row u m =
      let at = located (m.location u.device_id) in
      (
        record m { devices = m.devices ++ (fresh u at.0 at.1 ∷ []) },
        rows_inserted (length m.devices) ∷ count_changed ∷ device_updated u at.0 at.1 ∷ [],
      )

  pub update_device : Update D → Model D → Model D × List (Signal D)
  unfolding update_row insert_row
  update_device u m = elim (find_device u.device_id u.sensor m.devices) [
    | some row ↦ update_row u m row
    | none ↦ insert_row u m
  ]

  abbrev pub move_to : Text → Text → DeviceState D → DeviceState D
  move_to plant floor d = record d { plant = plant; floor = floor }

  pub relocate : Text → Text → Text → List (DeviceState D) → List (DeviceState D)
  relocate dev plant floor [] = []
  relocate dev plant floor (d ∷ devices) =
      (if not (text_eq d.device_id dev) then d else move_to plant floor d)
      ∷ relocate dev plant floor devices

  -- The first and the last row of the device, from row `i` on.
  touched : Text → List (DeviceState D) → ℕ → Option (ℕ × ℕ) → Option (ℕ × ℕ)
  touched dev [] i seen = seen
  touched dev (d ∷ devices) i seen = touched dev devices (suc i) (
      if not (text_eq d.device_id dev)
      then seen
      else elim seen [ none ↦ some (i, i) | some (first, last) ↦ some (first, i) ])

  pub update_device_meta : Text → Text → Text → Model D → Model D × List (Signal D)
  unfolding relocate touched
  update_device_meta dev plant floor m = (
    record {
      devices = relocate dev plant floor m.devices;
      location = λ j. if text_eq j dev then some (plant, floor) else m.location j;
    },
    elim (touched dev m.devices 0 none) [
      | none ↦ []
      | some (first, last) ↦ data_changed first last ∷ []
    ],
  )

  pub clear : Model D → Model D × List (Signal D)
  clear m = elim m.devices [
    | [] ↦ (m, [])
    | d ∷ devices ↦ (record m { devices = [] }, model_reset ∷ count_changed ∷ [])
  ]

  pub device_status : Text → List (DeviceState D) → Text
  device_status dev [] = []
  device_status dev (d ∷ devices) =
      if text_eq d.device_id dev then d.status else device_status dev devices

  pub devices_for : Text → Text → List (DeviceState D) → List (DeviceState D)
  devices_for plant floor [] = []
  devices_for plant floor (d ∷ devices) =
      let rest = devices_for plant floor devices in
      if text_eq d.plant plant && text_eq d.floor floor then d ∷ rest else rest
