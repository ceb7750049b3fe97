-- ===== src/Ui/DeviceModel/Rows.antt =====
-- `update_device` by recursion, and the model as a map from device and sensor to rows.
use forge_sight.Prelude.{
  ◌≡◌, refl, ap, inl, inr, ℕ, suc, none, some, List, [], ◌∷◌, ◌++◌, Bool-cases, if◌then◌else◌,
}
use forge_sight.Ui.DeviceModel.{
  DeviceState, Update, Model, is_key, find_device, refresh, fresh, located, set_row, update_row,
  insert_row, update_device,
}

module _ {D : Type 0} where
  -- Refresh the first row of the update's key, or append the given one.
  unfoldable pub upsert : Update D → DeviceState D → List (DeviceState D) → List (DeviceState D)
  upsert u new [] = new ∷ []
  upsert u new (d ∷ devices) =
      if is_key u.device_id u.sensor d then refresh u d ∷ devices else d ∷ upsert u new devices

  data Found (u : Update D) (new : DeviceState D) (devices : List (DeviceState D)) : Type 0 where
    missing :
        find_device u.device_id u.sensor devices ≡ none
        → upsert u new devices ≡ devices ++ (new ∷ [])
        → Found u new devices
    found :
        (row : ℕ)
        → find_device u.device_id u.sensor devices ≡ some row
        → upsert u new devices ≡ set_row devices row (refresh u)
        → Found u new devices

  find_device-Found :
      (u : Update D) (new : DeviceState D) (devices : List (DeviceState D)) → Found u new devices
  unfolding find_device upsert set_row
  find_device-Found u new [] = missing refl refl
  find_device-Found u new (d ∷ devices) = elim (Bool-cases (is_key u.device_id u.sensor d)) [
    | inl hit ↦ found 0 (rw hit) (rw hit)
    | inr miss ↦ elim (find_device-Found u new devices) [
      | missing e p ↦ missing (rw (miss, e)) (rw miss (ap (◌∷◌ d) p))
      | found row e p ↦ found (suc row) (rw (miss, e)) (rw miss (ap (◌∷◌ d) p))
    ]
  ]

  abbrev pub new_row : Update D → Model D → DeviceState D
  new_row u m = let at = located (m.location u.device_id) in fresh u at.0 at.1

  pub update_device-upsert :
      (u : Update D) (m : Model D)
      → (update_device u m).0 ≡ record m { devices = upsert u (new_row u m) m.devices }
  unfolding update_device
  update_device-upsert u m = elim (find_device-Found u (new_row u m) m.devices) [
    | missing e p ↦ rw (e, update_device, p, insert_row)
    | found row e p ↦ rw (e, update_device, p, update_row)
  ]
