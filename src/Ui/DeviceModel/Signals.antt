-- ===== src/Ui/DeviceModel/Signals.antt =====
-- The signal deviceUpdated, and slots that are connected to it.
use forge_sight.Prelude.{
  ◌≡◌, refl, inl, inr, ℕ, suc, Option, none, some, List, [], ◌∷◌, Text, get_elem?, Bool-cases,
}
use forge_sight.Ui.DeviceModel.{
  DeviceState, Update, Model, Signal, data_changed, device_updated, is_key, find_device, located,
  update_row, insert_row, update_device, update_device_meta, touched,
}

module _ {D C : Type 0} where
  -- QObject::connect(&deviceModel, &DeviceModel::deviceUpdated, ..., slot): a state after the signals.
  unfoldable pub on_updates : (Update D → Text → Text → C → C) → List (Signal D) → C → C
  on_updates slot [] c = c
  on_updates slot (device_updated u plant floor ∷ signals) c =
      on_updates slot signals (slot u plant floor c)
  on_updates slot (_ ∷ signals) c = on_updates slot signals c

module _ {D : Type 0} where
  -- Where a device stands that a reading comes for.
  place_at : Update D → Model D → Option ℕ → Text × Text
  place_at u m none = located (m.location u.device_id)
  place_at u m (some row) = elim (get_elem? m.devices row) [
    | none ↦ ([], [])
    | some d ↦ (d.plant, d.floor)
  ]

  pub place_of : Update D → Model D → Text × Text
  unfolding place_at
  place_of u m = place_at u m (find_device u.device_id u.sensor m.devices)

  -- A row that was found is a row of the model.
  abbrev Held : List (DeviceState D) → Option ℕ → Type 0
  Held devices none = Unit {0}
  Held devices (some row) = (d : DeviceState D) × (get_elem? devices row ≡ some d)

  Held-cons :
      (d : DeviceState D) (devices : List (DeviceState D)) (o : Option ℕ)
      → Held devices o
      → Held (d ∷ devices) (elim o [ none ↦ none | some i ↦ some (suc i) ])
  Held-cons d devices none h = tt
  Held-cons d devices (some row) h = h

  find_device-Held :
      (dev sen : Text) (devices : List (DeviceState D)) → Held devices (find_device dev sen devices)
  unfolding find_device
  find_device-Held dev sen [] = tt
  find_device-Held dev sen (d ∷ devices) = elim (Bool-cases (is_key dev sen d)) [
    | inl hit ↦ rw hit (d, refl)
    | inr miss ↦
        rw miss
          (Held-cons d devices (find_device dev sen devices) (find_device-Held dev sen devices))
  ]

  branch : Update D → Model D → Option ℕ → Model D × List (Signal D)
  branch u m o = elim o [ some row ↦ update_row u m row | none ↦ insert_row u m ]

  on_updates_at :
      {C : Type 0} (slot : Update D → Text → Text → C → C) (u : Update D) (m : Model D) (c : C)
      (o : Option ℕ)
      → Held m.devices o
      → on_updates slot (branch u m o).1 c ≡ slot u (place_at u m o).0 (place_at u m o).1 c
  unfolding branch on_updates update_row insert_row place_at
  on_updates_at slot u m c none h = refl
  on_updates_at slot u m c (some row) (d, e) = rw (e, on_updates, place_at) refl

  -- A reading is announced to a connected slot once, with the place of its device.
  pub on_updates-update_device :
      {C : Type 0} (slot : Update D → Text → Text → C → C) (u : Update D) (m : Model D) (c : C)
      → on_updates slot (update_device u m).1 c ≡ slot u (place_of u m).0 (place_of u m).1 c
  unfolding update_device place_of branch
  on_updates-update_device slot u m c =
      on_updates_at slot u m c (find_device u.device_id u.sensor m.devices)
        (find_device-Held u.device_id u.sensor m.devices)

  -- Metadata is not announced to it.
  pub on_updates-update_device_meta :
      {C : Type 0} (slot : Update D → Text → Text → C → C) (dev plant floor : Text) (m : Model D)
      (c : C)
      → on_updates slot (update_device_meta dev plant floor m).1 c ≡ c
  unfolding on_updates update_device_meta
  on_updates-update_device_meta slot dev plant floor m c =
      elim (touched dev m.devices 0 none)
        as (λ o.
          on_updates slot
            (elim o as (λ x. List (Signal D)) [
              | none ↦ []
              | some (first, last) ↦ data_changed first last ∷ []
            ])
            c
          ≡ c) [ none ↦ refl | some x ↦ refl ]
