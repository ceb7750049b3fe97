-- ===== src/Ui/DeviceModel/Location.antt =====
-- Readings and metadata of devices reach the model in any order.
use forge_sight.Prelude.{
  ◌≡◌, refl, sym, ap, ◌∙◌, inl, inr, Option, some, List, [], ◌∷◌, Text, text_eq, Bool-cases, arith,
  if◌then◌else◌,
}
use forge_sight.Ui.DeviceModel.{
  DeviceState, Update, Model, is_key, located, update_device, update_device_meta, relocate, move_to,
}
use forge_sight.Ui.DeviceModel.Rows.{upsert, new_row, update_device-upsert}

module _ {D : Type 0} where
  abbrev moved : Text → Text → Text → DeviceState D → DeviceState D
  moved dev plant floor d = if text_eq d.device_id dev then move_to plant floor d else d

  relocate-upsert :
      (u : Update D) (dev plant floor : Text) (new : DeviceState D) (devices : List (DeviceState D))
      → relocate dev plant floor (upsert u new devices)
        ≡ upsert u (moved dev plant floor new) (relocate dev plant floor devices)
  unfolding relocate upsert
  relocate-upsert u dev plant floor new [] = ground arith
  relocate-upsert u dev plant floor new (d ∷ devices) =
      elim (Bool-cases (text_eq d.device_id dev)) [
        | inl e ↦ elim (Bool-cases (is_key u.device_id u.sensor d)) [
          | inl hit ↦ rw (e, hit, e)
          | inr miss ↦
              rw (e, miss, e)
                (ap (◌∷◌ (move_to plant floor d)) (relocate-upsert u dev plant floor new devices))
        ]
        | inr e ↦ elim (Bool-cases (is_key u.device_id u.sensor d)) [
          | inl hit ↦ rw (e, hit, e)
          | inr miss ↦ rw (e, miss, e) (ap (◌∷◌ d) (relocate-upsert u dev plant floor new devices))
        ]
      ]

  moved-new_row :
      (u : Update D) (dev plant floor : Text) (m : Model D)
      → moved dev plant floor (new_row u m) ≡ new_row u (update_device_meta dev plant floor m).0
  unfolding update_device_meta
  moved-new_row u dev plant floor m = elim (Bool-cases (text_eq u.device_id dev)) [
    | inl e ↦ rw e
    | inr e ↦ rw e
  ]

  -- A reading and the metadata of a device leave the same model whichever of them comes first, for
  -- every model, reading and metadata.
  pub update_device-update_device_meta :
      (u : Update D) (dev plant floor : Text) (m : Model D)
      → (update_device u (update_device_meta dev plant floor m).0).0
        ≡ (update_device_meta dev plant floor (update_device u m).0).0
  unfolding update_device_meta
  update_device-update_device_meta u dev plant floor m =
      rw (update_device-upsert u (update_device_meta dev plant floor m).0, update_device-upsert u m)
        (ap
          (λ devices. record {
            devices = devices;
            location = λ j. if text_eq j dev then some (plant, floor) else m.location j;
          })
          (sym (
            relocate-upsert u dev plant floor (new_row u m) m.devices
            ∙ ap (λ new. upsert u new (relocate dev plant floor m.devices))
                (moved-new_row u dev plant floor m))))

  -- Every row stands where the metadata of its device says.
  abbrev pub Located : (Text → Option (Text × Text)) → List (DeviceState D) → Type 0
  Located location [] = Unit {0}
  Located location (d ∷ devices) =
      ((d.plant, d.floor) ≡ located (location d.device_id)) × Located location devices

  upsert-Located :
      (u : Update D) (l : Text → Option (Text × Text)) (new : DeviceState D)
      (devices : List (DeviceState D))
      → (new.plant, new.floor) ≡ located (l new.device_id)
      → Located l devices
      → Located l (upsert u new devices)
  unfolding upsert
  upsert-Located u l new [] h k = (h, tt)
  upsert-Located u l new (d ∷ devices) h k = elim (Bool-cases (is_key u.device_id u.sensor d)) [
    | inl hit ↦ rw hit k
    | inr miss ↦ rw miss (k.0, upsert-Located u l new devices h k.1)
  ]

  -- A model whose rows stand where the metadata says stays such a model when a reading arrives.
  pub update_device-Located :
      (u : Update D) (m : Model D)
      → Located m.location m.devices
      → Located (update_device u m).0.location (update_device u m).0.devices
  update_device-Located u m k =
      rw (update_device-upsert u m) (upsert-Located u m.location (new_row u m) m.devices refl k)

  relocate-Located :
      (l : Text → Option (Text × Text)) (dev plant floor : Text) (devices : List (DeviceState D))
      → Located l devices
      → Located
          (λ j. if text_eq j dev then some (plant, floor) else l j)
          (relocate dev plant floor devices)
  unfolding relocate
  relocate-Located l dev plant floor [] k = tt
  relocate-Located l dev plant floor (d ∷ devices) k = elim (Bool-cases (text_eq d.device_id dev)) [
    | inl e ↦ rw e (rw e, relocate-Located l dev plant floor devices k.1)
    | inr e ↦ rw e (rw e k.0, relocate-Located l dev plant floor devices k.1)
  ]

  -- A model whose rows stand where the metadata says stays such a model when metadata arrives.
  pub update_device_meta-Located :
      (dev plant floor : Text) (m : Model D)
      → Located m.location m.devices
      → Located
          (update_device_meta dev plant floor m).0.location
          (update_device_meta dev plant floor m).0.devices
  unfolding update_device_meta
  update_device_meta-Located dev plant floor m k =
      relocate-Located m.location dev plant floor m.devices k
