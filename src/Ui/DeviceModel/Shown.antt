-- ===== src/Ui/DeviceModel/Shown.antt =====
-- Which reading the device model shows for a device and sensor.
use forge_sight.Prelude.{
  ◌≡◌, refl, sym, ap, ◌∙◌, inl, inr, Bool, true, false, ◌&&◌, Option, none, some, List, [], ◌∷◌,
  Text, text_eq, text_eq_iff, text_eq_refl, Bool-cases, arith, if◌then◌else◌,
}
use forge_sight.Ui.DeviceModel.{
  DeviceState, Update, Model, is_key, refresh, update_device, update_device_meta, relocate,
}
use forge_sight.Ui.DeviceModel.Rows.{upsert, new_row, update_device-upsert}

pub both_names : (a b c d : Text) → (text_eq a b && text_eq c d) ≡ true → (a ≡ b) × (c ≡ d)
both_names a b c d h = ((text_eq_iff a b).0 (ground arith), (text_eq_iff c d).0 (ground arith))

same_test :
    {A : Type 0} (b c : Bool) (x y z : A)
    → c ≡ b
    → (if b then x else z) ≡ (if b then x else if c then y else z)
same_test true c x y z e = refl
same_test false c x y z e = rw e refl

module _ {D : Type 0} where
  -- The reading that a row shows.
  abbrev pub reading_of : DeviceState D → Update D
  reading_of d = record {
    device_id = d.device_id;
    sensor = d.sensor;
    value = d.value;
    unit = d.unit;
    timestamp = d.timestamp;
    anomaly = d.anomaly;
  }

  unfoldable pub shown_in : Text → Text → List (DeviceState D) → Option (Update D)
  shown_in dev sen [] = none
  shown_in dev sen (d ∷ devices) =
      if is_key dev sen d then some (reading_of d) else shown_in dev sen devices

  abbrev pub is_for : Text → Text → Update D → Bool
  is_for dev sen u = text_eq u.device_id dev && text_eq u.sensor sen

  -- A row that is refreshed by a reading of its own key shows that reading.
  refreshed :
      (u : Update D) (d : DeviceState D)
      → is_key u.device_id u.sensor d ≡ true
      → reading_of (refresh u d) ≡ u
  refreshed u d hit =
      let (dev, sen) = both_names d.device_id u.device_id d.sensor u.sensor hit in
      ap (λ n. record u { device_id = n; sensor = d.sensor }) dev
      ∙ ap (λ n. record u { sensor = n }) sen

  other_key :
      (dev sen : Text) (u : Update D) (d : DeviceState D)
      → is_key u.device_id u.sensor d ≡ false
      → is_key dev sen d ≡ true
      → is_for dev sen u ≡ false
  other_key dev sen u d miss mine = elim (Bool-cases (is_for dev sen u)) [
    | inr e ↦ e
    | inl e ↦
        let (a, b) = both_names d.device_id dev d.sensor sen mine in
        let (a', b') = both_names u.device_id dev u.sensor sen e in
        let hit : is_key u.device_id u.sensor d ≡ true =
          ap (λ n. text_eq d.device_id n && text_eq d.sensor u.sensor) (a' ∙ sym a)
          ∙ ap (λ n. text_eq d.device_id d.device_id && text_eq d.sensor n) (b' ∙ sym b)
          ∙ ground (arith, text_eq_refl d.device_id, text_eq_refl d.sensor) in
        absurd (cc)
  ]

  pub shown_in-upsert :
      (dev sen : Text) (u : Update D) (new : DeviceState D) (devices : List (DeviceState D))
      → reading_of new ≡ u
      → shown_in dev sen (upsert u new devices)
        ≡ (if is_for dev sen u then some u else shown_in dev sen devices)
  unfolding shown_in upsert
  shown_in-upsert dev sen u new [] h = ap (λ v. if is_for dev sen v then some v else none) h
  shown_in-upsert dev sen u new (d ∷ devices) h =
      elim (Bool-cases (is_key u.device_id u.sensor d)) [
        | inl hit ↦
            rw (upsert, hit)
              (ap (λ v. if is_for dev sen v then some v else shown_in dev sen devices)
                  (refreshed u d hit)
                ∙ same_test (is_for dev sen u) (is_key dev sen d) (some u) (some (reading_of d))
                    (shown_in dev sen devices) (ap (is_for dev sen) (refreshed u d hit)))
        | inr miss ↦ elim (Bool-cases (is_key dev sen d)) [
          | inl mine ↦ rw (upsert, miss, mine, other_key dev sen u d miss mine) refl
          | inr other ↦ rw (upsert, miss, other) (shown_in-upsert dev sen u new devices h)
        ]
      ]

  shown_in-relocate :
      (dev sen at plant floor : Text) (devices : List (DeviceState D))
      → shown_in dev sen (relocate at plant floor devices) ≡ shown_in dev sen devices
  unfolding shown_in relocate
  shown_in-relocate dev sen at plant floor [] = refl
  shown_in-relocate dev sen at plant floor (d ∷ devices) =
      elim (Bool-cases (text_eq d.device_id at)) [
        | inl e ↦ rw e (
            ap (λ o. if is_key dev sen d then some (reading_of d) else o)
              (shown_in-relocate dev sen at plant floor devices))
        | inr e ↦ rw e (
            ap (λ o. if is_key dev sen d then some (reading_of d) else o)
              (shown_in-relocate dev sen at plant floor devices))
      ]

  -- What the model shows after a reading, and after metadata.
  pub shown_in-update_device :
      (dev sen : Text) (u : Update D) (m : Model D)
      → shown_in dev sen (update_device u m).0.devices
        ≡ (if is_for dev sen u then some u else shown_in dev sen m.devices)
  shown_in-update_device dev sen u m =
      ap (λ k. shown_in dev sen k.devices) (update_device-upsert u m)
      ∙ shown_in-upsert dev sen u (new_row u m) m.devices refl

  pub shown_in-update_device_meta :
      (dev sen at plant floor : Text) (m : Model D)
      → shown_in dev sen (update_device_meta at plant floor m).0.devices
        ≡ shown_in dev sen m.devices
  unfolding update_device_meta
  shown_in-update_device_meta dev sen at plant floor m =
      shown_in-relocate dev sen at plant floor m.devices
