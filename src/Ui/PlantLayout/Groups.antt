-- ===== src/Ui/PlantLayout/Groups.antt =====
-- The first part of PlantLayout::layout: the devices by plant and floor, and the grid of each floor.
use forge_sight.Prelude.{
  ℕ, ◌+◌, ◌-◌, ◌/◌, ltb, Bool, not, List, [], ◌∷◌, ◌++◌, Text, text_eq, length, fmax, if◌then◌else◌,
}
use forge_sight.Ui.PlantLayout.{PlantDevice, Platform, Value, Length}

-- struct Sized, a floor of a plant that is being placed.
pub record Sized (D : Type 0) : Type 0 where
  pub floor : Text
  pub devices : List (PlantDevice D)
  pub columns : ℕ
  pub rows : ℕ

-- QMap::operator[] with a change of the value, `dflt` standing for a key that is missing.
unfoldable pub alter :
    {A : Type 0} → (Text → Text → Bool) → Text → A → (A → A) → List (Text × A) → List (Text × A)
alter text_lt k dflt change [] = (k, change dflt) ∷ []
alter text_lt k dflt change ((j, v) ∷ entries) =
    let rest = alter text_lt k dflt change entries in
    if text_eq j k
    then (j, change v) ∷ entries
    else if text_lt k j
    then (k, change dflt) ∷ (j, v) ∷ entries
    else (j, v) ∷ rest

abbrev pub Groups : Type 0 → Type 0
Groups D = List (Text × List (Text × List (PlantDevice D)))

-- The comparison of the sort: by device, then by sensor.
abbrev pub placed_before :
    {D : Type 0} → (Text → Text → Bool) → PlantDevice D → PlantDevice D → Bool
placed_before text_lt a b =
    if not (text_eq a.device_id b.device_id)
    then text_lt a.device_id b.device_id
    else text_lt a.sensor b.sensor

module _ (P : Platform) where
  open P use {double, single, text_lt}

  -- groups[d.plant][d.floor].push_back(d)
  unfoldable pub group_device : PlantDevice (Value P) → Groups (Value P) → Groups (Value P)
  group_device d groups =
      alter text_lt d.plant [] (alter text_lt d.floor [] (λ devices. devices ++ (d ∷ []))) groups

  unfoldable pub group_devices : List (PlantDevice (Value P)) → Groups (Value P) → Groups (Value P)
  group_devices [] groups = groups
  group_devices (d ∷ input) groups = group_devices input (group_device d groups)

  -- The columns of a floor with `n` devices.
  unfoldable pub grid_columns : ℕ → ℕ → ℕ
  grid_columns max_columns n =
      let wanted = P.ceil (P.sqrt (double.mul (double.of_nat n) (double.dec 16 1))) in
      if ltb wanted 1 then 1 else if ltb max_columns wanted then max_columns else wanted

  unfoldable pub size_floor : ℕ → Text × List (PlantDevice (Value P)) → Sized (Value P)
  unfolding grid_columns
  size_floor max_columns (floor, devices) =
      let n = length devices in
      let columns = grid_columns max_columns n in
      record {
        floor = floor;
        devices = P.sort (placed_before text_lt) devices;
        columns = columns;
        rows = (n + columns - 1) / columns;
      }

  -- plant_width over the floors of a plant.
  unfoldable pub widest : (Length P) → (Length P) → List (Sized (Value P)) → (Length P)
  widest spacing width [] = width
  widest spacing width (f ∷ floors) =
      widest spacing (fmax single width (single.mul (single.of_nat f.columns) spacing)) floors
