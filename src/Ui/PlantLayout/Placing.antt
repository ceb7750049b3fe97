-- ===== src/Ui/PlantLayout/Placing.antt =====
-- The loops of PlantLayout::layout that place plants, zones and devices.
use forge_sight.Prelude.{
  ℕ, suc, ◌+◌, ◌/◌, ◌%◌, List, [], ◌∷◌, ◌++◌, map, Text, length, if◌then◌else◌,
}
use forge_sight.Ui.PlantLayout.{
  PlantDevice, PlacedDevice, PlantZone, PlantLayout, Platform, Value, Length, half, normalise,
}
use forge_sight.Ui.PlantLayout.Groups.{Groups, Sized, size_floor, widest}

module _ (P : Platform) where
  open P use {double, single}

  -- What the loop over the devices of a zone keeps fixed.
  pub record Spot : Type 0 where
    pub zone_x : (Length P)
    pub zone_z : (Length P)
    pub spacing : (Length P)
    pub grid_w : (Length P)
    pub columns : ℕ
    pub zone_index : ℕ

  -- The centre of the cell `i` along an axis.
  abbrev cell : (Length P) → ℕ → (Length P)
  cell spacing i = single.mul (single.add (single.of_nat i) (single.dec 5 1)) spacing

  unfoldable pub place_device :
      Spot → ℕ → PlantDevice (Value P) → (Length P) → PlacedDevice (Value P) (Length P)
  place_device s i d height = record {
    device_id = d.device_id;
    sensor = d.sensor;
    plant = d.plant;
    floor = d.floor;
    value = d.value;
    x = single.add (single.sub s.zone_x (half P s.grid_w)) (cell s.spacing (i % s.columns));
    z = single.add s.zone_z (cell s.spacing (i / s.columns));
    height = height;
    critical = d.critical;
    zone = s.zone_index;
  }

  -- The scene and the layout while they are built, with zone.critical.
  pub record Building : Type 0 where
    pub devices : List (PlacedDevice (Value P) (Length P))
    pub critical : ℕ
    pub keeper : PlantLayout (Value P) (Length P)

  -- The loop over the devices of a zone, from the device `i` on.
  unfoldable pub place_devices : Spot → ℕ → List (PlantDevice (Value P)) → Building → Building
  unfolding place_device normalise
  place_devices s i [] b = b
  place_devices s i (d ∷ devices) b =
      let seen = normalise P d.sensor d.value b.keeper in
      place_devices s (suc i) devices (record {
        devices = b.devices ++ (place_device s i d seen.0 ∷ []);
        critical = if d.critical then b.critical + 1 else b.critical;
        keeper = seen.1;
      })

  -- The scene that is being built, and the layout with its ranges.
  pub record Draft : Type 0 where
    pub devices : List (PlacedDevice (Value P) (Length P))
    pub zones : List (PlantZone (Length P))
    pub keeper : PlantLayout (Value P) (Length P)

  -- The place of a zone; `spacing` and the index of the zone are the layout's and the scene's.
  abbrev pub spot_of :
      (Length P) → (Length P) → (Length P) → Sized (Value P) → (Length P) → ℕ → Spot
  spot_of plant_x plant_width zone_z f spacing zone_index = record {
    zone_x = single.add plant_x (half P plant_width);
    zone_z = zone_z;
    spacing = spacing;
    grid_w = single.mul (single.of_nat f.columns) spacing;
    columns = f.columns;
    zone_index = zone_index;
  }

  -- The body of the loop over the floors of a plant.
  unfoldable pub place_zone :
      Text → (Length P) → (Length P) → (Length P) → Sized (Value P) → Draft → Draft
  unfolding place_devices
  place_zone plant plant_x plant_width zone_z f b =
      let spacing = b.keeper.spacing in
      let depth = single.mul (single.of_nat f.rows) spacing in
      let zone_x = single.add plant_x (half P plant_width) in
      let spot = spot_of plant_x plant_width zone_z f spacing (length b.zones) in
      let start : Building = record { devices = b.devices; critical = 0; keeper = b.keeper } in
      let placed = place_devices spot 0 f.devices start in
      let zone : PlantZone (Length P) = record {
        plant = plant;
        floor = f.floor;
        x = zone_x;
        z = single.add zone_z (half P depth);
        width = plant_width;
        depth = depth;
        count = length f.devices;
        critical = placed.critical;
      } in
      record { devices = placed.devices; zones = b.zones ++ (zone ∷ []); keeper = placed.keeper }

  -- The loop over the floors of a plant.
  unfoldable pub place_zones :
      Text → (Length P) → (Length P) → (Length P) → List (Sized (Value P)) → Draft → Draft
  unfolding place_zone
  place_zones plant plant_x plant_width zone_z [] b = b
  place_zones plant plant_x plant_width zone_z (f ∷ floors) b =
      let depth = single.mul (single.of_nat f.rows) b.keeper.spacing in
      place_zones plant plant_x plant_width (single.add zone_z (single.add depth b.keeper.zone_gap))
        floors (place_zone plant plant_x plant_width zone_z f b)

  -- The loop over the plants.
  unfoldable pub place_plants : (Length P) → Groups (Value P) → Draft → Draft
  unfolding size_floor widest place_zones
  place_plants plant_x [] b = b
  place_plants plant_x ((plant, floors) ∷ groups) b =
      let l = b.keeper in
      let sized = map (size_floor P l.max_columns) floors in
      let width = widest P l.spacing (single.dec 0 0) sized in
      place_plants (single.add plant_x (single.add width l.plant_gap)) groups
        (place_zones plant plant_x width (single.dec 0 0) sized b)
