-- ===== src/Ui/PlantLayout/Loops.antt =====
-- Devices and zones, counted through the loops over floors and plants.
use forge_sight.Prelude.{◌≡◌, refl, ◌∙◌, ℕ, ◌+◌, Bool, List, [], ◌∷◌, map, Text, length, arith}
use forge_sight.Ui.PlantLayout.{PlantDevice, PlantZone, Platform, Value, Length, half}
use forge_sight.Ui.PlantLayout.Groups.{Groups, Sized, placed_before, size_floor, widest}
use forge_sight.Ui.PlantLayout.Placing.{
  Building, Draft, spot_of, place_devices, place_zone, place_zones, place_plants,
}
use forge_sight.Ui.PlantLayout.SortLaws.{SortLaws, count_where}
use forge_sight.Ui.PlantLayout.Tally.{
  sum_of, sum_of-append, next_x, next_z, critical-place_devices, floor_total, total, placed_total,
  placed_total-place_devices,
}

module _ (P : Platform) (test : PlantDevice (Value P) → Bool) (laws : SortLaws P) where
  size_floor-total :
      (n : ℕ) (floor : Text × List (PlantDevice (Value P)))
      → count_where test (size_floor P n floor).devices ≡ floor_total P test floor
  unfolding size_floor
  size_floor-total n floor = laws.permutes (placed_before P.text_lt) test floor.1

  sized_total :
      (n : ℕ) (floors : List (Text × List (PlantDevice (Value P))))
      → sum_of (λ (f : Sized (Value P)). count_where test f.devices) (map (size_floor P n) floors)
        ≡ sum_of (floor_total P test) floors
  sized_total n [] = refl
  sized_total n (floor ∷ floors) = omega (arith, size_floor-total n floor, sized_total n floors)

  placed_total-place_zones :
      (plant : Text) (px pw zz : Length P) (floors : List (Sized (Value P))) (b : Draft P)
      → placed_total P test (place_zones P plant px pw zz floors b).devices
        ≡ placed_total P test b.devices
          + sum_of (λ (f : Sized (Value P)). count_where test f.devices) floors
  unfolding place_zones place_zone
  placed_total-place_zones plant px pw zz [] b = omega arith
  placed_total-place_zones plant px pw zz (f ∷ floors) b = omega (
    arith,
    placed_total-place_zones plant px pw (next_z P zz f b) floors (place_zone P plant px pw zz f b),
    placed_total-place_devices P test (spot_of P px pw zz f b.keeper.spacing (length b.zones)) 0
        f.devices (record { devices = b.devices; critical = 0; keeper = b.keeper }),
  )

  pub placed_total-place_plants :
      (px : Length P) (groups : Groups (Value P)) (b : Draft P)
      → placed_total P test (place_plants P px groups b).devices
        ≡ placed_total P test b.devices + total P test groups
  unfolding place_plants
  placed_total-place_plants px [] b = omega arith
  placed_total-place_plants px ((plant, floors) ∷ groups) b =
      let sized = map (size_floor P b.keeper.max_columns) floors in
      let width = widest P b.keeper.spacing (P.single.dec 0 0) sized in
      omega (
        arith,
        placed_total-place_plants (next_x P px width b) groups
            (place_zones P plant px width (P.single.dec 0 0) sized b),
        placed_total-place_zones plant px width (P.single.dec 0 0) sized b,
        sized_total b.keeper.max_columns floors,
      )

  -- Of a zone, a number that counts those of its devices that pass the test.
  abbrev pub Counts : (PlantZone (Length P) → ℕ) → Type 0
  Counts measure =
      (z : PlantZone (Length P)) (devices : List (PlantDevice (Value P)))
      → z.count ≡ length devices
      → z.critical ≡ count_where (λ d. d.critical) devices
      → measure z ≡ count_where test devices

  sum_of-place_zones :
      (measure : PlantZone (Length P) → ℕ) (fits : Counts measure) (plant : Text)
      (px pw zz : Length P) (floors : List (Sized (Value P))) (b : Draft P)
      → sum_of measure (place_zones P plant px pw zz floors b).zones
        ≡ sum_of measure b.zones
          + sum_of (λ (f : Sized (Value P)). count_where test f.devices) floors
  unfolding place_zones place_zone
  sum_of-place_zones measure fits plant px pw zz [] b = omega arith
  sum_of-place_zones measure fits plant px pw zz (f ∷ floors) b =
      let depth = P.single.mul (P.single.of_nat f.rows) b.keeper.spacing in
      let start : Building P = record { devices = b.devices; critical = 0; keeper = b.keeper } in
      let spot = spot_of P px pw zz f b.keeper.spacing (length b.zones) in
      let zone : PlantZone (Length P) = record {
        plant = plant;
        floor = f.floor;
        x = P.single.add px (half P pw);
        z = P.single.add zz (half P depth);
        width = pw;
        depth = depth;
        count = length f.devices;
        critical = (place_devices P spot 0 f.devices start).critical;
      } in
      omega (
        arith,
        sum_of-place_zones measure fits plant px pw (next_z P zz f b) floors
            (place_zone P plant px pw zz f b),
        sum_of-append measure b.zones zone,
        fits zone f.devices refl (critical-place_devices P spot 0 f.devices start ∙ omega arith),
      )

  pub sum_of-place_plants :
      (measure : PlantZone (Length P) → ℕ) (fits : Counts measure) (px : Length P)
      (groups : Groups (Value P)) (b : Draft P)
      → sum_of measure (place_plants P px groups b).zones
        ≡ sum_of measure b.zones + total P test groups
  unfolding place_plants
  sum_of-place_plants measure fits px [] b = omega arith
  sum_of-place_plants measure fits px ((plant, floors) ∷ groups) b =
      let sized = map (size_floor P b.keeper.max_columns) floors in
      let width = widest P b.keeper.spacing (P.single.dec 0 0) sized in
      omega (
        arith,
        sum_of-place_plants measure fits (next_x P px width b) groups
            (place_zones P plant px width (P.single.dec 0 0) sized b),
        sum_of-place_zones measure fits plant px width (P.single.dec 0 0) sized b,
        sized_total b.keeper.max_columns floors,
      )
