-- ===== src/Ui/PlantLayout/Scene.antt =====
-- PlantLayout::layout as a whole, with its last part, and PlantLayout::nearest.
use forge_sight.Prelude.{
  ℕ, suc, ◌^◌, Option, none, some, List, [], ◌∷◌, map, fmin, fmax, if◌then◌else◌,
}
use forge_sight.Ui.PlantLayout.{
  PlantDevice, PlacedDevice, PlantZone, PlantScene, PlantLayout, Platform, Value, Length, half,
}
use forge_sight.Ui.PlantLayout.Groups.{group_devices}
use forge_sight.Ui.PlantLayout.Placing.{Draft, place_plants}

module _ (P : Platform) where
  open P use {double, single}

  pub record Extent : Type 0 where
    pub min_x : (Length P)
    pub max_x : (Length P)
    pub min_z : (Length P)
    pub max_z : (Length P)

  unfoldable pub extent : List (PlantZone (Length P)) → Extent → Extent
  extent [] e = e
  extent (z ∷ zones) e = extent zones (record {
    min_x = fmin single e.min_x (single.sub z.x (half P z.width));
    max_x = fmax single e.max_x (single.add z.x (half P z.width));
    min_z = fmin single e.min_z (single.sub z.z (half P z.depth));
    max_z = fmax single e.max_z (single.add z.z (half P z.depth));
  })

  unfoldable pub far : (Length P)
  far = single.dec (10 ^ 30) 0

  abbrev pub nowhere : Extent
  nowhere = record {
    min_x = far;
    max_x = single.sub (single.dec 0 0) far;
    min_z = far;
    max_z = single.sub (single.dec 0 0) far;
  }

  abbrev pub shift_zone : (Length P) → (Length P) → PlantZone (Length P) → PlantZone (Length P)
  shift_zone cx cz z = record z { x = single.sub z.x cx; z = single.sub z.z cz }

  abbrev pub shift_device :
      (Length P)
      → (Length P)
      → PlacedDevice (Value P) (Length P)
      → PlacedDevice (Value P) (Length P)
  shift_device cx cz d = record d { x = single.sub d.x cx; z = single.sub d.z cz }

  -- Centre on the origin.
  unfoldable pub centre : (Draft P) → PlantScene (Value P) (Length P)
  unfolding extent
  centre b =
      let e = extent b.zones nowhere in
      let cx = half P (single.add e.min_x e.max_x) in
      let cz = half P (single.add e.min_z e.max_z) in
      record {
        devices = map (shift_device cx cz) b.devices;
        zones = map (shift_zone cx cz) b.zones;
        width = single.sub e.max_x e.min_x;
        depth = single.sub e.max_z e.min_z;
      }

  abbrev pub no_scene : PlantScene (Value P) (Length P)
  no_scene = record { devices = []; zones = []; width = single.dec 0 0; depth = single.dec 0 0 }

  -- The scene, and the layout with the ranges that it has then.
  unfoldable pub layout :
      List (PlantDevice (Value P))
      → PlantLayout (Value P) (Length P)
      → PlantScene (Value P) (Length P) × PlantLayout (Value P) (Length P)
  unfolding group_devices place_plants centre
  layout [] l = (no_scene, l)
  layout (d ∷ input) l =
      let groups = group_devices P (d ∷ input) [] in
      let built =
        place_plants P (single.dec 0 0) groups (record { devices = []; zones = []; keeper = l }) in
      (centre built, built.keeper)

  -- dx * dx + dz * dz
  abbrev pub distance2 : (Length P) → (Length P) → PlacedDevice (Value P) (Length P) → (Length P)
  distance2 x z d =
      let dx = single.sub d.x x in
      let dz = single.sub d.z z in single.add (single.mul dx dx) (single.mul dz dz)

  -- The loop of nearest, from the device `i` on; `none` stands for -1.
  unfoldable pub nearest_from :
      (Length P)
      → (Length P)
      → ℕ
      → List (PlacedDevice (Value P) (Length P))
      → Option ℕ
      → (Length P)
      → Option ℕ
  nearest_from x z i [] best best_d2 = best
  nearest_from x z i (d ∷ devices) best best_d2 =
      let d2 = distance2 x z d in
      let closer = nearest_from x z (suc i) devices (some i) d2 in
      let other = nearest_from x z (suc i) devices best best_d2 in
      if single.le d2 best_d2 then closer else other

  unfoldable pub nearest :
      PlantScene (Value P) (Length P) → (Length P) → (Length P) → (Length P) → Option ℕ
  unfolding nearest_from
  nearest scene x z max_dist = nearest_from x z 0 scene.devices none (single.mul max_dist max_dist)
