-- ===== src/Ui/PlantLayout/Steady.antt =====
-- New values do not move a device.
use forge_sight.Prelude.{◌≡◌, refl, sym, ap, ◌∙◌, subst, List, [], ◌∷◌, map}
use forge_sight.Ui.PlantLayout.{
  PlantDevice, PlacedDevice, PlantZone, PlantScene, PlantLayout, Platform, Value, Length, half,
}
use forge_sight.Ui.PlantLayout.Groups.{group_devices}
use forge_sight.Ui.PlantLayout.Placing.{Draft, place_plants}
use forge_sight.Ui.PlantLayout.Scene.{
  Extent, extent, nowhere, shift_device, shift_zone, centre, layout,
}
use forge_sight.Ui.PlantLayout.SortLaws.{SortLaws}
use forge_sight.Ui.PlantLayout.Unmoved.{KeepsPlace, map_groups-group_devices}
use forge_sight.Ui.PlantLayout.Stands.{
  Stand, stand_of, area_of, settings, Alike, place_plants-Alike,
}

-- The same devices at the same places, in the same zones, in a scene of the same size.
pub record SamePlaces {D R : Type 0} (a b : PlantScene D R) : Type 0 where
  pub stands : map stand_of a.devices ≡ map stand_of b.devices
  pub areas : map area_of a.zones ≡ map area_of b.zones
  pub width : a.width ≡ b.width
  pub depth : a.depth ≡ b.depth

module _ (P : Platform) where
  extent-area_of :
      (zones : List (PlantZone (Length P))) (e : Extent P)
      → extent P zones e ≡ extent P (map area_of zones) e
  unfolding extent
  extent-area_of [] e = refl
  extent-area_of (z ∷ zones) e = extent-area_of zones _

  abbrev mid_x : Extent P → Length P
  mid_x e = half P (P.single.add e.min_x e.max_x)

  abbrev mid_z : Extent P → Length P
  mid_z e = half P (P.single.add e.min_z e.max_z)

  abbrev shift_stand : Extent P → Stand (Length P) → Stand (Length P)
  shift_stand e s = record s { x = P.single.sub s.x (mid_x e); z = P.single.sub s.z (mid_z e) }

  shift_devices :
      (e : Extent P) (devices : List (PlacedDevice (Value P) (Length P)))
      → map stand_of (map (shift_device P (mid_x e) (mid_z e)) devices)
        ≡ map (shift_stand e) (map stand_of devices)
  shift_devices e [] = refl
  shift_devices e (d ∷ devices) = ap (◌∷◌ (shift_stand e (stand_of d))) (shift_devices e devices)

  shift_zones :
      (e : Extent P) (zones : List (PlantZone (Length P)))
      → map area_of (map (shift_zone P (mid_x e) (mid_z e)) zones)
        ≡ map (shift_zone P (mid_x e) (mid_z e)) (map area_of zones)
  shift_zones e [] = refl
  shift_zones e (z ∷ zones) =
      ap (◌∷◌ (shift_zone P (mid_x e) (mid_z e) (area_of z))) (shift_zones e zones)

  centre-SamePlaces : (b c : Draft P) → Alike P b c → SamePlaces (centre P b) (centre P c)
  unfolding centre
  centre-SamePlaces b c h =
      let e = extent P b.zones (nowhere P) in
      let e' = extent P c.zones (nowhere P) in
      let same : e ≡ e' =
        extent-area_of b.zones (nowhere P)
        ∙ ap (λ zones. extent P zones (nowhere P)) h.areas
        ∙ sym (extent-area_of c.zones (nowhere P)) in
      record {
        stands =
            shift_devices e b.devices
            ∙ ap (map (shift_stand e)) h.stands
            ∙ ap (λ k. map (shift_stand k) (map stand_of c.devices)) same
            ∙ sym (shift_devices e' c.devices);
        areas =
            shift_zones e b.zones
            ∙ ap (map (shift_zone P (mid_x e) (mid_z e))) h.areas
            ∙ ap (λ k. map (shift_zone P (mid_x k) (mid_z k)) (map area_of c.zones)) same
            ∙ sym (shift_zones e' c.zones);
        width = ap (λ k. P.single.sub k.max_x k.min_x) same;
        depth = ap (λ k. P.single.sub k.max_z k.min_z) same;
      }

  -- Two layouts of the same spacings, whatever ranges they have seen, place the same devices at the
  -- same positions of the same zones, whatever the devices' values are and whichever of them are
  -- critical: `f` gives a device any new value and keeps its names and those of its place.
  pub layout_steady :
      (f : PlantDevice (Value P) → PlantDevice (Value P)) (keeps : KeepsPlace f) (laws : SortLaws P)
      (input : List (PlantDevice (Value P))) (l k : PlantLayout (Value P) (Length P))
      → settings l ≡ settings k
      → SamePlaces (layout P (map f input) l).0 (layout P input k).0
  unfolding layout
  layout_steady f keeps laws [] l k h = record {
    stands = refl;
    areas = refl;
    width = refl;
    depth = refl;
  }
  layout_steady f keeps laws (d ∷ input) l k h =
      let zero_x = P.single.dec 0 0 in
      let empty = λ (l : PlantLayout (Value P) (Length P)).
        let draft : Draft P = record { devices = []; zones = []; keeper = l } in draft in
      centre-SamePlaces _ _ (
        subst
          (λ groups.
            Alike P (place_plants P zero_x groups (empty l))
              (place_plants P zero_x (group_devices P (d ∷ input) []) (empty k)))
          (map_groups-group_devices P f keeps (d ∷ input) [])
          (place_plants-Alike P f keeps laws (group_devices P (d ∷ input) []) zero_x (empty l)
            (empty k) (record { stands = refl; areas = refl; set = h })))
