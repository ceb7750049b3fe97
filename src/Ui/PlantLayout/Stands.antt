-- ===== src/Ui/PlantLayout/Stands.antt =====
-- Where devices stand does not depend on their values: the loops and the whole.
use forge_sight.Prelude.{
  ◌≡◌, refl, sym, ap, ◌∙◌, subst, ℕ, suc, none, List, [], ◌∷◌, ◌++◌, map, Text, length, length-map,
}
use forge_sight.Ui.PlantLayout.{
  PlantDevice, PlacedDevice, PlantZone, PlantLayout, Platform, Value, Length, half, normalise,
}
use forge_sight.Ui.PlantLayout.Groups.{Groups, Sized, size_floor, widest}
use forge_sight.Ui.PlantLayout.Placing.{
  Spot, Building, Draft, spot_of, place_device, place_devices, place_zone, place_zones,
  place_plants,
}
use forge_sight.Ui.PlantLayout.SortLaws.{SortLaws}
use forge_sight.Ui.PlantLayout.Unmoved.{
  map_last, KeepsPlace, map_values, map_groups, map_sized, size_floor-map,
}

-- A placed device without its value, its height and whether it is critical.
pub record Stand (R : Type 0) : Type 0 where
  pub device_id : Text
  pub sensor : Text
  pub plant : Text
  pub floor : Text
  pub x : R
  pub z : R
  pub zone : ℕ

abbrev pub stand_of : {D R : Type 0} → PlacedDevice D R → Stand R
stand_of d = record {
  device_id = d.device_id;
  sensor = d.sensor;
  plant = d.plant;
  floor = d.floor;
  x = d.x;
  z = d.z;
  zone = d.zone;
}

-- A zone without the number of its critical devices.
abbrev pub area_of : {R : Type 0} → PlantZone R → PlantZone R
area_of z = record z { critical = 0 }

abbrev pub settings : {D R : Type 0} → PlantLayout D R → PlantLayout D R
settings l = record l { ranges = λ sensor. none }

map_pair {ℓ κ} :
    {A : Type ℓ} {B : Type κ} (f : A → B) (xs ys : List A) (x y : A)
    → map f xs ≡ map f ys
    → f x ≡ f y
    → map f (xs ++ (x ∷ [])) ≡ map f (ys ++ (y ∷ []))
map_pair f xs ys x y h e =
    map_last f xs x
    ∙ ap (λ zs. zs ++ (f x ∷ [])) h
    ∙ ap (λ z. map f ys ++ (z ∷ [])) e
    ∙ sym (map_last f ys y)

-- Scenes under construction that differ in values alone.
pub record Alike (P : Platform) (b c : Draft P) : Type 0 where
  pub stands : map stand_of b.devices ≡ map stand_of c.devices
  pub areas : map area_of b.zones ≡ map area_of c.zones
  pub set : settings b.keeper ≡ settings c.keeper

module _ (P : Platform) (f : PlantDevice (Value P) → PlantDevice (Value P))
    (keeps : KeepsPlace f) where
  stand_of-place_device :
      (s : Spot P) (i : ℕ) (d : PlantDevice (Value P)) (h k : Length P)
      → stand_of (place_device P s i (f d) h) ≡ stand_of (place_device P s i d k)
  unfolding place_device
  stand_of-place_device s i d h k =
      rw (keeps.device_id d, keeps.sensor d, keeps.plant d, keeps.floor d) refl

  stands_lem :
      (s : Spot P) (i : ℕ) (devices : List (PlantDevice (Value P))) (b c : Building P)
      → map stand_of b.devices ≡ map stand_of c.devices
      → map stand_of (place_devices P s i (map f devices) b).devices
        ≡ map stand_of (place_devices P s i devices c).devices
  unfolding place_devices
  stands_lem s i [] b c h = h
  stands_lem s i (d ∷ devices) b c h = stands_lem s (suc i) devices _ _ (
      map_pair stand_of b.devices c.devices _ _ h (
        stand_of-place_device s i d (normalise P (f d).sensor (f d).value b.keeper).0
          (normalise P d.sensor d.value c.keeper).0))

  settings-place_devices :
      (s : Spot P) (i : ℕ) (devices : List (PlantDevice (Value P))) (b : Building P)
      → settings (place_devices P s i devices b).keeper ≡ settings b.keeper
  unfolding place_devices normalise
  settings-place_devices s i [] b = refl
  settings-place_devices s i (d ∷ devices) b = settings-place_devices s (suc i) devices _

  same_length :
      (xs ys : List (PlantZone (Length P)))
      → map area_of xs ≡ map area_of ys
      → length xs ≡ length ys
  same_length xs ys h = sym (length-map xs area_of) ∙ ap length h ∙ length-map ys area_of

  same_spot :
      (px pw zz : Length P) (s : Sized (Value P)) (b c : Draft P)
      → Alike P b c
      → spot_of P px pw zz s b.keeper.spacing (length b.zones)
        ≡ spot_of P px pw zz s c.keeper.spacing (length c.zones)
  same_spot px pw zz s b c h =
      ap (λ l. spot_of P px pw zz s l.spacing (length b.zones)) h.set
      ∙ ap (spot_of P px pw zz s c.keeper.spacing) (same_length b.zones c.zones h.areas)

  -- The zone of a floor with `n` devices, without its critical ones.
  abbrev area :
      Text → Length P → Length P → Length P → Sized (Value P) → Length P → ℕ → PlantZone (Length P)
  area plant px pw zz s spacing n =
      let depth = P.single.mul (P.single.of_nat s.rows) spacing in
      record {
        plant = plant;
        floor = s.floor;
        x = P.single.add px (half P pw);
        z = P.single.add zz (half P depth);
        width = pw;
        depth = depth;
        count = n;
        critical = 0;
      }

  place_zone-Alike :
      (plant : Text) (px pw zz : Length P) (s : Sized (Value P)) (b c : Draft P)
      → Alike P b c
      → Alike P
          (place_zone P plant px pw zz (map_sized P f keeps s) b)
          (place_zone P plant px pw zz s c)
  unfolding place_zone
  place_zone-Alike plant px pw zz s b c h = record {
    stands =
        let start : Building P = record { devices = c.devices; critical = 0; keeper = c.keeper } in
        stands_lem _ 0 s.devices _ start h.stands
        ∙ ap (λ spot. map stand_of (place_devices P spot 0 s.devices start).devices)
            (same_spot px pw zz s b c h);
    areas = map_pair area_of b.zones c.zones _ _ h.areas (
        ap (λ l. area plant px pw zz s l.spacing (length (map f s.devices))) h.set
        ∙ ap (area plant px pw zz s c.keeper.spacing) (length-map s.devices f));
    set =
        settings-place_devices _ 0 (map f s.devices) _
        ∙ h.set
        ∙ sym (settings-place_devices _ 0 s.devices _);
  }

  place_zones-Alike :
      (plant : Text) (px pw zz : Length P) (floors : List (Sized (Value P))) (b c : Draft P)
      → Alike P b c
      → Alike P
          (place_zones P plant px pw zz (map (map_sized P f keeps) floors) b)
          (place_zones P plant px pw zz floors c)
  unfolding place_zones
  place_zones-Alike plant px pw zz [] b c h = h
  place_zones-Alike plant px pw zz (s ∷ floors) b c h =
      let floor_gap = λ (l : PlantLayout (Value P) (Length P)).
        P.single.add zz
          (P.single.add (P.single.mul (P.single.of_nat s.rows) l.spacing) l.zone_gap) in
      subst
        (λ z.
          Alike P
            (place_zones P plant px pw z (map (map_sized P f keeps) floors)
              (place_zone P plant px pw zz (map_sized P f keeps s) b))
            (place_zones P plant px pw (floor_gap c.keeper) floors
              (place_zone P plant px pw zz s c)))
        (sym (ap floor_gap h.set))
        (place_zones-Alike plant px pw (floor_gap c.keeper) floors _ _
          (place_zone-Alike plant px pw zz s b c h))

  widest-map_sized :
      (floors : List (Sized (Value P))) (spacing width : Length P)
      → widest P spacing width (map (map_sized P f keeps) floors) ≡ widest P spacing width floors
  unfolding widest
  widest-map_sized [] spacing width = refl
  widest-map_sized (s ∷ floors) spacing width = widest-map_sized floors spacing _

  module _ (laws : SortLaws P) where
    size_floors-map :
        (n : ℕ) (floors : List (Text × List (PlantDevice (Value P))))
        → map (size_floor P n) (map_values (λ devices. map f devices) floors)
          ≡ map (map_sized P f keeps) (map (size_floor P n) floors)
    size_floors-map n [] = refl
    size_floors-map n (floor ∷ floors) =
        ap (λ s. s ∷ map (size_floor P n) (map_values (λ devices. map f devices) floors))
          (size_floor-map P f keeps laws n floor)
        ∙ ap (◌∷◌ (map_sized P f keeps (size_floor P n floor))) (size_floors-map n floors)

    pub place_plants-Alike :
        (groups : Groups (Value P)) (px : Length P) (b c : Draft P)
        → Alike P b c
        → Alike P (place_plants P px (map_groups P f keeps groups) b) (place_plants P px groups c)
    unfolding place_plants
    place_plants-Alike [] px b c h = h
    place_plants-Alike ((plant, floors) ∷ groups) px b c h =
        let zero_x = P.single.dec 0 0 in
        let moved = map_values (λ devices. map f devices) floors in
        let l = c.keeper in
        let sized = map (size_floor P l.max_columns) floors in
        let width = widest P l.spacing zero_x sized in
        let after = λ (w gap : Length P) (fs : List (Sized (Value P))).
          place_plants P (P.single.add px (P.single.add w gap)) (map_groups P f keeps groups)
            (place_zones P plant px w zero_x fs b) in
        let by_layout = λ (k : PlantLayout (Value P) (Length P)) (fs : List (Sized (Value P))).
          after (widest P k.spacing zero_x fs) k.plant_gap fs in
        let same : by_layout b.keeper (map (size_floor P b.keeper.max_columns) moved)
            ≡ after width l.plant_gap (map (map_sized P f keeps) sized) =
          ap (λ k. by_layout k (map (size_floor P k.max_columns) moved)) h.set
          ∙ ap (by_layout l) (size_floors-map l.max_columns floors)
          ∙ ap (λ w. after w l.plant_gap (map (map_sized P f keeps) sized))
              (widest-map_sized sized l.spacing zero_x) in
        subst (λ d. Alike P d (place_plants P px ((plant, floors) ∷ groups) c)) (sym same)
          (place_plants-Alike groups _ _ _ (place_zones-Alike plant px width zero_x sized b c h))
