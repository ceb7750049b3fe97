-- ===== src/Ui/PlantLayout/Tally.antt =====
-- Devices and zones, counted through the grouping and the loop over a zone.
use forge_sight.Prelude.{
  ◌≡◌, refl, ◌∙◌, inl, inr, ℕ, suc, ◌+◌, Bool, List, [], ◌∷◌, ◌++◌, Text, text_eq, arith,
  Bool-cases, if◌then◌else◌,
}
use forge_sight.Ui.PlantLayout.{PlantDevice, PlacedDevice, Platform, Value, Length, normalise}
use forge_sight.Ui.PlantLayout.Groups.{Groups, Sized, alter, group_device, group_devices}
use forge_sight.Ui.PlantLayout.Placing.{Spot, Building, Draft, place_device, place_devices}
use forge_sight.Ui.PlantLayout.SortLaws.{count_where}

-- The device that was placed.
abbrev pub device_of : {D R : Type 0} → PlacedDevice D R → PlantDevice D
device_of d = record {
  device_id = d.device_id;
  sensor = d.sensor;
  plant = d.plant;
  floor = d.floor;
  value = d.value;
  critical = d.critical;
}

abbrev pub sum_of {ℓ} : {A : Type ℓ} → (A → ℕ) → List A → ℕ
sum_of measure [] = 0
sum_of measure (x ∷ xs) = measure x + sum_of measure xs

count_where-append {ℓ} :
    {A : Type ℓ} (test : A → Bool) (xs : List A) (x : A)
    → count_where test (xs ++ (x ∷ [])) ≡ (if test x then 1 else 0) + count_where test xs
count_where-append test [] x = refl
count_where-append test (y ∷ xs) x = omega (arith, count_where-append test xs x)

pub sum_of-append {ℓ} :
    {A : Type ℓ} (measure : A → ℕ) (xs : List A) (x : A)
    → sum_of measure (xs ++ (x ∷ [])) ≡ sum_of measure xs + measure x
sum_of-append measure [] x = omega arith
sum_of-append measure (y ∷ xs) x = omega (arith, sum_of-append measure xs x)

sum_of-alter :
    {A : Type 0} (text_lt : Text → Text → Bool) (measure : A → ℕ) (k : Text) (dflt : A) (u : A → A)
    (n : ℕ)
    → ((a : A) → measure (u a) ≡ n + measure a)
    → measure dflt ≡ 0
    → (entries : List (Text × A))
    → sum_of (λ e. measure e.1) (alter text_lt k dflt u entries)
      ≡ n + sum_of (λ e. measure e.1) entries
unfolding alter
sum_of-alter text_lt measure k dflt u n h z [] = omega (arith, h dflt, z)
sum_of-alter text_lt measure k dflt u n h z ((j, a) ∷ entries) = elim (Bool-cases (text_eq j k)) [
  | inl e ↦ rw (alter, e) (omega (arith, h a))
  | inr e ↦ elim (Bool-cases (text_lt k j)) [
    | inl l ↦ rw (alter, e, l) (omega (arith, h dflt, z))
    | inr l ↦ rw (alter, e, l) (omega (arith, sum_of-alter text_lt measure k dflt u n h z entries))
  ]
]

module _ (P : Platform) where
  -- A zone under construction after one more device.
  abbrev pub next : Spot P → ℕ → PlantDevice (Value P) → Building P → Building P
  next s i d b =
      let seen = normalise P d.sensor d.value b.keeper in
      record {
        devices = b.devices ++ (place_device P s i d seen.0 ∷ []);
        critical = if d.critical then b.critical + 1 else b.critical;
        keeper = seen.1;
      }

  -- Where the next zone and the next plant begin.
  abbrev pub next_z : Length P → Sized (Value P) → Draft P → Length P
  next_z zz f b =
      P.single.add zz
        (P.single.add (P.single.mul (P.single.of_nat f.rows) b.keeper.spacing) b.keeper.zone_gap)

  abbrev pub next_x : Length P → Length P → Draft P → Length P
  next_x px width b = P.single.add px (P.single.add width b.keeper.plant_gap)

  pub critical-place_devices :
      (s : Spot P) (i : ℕ) (devices : List (PlantDevice (Value P))) (b : Building P)
      → (place_devices P s i devices b).critical
        ≡ b.critical + count_where (λ d. d.critical) devices
  unfolding place_devices
  critical-place_devices s i [] b = omega arith
  critical-place_devices s i (d ∷ devices) b = elim (Bool-cases d.critical) [
    | inl e ↦ critical-place_devices s (suc i) devices (next s i d b) ∙ rw e (omega arith)
    | inr e ↦ critical-place_devices s (suc i) devices (next s i d b) ∙ rw e (omega arith)
  ]

  module _ (test : PlantDevice (Value P) → Bool) where
    abbrev pub floor_total : Text × List (PlantDevice (Value P)) → ℕ
    floor_total floor = count_where test floor.1

    -- The devices of the groups that pass a test.
    abbrev pub total : Groups (Value P) → ℕ
    total groups = sum_of (λ plant. sum_of floor_total plant.1) groups

    total-group_device :
        (d : PlantDevice (Value P)) (groups : Groups (Value P))
        → total (group_device P d groups) ≡ (if test d then 1 else 0) + total groups
    unfolding group_device
    total-group_device d groups =
        sum_of-alter P.text_lt (λ floors. sum_of floor_total floors) d.plant [] _
          (if test d then 1 else 0)
          (λ floors.
            sum_of-alter P.text_lt (count_where test) d.floor [] _ (if test d then 1 else 0)
              (λ devices. count_where-append test devices d) refl floors)
          refl groups

    pub total-group_devices :
        (input : List (PlantDevice (Value P))) (groups : Groups (Value P))
        → total (group_devices P input groups) ≡ count_where test input + total groups
    unfolding group_devices
    total-group_devices [] groups = omega arith
    total-group_devices (d ∷ input) groups =
        omega
          (arith, total-group_devices input (group_device P d groups), total-group_device d groups)

    abbrev pub placed_total : List (PlacedDevice (Value P) (Length P)) → ℕ
    placed_total devices = count_where (λ d. test (device_of d)) devices

    pub placed_total-place_devices :
        (s : Spot P) (i : ℕ) (devices : List (PlantDevice (Value P))) (b : Building P)
        → placed_total (place_devices P s i devices b).devices
          ≡ placed_total b.devices + count_where test devices
    unfolding place_devices place_device
    placed_total-place_devices s i [] b = omega arith
    placed_total-place_devices s i (d ∷ devices) b = omega (
      arith,
      placed_total-place_devices s (suc i) devices (next s i d b),
      count_where-append (λ (p : PlacedDevice (Value P) (Length P)). test (device_of p)) b.devices
          (place_device P s i d (normalise P d.sensor d.value b.keeper).0),
    )
