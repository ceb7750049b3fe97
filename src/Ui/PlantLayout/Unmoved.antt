-- ===== src/Ui/PlantLayout/Unmoved.antt =====
-- Where devices stand does not depend on their values: the first part, up to the loops.
use forge_sight.Prelude.{
  ◌≡◌, refl, sym, ap, ◌∙◌, inl, inr, ℕ, Bool, List, [], ◌∷◌, ◌++◌, map, Text, text_eq, length-map,
  Bool-cases,
}
use forge_sight.Ui.PlantLayout.{PlantDevice, Platform, Value}
use forge_sight.Ui.PlantLayout.Groups.{
  Groups, Sized, alter, placed_before, group_device, group_devices, size_floor,
}
use forge_sight.Ui.PlantLayout.SortLaws.{SortLaws}

pub map_last {ℓ κ} :
    {A : Type ℓ} {B : Type κ} (f : A → B) (xs : List A) (x : A)
    → map f (xs ++ (x ∷ [])) ≡ map f xs ++ (f x ∷ [])
map_last f [] x = refl
map_last f (y ∷ xs) x = ap (◌∷◌ (f y)) (map_last f xs x)

-- A function on the values of a map.
abbrev pub map_values : {A B : Type 0} → (A → B) → List (Text × A) → List (Text × B)
map_values g entries = map (λ e. (e.0, g e.1)) entries

map_values-alter :
    {A B : Type 0} (text_lt : Text → Text → Bool) (g : A → B) (k : Text) (dflt : A) (u : A → A)
    (v : B → B)
    → ((a : A) → g (u a) ≡ v (g a))
    → (entries : List (Text × A))
    → map_values g (alter text_lt k dflt u entries)
      ≡ alter text_lt k (g dflt) v (map_values g entries)
unfolding alter
map_values-alter text_lt g k dflt u v h [] = ap (λ b. (k, b) ∷ []) (h dflt)
map_values-alter text_lt g k dflt u v h ((j, a) ∷ entries) = elim (Bool-cases (text_eq j k)) [
  | inl e ↦ rw (alter, e) (ap (λ b. (j, b) ∷ map_values g entries) (h a))
  | inr e ↦ elim (Bool-cases (text_lt k j)) [
    | inl l ↦ rw (alter, e, l) (ap (λ b. (k, b) ∷ (j, g a) ∷ map_values g entries) (h dflt))
    | inr l ↦ rw (alter, e, l) (ap (◌∷◌ (j, g a)) (map_values-alter text_lt g k dflt u v h entries))
  ]
]

-- A function that leaves the names of a device and of its place.
pub record KeepsPlace {D : Type 0} (f : PlantDevice D → PlantDevice D) : Type 0 where
  pub device_id : (d : PlantDevice D) → (f d).device_id ≡ d.device_id
  pub sensor : (d : PlantDevice D) → (f d).sensor ≡ d.sensor
  pub plant : (d : PlantDevice D) → (f d).plant ≡ d.plant
  pub floor : (d : PlantDevice D) → (f d).floor ≡ d.floor

module _ (P : Platform) (f : PlantDevice (Value P) → PlantDevice (Value P))
    (keeps : KeepsPlace f) where
  abbrev pub map_groups : Groups (Value P) → Groups (Value P)
  map_groups groups = map_values (λ floors. map_values (λ devices. map f devices) floors) groups

  -- `group_device`, with the names of the place apart.
  abbrev put : PlantDevice (Value P) → Text → Text → Groups (Value P) → Groups (Value P)
  put d plant floor groups =
      alter P.text_lt plant [] (alter P.text_lt floor [] (λ devices. devices ++ (d ∷ []))) groups

  map_groups-group_device :
      (d : PlantDevice (Value P)) (groups : Groups (Value P))
      → map_groups (group_device P d groups) ≡ group_device P (f d) (map_groups groups)
  unfolding group_device
  map_groups-group_device d groups =
      map_values-alter P.text_lt _ d.plant [] _ _
        (λ floors.
          map_values-alter P.text_lt _ d.floor [] _ _ (λ devices. map_last f devices d) floors)
        groups
      ∙ ap (λ p. put (f d) p d.floor (map_groups groups)) (sym (keeps.plant d))
      ∙ ap (λ l. put (f d) (f d).plant l (map_groups groups)) (sym (keeps.floor d))

  pub map_groups-group_devices :
      (input : List (PlantDevice (Value P))) (groups : Groups (Value P))
      → map_groups (group_devices P input groups)
        ≡ group_devices P (map f input) (map_groups groups)
  unfolding group_devices
  map_groups-group_devices [] groups = refl
  map_groups-group_devices (d ∷ input) groups =
      map_groups-group_devices input (group_device P d groups)
      ∙ ap (group_devices P (map f input)) (map_groups-group_device d groups)

  abbrev pub map_sized : Sized (Value P) → Sized (Value P)
  map_sized s = record s { devices = map f s.devices }

  before_keeps :
      (a b : PlantDevice (Value P))
      → placed_before P.text_lt (f a) (f b) ≡ placed_before P.text_lt a b
  before_keeps a b = rw (keeps.device_id a, keeps.device_id b, keeps.sensor a, keeps.sensor b) refl

  module _ (laws : SortLaws P) where
    pub size_floor-map :
        (max_columns : ℕ) (floor : Text × List (PlantDevice (Value P)))
        → size_floor P max_columns (floor.0, map f floor.1)
          ≡ map_sized (size_floor P max_columns floor)
    unfolding size_floor
    size_floor-map max_columns floor =
        rw (length-map floor.1 f, laws.follows (placed_before P.text_lt) f before_keeps floor.1)
          refl
