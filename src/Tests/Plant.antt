-- ===== src/Tests/Plant.antt =====
-- The plant view.
use forge_sight.Prelude.{
  ◌≡◌, refl, ap, ◌∙◌, inl, inr, ℕ, ◌+◌, ◌-◌, ◌*◌, ◌/◌, Bool, true, false, ltb, leb, List, [], ◌∷◌,
  map, Text, lit, length, Arithmetic, Bool-cases, arith, if◌then◌else◌,
}
use forge_sight.Ui.DeviceModel.{DeviceState}
use forge_sight.Ui.PlantLayout.{PlantDevice, Platform, plant_layout}
use forge_sight.Ui.PlantLayout.Scene.{layout}
use forge_sight.Ui.PlantLayout.SortLaws.{SortLaws, count_where}
use forge_sight.Ui.PlantLayout.Unmoved.{KeepsPlace}
use forge_sight.Ui.PlantLayout.Steady.{SamePlaces, layout_steady}
use forge_sight.Ui.PlantLayout.Tally.{sum_of}
use forge_sight.Ui.PlantLayout.Complete.{layout_complete}
use forge_sight.Ui.PlantSceneModel.{
  scene_model, rows_changed, set_source, timeout, schedule, rebuild,
}
use forge_sight.Ui.PlantSceneModel.Fresh.{
  SceneEvent, sets_source, changes_rows, times_out, scene_event, scene_events, Shows,
  scene_events-Shows,
}

-- Whole numbers in place of floating-point ones.
abbrev whole : Arithmetic
whole = record {
  Num = ℕ;
  add = ◌+◌;
  sub = ◌-◌;
  mul = ◌*◌;
  div = ◌/◌;
  lt = ltb;
  le = leb;
  dec = λ m k. m;
  of_nat = λ n. n;
}

module _ {A : Type 0} (less : A → A → Bool) where
  place : A → List A → List A
  place x [] = x ∷ []
  place x (y ∷ ys) = if less y x then y ∷ place x ys else x ∷ y ∷ ys

  pub sorted : List A → List A
  unfolding place
  sorted [] = []
  sorted (x ∷ xs) = place x (sorted xs)

  count_where-place :
      (test : A → Bool) (x : A) (xs : List A)
      → count_where test (place x xs) ≡ (if test x then 1 else 0) + count_where test xs
  unfolding place
  count_where-place test x [] = refl
  count_where-place test x (y ∷ ys) = elim (Bool-cases (less y x)) [
    | inl e ↦ rw (place, e) (omega (arith, count_where-place test x ys))
    | inr e ↦ rw (place, e) refl
  ]

  count_where-sorted :
      (test : A → Bool) (xs : List A) → count_where test (sorted xs) ≡ count_where test xs
  unfolding sorted
  count_where-sorted test [] = refl
  count_where-sorted test (x ∷ xs) =
      count_where-place test x (sorted xs)
      ∙ ap (◌+◌ (if test x then 1 else 0)) (count_where-sorted test xs)

  module _ (f : A → A) (same : (a b : A) → less (f a) (f b) ≡ less a b) where
    place-map : (x : A) (xs : List A) → place (f x) (map f xs) ≡ map f (place x xs)
    unfolding place
    place-map x [] = refl
    place-map x (y ∷ ys) = elim (Bool-cases (less y x)) [
      | inl e ↦ rw (place, same y x, e) (ap (◌∷◌ (f y)) (place-map x ys))
      | inr e ↦ rw (place, same y x, e) refl
    ]

    sorted-map : (xs : List A) → sorted (map f xs) ≡ map f (sorted xs)
    unfolding sorted
    sorted-map [] = refl
    sorted-map (x ∷ xs) = ap (place (f x)) (sorted-map xs) ∙ place-map x (sorted xs)

abbrev shorter : Text → Text → Bool
shorter s t = ltb (length s) (length t)

abbrev pub platform : Platform
platform = record {
  double = whole;
  single = whole;
  to_float = λ n. n;
  sqrt = λ n. n;
  ceil = λ n. n;
  text_lt = shorter;
  sort = sorted;
}

abbrev platform_laws : SortLaws platform
platform_laws = record { permutes = count_where-sorted; follows = sorted-map }

abbrev standing : Text → ℕ → Bool → PlantDevice ℕ
standing name value critical = record {
  device_id = name;
  sensor = lit "t";
  plant = lit "A";
  floor = lit "1";
  value = value;
  critical = critical;
}

abbrev machines : List (PlantDevice ℕ)
machines = standing (lit "pump") 3 false ∷ standing (lit "fan") 5 true ∷ []

abbrev heated : PlantDevice ℕ → PlantDevice ℕ
heated d = record d { value = d.value + 40; critical = true }

heated_keeps : KeepsPlace heated
heated_keeps = record {
  device_id = λ d. refl;
  sensor = λ d. refl;
  plant = λ d. refl;
  floor = λ d. refl;
}

layout_steady_example :
    SamePlaces
      (layout platform (map heated machines) (plant_layout platform)).0
      (layout platform machines (plant_layout platform)).0
layout_steady_example =
    layout_steady platform heated heated_keeps platform_laws machines (plant_layout platform)
      (plant_layout platform) refl

layout_complete_example :
    let scene = (layout platform machines (plant_layout platform)).0 in
    (count_where (λ d. leb 4 d.value) scene.devices ≡ 1)
    × (sum_of (λ z. z.count) scene.zones ≡ 2)
    × (sum_of (λ z. z.critical) scene.zones ≡ 1)
layout_complete_example =
    layout_complete platform platform_laws (λ d. leb 4 d.value) machines (plant_layout platform)

abbrev fan : DeviceState ℕ
fan = record {
  device_id = lit "fan";
  sensor = lit "t";
  value = 5;
  unit = lit "C";
  timestamp = lit "T";
  anomaly = true;
  status = lit "critical";
  plant = lit "A";
  floor = lit "1";
}

abbrev happenings : List (SceneEvent ℕ)
happenings =
    sets_source [] ∷ changes_rows (fan ∷ []) ∷ changes_rows (fan ∷ fan ∷ []) ∷ times_out ∷ []

no_rebuild_waits : (scene_events platform happenings (scene_model platform)).timer ≡ false
unfolding scene_events scene_event rows_changed set_source timeout schedule rebuild
no_rebuild_waits = refl

scene_events-Shows_example :
    Shows platform (scene_events platform happenings (scene_model platform))
scene_events-Shows_example = scene_events-Shows platform platform_laws happenings no_rebuild_waits
