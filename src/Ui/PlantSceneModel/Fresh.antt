-- ===== src/Ui/PlantSceneModel/Fresh.antt =====
-- A scene that waits for no rebuild shows the rows of its source.
use forge_sight.Prelude.{
  ◌≡◌, refl, sym, ap, ◌∙◌, subst, inl, inr, ◌+◌, Bool, true, false, List, [], ◌∷◌, map, lit,
  text_eq, length, length-map, Bool-cases, arith, if◌then◌else◌,
}
use forge_sight.Ui.DeviceModel.{DeviceState}
use forge_sight.Ui.DeviceFilterModel.{count_critical}
use forge_sight.Ui.PlantLayout.{PlacedDevice, Platform, Value, Length}
use forge_sight.Ui.PlantLayout.SortLaws.{SortLaws, count_where}
use forge_sight.Ui.PlantLayout.Complete.{layout_complete, count_where-true}
use forge_sight.Ui.PlantSceneModel.{
  Scenery, plant_device, scene_model, schedule, rebuild, set_source, rows_changed, timeout,
  device_count, count_placed, critical_devices,
}

on_or_off : {b : Bool} → b ≡ true → b ≡ false → ⊥
on_or_off e f = cc

-- What happens to a scene model.
pub data SceneEvent (D : Type 0) : Type 0 where
  sets_source : List (DeviceState D) → SceneEvent D
  changes_rows : List (DeviceState D) → SceneEvent D
  times_out : SceneEvent D

module _ (P : Platform) where
  unfoldable pub scene_event : SceneEvent (Value P) → Scenery P → Scenery P
  unfolding set_source rows_changed timeout
  scene_event (sets_source rows) m = (set_source P rows m).0
  scene_event (changes_rows rows) m = rows_changed P rows m
  scene_event times_out m = (timeout P m).0

  unfoldable pub scene_events : List (SceneEvent (Value P)) → Scenery P → Scenery P
  unfolding scene_event
  scene_events [] m = m
  scene_events (e ∷ events) m = scene_events events (scene_event e m)

  -- The numbers that the scene shows are those of the rows.
  pub record Shows (m : Scenery P) : Type 0 where
    pub devices : device_count P m ≡ length m.source
    pub critical : critical_devices P m ≡ count_critical m.source

  -- The scene is about to be rebuilt, or shows the rows.
  abbrev IsFresh : Scenery P → Type 0
  IsFresh m = m.timer ≡ false → Shows m

  count_placed-count_where :
      (devices : List (PlacedDevice (Value P) (Length P)))
      → count_placed P devices ≡ count_where (λ d. d.critical) devices
  unfolding count_placed
  count_placed-count_where [] = refl
  count_placed-count_where (d ∷ devices) =
      ap (◌+◌ (if d.critical then 1 else 0)) (count_placed-count_where devices)

  critical_rows :
      (rows : List (DeviceState (Value P)))
      → count_where (λ d. d.critical) (map plant_device rows) ≡ count_critical rows
  unfolding plant_device count_critical
  critical_rows [] = refl
  critical_rows (d ∷ rows) = elim (Bool-cases (text_eq d.status (lit "critical"))) [
    | inl e ↦ rw (count_critical, e) (omega (arith, critical_rows rows))
    | inr e ↦ rw (count_critical, e) (omega (arith, critical_rows rows))
  ]

  schedule-timer : (m : Scenery P) → (schedule P m).timer ≡ true
  unfolding schedule
  schedule-timer m = ground arith

  timeout_on :
      (m : Scenery P)
      → m.timer ≡ true
      → (timeout P m).0 ≡ (rebuild P (record m { timer = false })).0
  unfolding timeout
  timeout_on m e =
      subst
        (λ b.
          (if b then rebuild P (record m { timer = false }) else (m, [])).0
          ≡ (rebuild P (record m { timer = false })).0)
        (sym e) refl

  timeout_off : (m : Scenery P) → m.timer ≡ false → (timeout P m).0 ≡ m
  unfolding timeout
  timeout_off m e =
      subst (λ b. (if b then rebuild P (record m { timer = false }) else (m, [])).0 ≡ m) (sym e)
        refl

  module _ (laws : SortLaws P) where
    rebuild-Shows : (m : Scenery P) → Shows (rebuild P m).0
    unfolding rebuild device_count critical_devices
    rebuild-Shows m = record {
      devices =
          sym (count_where-true _)
          ∙ (layout_complete P laws (λ d. true) (map plant_device m.source) m.layout).0
          ∙ count_where-true (map plant_device m.source)
          ∙ length-map m.source plant_device;
      critical =
          count_placed-count_where _
          ∙ (layout_complete P laws (λ d. d.critical) (map plant_device m.source) m.layout).0
          ∙ critical_rows m.source;
    }

    scene_event-IsFresh :
        (e : SceneEvent (Value P)) (m : Scenery P) → IsFresh m → IsFresh (scene_event e m)
    unfolding scene_event set_source rows_changed
    scene_event-IsFresh (sets_source rows) m h = λ t. rebuild-Shows (record m { source = rows })
    scene_event-IsFresh (changes_rows rows) m h =
        λ t. absurd (on_or_off (schedule-timer (record m { source = rows })) t)
    scene_event-IsFresh times_out m h = elim (Bool-cases m.timer) [
      | inl e ↦
          subst IsFresh (sym (timeout_on m e)) (λ t. rebuild-Shows (record m { timer = false }))
      | inr e ↦ subst IsFresh (sym (timeout_off m e)) h
    ]

    scene_events-IsFresh :
        (events : List (SceneEvent (Value P))) (m : Scenery P)
        → IsFresh m
        → IsFresh (scene_events events m)
    unfolding scene_events
    scene_events-IsFresh [] m h = h
    scene_events-IsFresh (e ∷ events) m h =
        scene_events-IsFresh events (scene_event e m) (scene_event-IsFresh e m h)

    scene_model-Shows : Shows (scene_model P)
    unfolding device_count critical_devices count_placed count_critical
    scene_model-Shows = record { devices = refl; critical = refl }

    -- After any changes of the source and its rows, a scene for which no rebuild is waiting counts
    -- as many devices as the source has rows, and as many critical ones as the source has critical
    -- rows.
    pub scene_events-Shows :
        (events : List (SceneEvent (Value P)))
        → (scene_events events (scene_model P)).timer ≡ false
        → Shows (scene_events events (scene_model P))
    scene_events-Shows events = scene_events-IsFresh events (scene_model P) (λ t. scene_model-Shows)
