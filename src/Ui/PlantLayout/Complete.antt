-- ===== src/Ui/PlantLayout/Complete.antt =====
-- Nothing is lost and nothing doubled in a layout.
use forge_sight.Prelude.{
  ◌≡◌, refl, sym, ap, ◌∙◌, ℕ, ◌+◌, Bool, true, List, [], ◌∷◌, map, length, arith, if◌then◌else◌,
}
use forge_sight.Ui.PlantLayout.{
  PlantDevice, PlacedDevice, PlantZone, PlantLayout, Platform, Value, Length,
}
use forge_sight.Ui.PlantLayout.Groups.{group_devices}
use forge_sight.Ui.PlantLayout.Scene.{centre, shift_device, shift_zone, layout}
use forge_sight.Ui.PlantLayout.SortLaws.{SortLaws, count_where}
use forge_sight.Ui.PlantLayout.Tally.{device_of, sum_of, total-group_devices, placed_total}
use forge_sight.Ui.PlantLayout.Loops.{Counts, placed_total-place_plants, sum_of-place_plants}

pub count_where-true {ℓ} : {A : Type ℓ} (xs : List A) → count_where (λ x. true) xs ≡ length xs
count_where-true [] = refl
count_where-true (x ∷ xs) = omega (arith, count_where-true xs)

module _ (P : Platform) where
  placed_total-shift :
      (test : PlantDevice (Value P) → Bool) (cx cz : Length P)
      (devices : List (PlacedDevice (Value P) (Length P)))
      → placed_total P test (map (shift_device P cx cz) devices) ≡ placed_total P test devices
  placed_total-shift test cx cz [] = refl
  placed_total-shift test cx cz (d ∷ devices) =
      ap (◌+◌ (if test (device_of d) then 1 else 0)) (placed_total-shift test cx cz devices)

  sum_of-shift :
      (measure : PlantZone (Length P) → ℕ) (cx cz : Length P)
      → ((z : PlantZone (Length P)) → measure (shift_zone P cx cz z) ≡ measure z)
      → (zones : List (PlantZone (Length P)))
      → sum_of measure (map (shift_zone P cx cz) zones) ≡ sum_of measure zones
  sum_of-shift measure cx cz h [] = refl
  sum_of-shift measure cx cz h (z ∷ zones) = omega (arith, h z, sum_of-shift measure cx cz h zones)

  module _ (laws : SortLaws P) where
    placed_total-layout :
        (test : PlantDevice (Value P) → Bool) (input : List (PlantDevice (Value P)))
        (l : PlantLayout (Value P) (Length P))
        → placed_total P test (layout P input l).0.devices ≡ count_where test input
    unfolding layout centre
    placed_total-layout test [] l = refl
    placed_total-layout test (d ∷ input) l =
        placed_total-shift test _ _ _
        ∙ placed_total-place_plants P test laws _ (group_devices P (d ∷ input) []) _
        ∙ omega (arith, total-group_devices P test (d ∷ input) [])

    sum_of-layout :
        (measure : PlantZone (Length P) → ℕ) (test : PlantDevice (Value P) → Bool)
        → Counts P test laws measure
        → ((cx cz : Length P) (z : PlantZone (Length P))
            → measure (shift_zone P cx cz z) ≡ measure z)
        → (input : List (PlantDevice (Value P))) (l : PlantLayout (Value P) (Length P))
        → sum_of measure (layout P input l).0.zones ≡ count_where test input
    unfolding layout centre
    sum_of-layout measure test fits h [] l = refl
    sum_of-layout measure test fits h (d ∷ input) l =
        sum_of-shift measure _ _ (h _ _) _
        ∙ sum_of-place_plants P test laws measure fits _ (group_devices P (d ∷ input) []) _
        ∙ omega (arith, total-group_devices P test (d ∷ input) [])

    -- However devices are told apart, by their names, their place, their value or whether they are
    -- critical, a scene holds as many of a kind as the input; the counts of its zones sum up to the
    -- number of devices, and their critical counts to the number of critical devices.
    pub layout_complete :
        (test : PlantDevice (Value P) → Bool) (input : List (PlantDevice (Value P)))
        (l : PlantLayout (Value P) (Length P))
        → let scene = (layout P input l).0 in
          (count_where (λ (d : PlacedDevice (Value P) (Length P)). test (device_of d)) scene.devices
            ≡ count_where test input)
          × (sum_of (λ (z : PlantZone (Length P)). z.count) scene.zones ≡ length input)
          × (sum_of (λ (z : PlantZone (Length P)). z.critical) scene.zones
              ≡ count_where (λ d. d.critical) input)
    layout_complete test input l = (
      placed_total-layout test input l,
      sum_of-layout (λ z. z.count) (λ d. true) (λ z devices e c. e ∙ sym (count_where-true devices))
            (λ cx cz z. refl) input l
          ∙ count_where-true input,
      sum_of-layout (λ z. z.critical) (λ d. d.critical) (λ z devices e c. c) (λ cx cz z. refl) input
          l,
    )
