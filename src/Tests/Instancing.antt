-- ===== src/Tests/Instancing.antt =====
-- The instances of the plant view.
use forge_sight.Prelude.{
  ◌≡◌, refl, ℕ, Bool, true, false, some, List, [], ◌∷◌, Text, lit, text_eq, length, ◌==◌,
}
use forge_sight.Ui.PlantLayout.SortLaws.{count_where}
use forge_sight.Ui.PlantInstancing.{
  Graphics, Instancing, Device, Scenes, plant_instancing, set_pulse, set_rise, scene_rebuilt,
  same_scene, get_instance_buffer,
}
use forge_sight.Ui.PlantInstancing.Unmarked.{
  sets_pulse, sets_rise, rebuilds, Event, marks, instancing_event, instancing_events,
  unmarked-buffer,
}
use forge_sight.Ui.PlantInstancing.Counts.{is_drawn, get_instance_buffer-length}
use forge_sight.Tests.Plant.{platform}

-- A colour is its alpha, an entry the height of its position.
abbrev graphics : Graphics ℕ
graphics = record {
  Colour = ℕ;
  Entry = ℕ;
  red = λ c. c;
  green = λ c. c;
  blue = λ c. c;
  alpha = λ c. c;
  from_rgb = λ r g b a. a;
  set_alpha = λ a c. a;
  named = length;
  fuzzy_compare = ◌==◌;
  table_entry = λ position scale rotation c. position.y;
}

abbrev drawn_device : Text → Bool → Device platform graphics
drawn_device name critical = record {
  device_id = name;
  sensor = lit "t";
  plant = lit "A";
  floor = lit "1";
  value = 3;
  x = 1;
  z = 2;
  height = 4;
  critical = critical;
  zone = 0;
}

abbrev two_scenes : Scenes platform graphics
two_scenes k = drawn_device (lit "pump") false ∷ drawn_device (lit "fan") true ∷ []

abbrev pillars : Instancing platform graphics
pillars = record (plant_instancing platform graphics) { scene = some 1 }

abbrev calm : List (Event platform graphics)
calm = sets_pulse 5 ∷ rebuilds 2 [] ∷ sets_rise 10 ∷ sets_pulse 6 ∷ []

calm_quiet : (instancing_events platform graphics calm (two_scenes, pillars)).1 ≡ false
unfolding instancing_events instancing_event set_pulse set_rise scene_rebuilt same_scene marks
    text_eq
calm_quiet = refl

unmarked-buffer_example :
    let after = (instancing_events platform graphics calm (two_scenes, pillars)).0 in
    get_instance_buffer platform graphics after.0 after.1
    ≡ get_instance_buffer platform graphics two_scenes pillars
unmarked-buffer_example = unmarked-buffer platform graphics calm (two_scenes, pillars) calm_quiet

abbrev beacons : Instancing platform graphics
beacons = record pillars { mode = lit "beacons" }

get_instance_buffer-length_example :
    let b = get_instance_buffer platform graphics two_scenes beacons in
    (b.1 ≡ length b.0) × (b.1 ≡ count_where (is_drawn platform graphics beacons) (two_scenes 1))
get_instance_buffer-length_example =
    get_instance_buffer-length platform graphics two_scenes beacons 1 refl
