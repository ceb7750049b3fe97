-- ===== src/Ui/PlantLayout.antt =====
-- ui/include/ui/plant_layout.h and ui/src/plant_layout.cpp. A QMap is the list of its keys and values
-- in order of the keys, the hash of ranges a function. `text_lt` is QString's operator <, `sort` is
-- std::sort, `double` and `single` are the two floating-point types.
pub mod Groups
pub mod Placing
pub mod Scene
pub mod SortLaws
pub mod Unmoved
pub mod Stands
pub mod Steady
pub mod Tally
pub mod Loops
pub mod Complete
use forge_sight.Prelude.{
  ℕ, zero, suc, ◌+◌, ◌-◌, ◌/◌, ◌%◌, ◌^◌, ltb, Bool, true, false, not, Option, none, some, List, [],
  ◌∷◌, ◌++◌, map, Text, text_eq, length, Arithmetic, fmin, fmax, fclamp, if◌then◌else◌,
}

pub record PlantDevice (D : Type 0) : Type 0 where
  pub device_id : Text
  pub sensor : Text
  pub plant : Text
  pub floor : Text
  pub value : D
  pub critical : Bool

pub record PlacedDevice (D R : Type 0) : Type 0 where
  pub device_id : Text
  pub sensor : Text
  pub plant : Text
  pub floor : Text
  pub value : D
  pub x : R
  pub z : R
  pub height : R
  pub critical : Bool
  pub zone : ℕ

pub record PlantZone (R : Type 0) : Type 0 where
  pub plant : Text
  pub floor : Text
  pub x : R
  pub z : R
  pub width : R
  pub depth : R
  pub count : ℕ
  pub critical : ℕ

pub record PlantScene (D R : Type 0) : Type 0 where
  pub devices : List (PlacedDevice D R)
  pub zones : List (PlantZone R)
  pub width : R
  pub depth : R

-- The member variables, with the greatest and the least value of each sensor so far.
pub record PlantLayout (D R : Type 0) : Type 0 where
  pub spacing : R
  pub zone_gap : R
  pub plant_gap : R
  pub max_columns : ℕ
  pub ranges : Text → Option (D × D)

-- What the layout calls of the libraries.
pub record Platform : Type 1 where
  pub double : Arithmetic
  pub single : Arithmetic
  pub to_float : double.Num → single.Num
  pub sqrt : double.Num → double.Num
  pub ceil : double.Num → ℕ
  pub text_lt : Text → Text → Bool
  pub sort :
      (PlantDevice (double.Num) → PlantDevice (double.Num) → Bool)
      → List (PlantDevice (double.Num))
      → List (PlantDevice (double.Num))

module _ (P : Platform) where
  open P use {double, single}

  abbrev pub Value : Type 0
  Value = double.Num

  abbrev pub Length : Type 0
  Length = single.Num

  abbrev pub half : Length → Length
  half a = single.div a (single.dec 2 0)

  unfoldable pub plant_layout : PlantLayout Value Length
  plant_layout = record {
    spacing = single.dec 24 1;
    zone_gap = single.dec 3 0;
    plant_gap = single.dec 6 0;
    max_columns = 12;
    ranges = λ sensor. none;
  }

  -- The range of a sensor once a value is seen.
  abbrev widen : Value → Option (Value × Value) → Value × Value
  widen value none = (value, value)
  widen value (some (lo, hi)) = (fmin double lo value, fmax double hi value)

  unfoldable pub normalise :
      Text → Value → PlantLayout Value Length → Length × PlantLayout Value Length
  normalise sensor value l =
      let range = widen value (l.ranges sensor) in
      let span = double.sub range.1 range.0 in
      let t =
        if double.lt (double.dec 1 9) span
        then double.div (double.sub value range.0) span
        else double.dec 5 1 in
      let unit = fclamp double t (double.dec 0 0) (double.dec 1 0) in
      (
        P.to_float (double.add (double.dec 15 2) (double.mul (double.dec 85 2) unit)),
        record l { ranges = λ s. if text_eq s sensor then some range else l.ranges s },
      )
