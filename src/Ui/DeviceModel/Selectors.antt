-- ===== src/Ui/DeviceModel/Selectors.antt =====
-- What the lists of plants and floors hold.
use forge_sight.Prelude.{
  ◌≡◌, refl, sym, ap, ◌∙◌, inl, inr, ℕ, ◌+◌, Bool, true, false, not, ◌||◌, List, [], ◌∷◌, ◌++◌,
  Text, text_eq, text_eq_iff, text_eq_refl, Bool-cases, is_empty, arith, if◌then◌else◌,
}
use forge_sight.Ui.DeviceModel.{DeviceState, devices_for}
use forge_sight.Ui.DeviceModel.Places.{contains, collect_plants, collect_floors, plants, floors}

abbrev pub once : Bool → ℕ
once true = 1
once false = 0

-- How often a name stands in a list.
abbrev pub occurrences : Text → List Text → ℕ
occurrences t [] = 0
occurrences t (s ∷ names) = once (text_eq s t) + occurrences t names

-- What is relied on in std::sort: it permutes the list.
pub record SortLaws (sort : List Text → List Text) : Type 0 where
  pub permutes : (t : Text) (names : List Text) → occurrences t (sort names) ≡ occurrences t names

-- A step of the loop, for a name and the list so far.
add_once : Text → List Text → List Text
add_once s result = if not (contains s result) then result ++ (s ∷ []) else result

-- The names of a list after those of another, each once.
gather : List Text → List Text → List Text
gather [] result = result
gather (s ∷ names) result = gather names (add_once s result)

occurrences-append :
    (t s : Text) (names : List Text)
    → occurrences t (names ++ (s ∷ [])) ≡ occurrences t names + once (text_eq s t)
occurrences-append t s [] = omega arith
occurrences-append t s (n ∷ names) = omega (arith, occurrences-append t s names)

contains-append :
    (t s : Text) (names : List Text)
    → contains t (names ++ (s ∷ [])) ≡ (contains t names || text_eq s t)
unfolding contains
contains-append t s [] = ground arith
contains-append t s (n ∷ names) = ground (arith, contains-append t s names)

or_assoc : (a b c : Bool) → ((a || b) || c) ≡ (a || (b || c))
or_assoc true b c = refl
or_assoc false b c = refl

same_name :
    (s t : Text) (names : List Text) → text_eq s t ≡ true → contains s names ≡ contains t names
same_name s t names e = ap (λ n. contains n names) ((text_eq_iff s t).0 e)

contains-add_once :
    (t s : Text) (result : List Text)
    → contains t (add_once s result) ≡ (contains t result || text_eq s t)
unfolding add_once
contains-add_once t s result = elim (Bool-cases (contains s result)) [
  | inr e ↦ rw e (contains-append t s result)
  | inl e ↦ elim (Bool-cases (text_eq s t)) [
    | inl f ↦ ground (arith, e, f, same_name s t result f)
    | inr f ↦ ground (arith, e, f)
  ]
]

occurrences-add_once :
    (t s : Text) (result : List Text)
    → occurrences t result ≡ once (contains t result)
    → occurrences t (add_once s result) ≡ once (contains t (add_once s result))
unfolding add_once
occurrences-add_once t s result h = elim (Bool-cases (contains s result)) [
  | inl e ↦ rw e h
  | inr e ↦ elim (Bool-cases (text_eq s t)) [
    | inl f ↦
        rw (add_once, e)
          (ground (
            arith,
            h,
            e,
            f,
            same_name s t result f,
            occurrences-append t s result,
            contains-append t s result,
          ))
    | inr f ↦
        rw (add_once, e)
          (ground (arith, h, e, f, occurrences-append t s result, contains-append t s result))
  ]
]

occurrences-gather :
    (t : Text) (names result : List Text)
    → occurrences t result ≡ once (contains t result)
    → occurrences t (gather names result) ≡ once (contains t result || contains t names)
unfolding gather contains
occurrences-gather t [] result h = ground (arith, h)
occurrences-gather t (s ∷ names) result h =
    occurrences-gather t names (add_once s result) (occurrences-add_once t s result h)
    ∙ ap (λ b. once (b || contains t names)) (contains-add_once t s result)
    ∙ ap once (or_assoc (contains t result) (text_eq s t) (contains t names))

-- Lists of which one holds each name once that the other holds are both empty or both not.
is_empty_like :
    (xs ys : List Text)
    → ((t : Text) → occurrences t xs ≡ once (contains t ys))
    → is_empty xs ≡ is_empty ys
unfolding contains
is_empty_like [] [] h = refl
is_empty_like [] (y ∷ ys) h = absurd (ground (arith, h y, text_eq_refl y))
is_empty_like (x ∷ xs) [] h = absurd (ground (arith, h x, text_eq_refl x))
is_empty_like (x ∷ xs) (y ∷ ys) h = refl

module _ {D : Type 0} where
  plant_names : List (DeviceState D) → List Text
  plant_names [] = []
  plant_names (d ∷ devices) = d.plant ∷ plant_names devices

  floor_names : Text → List (DeviceState D) → List Text
  floor_names plant [] = []
  floor_names plant (d ∷ devices) =
      let rest = floor_names plant devices in if text_eq d.plant plant then d.floor ∷ rest else rest

  collect_plants-gather :
      (devices : List (DeviceState D)) (result : List Text)
      → collect_plants devices result ≡ gather (plant_names devices) result
  unfolding collect_plants plant_names gather add_once
  collect_plants-gather [] result = refl
  collect_plants-gather (d ∷ devices) result = collect_plants-gather devices _

  collect_floors-gather :
      (plant : Text) (devices : List (DeviceState D)) (result : List Text)
      → collect_floors plant devices result ≡ gather (floor_names plant devices) result
  unfolding collect_floors floor_names gather add_once
  collect_floors-gather plant [] result = refl
  collect_floors-gather plant (d ∷ devices) result = elim (Bool-cases (text_eq d.plant plant)) [
    | inl e ↦ rw (collect_floors, floor_names, e) (collect_floors-gather plant devices _)
    | inr e ↦ rw (collect_floors, floor_names, e) (collect_floors-gather plant devices _)
  ]

  contains-floor_names :
      (plant floor : Text) (devices : List (DeviceState D))
      → contains floor (floor_names plant devices)
        ≡ not (is_empty (devices_for plant floor devices))
  unfolding contains floor_names devices_for
  contains-floor_names plant floor [] = refl
  contains-floor_names plant floor (d ∷ devices) = elim (Bool-cases (text_eq d.plant plant)) [
    | inr e ↦ rw e (contains-floor_names plant floor devices)
    | inl e ↦ elim (Bool-cases (text_eq d.floor floor)) [
      | inl f ↦ rw (e, f) refl
      | inr f ↦ rw (e, f) (contains-floor_names plant floor devices)
    ]
  ]

  contains-plant_names :
      (plant : Text) (devices : List (DeviceState D))
      → contains plant (plant_names devices) ≡ not (is_empty (floor_names plant devices))
  unfolding contains plant_names floor_names
  contains-plant_names plant [] = refl
  contains-plant_names plant (d ∷ devices) = elim (Bool-cases (text_eq d.plant plant)) [
    | inl e ↦ rw e refl
    | inr e ↦ rw e (contains-plant_names plant devices)
  ]

  module _ (sort : List Text → List Text) (laws : SortLaws sort) where
    occurrences-floors :
        (plant floor : Text) (devices : List (DeviceState D))
        → occurrences floor (floors sort plant devices)
          ≡ once (contains floor (floor_names plant devices))
    unfolding floors contains
    occurrences-floors plant floor devices =
        laws.permutes floor _
        ∙ ap (occurrences floor) (collect_floors-gather plant devices [])
        ∙ occurrences-gather floor (floor_names plant devices) [] refl

    occurrences-plants :
        (plant : Text) (devices : List (DeviceState D))
        → occurrences plant (plants sort devices) ≡ once (contains plant (plant_names devices))
    unfolding plants contains
    occurrences-plants plant devices =
        laws.permutes plant _
        ∙ ap (occurrences plant) (collect_plants-gather devices [])
        ∙ occurrences-gather plant (plant_names devices) [] refl

    -- `floors` lists a floor of a plant once if `devicesFor` finds a device there, and not at all
    -- otherwise; `plants` lists a plant once if `floors` lists a floor of it, and not at all
    -- otherwise.
    pub plants_and_floors :
        (plant floor : Text) (devices : List (DeviceState D))
        → (occurrences floor (floors sort plant devices)
            ≡ once (not (is_empty (devices_for plant floor devices))))
          × (occurrences plant (plants sort devices)
              ≡ once (not (is_empty (floors sort plant devices))))
    plants_and_floors plant floor devices = (
      occurrences-floors plant floor devices ∙ ap once (contains-floor_names plant floor devices),
      occurrences-plants plant devices
          ∙ ap once (contains-plant_names plant devices)
          ∙ ap (λ b. once (not b))
              (sym (
                is_empty_like (floors sort plant devices) (floor_names plant devices)
                  (λ t. occurrences-floors plant t devices))),
    )
