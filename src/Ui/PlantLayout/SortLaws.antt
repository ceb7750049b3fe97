-- ===== src/Ui/PlantLayout/SortLaws.antt =====
-- What the layout relies on in std::sort.
use forge_sight.Prelude.{◌≡◌, ℕ, ◌+◌, Bool, List, [], ◌∷◌, map, if◌then◌else◌}
use forge_sight.Ui.PlantLayout.{PlantDevice, Platform, Value}

abbrev pub count_where {ℓ} : {A : Type ℓ} → (A → Bool) → List A → ℕ
count_where test [] = 0
count_where test (x ∷ xs) = (if test x then 1 else 0) + count_where test xs

-- It permutes the list, and moves elements by the answers of the comparison alone.
pub record SortLaws (P : Platform) : Type 0 where
  pub permutes :
      (less : PlantDevice (Value P) → PlantDevice (Value P) → Bool)
      (test : PlantDevice (Value P) → Bool) (devices : List (PlantDevice (Value P)))
      → count_where test (P.sort less devices) ≡ count_where test devices
  pub follows :
      (less : PlantDevice (Value P) → PlantDevice (Value P) → Bool)
      (f : PlantDevice (Value P) → PlantDevice (Value P))
      → ((a b : PlantDevice (Value P)) → less (f a) (f b) ≡ less a b)
      → (devices : List (PlantDevice (Value P)))
      → P.sort less (map f devices) ≡ map f (P.sort less devices)
