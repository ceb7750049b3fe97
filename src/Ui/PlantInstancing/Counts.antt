-- ===== src/Ui/PlantInstancing/Counts.antt =====
-- How many instances are drawn.
use forge_sight.Prelude.{
  ◌≡◌, refl, ap, ◌∙◌, inl, inr, ℕ, ◌+◌, Bool, true, false, not, ◌||◌, Option, none, some, List, [],
  ◌∷◌, lit, text_eq, text_eq_iff, length, length-append, Bool-cases, arith, if◌then◌else◌,
}
use forge_sight.Ui.PlantLayout.{Platform, Length}
use forge_sight.Ui.PlantLayout.SortLaws.{count_where}
use forge_sight.Ui.PlantInstancing.{
  append, Graphics, Instancing, Device, Scenes, beacon, entry_of, fill, is_selected,
  get_instance_buffer,
}

module _ (P : Platform) (G : Graphics (Length P)) where
  open G use {Colour, Entry}

  -- The devices that have an instance: in the mode "beacons" the critical and the selected ones.
  unfoldable pub is_drawn : Instancing P G → Device P G → Bool
  is_drawn m d = not (text_eq m.mode (lit "beacons")) || (d.critical || is_selected P G m d)

  data Drawn (drawn : Bool) (e : Option Entry) : Type 0 where
    left_out : drawn ≡ false → e ≡ none → Drawn drawn e
    put_in : (entry : Entry) → drawn ≡ true → e ≡ some entry → Drawn drawn e

  two_modes :
      (m : Instancing P G)
      → text_eq m.mode (lit "pillars") ≡ true
      → text_eq m.mode (lit "beacons") ≡ false
  unfolding text_eq
  two_modes m e = ap (λ t. text_eq t (lit "beacons")) ((text_eq_iff m.mode (lit "pillars")).0 e)

  beacon-Drawn :
      (m : Instancing P G) (d : Device P G)
      → Drawn (d.critical || is_selected P G m d) (beacon P G m d)
  unfolding beacon
  beacon-Drawn m d = elim (Bool-cases d.critical) [
    | inl c ↦ rw c (put_in _ refl refl)
    | inr c ↦ elim (Bool-cases (is_selected P G m d)) [
      | inl s ↦ rw (c, s) (put_in _ refl refl)
      | inr s ↦ rw (c, s) (left_out refl refl)
    ]
  ]

  entry_of-Drawn : (m : Instancing P G) (d : Device P G) → Drawn (is_drawn m d) (entry_of P G m d)
  unfolding entry_of is_drawn
  entry_of-Drawn m d = elim (Bool-cases (text_eq m.mode (lit "pillars"))) [
    | inl e ↦ rw (e, two_modes m e) (put_in _ refl refl)
    | inr e ↦ elim (Bool-cases (text_eq m.mode (lit "beacons"))) [
      | inl f ↦ rw (e, f) (beacon-Drawn m d)
      | inr f ↦ rw (e, f) (put_in _ refl refl)
    ]
  ]

  append-Drawn :
      {drawn : Bool} (e : Option Entry) (b : List Entry × ℕ)
      → Drawn drawn e
      → ((append P G e b).1 ≡ (if drawn then 1 else 0) + b.1)
        × (length (append P G e b).0 ≡ (if drawn then 1 else 0) + length b.0)
  append-Drawn e b (left_out f g) = rw (f, g) (omega arith, omega arith)
  append-Drawn e b (put_in entry f g) =
      rw (f, g) (omega arith, length-append b.0 (entry ∷ []) ∙ ground arith)

  fill-count_where :
      (m : Instancing P G) (devices : List (Device P G)) (b : List Entry × ℕ)
      → ((fill P G m devices b).1 ≡ count_where (is_drawn m) devices + b.1)
        × (length (fill P G m devices b).0 ≡ count_where (is_drawn m) devices + length b.0)
  unfolding fill
  fill-count_where m [] b = (omega arith, omega arith)
  fill-count_where m (d ∷ devices) b =
      let step = append-Drawn (entry_of P G m d) b (entry_of-Drawn m d) in
      let rest = fill-count_where m devices (append P G (entry_of P G m d) b) in
      (omega (arith, step.0, rest.0), omega (arith, step.1, rest.1))

  get_instance_buffer-fill :
      (scenes : Scenes P G) (m : Instancing P G) (model : ℕ)
      → m.scene ≡ some model
      → get_instance_buffer P G scenes m ≡ fill P G m (scenes model) ([], 0)
  unfolding get_instance_buffer
  get_instance_buffer-fill scenes m model e =
      let buffer_at : Option ℕ → List Entry × ℕ =
        λ o. elim o [ none ↦ ([], 0) | some k ↦ fill P G m (scenes k) ([], 0) ] in
      ap buffer_at e

  -- For a scene that is set, the count that is handed to the renderer is the number of entries of the
  -- buffer, and there is one for each device, in the mode "beacons" for each critical or selected one.
  pub get_instance_buffer-length :
      (scenes : Scenes P G) (m : Instancing P G) (model : ℕ)
      → m.scene ≡ some model
      → let b = get_instance_buffer P G scenes m in
        (b.1 ≡ length b.0) × (b.1 ≡ count_where (is_drawn m) (scenes model))
  get_instance_buffer-length scenes m model e =
      let filled = fill-count_where m (scenes model) ([], 0) in
      let made = get_instance_buffer-fill scenes m model e in
      let count = ap (λ b. b.1) made in
      let size = ap (λ b. length b.0) made in
      (omega (arith, filled.0, filled.1, count, size), omega (arith, filled.0, count))
