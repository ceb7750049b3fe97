-- ===== src/Ui/PlantInstancing/Unmarked.antt =====
-- What is drawn changes only where markDirty is called, and how much is drawn.
use forge_sight.Prelude.{
  ◌≡◌, refl, ap, ◌∙◌, inl, inr, ℕ, Bool, true, false, ◌||◌, Option, none, some, List, [], ◌∷◌, ◌++◌,
  Text, lit, text_eq, ◌==◌, Bool-cases, arith, if◌then◌else◌,
}
use forge_sight.Ui.PlantLayout.{Platform, Length}
use forge_sight.Ui.PlantInstancing.{
  append, Graphics, Style, InstancingSignal, marked_dirty, Instancing, Device, Scenes, set_scene,
  set_mode, set_pulse, set_rise, style_changed, scene_rebuilt, same_scene, pillar, beacon, pad,
  entry_of, fill, is_selected, get_instance_buffer,
}

unfoldable pub marks : List InstancingSignal → Bool
marks [] = false
marks (marked_dirty ∷ signals) = true
marks (s ∷ signals) = marks signals

-- What happens to the instancing and to the scenes.
pub data InstancingEvent (R C D : Type 0) : Type 0 where
  sets_scene : Option ℕ → InstancingEvent R C D
  sets_mode : Text → InstancingEvent R C D
  sets_pulse sets_rise : R → InstancingEvent R C D
  restyles : Style R C → InstancingEvent R C D
  rebuilds : ℕ → List D → InstancingEvent R C D

-- The scene `model` gets other devices.
unfoldable pub updated : {A : Type 0} → (ℕ → A) → ℕ → A → ℕ → A
updated f model value k = if k == model then value else f k

module _ (P : Platform) (G : Graphics (Length P)) where
  open G use {Colour, Entry}

  abbrev pub Event : Type 0
  Event = InstancingEvent (Length P) Colour (Device P G)

  abbrev pub Shown : Type 0
  Shown = Scenes P G × Instancing P G

  unfoldable pub instancing_event : Event → Shown → Shown × Bool
  unfolding set_scene set_mode set_pulse set_rise style_changed scene_rebuilt marks
  instancing_event (sets_scene model) w = let r = set_scene P G model w.1 in ((w.0, r.0), marks r.1)
  instancing_event (sets_mode mode) w = let r = set_mode P G mode w.1 in ((w.0, r.0), marks r.1)
  instancing_event (sets_pulse pulse) w = let r = set_pulse P G pulse w.1 in ((w.0, r.0), marks r.1)
  instancing_event (sets_rise rise) w = let r = set_rise P G rise w.1 in ((w.0, r.0), marks r.1)
  instancing_event (restyles style) w =
      let r = style_changed P G style w.1 in ((w.0, r.0), marks r.1)
  instancing_event (rebuilds model devices) w =
      let r = scene_rebuilt P G model w.1 in ((updated w.0 model devices, r.0), marks r.1)

  -- The events, and whether one of them marks the buffer.
  unfoldable pub instancing_events : List Event → Shown → Shown × Bool
  unfolding instancing_event
  instancing_events [] w = (w, false)
  instancing_events (e ∷ events) w =
      let first = instancing_event e w in
      let others = instancing_events events first.0 in (others.0, first.1 || others.1)

  abbrev buffer : Shown → List Entry × ℕ
  buffer w = get_instance_buffer P G w.0 w.1

  fill-entry_of :
      (m n : Instancing P G) (devices : List (Device P G)) (b : List Entry × ℕ)
      → ((d : Device P G) → entry_of P G m d ≡ entry_of P G n d)
      → fill P G m devices b ≡ fill P G n devices b
  unfolding fill
  fill-entry_of m n [] b h = refl
  fill-entry_of m n (d ∷ devices) b h =
      ap (λ e. fill P G m devices (append P G e b)) (h d)
      ∙ fill-entry_of m n devices (append P G (entry_of P G n d) b) h

  buffer-entry_of :
      (scenes : Scenes P G) (m n : Instancing P G) (scene : Option ℕ)
      → m.scene ≡ scene
      → n.scene ≡ scene
      → ((d : Device P G) → entry_of P G m d ≡ entry_of P G n d)
      → buffer (scenes, m) ≡ buffer (scenes, n)
  unfolding get_instance_buffer
  buffer-entry_of scenes m n none e f h = rw (e, f) refl
  buffer-entry_of scenes m n (some k) e f h = rw (e, f) (fill-entry_of m n (scenes k) ([], 0) h)

  pulse_unseen :
      (pulse : Length P) (m : Instancing P G) (d : Device P G)
      → text_eq m.mode (lit "beacons") ≡ false
      → entry_of P G (record m { pulse = pulse }) d ≡ entry_of P G m d
  unfolding entry_of pillar beacon pad is_selected
  pulse_unseen pulse m d off = rw off refl

  rise_unseen :
      (rise : Length P) (m : Instancing P G) (d : Device P G)
      → text_eq m.mode (lit "pillars") ≡ false
      → entry_of P G (record m { rise = rise }) d ≡ entry_of P G m d
  unfolding entry_of pillar beacon pad is_selected
  rise_unseen rise m d off = rw off refl

  other_scene :
      (scenes : Scenes P G) (model : ℕ) (devices : List (Device P G)) (m : Instancing P G)
      (scene : Option ℕ)
      → m.scene ≡ scene
      → same_scene (some model) scene ≡ false
      → buffer (updated scenes model devices, m) ≡ buffer (scenes, m)
  unfolding get_instance_buffer same_scene updated
  other_scene scenes model devices m none e off = rw e refl
  other_scene scenes model devices m (some k) e off =
      let miss : (k == model) ≡ false = ground arith in rw (e, miss) refl

  guarded :
      (t : Bool) (scenes : Scenes P G) (m changed : Instancing P G)
      (signals : List InstancingSignal)
      → (marks signals ≡ false → buffer (scenes, changed) ≡ buffer (scenes, m))
      → let r : Instancing P G × List InstancingSignal =
          if t then (m, []) else (changed, signals) in
        marks r.1 ≡ false → buffer (scenes, r.0) ≡ buffer (scenes, m)
  unfolding marks
  guarded true scenes m changed signals h quiet = refl
  guarded false scenes m changed signals h quiet = h quiet

  unmarked_mode :
      (b : Bool) (s : InstancingSignal)
      → marks ((if b then marked_dirty ∷ [] else []) ++ (s ∷ [])) ≡ false
      → b ≡ false
  unfolding marks
  unmarked_mode b s h = ground arith

  instancing_event-buffer :
      (e : Event) (w : Shown)
      → (instancing_event e w).1 ≡ false
      → buffer (instancing_event e w).0 ≡ buffer w
  unfolding instancing_event set_scene set_mode set_pulse set_rise style_changed scene_rebuilt marks
  instancing_event-buffer (sets_scene model) w h =
      guarded (same_scene model w.1.scene) w.0 w.1 _ _ (λ quiet. absurd (ground arith)) h
  instancing_event-buffer (sets_mode mode) w h =
      guarded (text_eq mode w.1.mode) w.0 w.1 _ _ (λ quiet. absurd (ground arith)) h
  instancing_event-buffer (sets_pulse pulse) w h =
      guarded (G.fuzzy_compare pulse w.1.pulse) w.0 w.1 _ _
        (λ quiet.
          buffer-entry_of w.0 _ w.1 w.1.scene refl refl
            (λ d. pulse_unseen pulse w.1 d (unmarked_mode _ _ quiet)))
        h
  instancing_event-buffer (sets_rise rise) w h =
      guarded (G.fuzzy_compare rise w.1.rise) w.0 w.1 _ _
        (λ quiet.
          buffer-entry_of w.0 _ w.1 w.1.scene refl refl
            (λ d. rise_unseen rise w.1 d (unmarked_mode _ _ quiet)))
        h
  instancing_event-buffer (restyles style) w h = absurd (ground arith)
  instancing_event-buffer (rebuilds model devices) w h =
      other_scene w.0 model devices w.1 w.1.scene refl
        (elim (Bool-cases (same_scene (some model) w.1.scene)) [
          | inl e ↦ absurd (ground (arith, h, e))
          | inr e ↦ e
        ])

  -- If none of any changes of the mode, the pulse, the rise, the style, the scene and the devices of
  -- the scenes marks the instancing as dirty, then the instance buffer and the count of instances are
  -- those of before.
  pub unmarked-buffer :
      (events : List Event) (w : Shown)
      → (instancing_events events w).1 ≡ false
      → let after = (instancing_events events w).0 in
        get_instance_buffer P G after.0 after.1 ≡ get_instance_buffer P G w.0 w.1
  unfolding instancing_events
  unmarked-buffer [] w h = refl
  unmarked-buffer (e ∷ events) w h =
      let first = instancing_event e w in
      unmarked-buffer events first.0 (ground arith) ∙ instancing_event-buffer e w (ground arith)
