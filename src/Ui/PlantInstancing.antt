-- ===== src/Ui/PlantInstancing.antt =====
-- ui/app/plant_instancing.h and ui/app/plant_instancing.cpp. A PlantSceneModel is its number in `Scenes`,
-- which holds the devices of each one's scene; `none` is the null pointer. markDirty is a signal. The
-- buffer is the list of its entries.
pub mod Unmarked
pub mod Counts
use forge_sight.Prelude.{
  ℕ, zero, suc, Bool, true, false, not, ◌&&◌, ◌||◌, Option, none, some, List, [], ◌∷◌, ◌++◌, Text,
  lit, text_eq, is_empty, ◌==◌, Arithmetic, fmax, if◌then◌else◌,
}
use forge_sight.Ui.PlantLayout.{PlacedDevice, Platform, Value, Length}

-- QVector3D.
pub record Vector (R : Type 0) : Type 0 where
  pub x : R
  pub y : R
  pub z : R

-- What is called of Qt: QColor, qFuzzyCompare and calculateTableEntry, which takes a position, a scale,
-- a rotation and a colour.
pub record Graphics (R : Type 0) : Type 1 where
  pub Colour : Type 0
  pub Entry : Type 0
  pub red : Colour → R
  pub green : Colour → R
  pub blue : Colour → R
  pub alpha : Colour → R
  pub from_rgb : R → R → R → R → Colour
  pub set_alpha : R → Colour → Colour
  pub named : Text → Colour
  pub fuzzy_compare : R → R → Bool
  pub table_entry : Vector R → Vector R → Vector R → Colour → Entry

-- The members with the signal styleChanged.
pub record Style (R C : Type 0) : Type 0 where
  pub height_scale : R
  pub low : C
  pub high : C
  pub critical : C
  pub selected_color : C
  pub selected_key : Text

pub record PlantInstancing (R C : Type 0) : Type 0 where
  pub scene : Option ℕ
  pub mode : Text
  pub pulse : R
  pub rise : R
  pub style : Style R C

pub data InstancingSignal : Type 0 where
  marked_dirty scene_changed mode_changed pulse_changed rise_changed : InstancingSignal

unfoldable pub same_scene : Option ℕ → Option ℕ → Bool
same_scene none none = true
same_scene (some a) (some b) = a == b
same_scene _ _ = false

module _ (P : Platform) (G : Graphics (Length P)) where
  open P.single use {add, sub, mul, div, dec, of_nat}
  open G use {Colour, Entry}

  abbrev pub Instancing : Type 0
  Instancing = PlantInstancing (Length P) Colour

  abbrev pub Device : Type 0
  Device = PlacedDevice (Value P) (Length P)

  abbrev pub Scenes : Type 0
  Scenes = ℕ → List Device

  abbrev pub plant_instancing : Instancing
  plant_instancing = record {
    scene = none;
    mode = lit "pillars";
    pulse = dec 0 1;
    rise = dec 10 1;
    style = record {
      height_scale = dec 70 1;
      low = G.named (lit "#2b3a58");
      high = G.named (lit "#5b8cff");
      critical = G.named (lit "#ff5d55");
      selected_color = G.named (lit "#ffffff");
      selected_key = [];
    };
  }

  abbrev k_mesh : Length P
  k_mesh = dec 1000 1

  abbrev k_pillar_width : Length P
  k_pillar_width = dec 125 2

  unfoldable pub mix : Colour → Colour → Length P → Colour
  mix a b t =
      let between : (Colour → Length P) → Length P =
        λ part. add (part a) (mul (sub (part b) (part a)) t) in
      G.from_rgb (between G.red) (between G.green) (between G.blue) (between G.alpha)

  unfoldable pub set_scene : Option ℕ → Instancing → Instancing × List InstancingSignal
  unfolding same_scene
  set_scene model m =
      if same_scene model m.scene
      then (m, [])
      else (record m { scene = model }, marked_dirty ∷ scene_changed ∷ [])

  unfoldable pub set_mode : Text → Instancing → Instancing × List InstancingSignal
  set_mode mode m =
      if text_eq mode m.mode
      then (m, [])
      else (record m { mode = mode }, marked_dirty ∷ mode_changed ∷ [])

  unfoldable pub set_pulse : Length P → Instancing → Instancing × List InstancingSignal
  set_pulse pulse m = if G.fuzzy_compare pulse m.pulse then (m, []) else (
    record m { pulse = pulse },
    (if text_eq m.mode (lit "beacons") then marked_dirty ∷ [] else []) ++ (pulse_changed ∷ []),
  )

  unfoldable pub set_rise : Length P → Instancing → Instancing × List InstancingSignal
  set_rise rise m = if G.fuzzy_compare rise m.rise then (m, []) else (
    record m { rise = rise },
    (if text_eq m.mode (lit "pillars") then marked_dirty ∷ [] else []) ++ (rise_changed ∷ []),
  )

  -- The slot of styleChanged, after a member got another value.
  unfoldable pub style_changed :
      Style (Length P) Colour → Instancing → Instancing × List InstancingSignal
  style_changed style m = (record m { style = style }, marked_dirty ∷ [])

  -- The slot of PlantSceneModel::sceneChanged, which is connected for the scene only.
  unfoldable pub scene_rebuilt : ℕ → Instancing → Instancing × List InstancingSignal
  unfolding same_scene
  scene_rebuilt model m = (m, if same_scene (some model) m.scene then marked_dirty ∷ [] else [])

  unfoldable pub is_selected : Instancing → Device → Bool
  is_selected m d =
      not (is_empty m.style.selected_key)
      && text_eq (d.device_id ++ (lit "|" ++ d.sensor)) m.style.selected_key

  abbrev no_rotation : Vector (Length P)
  no_rotation = record { x = dec 0 0; y = dec 0 0; z = dec 0 0 }

  unfoldable pub pillar : Instancing → Device → Entry
  unfolding mix is_selected
  pillar m d =
      let h = fmax P.single (dec 5 2) (mul (mul d.height m.style.height_scale) m.rise) in
      let plain = if d.critical then m.style.critical else mix m.style.low m.style.high d.height in
      let c = if is_selected m d then mix plain m.style.selected_color (dec 55 2) else plain in
      G.table_entry (record { x = d.x; y = div h (of_nat 2); z = d.z })
        (record { x = div k_pillar_width k_mesh; y = div h k_mesh; z = div k_pillar_width k_mesh })
        no_rotation c

  unfoldable pub beacon : Instancing → Device → Option Entry
  unfolding is_selected
  beacon m d =
      let selected = is_selected m d in
      let r =
        if selected && not d.critical then dec 20 1 else add (dec 14 1) (mul (dec 26 1) m.pulse) in
      let c = if d.critical then m.style.critical else m.style.selected_color in
      let a = if d.critical then mul (dec 85 2) (sub (dec 10 1) m.pulse) else dec 6 1 in
      if not d.critical && not selected
      then none
      else some (
          G.table_entry (record { x = d.x; y = dec 16 2; z = d.z })
            (record { x = div r k_mesh; y = div (dec 2 2) k_mesh; z = div r k_mesh }) no_rotation
            (G.set_alpha a c))

  unfoldable pub pad : Instancing → Device → Entry
  pad m d =
      let c = if d.critical then m.style.critical else m.style.high in
      G.table_entry (record { x = d.x; y = dec 14 2; z = d.z })
        (record { x = div (dec 20 1) k_mesh; y = div (dec 2 2) k_mesh; z = div (dec 20 1) k_mesh })
        no_rotation (G.set_alpha (if d.critical then dec 35 2 else dec 12 2) c)

  -- The body of the loop; `none` is its `continue`.
  unfoldable pub entry_of : Instancing → Device → Option Entry
  unfolding pillar beacon pad
  entry_of m d =
      if text_eq m.mode (lit "pillars")
      then some (pillar m d)
      else if text_eq m.mode (lit "beacons")
      then beacon m d
      else some (pad m d)

  abbrev pub append : Option Entry → List Entry × ℕ → List Entry × ℕ
  append none b = b
  append (some e) b = (b.0 ++ (e ∷ []), suc b.1)

  unfoldable pub fill : Instancing → List Device → List Entry × ℕ → List Entry × ℕ
  unfolding entry_of
  fill m [] b = b
  fill m (d ∷ devices) b = fill m devices (append (entry_of m d) b)

  -- The buffer and *instanceCount.
  unfoldable pub get_instance_buffer : Scenes → Instancing → List Entry × ℕ
  unfolding fill
  get_instance_buffer scenes m = elim m.scene [
    | none ↦ ([], 0)
    | some model ↦ fill m (scenes model) ([], 0)
  ]
