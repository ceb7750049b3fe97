-- ===== src/AlarmEngine/Evaluator/Format.antt =====
-- `format_message` against its specification: a template is a list of pieces, and the message is
-- the template with each slot filled.
use forge_sight.Prelude.{
  ◌≡◌, ◌≢◌, refl, sym, ap, ◌∙◌, Bool, true, false, List, [], ◌∷◌, ◌++◌, Text, lit, inl, inr,
  Bool-cases, arith, Doubles,
}
use forge_sight.AlarmEngine.Types.{Rule, severity_to_string}
use forge_sight.AlarmEngine.Evaluator.{replace, template_of, format_message}
use forge_sight.AlarmEngine.Evaluator.Search.{begins}
use forge_sight.AlarmEngine.Evaluator.Replace.{pass, replace-pass}

pub data Slot : Type 0 where
  device sensor value threshold severity : Slot

pub data Piece : Type 0 where
  chunk : Text → Piece
  slot : Slot → Piece

abbrev slot_tail : Slot → Text
slot_tail device = lit "device}"
slot_tail sensor = lit "sensor}"
slot_tail value = lit "value}"
slot_tail threshold = lit "threshold}"
slot_tail severity = lit "severity}"

-- The placeholder of a slot, which begins with a brace.
abbrev slot_text : Slot → Text
slot_text k = 123 ∷ slot_tail k

abbrev piece_text : Piece → Text
piece_text (chunk t) = t
piece_text (slot k) = slot_text k

-- The template that is written as these pieces.
abbrev pub print_pieces : List Piece → Text
print_pieces [] = []
print_pieces (p ∷ ps) = piece_text p ++ print_pieces ps

-- The message: each slot stands for its text.
abbrev pub render : (Slot → Text) → List Piece → Text
render f [] = []
render f (chunk t ∷ ps) = t ++ render f ps
render f (slot k ∷ ps) = f k ++ render f ps

-- No opening brace in a text, nor in the chunks of a template.
abbrev pub NoBrace : Text → Type 0
NoBrace [] = Unit {0}
NoBrace (c ∷ s) = (c ≢ 123) × NoBrace s

abbrev pub IsPlain : List Piece → Type 0
IsPlain [] = Unit {0}
IsPlain (chunk t ∷ ps) = NoBrace t × IsPlain ps
IsPlain (slot k ∷ ps) = IsPlain ps

same_slot : Slot → Slot → Bool
same_slot device device = true
same_slot sensor sensor = true
same_slot value value = true
same_slot threshold threshold = true
same_slot severity severity = true
same_slot _ _ = false

begins-slot :
    (k j : Slot) (rest : Text) → begins (slot_text k) (slot_text j ++ rest) ≡ same_slot k j
unfolding same_slot
begins-slot device device rest = refl
begins-slot sensor device rest = refl
begins-slot value device rest = refl
begins-slot threshold device rest = refl
begins-slot severity device rest = refl
begins-slot _ _ rest = refl

same_slot-eq : (k j : Slot) → same_slot k j ≡ true → k ≡ j
unfolding same_slot
same_slot-eq device device h = refl
same_slot-eq _ _ h = ground arith

NoBrace-slot_tail : (k : Slot) → NoBrace (slot_tail k)
NoBrace-slot_tail device = omega arith
NoBrace-slot_tail _ = omega arith

-- The pieces after the placeholder `k` is replaced by `r`.
abbrev fill_piece : Bool → Text → Slot → Piece
fill_piece true r j = chunk r
fill_piece false r j = slot j

abbrev fill : Slot → Text → List Piece → List Piece
fill k r [] = []
fill k r (chunk t ∷ ps) = chunk t ∷ fill k r ps
fill k r (slot j ∷ ps) = fill_piece (same_slot k j) r j ∷ fill k r ps

pass-chunk :
    (ph r t rest : Text)
    → NoBrace t
    → pass 0 (123 ∷ ph) r (t ++ rest) ≡ t ++ pass 0 (123 ∷ ph) r rest
unfolding pass
pass-chunk ph r [] rest h = refl
pass-chunk ph r (c ∷ t) rest h = ground (arith, pass-chunk ph r t rest h.1)

pass-slot_hit :
    (k : Slot) (r rest : Text)
    → pass 0 (slot_text k) r (slot_text k ++ rest) ≡ r ++ pass 0 (slot_text k) r rest
unfolding pass same_slot
pass-slot_hit device r rest = refl
pass-slot_hit _ r rest = refl

pass-slot_miss :
    (k j : Slot) (r rest : Text)
    → same_slot k j ≡ false
    → pass 0 (slot_text k) r (slot_text j ++ rest) ≡ slot_text j ++ pass 0 (slot_text k) r rest
unfolding pass
pass-slot_miss k j r rest h =
    rw (begins-slot k j rest ∙ h, pass)
      (ap (◌∷◌ 123) (pass-chunk (slot_tail k) r (slot_tail j) rest (NoBrace-slot_tail j)))

pass-slot :
    (k j : Slot) (r rest : Text)
    → pass 0 (slot_text k) r (slot_text j ++ rest)
      ≡ piece_text (fill_piece (same_slot k j) r j) ++ pass 0 (slot_text k) r rest
pass-slot k j r rest = elim (Bool-cases (same_slot k j)) [
  | inl e ↦ rw e (rw (sym (same_slot-eq k j e)) (pass-slot_hit k r rest))
  | inr e ↦ rw e (pass-slot_miss k j r rest e)
]

-- One call of `replace` fills one slot.
pass-print :
    (k : Slot) (r : Text) (ps : List Piece)
    → IsPlain ps
    → pass 0 (slot_text k) r (print_pieces ps) ≡ print_pieces (fill k r ps)
pass-print k r [] h = unfold pass in refl
pass-print k r (chunk t ∷ ps) h =
    pass-chunk (slot_tail k) r t (print_pieces ps) h.0 ∙ ap (◌++◌ t) (pass-print k r ps h.1)
pass-print k r (slot j ∷ ps) h =
    pass-slot k j r (print_pieces ps)
    ∙ ap (◌++◌ (piece_text (fill_piece (same_slot k j) r j))) (pass-print k r ps h)

replace-print :
    (k : Slot) (r : Text) (ps : List Piece)
    → IsPlain ps
    → replace (print_pieces ps) (slot_text k) r ≡ print_pieces (fill k r ps)
replace-print k r ps h = replace-pass (print_pieces ps) 123 (slot_tail k) r ∙ pass-print k r ps h

fill_piece-IsPlain :
    (b : Bool) (r : Text) (j : Slot) (ps : List Piece)
    → NoBrace r
    → IsPlain ps
    → IsPlain (fill_piece b r j ∷ ps)
fill_piece-IsPlain true r j ps hr h = (hr, h)
fill_piece-IsPlain false r j ps hr h = h

fill-IsPlain :
    (k : Slot) (r : Text) (ps : List Piece) → NoBrace r → IsPlain ps → IsPlain (fill k r ps)
fill-IsPlain k r [] hr h = tt
fill-IsPlain k r (chunk t ∷ ps) hr h = (h.0, fill-IsPlain k r ps hr h.1)
fill-IsPlain k r (slot j ∷ ps) hr h =
    fill_piece-IsPlain (same_slot k j) r j (fill k r ps) hr (fill-IsPlain k r ps hr h)

-- The five calls one after the other fill every slot.
fill_all-render :
    (f : Slot → Text) (ps : List Piece)
    → print_pieces (
        fill severity (f severity) (
          fill threshold
            (f threshold)
            (fill value (f value) (fill sensor (f sensor) (fill device (f device) ps)))))
      ≡ render f ps
unfolding same_slot
fill_all-render f [] = refl
fill_all-render f (chunk t ∷ ps) = ap (◌++◌ t) (fill_all-render f ps)
fill_all-render f (slot device ∷ ps) = ap (◌++◌ (f device)) (fill_all-render f ps)
fill_all-render f (slot sensor ∷ ps) = ap (◌++◌ (f sensor)) (fill_all-render f ps)
fill_all-render f (slot value ∷ ps) = ap (◌++◌ (f value)) (fill_all-render f ps)
fill_all-render f (slot threshold ∷ ps) = ap (◌++◌ (f threshold)) (fill_all-render f ps)
fill_all-render f (slot severity ∷ ps) = ap (◌++◌ (f severity)) (fill_all-render f ps)

module _ (F : Doubles) where
  open F use {Double, print}

  -- What the slots of a rule's template stand for.
  abbrev pub slot_value : Rule Double → Double → Slot → Text
  slot_value rule v device = rule.device_id
  slot_value rule v sensor = rule.sensor
  slot_value rule v value = print v
  slot_value rule v threshold = print rule.threshold
  slot_value rule v severity = severity_to_string rule.severity

  -- A message template written as pieces, whose plain parts hold no opening brace, comes out with
  -- every placeholder replaced by its value, if no value but the severity's holds an opening brace
  -- either. The same holds of the default template, which a rule with no template uses.
  pub format_message-render :
      (rule : Rule Double) (v : Double) (ps : List Piece)
      → template_of rule ≡ print_pieces ps
      → IsPlain ps
      → NoBrace rule.device_id
      → NoBrace rule.sensor
      → NoBrace (print v)
      → NoBrace (print rule.threshold)
      → format_message F rule v ≡ render (slot_value rule v) ps
  unfolding format_message
  format_message-render rule v ps e plain hd hs hv ht =
      let f = slot_value rule v in
      let p1 = fill device (f device) ps in
      let h1 = fill-IsPlain device (f device) ps hd plain in
      let p2 = fill sensor (f sensor) p1 in
      let h2 = fill-IsPlain sensor (f sensor) p1 hs h1 in
      let p3 = fill value (f value) p2 in
      let h3 = fill-IsPlain value (f value) p2 hv h2 in
      let p4 = fill threshold (f threshold) p3 in
      let h4 = fill-IsPlain threshold (f threshold) p3 ht h3 in
      rw
        (
          e,
          replace-print device (f device) ps plain,
          replace-print sensor (f sensor) p1 h1,
          replace-print value (f value) p2 h2,
          replace-print threshold (f threshold) p3 h3,
          replace-print severity (f severity) p4 h4,
        )
        (fill_all-render f ps)
