-- ===== src/Ui/Csv/Parser.antt =====
-- A reader of comma separated values, independent of the export.
use forge_sight.Prelude.{ℕ, ◌==◌, List, [], ◌∷◌, Text, if◌then◌else◌}

pub data Kind : Type 0 where
  quote comma newline other : Kind

abbrev pub kind : ℕ → Kind
kind c = if c == 34 then quote else if c == 44 then comma else if c == 10 then newline else other

-- Where a character stands: at the start of a field, in one without quotes, in quotes, or after a
-- quote that ends a field or is the first of two.
pub data Place : Type 0 where
  start plain quoted closing : Place

-- The rest of a field, of its line, and the lines below.
abbrev pub Parse : Type 0
Parse = Text × (List Text × List (List Text))

abbrev pub push : ℕ → Parse → Parse
push c p = (c ∷ p.0, p.1)

abbrev pub next_field : Parse → Parse
next_field p = ([], (p.0 ∷ p.1.0, p.1.1))

abbrev pub next_line : Parse → Parse
next_line p = ([], ([], (p.0 ∷ p.1.0) ∷ p.1.1))

unfoldable pub parse : Place → Text → Parse
parse place [] = ([], ([], []))
parse start (c ∷ text) = elim (kind c) [
  | quote ↦ parse quoted text
  | comma ↦ next_field (parse start text)
  | newline ↦ next_line (parse start text)
  | other ↦ push c (parse plain text)
]
parse plain (c ∷ text) = elim (kind c) [
  | quote ↦ push c (parse plain text)
  | comma ↦ next_field (parse start text)
  | newline ↦ next_line (parse start text)
  | other ↦ push c (parse plain text)
]
parse quoted (c ∷ text) = elim (kind c) [
  | quote ↦ parse closing text
  | comma ↦ push c (parse quoted text)
  | newline ↦ push c (parse quoted text)
  | other ↦ push c (parse quoted text)
]
parse closing (c ∷ text) = elim (kind c) [
  | quote ↦ push c (parse quoted text)
  | comma ↦ next_field (parse start text)
  | newline ↦ next_line (parse start text)
  | other ↦ push c (parse plain text)
]

-- The lines of a text, each the list of its fields.
unfoldable pub read_csv : Text → List (List Text)
unfolding parse
read_csv text = let p = parse start text in (p.0 ∷ p.1.0) ∷ p.1.1
