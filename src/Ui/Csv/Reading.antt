-- ===== src/Ui/Csv/Reading.antt =====
-- The reader of comma separated values reads what the export writes.
use forge_sight.Prelude.{
  ◌≡◌, refl, ap, ◌∙◌, inl, inr, ◌⊎◌, ℕ, Bool, true, false, ◌||◌, List, [], ◌∷◌, ◌++◌, map,
  append_assoc, append-nil, Text, lit, Bool-cases, arith, if◌then◌else◌,
}
use forge_sight.Ui.Csv.Parser.{start, plain, quoted, closing, Parse, parse, read_csv}
use forge_sight.Ui.Csv.{has, double_quotes, escape_csv, HistoryPoint, row, rows, to_string}

abbrev before : Text → Parse → Parse
before field p = (field ++ p.0, p.1)

abbrev special : Text → Bool
special field = (has 44 field || has 34 field) || has 10 field

parse_plain :
    (field text : Text)
    → special field ≡ false
    → parse plain (field ++ text) ≡ before field (parse plain text)
unfolding parse has
parse_plain [] text h = refl
parse_plain (c ∷ field) text h = ground (arith, parse_plain field text)

parse_quoted :
    (field text : Text)
    → parse quoted (double_quotes field ++ (34 ∷ text)) ≡ before field (parse closing text)
unfolding parse double_quotes
parse_quoted [] text = refl
parse_quoted (c ∷ field) text = ground (arith, parse_quoted field text)

-- A separator follows a field.
abbrev Ends : ℕ → Type 0
Ends c = (c ≡ 44) ⊎ (c ≡ 10)

parse_first :
    (field : Text) (c : ℕ) (text : Text)
    → special field ≡ false
    → Ends c
    → parse start (field ++ (c ∷ text)) ≡ before field (parse plain (c ∷ text))
unfolding parse has
parse_first [] c text h ends = ground arith
parse_first (d ∷ field) c text h ends = ground (arith, parse_plain field (c ∷ text))

parse_closing : (c : ℕ) (text : Text) → Ends c → parse closing (c ∷ text) ≡ parse plain (c ∷ text)
unfolding parse
parse_closing c text ends = ground arith

parse_escaped :
    (field : Text) (c : ℕ) (text : Text)
    → parse start (34 ∷ ((double_quotes field ++ (34 ∷ [])) ++ (c ∷ text)))
      ≡ before field (parse closing (c ∷ text))
unfolding parse
parse_escaped field c text =
    rw (append_assoc (double_quotes field) (34 ∷ []) (c ∷ text)) (parse_quoted field (c ∷ text))

parse-escape_csv :
    (field : Text) (c : ℕ) (text : Text)
    → Ends c
    → parse start (escape_csv field ++ (c ∷ text)) ≡ before field (parse plain (c ∷ text))
unfolding escape_csv
parse-escape_csv field c text ends = elim (Bool-cases (special field)) [
  | inl h ↦
      rw (h, escape_csv)
        (parse_escaped field c text ∙ ap (before field) (parse_closing c text ends))
  | inr h ↦ rw (h, escape_csv) (parse_first field c text h ends)
]

-- A field that the comma ends, and the last field of a line.
abbrev cell : Text → Parse → Parse
cell field p = (field, (p.0 ∷ p.1.0, p.1.1))

abbrev last_cell : Text → Parse → Parse
last_cell field p = (field, ([], (p.0 ∷ p.1.0) ∷ p.1.1))

before-comma :
    (field text : Text) → before field (parse plain (44 ∷ text)) ≡ cell field (parse start text)
unfolding parse
before-comma field text = rw (append-nil field)

parse-cell :
    (field rest text : Text)
    → parse start ((escape_csv field ++ (44 ∷ rest)) ++ text)
      ≡ cell field (parse start (rest ++ text))
parse-cell field rest text =
    rw (append_assoc (escape_csv field) (44 ∷ rest) text)
      (parse-escape_csv field 44 (rest ++ text) (inl refl) ∙ before-comma field (rest ++ text))

parse_plain_cell :
    (field rest text : Text)
    → special field ≡ false
    → parse start ((field ++ (44 ∷ rest)) ++ text) ≡ cell field (parse start (rest ++ text))
parse_plain_cell field rest text h =
    rw (append_assoc field (44 ∷ rest) text)
      (parse_first field 44 (rest ++ text) h (inl refl) ∙ before-comma field (rest ++ text))

parse-last_cell :
    (field text : Text)
    → special field ≡ false
    → parse start ((field ++ (10 ∷ [])) ++ text) ≡ last_cell field (parse start text)
unfolding parse
parse-last_cell field text h =
    rw (append_assoc field (10 ∷ []) text)
      (parse_first field 10 text h (inr refl) ∙ rw (append-nil field))

abbrev print_bool : Bool → Text
print_bool b = if b then lit "true" else lit "false"

special-print_bool : (b : Bool) → special (print_bool b) ≡ false
unfolding has
special-print_bool true = refl
special-print_bool false = refl

-- A text without comma, quote and line feed.
abbrev pub IsPlain : Text → Type 0
IsPlain text = special text ≡ false

abbrev pub header : List Text
header =
    lit "DeviceId" ∷ lit "Sensor" ∷ lit "Value" ∷ lit "Unit" ∷ lit "Timestamp" ∷ lit "Anomaly" ∷ []

module _ {D T : Type 0} (number : D → Text) (iso : T → Text) where
  -- The six fields of a point, in the order of the header.
  abbrev pub fields : HistoryPoint D T → List Text
  fields p =
      p.device_id ∷ p.sensor ∷ number p.value ∷ p.unit ∷ iso p.timestamp ∷ print_bool p.anomaly ∷ []

  module _ (plain_number : (x : D) → IsPlain (number x))
      (plain_iso : (x : T) → IsPlain (iso x)) where
    parse-row :
        (p : HistoryPoint D T) (text : Text)
        → parse start (row number iso p ++ text)
          ≡ cell p.device_id (
              cell p.sensor (
                cell (number p.value) (
                  cell p.unit (
                    cell (iso p.timestamp) (last_cell (print_bool p.anomaly) (parse start text))))))
    unfolding row
    parse-row p text =
        parse-cell p.device_id _ text
        ∙ ap (cell p.device_id) (
            parse-cell p.sensor _ text
            ∙ ap (cell p.sensor) (
                parse_plain_cell (number p.value) _ text (plain_number p.value)
                ∙ ap (cell (number p.value)) (
                    parse-cell p.unit _ text
                    ∙ ap (cell p.unit) (
                        parse_plain_cell (iso p.timestamp) _ text (plain_iso p.timestamp)
                        ∙ ap (cell (iso p.timestamp)) (
                            parse-last_cell (print_bool p.anomaly) text
                              (special-print_bool p.anomaly))))))

    read-rows :
        (points : List (HistoryPoint D T))
        → read_csv (rows number iso points) ≡ map fields points ++ (([] ∷ []) ∷ [])
    unfolding rows read_csv
    read-rows [] = refl
    read-rows (p ∷ points) =
        rw (parse-row p (rows number iso points)) (ap (◌∷◌ (fields p)) (read-rows points))

    -- If a number and a timestamp are printed without comma, quote and line feed, then a reader of
    -- comma separated values reads the export of any points as the header, the six fields of each
    -- point, whatever characters its texts have, and the empty line after the last line feed.
    pub read_csv-to_string :
        (points : List (HistoryPoint D T))
        → read_csv (to_string number iso points) ≡ header ∷ (map fields points ++ (([] ∷ []) ∷ []))
    unfolding to_string read_csv parse
    read_csv-to_string points = ap (◌∷◌ header) (read-rows points)
