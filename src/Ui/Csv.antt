-- ===== src/Ui/Csv.antt =====
-- ui/include/ui/csv_export.h, ui/src/csv_export.cpp and HistoryPoint of
-- ui/include/ui/history_model.h.
pub mod Parser
pub mod Reading
use forge_sight.Prelude.{
  ℕ, ◌==◌, Bool, true, false, ◌||◌, List, [], ◌∷◌, ◌++◌, Text, lit, if◌then◌else◌,
}

-- QString::contains for a character, and the double quote, the comma and the line feed.
unfoldable pub has : ℕ → Text → Bool
has c [] = false
has c (d ∷ text) = (d == c) || has c text

-- replace("\"", "\"\"")
pub double_quotes : Text → Text
double_quotes [] = []
double_quotes (c ∷ text) =
    let rest = double_quotes text in if c == 34 then 34 ∷ 34 ∷ rest else c ∷ rest

pub escape_csv : Text → Text
unfolding has double_quotes
escape_csv field =
    if (has 44 field || has 34 field) || has 10 field
    then 34 ∷ (double_quotes field ++ (34 ∷ []))
    else field

pub record HistoryPoint (D T : Type 0) : Type 0 where
  pub device_id : Text
  pub sensor : Text
  pub value : D
  pub unit : Text
  pub timestamp : T
  pub anomaly : Bool

-- `number` is the text that QTextStream writes for a double, `iso` QDateTime::toString(Qt::ISODate).
module _ {D T : Type 0} (number : D → Text) (iso : T → Text) where
  row : HistoryPoint D T → Text
  unfolding escape_csv
  row p =
      escape_csv p.device_id
      ++ (44
          ∷ (escape_csv p.sensor
              ++ (44
                  ∷ (number p.value
                      ++ (44
                          ∷ (escape_csv p.unit
                              ++ (44
                                  ∷ (iso p.timestamp
                                      ++ (44
                                          ∷ ((if p.anomaly then lit "true" else lit "false")
                                              ++ (10 ∷ [])))))))))))

  rows : List (HistoryPoint D T) → Text
  unfolding row
  rows [] = []
  rows (p ∷ points) = row p ++ rows points

  pub to_string : List (HistoryPoint D T) → Text
  unfolding rows
  to_string points = lit "DeviceId,Sensor,Value,Unit,Timestamp,Anomaly\n" ++ rows points
