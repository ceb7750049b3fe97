-- ===== src/Ingestion/ReadingParser.antt =====
-- ingestion/src/reading_parser.cpp. The JSON library is a parameter: `decode` is
-- nlohmann::json::parse, with the text of its exception, and the other fields are the tests and
-- conversions that the parser calls. `field j k` is `none` where `j.contains(k)` is false.
pub mod Accepts
use forge_sight.Prelude.{
  Bool, true, false, Option, none, some, List, [], ◌∷◌, ◌++◌, Text, lit, is_empty, if◌then◌else◌,
}
use forge_sight.Ingestion.Reading.{Reading}

-- What decoding gives: the value, what() of the parse error, or json::out_of_range, which a number
-- too large for a double throws.
pub data Decoded (V : Type 0) : Type 0 where
  decoded : V → Decoded V
  parse_error : Text → Decoded V
  out_of_range : Decoded V

pub record Json (D : Type 0) : Type 1 where
  pub Value : Type 0
  pub decode : Text → Decoded Value
  pub is_object : Value → Bool
  pub field : Value → Text → Option Value
  pub string : Value → Option Text
  pub number : Value → Option D
  pub boolean : Value → Option Bool

-- The two results, or the exception that leaves the parser.
pub data ParseResult (D : Type 0) : Type 0 where
  reading : Reading D → ParseResult D
  error : Text → ParseResult D
  thrown : ParseResult D

-- The checks of the members in the order of the source: the first one that fails is reported.
unfoldable pub read_members :
    {D : Type 0}
    → Option Text
    → Option Text
    → Option D
    → Option Text
    → Option Text
    → Bool
    → ParseResult D
read_members none sensor v unit timestamp anomaly = error (lit "missing or invalid 'device_id'")
read_members (some device_id) none v unit timestamp anomaly =
    error (lit "missing or invalid 'sensor'")
read_members (some device_id) (some sensor) none unit timestamp anomaly =
    error (lit "missing or invalid 'value'")
read_members (some device_id) (some sensor) (some v) none timestamp anomaly =
    error (lit "missing or invalid 'unit'")
read_members (some device_id) (some sensor) (some v) (some unit) none anomaly =
    error (lit "missing or invalid 'timestamp'")
read_members (some device_id) (some sensor) (some v) (some unit) (some timestamp) anomaly =
    reading (record {
      device_id = device_id;
      sensor = sensor;
      value = v;
      unit = unit;
      timestamp = timestamp;
      anomaly = anomaly;
    })

module _ {D : Type 0} (J : Json D) where
  open J use {Value, decode, is_object, field, string, number, boolean}

  -- A member that is there and has the right type.
  abbrev pub member : {A : Type 0} → (Value → Option A) → Value → Text → Option A
  member convert j key = elim (field j key) [ none ↦ none | some v ↦ convert v ]

  abbrev pub anomaly_of : Value → Bool
  anomaly_of j = elim (member boolean j (lit "anomaly")) [ none ↦ false | some b ↦ b ]

  unfoldable pub parse_object : Value → ParseResult D
  unfolding read_members
  parse_object j =
      read_members (member string j (lit "device_id")) (member string j (lit "sensor"))
        (member number j (lit "value")) (member string j (lit "unit"))
        (member string j (lit "timestamp")) (anomaly_of j)

  unfoldable pub parse : Text → ParseResult D
  unfolding parse_object
  parse json_payload =
      if is_empty json_payload then error (lit "empty payload") else elim (decode json_payload) [
        | parse_error what ↦ error (lit "invalid JSON: " ++ what)
        | out_of_range ↦ thrown
        | decoded j ↦
            if is_object j then parse_object j else error (lit "payload is not a JSON object")
      ]
