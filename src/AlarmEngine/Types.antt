-- ===== src/AlarmEngine/Types.antt =====
-- alarm-engine/include/alarm-engine/types.h and alarm-engine/src/types.cpp.
use forge_sight.Prelude.{Bool, ◌&&◌, ◌≡◌, refl, Text, lit, text_eq, ℤ, if◌then◌else◌}

pub data Condition : Type 0 where
  greater_than less_than greater_or_equal less_or_equal equal : Condition

pub data Severity : Type 0 where
  info warning critical : Severity

pub record Rule (D : Type 0) : Type 0 where
  pub id : ℤ
  pub device_id : Text
  pub sensor : Text
  pub condition : Condition
  pub threshold : D
  pub severity : Severity
  pub message_template : Text

-- Rule::matches
unfoldable pub matches : {D : Type 0} → Rule D → Text → Text → Bool
matches r dev sen = text_eq r.device_id dev && text_eq r.sensor sen

pub record Alarm (D : Type 0) : Type 0 where
  pub id : ℤ
  pub rule_id : ℤ
  pub device_id : Text
  pub sensor : Text
  pub value : D
  pub severity : Severity
  pub message : Text
  pub timestamp : Text
  pub acknowledged : Bool

unfoldable pub severity_to_string : Severity → Text
severity_to_string info = lit "info"
severity_to_string warning = lit "warning"
severity_to_string critical = lit "critical"

unfoldable pub condition_to_string : Condition → Text
condition_to_string greater_than = lit "gt"
condition_to_string less_than = lit "lt"
condition_to_string greater_or_equal = lit "gte"
condition_to_string less_or_equal = lit "lte"
condition_to_string equal = lit "eq"

unfoldable pub severity_from_string : Text → Severity
severity_from_string s =
    if text_eq s (lit "info")
    then info
    else if text_eq s (lit "critical")
    then critical
    else warning

unfoldable pub condition_from_string : Text → Condition
condition_from_string s =
    if text_eq s (lit "lt")
    then less_than
    else if text_eq s (lit "gte")
    then greater_or_equal
    else if text_eq s (lit "lte")
    then less_or_equal
    else if text_eq s (lit "eq")
    then equal
    else greater_than

severity_round_trip : (s : Severity) → severity_from_string (severity_to_string s) ≡ s
unfolding severity_from_string severity_to_string text_eq
severity_round_trip info = refl
severity_round_trip warning = refl
severity_round_trip critical = refl

condition_round_trip : (c : Condition) → condition_from_string (condition_to_string c) ≡ c
unfolding condition_from_string condition_to_string text_eq
condition_round_trip greater_than = refl
condition_round_trip less_than = refl
condition_round_trip greater_or_equal = refl
condition_round_trip less_or_equal = refl
condition_round_trip equal = refl

-- The text that a condition or a severity is stored as reads back as that condition or severity.
pub from_string-to_string :
    (c : Condition) (s : Severity)
    → (condition_from_string (condition_to_string c) ≡ c)
      × (severity_from_string (severity_to_string s) ≡ s)
from_string-to_string c s = (condition_round_trip c, severity_round_trip s)
