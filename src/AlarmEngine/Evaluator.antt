-- ===== src/AlarmEngine/Evaluator.antt =====
-- alarm-engine/src/rule_evaluator.cpp. `replace` works on positions, as the source does; its loop
-- runs on fuel, one round more than the message has characters. The proofs are in the children.
mod Search
pub mod Replace
pub mod Format
pub mod Alarms
use forge_sight.Prelude.{
  ℕ, zero, suc, ◌+◌, Bool, false, not, Option, none, some, List, [], ◌∷◌, ◌++◌, Text, lit, text_eq,
  length, take, drop, pos, Doubles, if◌then◌else◌,
}
use forge_sight.AlarmEngine.Types.{
  Condition, greater_than, less_than, greater_or_equal, less_or_equal, equal, Rule, Alarm, matches,
  severity_to_string,
}
use Search.{find}

-- msg.replace(pos, n, replacement)
abbrev splice : Text → ℕ → ℕ → Text → Text
splice msg at n replacement = take at msg ++ (replacement ++ drop (at + n) msg)

-- The while loop of the lambda `replace`; `at` is the source's `pos`.
replace_loop : ℕ → Text → Text → Text → ℕ → Text
replace_loop zero placeholder replacement msg at = msg
replace_loop (suc fuel) placeholder replacement msg at = elim (find msg placeholder at) [
  | none ↦ msg
  | some p ↦
      replace_loop fuel placeholder replacement (splice msg p (length placeholder) replacement)
        (p + length replacement)
]

pub replace : Text → Text → Text → Text
replace msg placeholder replacement = replace_loop (suc (length msg)) placeholder replacement msg 0

condition_phrase : Condition → Text
condition_phrase greater_than = lit "exceeded threshold"
condition_phrase greater_or_equal = lit "exceeded threshold"
condition_phrase less_than = lit "below threshold"
condition_phrase less_or_equal = lit "below threshold"
condition_phrase equal = lit "reached threshold"

pub default_message_template : {D : Type 0} → Rule D → Text
unfolding condition_phrase
default_message_template rule =
    lit "{device} {sensor} value {value} "
    ++ (condition_phrase rule.condition ++ lit " {threshold}")

-- rule.message_template.empty() ? default_message_template(rule) : rule.message_template
unfoldable pub template_of : {D : Type 0} → Rule D → Text
template_of rule = elim rule.message_template [ [] ↦ default_message_template rule | c ∷ s ↦ c ∷ s ]

module _ (F : Doubles) where
  open F use {Double, lt, le, eq, print}

  pub evaluate : Rule Double → Double → Bool
  evaluate rule value = elim rule.condition [
    | greater_than ↦ lt rule.threshold value
    | less_than ↦ lt value rule.threshold
    | greater_or_equal ↦ le rule.threshold value
    | less_or_equal ↦ le value rule.threshold
    | equal ↦ eq value rule.threshold
  ]

  pub format_message : Rule Double → Double → Text
  format_message rule value =
      let m0 : Text = template_of rule in
      let m1 = replace m0 (lit "{device}") rule.device_id in
      let m2 = replace m1 (lit "{sensor}") rule.sensor in
      let m3 = replace m2 (lit "{value}") (print value) in
      let m4 = replace m3 (lit "{threshold}") (print rule.threshold) in
      replace m4 (lit "{severity}") (severity_to_string rule.severity)

  -- The alarm that the body of the loop of `evaluate_all` builds.
  pub alarm_for : Rule Double → Text → Text → Double → Text → Alarm Double
  alarm_for rule device_id sensor value timestamp = record {
    id = pos 0;
    rule_id = rule.id;
    device_id = device_id;
    sensor = sensor;
    value = value;
    severity = rule.severity;
    message = format_message rule value;
    timestamp = timestamp;
    acknowledged = false;
  }

  pub evaluate_all : List (Rule Double) → Text → Text → Double → Text → List (Alarm Double)
  evaluate_all [] device_id sensor value timestamp = []
  evaluate_all (rule ∷ rules) device_id sensor value timestamp =
      let rest = evaluate_all rules device_id sensor value timestamp in
      if not (matches rule device_id sensor)
      then rest
      else if not (evaluate rule value)
      then rest
      else alarm_for rule device_id sensor value timestamp ∷ rest
