-- ===== src/AlarmEngine/Evaluator/Alarms.antt =====
-- `evaluate_all` against a relation that says, rule by rule, which alarms a reading raises.
use forge_sight.Prelude.{
  ◌≡◌, ◌↔◌, refl, inl, inr, true, ◌&&◌, List, [], ◌∷◌, Text, text_eq_iff, arith, Doubles,
  Bool-cases,
}
use forge_sight.AlarmEngine.Types.{
  Condition, greater_than, less_than, greater_or_equal, less_or_equal, equal, Rule, Alarm, matches,
}
use forge_sight.AlarmEngine.Evaluator.{evaluate, alarm_for, evaluate_all}

module _ (F : Doubles) where
  open F use {Double, lt, le, eq}

  -- The value stands to the threshold as the condition says.
  abbrev pub Holds : Condition → Double → Double → Type 0
  Holds greater_than v t = lt t v ≡ true
  Holds less_than v t = lt v t ≡ true
  Holds greater_or_equal v t = le t v ≡ true
  Holds less_or_equal v t = le v t ≡ true
  Holds equal v t = eq v t ≡ true

  -- The rule is for this device and sensor, and its condition holds.
  pub record Fires (rule : Rule Double) (dev sen : Text) (v : Double) : Type 0 where
    pub device : rule.device_id ≡ dev
    pub sensor : rule.sensor ≡ sen
    pub holds : Holds rule.condition v rule.threshold

  pub data Raises (dev sen : Text) (v : Double) (ts : Text)
      : List (Rule Double) → List (Alarm Double) → Type 0 where
    done : Raises dev sen v ts [] []
    raised :
        {rule : Rule Double} {rules : List (Rule Double)} {alarms : List (Alarm Double)}
        → Fires rule dev sen v
        → Raises dev sen v ts rules alarms
        → Raises dev sen v ts (rule ∷ rules) (alarm_for F rule dev sen v ts ∷ alarms)
    silent :
        {rule : Rule Double} {rules : List (Rule Double)} {alarms : List (Alarm Double)}
        → ¬ Fires rule dev sen v
        → Raises dev sen v ts rules alarms
        → Raises dev sen v ts (rule ∷ rules) alarms

  evaluate-Holds :
      (c : Condition) (rule : Rule Double) (v : Double)
      → rule.condition ≡ c
      → (evaluate F rule v ≡ true) ↔ Holds c v rule.threshold
  unfolding evaluate
  evaluate-Holds greater_than rule v e = rw e (λ h. h, λ h. h)
  evaluate-Holds _ rule v e = rw e (λ h. h, λ h. h)

  Fires-iff :
      (rule : Rule Double) (dev sen : Text) (v : Double)
      → ((matches rule dev sen && evaluate F rule v) ≡ true) ↔ Fires rule dev sen v
  unfolding matches
  Fires-iff rule dev sen v =
      let ev = evaluate-Holds rule.condition rule v refl in
      let td = text_eq_iff rule.device_id dev in
      let ts = text_eq_iff rule.sensor sen in
      (
        λ h. record {
          device = ground (arith, td);
          sensor = ground (arith, ts);
          holds = ev.0 (ground arith);
        },
        λ f. let e = ev.1 f.holds in ground (arith, td, ts, f.device, f.sensor),
      )

  -- For every list of rules the evaluator returns the alarms of exactly the rules that are for the
  -- reading's device and sensor and whose condition its value meets, one each, in rule order.
  pub evaluate_all-Raises :
      (rules : List (Rule Double)) (dev sen : Text) (v : Double) (ts : Text)
      → Raises dev sen v ts rules (evaluate_all F rules dev sen v ts)
  unfolding evaluate_all
  evaluate_all-Raises [] dev sen v ts = done
  evaluate_all-Raises (rule ∷ rules) dev sen v ts =
      let rest = evaluate_all-Raises rules dev sen v ts in
      elim (Bool-cases (matches rule dev sen)) [
        | inl m ↦ elim (Bool-cases (evaluate F rule v)) [
          | inl e ↦ rw (m, e) (raised ((Fires-iff rule dev sen v).0 (rw (m, e))) rest)
          | inr e ↦ rw (m, e) (silent (λ f. cc (m, e, (Fires-iff rule dev sen v).1 f)) rest)
        ]
        | inr m ↦ rw m (silent (λ f. cc (m, (Fires-iff rule dev sen v).1 f)) rest)
      ]
