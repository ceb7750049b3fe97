-- ===== src/AlarmEngine/Seed.antt =====
-- seed_default_rules of alarm-engine/main.cpp. `tenths n` stands for the double literal of n / 10.
pub mod Table
pub mod Loaded
use forge_sight.Prelude.{
  ℕ, ◌+◌, Bool, true, false, some, List, [], ◌∷◌, Text, lit, pos, Doubles, is_empty, if◌then◌else◌,
}
use forge_sight.Database.{Server, store_conn, Run, pure, ◌>>=◌, ◌>>◌}
use forge_sight.AlarmEngine.Types.{
  Rule, Condition, Severity, greater_than, less_than, warning, critical,
}
use forge_sight.AlarmEngine.Store.{load_rules, add_rule}

-- A rule of the table, which has no id yet.
abbrev seed_rule : {D : Type 0} → Text → Text → Condition → D → Severity → Text → Rule D
seed_rule dev sen condition threshold severity template = record {
  id = pos 0;
  device_id = dev;
  sensor = sen;
  condition = condition;
  threshold = threshold;
  severity = severity;
  message_template = template;
}

-- Rule rules[]
unfoldable pub default_rules : {D : Type 0} → (ℕ → D) → List (Rule D)
default_rules tenths =
    seed_rule (lit "pump-001") (lit "temperature") greater_than (tenths 800) warning
      (lit "{device} {sensor} ({value}) exceeded threshold {threshold}")
    ∷ seed_rule (lit "pump-001") (lit "temperature") greater_than (tenths 950) critical
        (lit "{device} {sensor} CRITICAL ({value}) exceeded {threshold}")
    ∷ seed_rule (lit "pump-001") (lit "pressure") less_than (tenths 10) critical
        (lit "{device} pressure critically low ({value} < {threshold})")
    ∷ seed_rule (lit "pump-001") (lit "pressure") greater_than (tenths 45) warning
        (lit "{device} pressure high ({value} > {threshold})")
    ∷ seed_rule (lit "pump-001") (lit "vibration") greater_than (tenths 100) warning
        (lit "{device} vibration high ({value} > {threshold})")
    ∷ seed_rule (lit "compressor-001") (lit "temperature") greater_than (tenths 900) warning
        (lit "{device} {sensor} ({value}) exceeded {threshold}")
    ∷ seed_rule (lit "compressor-001") (lit "temperature") greater_than (tenths 1050) critical
        (lit "{device} {sensor} CRITICAL ({value}) exceeded {threshold}")
    ∷ seed_rule (lit "compressor-001") (lit "current") greater_than (tenths 250) warning
        (lit "{device} current high ({value} > {threshold})")
    ∷ []

module _ (F : Doubles) (S : Server (F.Double)) where
  open F use {Double}
  open S use {World}

  -- for (const auto& r : rules) if (store.add_rule(r)) ++count
  unfoldable pub add_rules : List (Rule Double) → ℕ → Run World ℕ
  add_rules [] count = pure count
  add_rules (r ∷ rules) count = do
    added ← add_rule F S (some store_conn) r
    add_rules rules (if added then count + 1 else count)

  -- The number of rules that were inserted, which the source logs.
  unfoldable pub seed_default_rules : (ℕ → Double) → Run World ℕ
  seed_default_rules tenths = do
    existing ← load_rules F S (some store_conn)
    if is_empty existing then add_rules (default_rules tenths) 0 else pure 0
