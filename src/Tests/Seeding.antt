-- ===== src/Tests/Seeding.antt =====
-- The seeding of default rules.
use forge_sight.Prelude.{
  ◌≡◌, refl, inr, ◌⊎◌, ℕ, some, List, [], ◌∷◌, ◌++◌, map, Text, pos, length, Doubles,
}
use forge_sight.Database.{
  Server, Statement, Reply, RuleRow, failed, command_ok, rule_rows, select_rules, insert_rule,
  store_conn,
}
use forge_sight.AlarmEngine.Types.{Rule}
use forge_sight.AlarmEngine.Store.{rule_of_row, try_load_rules, load_rules, add_rule}
use forge_sight.AlarmEngine.Seed.{default_rules, add_rules, seed_default_rules}
use forge_sight.AlarmEngine.Seed.Table.{RuleTable, bare, without_id, without_template}
use forge_sight.AlarmEngine.Seed.Loaded.{load_rules-seed_default_rules}
use forge_sight.Tests.Fixtures.{naturals}

-- Whole numbers, each printed as one character.
abbrev characters : Doubles
characters = record naturals { to_string = λ n. n ∷ [] }

abbrev read_character : Text → ℕ
read_character [] = 0
read_character (c ∷ rest) = c

-- A database of rules alone, whose ids count up.
abbrev rules_exec : Statement → List (RuleRow ℕ) → Reply ℕ × List (RuleRow ℕ)
rules_exec select_rules rows = (rule_rows rows, rows)
rules_exec (insert_rule dev sen condition threshold severity template) rows = (
  command_ok 1,
  rows
      ++ (record {
        id = pos (length rows);
        device_id = dev;
        sensor = sen;
        condition = condition;
        threshold = read_character threshold;
        severity = severity;
      }
          ∷ []),
)
rules_exec _ rows = (failed, rows)

abbrev rules_server : Server ℕ
rules_server = record {
  World = List (RuleRow ℕ);
  exec = λ c st rows. rules_exec st rows;
  wait = λ rows. rows;
}

abbrev rules_laws : RuleTable rules_server read_character
rules_laws = record {
  rules = λ rows. rows;
  selects = λ c rows. inr refl;
  keeps = λ c rows. refl;
  inserts = λ c dev sen condition threshold severity template rows ok. (pos (length rows), refl);
}

abbrev no_rows : List (RuleRow ℕ)
no_rows = []

abbrev tenths_of : ℕ → ℕ
tenths_of n = n

abbrev seeded : List (RuleRow ℕ)
seeded = (seed_default_rules characters rules_server tenths_of no_rows).1

abbrev rules_loaded : List (Rule ℕ)
rules_loaded = map rule_of_row seeded

all_seeded : (seed_default_rules characters rules_server tenths_of no_rows).0 ≡ 8
unfolding seed_default_rules load_rules try_load_rules add_rules add_rule default_rules
all_seeded = refl

loads_seeded :
    (try_load_rules characters rules_server (some store_conn) seeded).0 ≡ some rules_loaded
unfolding try_load_rules
loads_seeded = refl

load_rules-seed_default_rules_example :
    (map without_id rules_loaded ≡ bare no_rows ++ map without_template (default_rules tenths_of))
    × ((no_rows ≡ []) ⊎ ((rules_exec select_rules no_rows).0 ≡ failed))
unfolding default_rules
load_rules-seed_default_rules_example =
    load_rules-seed_default_rules characters rules_server read_character rules_laws tenths_of
      no_rows rules_loaded (refl, (refl, (refl, (refl, (refl, (refl, (refl, (refl, tt))))))))
      all_seeded loads_seeded
