-- ===== src/Ingestion/Service/Arguments.antt =====
-- parse_args of ingestion/main.cpp. `to_size` is std::stoul, `none` where it throws; the environment
-- variables are `none` where they are not set.
use forge_sight.Prelude.{
  ◌≡◌, refl, ℕ, Bool, true, false, ◌||◌, Option, none, some, List, [], ◌∷◌, Text, lit, text_eq,
  if◌then◌else◌,
}

pub record AppConfig : Type 0 where
  pub mqtt_broker : Text
  pub mqtt_topic : Text
  pub mqtt_client_id : Text
  pub db_conn_string : Text
  pub worker_threads : ℕ
  pub db_batch_size : ℕ
  pub kafka_brokers : Text
  pub kafka_topic : Text

abbrev pub default_config : AppConfig
default_config = record {
  mqtt_broker = lit "tcp://localhost:1883";
  mqtt_topic = lit "factory/devices/#";
  mqtt_client_id = lit "forgesight-ingestion";
  db_conn_string = lit "host=localhost dbname=forgesight user=postgres";
  worker_threads = 4;
  db_batch_size = 100;
  kafka_brokers = [];
  kafka_topic = lit "forgesight.readings";
}

-- The configuration, the exit after --help, or the exception of std::stoul.
pub data ParsedArgs : Type 0 where
  configured : AppConfig → ParsedArgs
  shows_help : ParsedArgs
  throws : ParsedArgs

abbrev or_value : Option Text → Text → Text
or_value none t = t
or_value (some s) t = s

module _ (to_size : Text → Option ℕ) where
  abbrev with_workers : AppConfig → Option ℕ → ParsedArgs
  with_workers cfg none = throws
  with_workers cfg (some n) = configured (record cfg { worker_threads = n })

  -- The branches that take the argument after an option; `none` for any other word.
  unfoldable pub set_option : Text → Text → AppConfig → Option ParsedArgs
  set_option arg v cfg =
      if text_eq arg (lit "--broker")
      then some (configured (record cfg { mqtt_broker = v }))
      else if text_eq arg (lit "--topic")
      then some (configured (record cfg { mqtt_topic = v }))
      else if text_eq arg (lit "--db")
      then some (configured (record cfg { db_conn_string = v }))
      else if text_eq arg (lit "--workers")
      then some (with_workers cfg (to_size v))
      else if text_eq arg (lit "--kafka-brokers")
      then some (configured (record cfg { kafka_brokers = v }))
      else if text_eq arg (lit "--kafka-topic")
      then some (configured (record cfg { kafka_topic = v }))
      else none

  abbrev asks_help : Text → Bool
  asks_help arg = text_eq arg (lit "--help") || text_eq arg (lit "-h")

  -- The loop over argv, from the argument at the head on.
  unfoldable pub parse_from : List Text → AppConfig → ParsedArgs
  unfolding set_option
  parse_from [] cfg = configured cfg
  parse_from (arg ∷ []) cfg = if asks_help arg then shows_help else configured cfg
  parse_from (arg ∷ v ∷ args) cfg = elim (set_option arg v cfg) [
    | some (configured cfg) ↦ parse_from args cfg
    | some shows_help ↦ shows_help
    | some throws ↦ throws
    | none ↦ elim (asks_help arg) [ true ↦ shows_help | false ↦ parse_from (v ∷ args) cfg ]
  ]

  unfoldable pub parse_args : Option Text → Option Text → List Text → ParsedArgs
  unfolding parse_from
  parse_args env_brokers env_topic args = parse_from args (record default_config {
    kafka_brokers = or_value env_brokers [];
    kafka_topic = or_value env_topic (lit "forgesight.readings");
  })

-- An option with its value, as the usage text lists them.
pub data Setting : Type 0 where
  broker topic db kafka_brokers_at kafka_topic_at : Text → Setting
  workers : Text → ℕ → Setting

abbrev pub words_of : Setting → List Text → List Text
words_of (broker v) rest = lit "--broker" ∷ v ∷ rest
words_of (topic v) rest = lit "--topic" ∷ v ∷ rest
words_of (db v) rest = lit "--db" ∷ v ∷ rest
words_of (kafka_brokers_at v) rest = lit "--kafka-brokers" ∷ v ∷ rest
words_of (kafka_topic_at v) rest = lit "--kafka-topic" ∷ v ∷ rest
words_of (workers v n) rest = lit "--workers" ∷ v ∷ rest

abbrev pub set_to : Setting → AppConfig → AppConfig
set_to (broker v) cfg = record cfg { mqtt_broker = v }
set_to (topic v) cfg = record cfg { mqtt_topic = v }
set_to (db v) cfg = record cfg { db_conn_string = v }
set_to (kafka_brokers_at v) cfg = record cfg { kafka_brokers = v }
set_to (kafka_topic_at v) cfg = record cfg { kafka_topic = v }
set_to (workers v n) cfg = record cfg { worker_threads = n }

unfoldable pub command_line : List Setting → List Text
command_line [] = []
command_line (s ∷ settings) = words_of s (command_line settings)

unfoldable pub set_all : List Setting → AppConfig → AppConfig
set_all [] cfg = cfg
set_all (s ∷ settings) cfg = set_all settings (set_to s cfg)

module _ (to_size : Text → Option ℕ) where
  -- The number of workers is written as std::stoul reads it.
  abbrev pub IsReadable : List Setting → Type 0
  IsReadable [] = Unit {0}
  IsReadable (workers v n ∷ settings) = (to_size v ≡ some n) × IsReadable settings
  IsReadable (s ∷ settings) = IsReadable settings

  -- A command line of settings sets each of them in turn, so that the last one of a kind holds, also
  -- where a value looks like an option.
  pub parse_from-command_line :
      (settings : List Setting) (cfg : AppConfig)
      → IsReadable settings
      → parse_from to_size (command_line settings) cfg ≡ configured (set_all settings cfg)
  unfolding parse_from set_option command_line set_all text_eq
  parse_from-command_line [] cfg h = refl
  parse_from-command_line (broker v ∷ settings) cfg h = parse_from-command_line settings _ h
  parse_from-command_line (topic v ∷ settings) cfg h = parse_from-command_line settings _ h
  parse_from-command_line (db v ∷ settings) cfg h = parse_from-command_line settings _ h
  parse_from-command_line (kafka_brokers_at v ∷ settings) cfg h =
      parse_from-command_line settings _ h
  parse_from-command_line (kafka_topic_at v ∷ settings) cfg h = parse_from-command_line settings _ h
  parse_from-command_line (workers v n ∷ settings) cfg h =
      rw (parse_from, h.0) (parse_from-command_line settings _ h.1)
