-- ===== src/AlarmEngine/Start.antt =====
-- parse_args and main of alarm-engine/main.cpp, with the constructor and the destructor of AlarmStore.
-- `to_int` is std::stoi, `none` where it throws; a run makes `n` rounds before it is told to stop.
pub mod Exits
use forge_sight.Prelude.{
  ℕ, Bool, true, false, ◌||◌, Option, none, some, List, [], ◌∷◌, Text, lit, text_eq, ℤ, pos,
  Doubles, if◌then◌else◌,
}
use forge_sight.Ingestion.Reading.{PolledReading}
use forge_sight.Database.{Server, Session, store_conn, poll_conn, Run}
use forge_sight.Database.Connections.{Libpq, connect_db, finish}
use forge_sight.AlarmEngine.Store.{create_tables, load_rules}
use forge_sight.AlarmEngine.Seed.{seed_default_rules}
use forge_sight.AlarmEngine.Poll.{Engine, catch_up_reading_id, poll_rounds}

pub record EngineConfig : Type 0 where
  pub db_conn_string : Text
  pub seed_rules : Bool
  pub poll_interval_ms : ℤ

abbrev pub engine_config : EngineConfig
engine_config = record {
  db_conn_string = lit "host=localhost dbname=forgesight user=postgres";
  seed_rules = false;
  poll_interval_ms = pos 2000;
}

-- The configuration, the exit after --help, or the exception of std::stoi.
pub data EngineArgs : Type 0 where
  runs_with : EngineConfig → EngineArgs
  shows_usage : EngineArgs
  throws_out : EngineArgs

-- What an argument and the one after it are taken for.
pub data Word : Type 0 where
  takes_two takes_one : EngineConfig → Word
  ends : EngineArgs → Word

module _ (to_int : Text → Option ℤ) where
  abbrev with_interval : EngineConfig → Option ℤ → Word
  with_interval cfg none = ends throws_out
  with_interval cfg (some n) = takes_two (record cfg { poll_interval_ms = n })

  -- The branches for an argument that is not an option with a value.
  abbrev engine_flag : Text → EngineConfig → Word
  engine_flag arg cfg =
      if text_eq arg (lit "--seed")
      then takes_one (record cfg { seed_rules = true })
      else if text_eq arg (lit "--help") || text_eq arg (lit "-h")
      then ends shows_usage
      else takes_one cfg

  abbrev engine_option : Text → Text → EngineConfig → Word
  engine_option arg v cfg =
      if text_eq arg (lit "--db")
      then takes_two (record cfg { db_conn_string = v })
      else if text_eq arg (lit "--poll-ms")
      then with_interval cfg (to_int v)
      else engine_flag arg cfg

  abbrev end_of : Word → EngineArgs
  end_of (takes_two cfg) = runs_with cfg
  end_of (takes_one cfg) = runs_with cfg
  end_of (ends result) = result

  -- The loop over argv, from the argument at the head on.
  unfoldable pub parse_engine_from : List Text → EngineConfig → EngineArgs
  parse_engine_from [] cfg = runs_with cfg
  parse_engine_from (arg ∷ []) cfg = end_of (engine_flag arg cfg)
  parse_engine_from (arg ∷ v ∷ args) cfg = elim (engine_option arg v cfg) [
    | takes_two cfg ↦ parse_engine_from args cfg
    | takes_one cfg ↦ parse_engine_from (v ∷ args) cfg
    | ends result ↦ result
  ]

-- The engine as it starts and as it stops, and the readings that it evaluated between.
pub record Ran (D : Type 0) : Type 0 where
  pub started : Engine D
  pub evaluated : List (PolledReading D)
  pub engine : Engine D

-- The exit after --help, that by an exception, status 1, and status 0.
pub data EngineExit (D : Type 0) : Type 0 where
  helped thrown refused : EngineExit D
  stopped : Ran D → EngineExit D

module _ (F : Doubles) (S : Server (F.Double)) (L : Libpq) (tenths : ℕ → F.Double) where
  open F use {Double}

  abbrev pub World : Type 0
  World = S.World × L.State

  -- create_tables, and the rules if they are to be seeded.
  unfoldable pub prepare : Bool → S.World → S.World
  prepare seed_rules w =
      let tables = create_tables F S (some store_conn) w in
      if seed_rules then (seed_default_rules F S tenths tables.1).1 else tables.1

  -- From the place where both connections are open to the end of main and ~AlarmStore.
  unfoldable pub run_rounds : ℕ → Session → Run World (EngineExit Double)
  unfolding finish
  run_rounds n conn w =
      let rules = load_rules F S (some store_conn) w.0 in
      let last_id = catch_up_reading_id F S (some conn) rules.1 in
      let started : Engine Double = record { last_id = last_id.0; rules = rules.0 } in
      let rounds = poll_rounds F S n started last_id.1 in
      (
        stopped (record { started = started; evaluated = rounds.0.0; engine = rounds.0.1 }),
        finish L S.World (some store_conn) (finish L S.World (some conn) (rounds.1, w.1)),
      )

  unfoldable pub with_poll_conn : ℕ → Option Session × World → EngineExit Double × World
  unfolding run_rounds finish
  with_poll_conn n (none, w) = (refused, finish L S.World (some store_conn) w)
  with_poll_conn n (some conn, w) = run_rounds n conn w

  unfoldable pub with_store : EngineConfig → ℕ → Option Session × World → EngineExit Double × World
  unfolding prepare with_poll_conn connect_db
  with_store cfg n (none, w) = (refused, w)
  with_store cfg n (some store, w) =
      with_poll_conn n
        (connect_db L S.World poll_conn cfg.db_conn_string (prepare cfg.seed_rules w.0, w.1))

  unfoldable pub run_engine : EngineArgs → ℕ → Run World (EngineExit Double)
  unfolding with_store connect_db
  run_engine shows_usage n w = (helped, w)
  run_engine throws_out n w = (thrown, w)
  run_engine (runs_with cfg) n w =
      with_store cfg n (connect_db L S.World store_conn cfg.db_conn_string w)
