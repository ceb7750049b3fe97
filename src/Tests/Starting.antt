-- ===== src/Tests/Starting.antt =====
-- Starts of the processes on a host where everything succeeds.
use forge_sight.Prelude.{
  refl, ℕ, Bool, true, false, ◌||◌, none, some, [], ◌∷◌, Text, lit, length, if◌then◌else◌,
}
use forge_sight.Database.{Session}
use forge_sight.AlarmEngine.Start.{engine_config, parse_engine_from, run_engine}
use forge_sight.AlarmEngine.Start.Exits.{Exits, run_engine-Exits}
use forge_sight.Api.Start.{Host, World, api_key_of, start_api}
use forge_sight.Database.Connections.{Libpq, ConnectionLaws, same_session, holds, IsOpen}
use forge_sight.Api.Start.Connections.{HostLaws}
use forge_sight.Api.Start.Outcome.{Ends, start_api-Ends}
use forge_sight.Tests.Fixtures.{naturals, growing, growing_laws}

-- The state tells which connections are open.
abbrev libpq : Libpq
libpq = record {
  State = Session → Bool;
  pq_connectdb = λ s conn_str h. (true, λ t. same_session s t || h t);
  pq_finish = λ s h t. if same_session s t then false else h t;
}

abbrev host : Host
host = record {
  libpq = libpq;
  Address = ℕ;
  host_address = λ name. some 0;
  to_ushort = length;
  to_string = λ n. lit "5";
  listen_http = λ a port h. (port, h);
  listen_ws = λ a port h. (true, h);
  ws_server_port = λ h. 8081;
  connect_mqtt = λ broker h. h;
  ten_seconds_ago = λ h. lit "T";
  build_and_start = λ bind h. (true, h);
}

abbrev libpq_laws : ConnectionLaws libpq
libpq_laws = record {
  is_open = λ s h. h s;
  connects = λ s t conn_str h. refl;
  finishes = λ s t h open_there. refl;
}

abbrev host_laws : HostLaws host
host_laws = record {
  connections = libpq_laws;
  listens_http = λ a port h t. refl;
  listens_ws = λ a port h t. refl;
  joins_mqtt = λ broker h t. refl;
  builds = λ bind h t. refl;
}

-- Every option and variable is its own name.
abbrev named : Text → Text
named name = name

abbrev nothing_open : World naturals growing host
nothing_open = (true, λ t. false)

all_closed : IsOpen libpq Bool libpq_laws [] nothing_open.1
unfolding IsOpen holds
all_closed t = refl

start_api-Ends_example :
    Ends naturals growing host host_laws
      (api_key_of naturals growing host named named)
      (start_api naturals growing host named named nothing_open)
start_api-Ends_example =
    start_api-Ends naturals growing host host_laws named named nothing_open all_closed

-- Two rounds of an alarm engine that is told which database to use.
run_engine-Exits_example :
    Exits naturals growing growing_laws libpq libpq_laws
      (λ n. n)
      (run_engine naturals growing libpq
        (λ n. n)
        (parse_engine_from (λ t. none) (lit "--db" ∷ lit "forge" ∷ []) engine_config)
        2
        (false, λ t. false))
run_engine-Exits_example =
    run_engine-Exits naturals growing growing_laws libpq libpq_laws (λ n. n)
      (parse_engine_from (λ t. none) (lit "--db" ∷ lit "forge" ∷ []) engine_config) 2
      (false, λ t. false) all_closed
