-- ===== src/Api/Start.antt =====
-- api/main.cpp up to app.exec(), and ApiServer::start of api/src/api_server.cpp. The options and the
-- environment are functions; none as the result is the exit with status 1. What the libraries do is
-- a parameter, with its own state beside the database's.
pub mod Connections
pub mod Outcome
use forge_sight.Prelude.{
  ℕ, Bool, true, false, not, Option, none, some, List, [], ◌∷◌, ◌++◌, Text, lit, is_empty, ◌==◌, ℤ,
  Doubles, if◌then◌else◌,
}
use forge_sight.Database.{Server, Session, api_conn, grpc_conn, Run}
use forge_sight.Database.Connections.{Libpq, connect_db, finish}
use forge_sight.Api.DeviceService.{ensure_metadata_table, seed_default_device_locations}
use forge_sight.Api.RuleService.{alarm_poll_cursor}
use forge_sight.Api.Polling.{Cursors, reading_poll_cursor}

-- libpq, Qt and gRPC; listen_http gives the port, 0 when it fails.
pub record Host : Type 1 where
  pub libpq : Libpq
  pub Address : Type 0
  pub host_address : Text → Option Address
  pub to_ushort : Text → ℕ
  pub to_string : ℕ → Text
  pub listen_http : Address → ℕ → libpq.State → ℕ × libpq.State
  pub listen_ws : Address → ℕ → libpq.State → Bool × libpq.State
  pub ws_server_port : libpq.State → ℕ
  pub connect_mqtt : Text → libpq.State → libpq.State
  pub ten_seconds_ago : libpq.State → Text
  pub build_and_start : Text → libpq.State → Bool × libpq.State

-- The members that start sets, and whether the poll timer runs.
pub record ApiServer : Type 0 where
  pub conn : Option Session
  pub api_key : Text
  pub port : ℕ
  pub ws_port : ℕ
  pub cursors : Cursors
  pub polling : Bool

pub record GrpcService : Type 0 where
  pub session : Session
  pub api_key : Text

pub record Serving : Type 0 where
  pub server : ApiServer
  pub grpc : Option GrpcService

pub record Ports : Type 0 where
  pub http : ℕ
  pub ws : ℕ
  pub grpc : ℕ

module _ (F : Doubles) (S : Server (F.Double)) (H : Host) where
  open H use {libpq, Address}

  abbrev pub World : Type 0
  World = S.World × libpq.State

  -- `new_server` is what the constructor makes.
  abbrev new_server : Option Session → Text → ApiServer
  new_server conn key = record {
    conn = conn;
    api_key = key;
    port = 0;
    ws_port = 0;
    cursors = record { last_reading_id = none; last_alarm_id = none };
    polling = false;
  }

  -- The constructor of DeviceService, which that of ApiServer runs and the start of gRPC runs again.
  unfoldable pub with_table : Option Session → World → World
  with_table conn w = (ensure_metadata_table F S conn w.0, w.1)

  -- The end of ApiServer::start, once both servers listen.
  unfoldable pub begin_polling : Text → ApiServer → Run World ApiServer
  begin_polling mqtt_broker server w =
      let joined = H.connect_mqtt mqtt_broker w.1 in
      let catchup_since = H.ten_seconds_ago joined in
      let seeded = seed_default_device_locations F S server.conn w.0 in
      let readings = reading_poll_cursor F S server.conn catchup_since seeded in
      let alarms = alarm_poll_cursor F S server.conn catchup_since readings.1 in
      (
        record server {
          cursors = record { last_reading_id = readings.0; last_alarm_id = alarms.0 };
          polling = true;
        },
        (alarms.1, joined),
      )

  unfoldable pub start :
      Option Session → Ports → Text → Address → Text → Run World (Bool × ApiServer)
  unfolding begin_polling
  start conn ports mqtt_broker bind_address key w =
      let http = H.listen_http bind_address ports.http w.1 in
      let listening = record (new_server conn key) { port = http.0 } in
      if http.0 == 0
      then ((false, listening), (w.0, http.1))
      else let ws = H.listen_ws bind_address ports.ws http.1 in
        if not ws.0
        then ((false, listening), (w.0, ws.1))
        else let begun =
            begin_polling mqtt_broker (record listening { ws_port = H.ws_server_port ws.1 })
              (w.0, ws.1) in
          ((true, begun.0), begun.1)

  module _ (value env : Text → Text) where
    unfoldable pub api_key_of : Text
    api_key_of =
        let key = value (lit "api-key") in
        if is_empty key then env (lit "FORGESIGHT_API_KEY") else key

    unfoldable pub grpc_port_of : ℕ
    grpc_port_of =
        let port = H.to_ushort (value (lit "grpc-port")) in
        let env_port = env (lit "FORGESIGHT_GRPC_PORT") in
        if port == 0 then (if is_empty env_port then port else H.to_ushort env_port) else port

    abbrev ports_of : Ports
    ports_of = record {
      http = H.to_ushort (value (lit "port"));
      ws = H.to_ushort (value (lit "ws-port"));
      grpc = grpc_port_of;
    }

    -- The gRPC service over its connection.
    unfoldable pub run_grpc : ℕ → ApiServer → Session → Run World (Option Serving)
    unfolding finish api_key_of with_table
    run_grpc port server s w =
        let tabled = with_table (some s) w in
        let bind = value (lit "bind") ++ (lit ":" ++ H.to_string port) in
        let built = H.build_and_start bind tabled.1 in
        if not built.0
        then (
          none,
          finish libpq S.World server.conn (finish libpq S.World (some s) (tabled.0, built.1)),
        )
        else (
          some (record {
            server = server;
            grpc = some (record { session = s; api_key = api_key_of });
          }),
          (tabled.0, built.1),
        )

    unfoldable pub grpc_with : ℕ → ApiServer → Option Session × World → Option Serving × World
    unfolding finish run_grpc
    grpc_with port server (none, w) = (none, finish libpq S.World server.conn w)
    grpc_with port server (some s, w) = run_grpc port server s w

    -- From the place where the server has started.
    unfoldable pub start_grpc : ℕ → ApiServer → Run World (Option Serving)
    unfolding connect_db grpc_with
    start_grpc port server w =
        if port == 0
        then (some (record { server = server; grpc = none }), w)
        else grpc_with port server (connect_db libpq S.World grpc_conn (value (lit "database")) w)

    unfoldable pub start_bound : Address → Run World (Option Serving)
    unfolding connect_db finish with_table start start_grpc api_key_of grpc_port_of
    start_bound bind_address w =
        let conn = connect_db libpq S.World api_conn (value (lit "database")) w in
        let started =
          start conn.0 ports_of (value (lit "mqtt")) bind_address api_key_of
            (with_table conn.0 conn.1) in
        if not started.0.0
        then (none, finish libpq S.World conn.0 started.1)
        else start_grpc grpc_port_of started.0.1 started.1

    unfoldable pub start_api : Run World (Option Serving)
    unfolding start_bound
    start_api w = elim (H.host_address (value (lit "bind"))) [
      | none ↦ (none, w)
      | some bind_address ↦ start_bound bind_address w
    ]
