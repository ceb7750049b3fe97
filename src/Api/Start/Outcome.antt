-- ===== src/Api/Start/Outcome.antt =====
-- How the start of the API server ends.
use forge_sight.Prelude.{
  ◌≡◌, ◌⊎◌, refl, sym, ap, ◌∙◌, subst, inl, inr, ℕ, true, false, Option, none, some, [], ◌∷◌, ◌++◌,
  Text, lit, ◌==◌, Doubles, Bool-cases, arith,
}
use forge_sight.Database.{Server, Session, store_conn, poll_conn, ingest_conn, api_conn, grpc_conn}
use forge_sight.Api.Start.{
  Host, with_table, ApiServer, Serving, Ports, World, begin_polling, start, api_key_of, run_grpc,
  grpc_with, start_grpc, start_bound, start_api, ports_of,
}
use forge_sight.Database.Connections.{
  same_session, holds, and_session, connect_db, finish, IsOpen, opened, finished, finish-IsOpen,
  connect_db-reached, connect_db-refused, connect_db-IsOpen,
}
use forge_sight.Api.DeviceService.{ensure_metadata_table}
use forge_sight.Api.Start.Connections.{HostLaws, sessions_of, start-is_open}

-- Both services that run ask for the key, the gRPC service has its own connection, and the poll timer
-- of the server runs.
unfoldable pub IsGuarded : Text → Option Serving → Type 0
IsGuarded key none = Unit
IsGuarded key (some v) =
    (v.server.api_key ≡ key)
    × (v.server.polling ≡ true)
    × ((v.grpc ≡ none) ⊎ (v.grpc ≡ some (record { session = grpc_conn; api_key = key })))

module _ (F : Doubles) (S : Server (F.Double)) (H : Host) where
  start-polling :
      (conn : Option Session) (ports : Ports) (mqtt : Text) (bind : H.Address) (key : Text)
      (w : World F S H)
      → let r = (start F S H conn ports mqtt bind key w).0 in
        (r.1.conn ≡ conn) × (r.1.api_key ≡ key) × (r.1.polling ≡ r.0)
  unfolding start begin_polling
  start-polling conn ports mqtt bind key w =
      let http = H.listen_http bind ports.http w.1 in
      elim (Bool-cases (http.0 == 0)) [
        | inl e ↦ rw e (refl, refl, refl)
        | inr e ↦ elim (Bool-cases (H.listen_ws bind ports.ws http.1).0) [
          | inr f ↦ rw (e, f) (refl, refl, refl)
          | inl f ↦ rw (e, f) (refl, refl, refl)
        ]
      ]

  -- A result with the connections that are open and the key.
  pub record Ends (laws : HostLaws H) (key : Text) (r : Option Serving × World F S H) : Type 0 where
    pub sessions : IsOpen H.libpq S.World laws.connections (sessions_of r.0) r.1.1
    pub guarded : IsGuarded key r.0

  module _ (laws : HostLaws H) (value env : Text → Text) where
    abbrev key : Text
    key = api_key_of F S H value env

    abbrev Result : Type 0
    Result = Option Serving × World F S H

    failing :
        (conn : Option Session) (w : World F S H)
        → IsOpen H.libpq S.World laws.connections (and_session conn []) w.1
        → Ends laws key (none, finish H.libpq S.World conn w)
    unfolding sessions_of IsGuarded
    failing conn w all = record {
      sessions = finish-IsOpen H.libpq S.World laws.connections conn w all;
      guarded = tt;
    }

    run_grpc-Ends :
        (port : ℕ) (server : ApiServer) (w : World F S H)
        → server.api_key ≡ key
        → server.polling ≡ true
        → ((t : Session)
            → same_session grpc_conn t ≡ true
            → holds (and_session server.conn []) t ≡ false)
        → IsOpen H.libpq S.World laws.connections (grpc_conn ∷ and_session server.conn []) w.1
        → Ends laws key (run_grpc F S H value env port server grpc_conn w)
    unfolding run_grpc finish with_table IsOpen sessions_of and_session IsGuarded
    run_grpc-Ends port server w k p absent all =
        let bind = value (lit "bind") ++ (lit ":" ++ H.to_string port) in
        let r = H.build_and_start bind w.1 in
        let built : IsOpen H.libpq S.World laws.connections (grpc_conn ∷ and_session server.conn [])
            r.1 =
          λ t. laws.builds bind w.1 t ∙ all t in
        elim (Bool-cases r.0) [
          | inr g ↦ rw g (
              failing server.conn
                (ensure_metadata_table F S (some grpc_conn) w.0, H.libpq.pq_finish grpc_conn r.1)
                (finished H.libpq S.World laws.connections grpc_conn _ r.1 absent built))
          | inl g ↦ rw g record { sessions = built; guarded = (k, p, inr refl) }
        ]

    start_grpc-Ends :
        (port : ℕ) (server : ApiServer) (w : World F S H)
        → server.api_key ≡ key
        → server.polling ≡ true
        → ((t : Session)
            → same_session grpc_conn t ≡ true
            → holds (and_session server.conn []) t ≡ false)
        → IsOpen H.libpq S.World laws.connections (and_session server.conn []) w.1
        → Ends laws key (start_grpc F S H value env port server w)
    unfolding start_grpc grpc_with IsOpen sessions_of and_session IsGuarded
    start_grpc-Ends port server w k p absent all =
        let cs = and_session server.conn [] in
        let conn_str = value (lit "database") in
        let r = H.libpq.pq_connectdb grpc_conn conn_str w.1 in
        let made = opened H.libpq S.World laws.connections grpc_conn cs conn_str w.1 all in
        elim (Bool-cases (port == 0)) [
          | inl e ↦ rw e record { sessions = all; guarded = (k, p, inl refl) }
          | inr e ↦ elim (Bool-cases r.0) [
            | inr f ↦ rw e (
                subst (λ c. Ends laws key (grpc_with F S H value env port server c))
                  (sym (connect_db-refused H.libpq S.World grpc_conn conn_str w f))
                  (failing server.conn (w.0, H.libpq.pq_finish grpc_conn r.1)
                    (finished H.libpq S.World laws.connections grpc_conn cs r.1 absent made)))
            | inl f ↦ rw e (
                subst (λ c. Ends laws key (grpc_with F S H value env port server c))
                  (sym (connect_db-reached H.libpq S.World grpc_conn conn_str w f))
                  (run_grpc-Ends port server (w.0, r.1) k p absent made))
          ]
        ]

    -- The connection of the server is not the gRPC service's.
    absent :
        (conn : Option Session)
        → (conn ≡ none) ⊎ (conn ≡ some api_conn)
        → (t : Session) → same_session grpc_conn t ≡ true
        → holds (and_session conn []) t ≡ false
    unfolding holds and_session same_session
    absent conn (inl e) t same = rw e refl
    absent conn (inr e) grpc_conn same = rw e refl
    absent conn (inr e) api_conn same = absurd (ground arith)
    absent conn (inr e) store_conn same = absurd (ground arith)
    absent conn (inr e) poll_conn same = absurd (ground arith)
    absent conn (inr e) ingest_conn same = absurd (ground arith)

    connect_db-api :
        (conn_str : Text) (w : World F S H)
        → let conn = (connect_db H.libpq S.World api_conn conn_str w).0 in
          (conn ≡ none) ⊎ (conn ≡ some api_conn)
    connect_db-api conn_str w = elim (Bool-cases (H.libpq.pq_connectdb api_conn conn_str w.1).0) [
      | inl e ↦ inr (ap (λ r. r.0) (connect_db-reached H.libpq S.World api_conn conn_str w e))
      | inr e ↦ inl (ap (λ r. r.0) (connect_db-refused H.libpq S.World api_conn conn_str w e))
    ]

    start_bound-Ends :
        (bind : H.Address) (w : World F S H)
        → IsOpen H.libpq S.World laws.connections [] w.1
        → Ends laws key (start_bound F S H value env bind w)
    unfolding start_bound with_table holds IsOpen
    start_bound-Ends bind w all =
        let conn_str = value (lit "database") in
        let conn = connect_db H.libpq S.World api_conn conn_str w in
        let ports = ports_of F S H value env in
        let mqtt = value (lit "mqtt") in
        let made = with_table F S H conn.0 conn.1 in
        let r = start F S H conn.0 ports mqtt bind key made in
        let set = start-polling conn.0 ports mqtt bind key made in
        let open_then =
          connect_db-IsOpen H.libpq S.World laws.connections api_conn [] conn_str w (λ t e. refl)
            all in
        let still : IsOpen H.libpq S.World laws.connections (and_session conn.0 []) r.1.1 =
          λ t. start-is_open F S H laws conn.0 ports mqtt bind key made t ∙ open_then t in
        elim (Bool-cases r.0.0) [
          | inr e ↦ rw e (failing conn.0 r.1 still)
          | inl e ↦ rw e (
              start_grpc-Ends ports.grpc r.0.1 r.1 set.1 (set.2 ∙ e)
                (subst
                  (λ c.
                    (t : Session)
                    → same_session grpc_conn t ≡ true
                    → holds (and_session c []) t ≡ false)
                  (sym set.0) (absent conn.0 (connect_db-api conn_str w)))
                (subst (λ c. IsOpen H.libpq S.World laws.connections (and_session c []) r.1.1)
                  (sym set.0) still))
        ]

    -- From a state with no open connection: if the start fails, no connection is left open; if it
    -- succeeds, exactly those of the running services are open, both services ask for the configured
    -- key, the gRPC service, if it runs, has its own connection, and the poll timer of the server runs,
    -- whether or not the server has a connection.
    pub start_api-Ends :
        (w : World F S H)
        → IsOpen H.libpq S.World laws.connections [] w.1
        → Ends laws (api_key_of F S H value env) (start_api F S H value env w)
    unfolding start_api sessions_of IsGuarded
    start_api-Ends w all =
        elim (H.host_address (value (lit "bind")))
          as (λ o.
            Ends laws key
              (elim o [ none ↦ (none, w) | some bind ↦ start_bound F S H value env bind w ])) [
                | none ↦ record { sessions = all; guarded = tt }
                | some bind ↦ start_bound-Ends bind w all
              ]
