-- ===== src/AlarmEngine/Start/Exits.antt =====
-- How a run of the alarm engine ends.
use forge_sight.Prelude.{
  ◌≡◌, refl, sym, subst, inl, inr, ℕ, true, false, Option, none, some, List, [], ◌∷◌, ◌++◌, ℤ,
  rows_after, Doubles, Bool-cases,
}
use forge_sight.Database.{Server, Session, store_conn, poll_conn, ingest_conn, api_conn, grpc_conn}
use forge_sight.Database.Laws.{ReadingsLaws}
use forge_sight.Database.Follow.{id_of_row}
use forge_sight.Database.Connections.{
  Libpq, ConnectionLaws, same_session, holds, IsOpen, opened, finished, finish, connect_db-reached,
  connect_db-refused,
}
use forge_sight.AlarmEngine.Poll.Cover.{poll_rounds_cover}
use forge_sight.AlarmEngine.Poll.{Engine, poll_rounds}
use forge_sight.AlarmEngine.Start.{
  EngineConfig, EngineArgs, runs_with, shows_usage, throws_out, Ran, EngineExit, refused, stopped,
  World, prepare, run_rounds, with_poll_conn, with_store, run_engine,
}

module _ (F : Doubles) (S : Server (F.Double)) (laws : ReadingsLaws S) where
  open laws use {readings}

  -- The readings above the first cursor, if the engine started with one, were evaluated once each.
  unfoldable pub EvaluatedFrom : S.World → Ran (F.Double) → Option ℤ → Type 0
  EvaluatedFrom w ran none = Unit
  EvaluatedFrom w ran (some c) =
      (c' : ℤ) × (ran.engine.last_id ≡ some c')
      × (ran.evaluated ++ rows_after id_of_row c' (readings w)
          ≡ rows_after id_of_row c (readings w))

  unfoldable pub EvaluatesAll : S.World → EngineExit (F.Double) → Type 0
  unfolding EvaluatedFrom
  EvaluatesAll w (stopped ran) = EvaluatedFrom w ran ran.started.last_id
  EvaluatesAll w _ = Unit

  evaluated_from :
      (n : ℕ) (e : Engine (F.Double)) (w : S.World) (first : Option ℤ)
      → e.last_id ≡ first
      → let r = poll_rounds F S n e w in
        EvaluatedFrom r.1 (record { started = e; evaluated = r.0.0; engine = r.0.1 }) first
  unfolding EvaluatedFrom
  evaluated_from n e w none h = tt
  evaluated_from n e w (some c) h = poll_rounds_cover F S laws n e c w h

  module _ (L : Libpq) (connections : ConnectionLaws L) (tenths : ℕ → F.Double) where
    abbrev AreOpen : List Session → L.State → Type 0
    AreOpen = IsOpen L S.World connections

    -- No connection is left open, and every reading of the run was evaluated.
    pub record Exits (r : EngineExit (F.Double) × World F S L tenths) : Type 0 where
      pub closed : IsOpen L S.World connections [] r.1.1
      pub evaluates : EvaluatesAll r.1.0 r.0

    store_closed :
        (w : World F S L tenths)
        → AreOpen (store_conn ∷ []) w.1
        → AreOpen [] (L.pq_finish store_conn w.1)
    unfolding holds
    store_closed w all = finished L S.World connections store_conn [] w.1 (λ t e. refl) all

    poll_absent :
        (t : Session) → same_session poll_conn t ≡ true → holds (store_conn ∷ []) t ≡ false
    unfolding holds same_session
    poll_absent poll_conn same = refl
    poll_absent store_conn same = cc
    poll_absent ingest_conn same = refl
    poll_absent api_conn same = refl
    poll_absent grpc_conn same = refl

    run_rounds-Exits :
        (n : ℕ) (w : World F S L tenths)
        → AreOpen (poll_conn ∷ store_conn ∷ []) w.1
        → Exits (run_rounds F S L tenths n poll_conn w)
    unfolding run_rounds finish EvaluatesAll
    run_rounds-Exits n w all = record {
      closed =
          store_closed (w.0, L.pq_finish poll_conn w.1)
            (finished L S.World connections poll_conn (store_conn ∷ []) w.1 poll_absent all);
      evaluates = evaluated_from n _ _ _ refl;
    }

    refused-Exits :
        (w : World F S L tenths)
        → AreOpen (store_conn ∷ []) w.1
        → Exits (refused, finish L S.World (some store_conn) w)
    unfolding finish EvaluatesAll
    refused-Exits w all = record { closed = store_closed w all; evaluates = tt }

    with_store-Exits :
        (cfg : EngineConfig) (n : ℕ) (w : World F S L tenths)
        → AreOpen (store_conn ∷ []) w.1
        → Exits (with_store F S L tenths cfg n (some store_conn, w))
    unfolding with_store with_poll_conn
    with_store-Exits cfg n w all =
        let w' : World F S L tenths = (prepare F S L tenths cfg.seed_rules w.0, w.1) in
        let r = L.pq_connectdb poll_conn cfg.db_conn_string w.1 in
        let made =
          opened L S.World connections poll_conn (store_conn ∷ []) cfg.db_conn_string w.1 all in
        elim (Bool-cases r.0) [
          | inl e ↦
              subst (λ c. Exits (with_poll_conn F S L tenths n c))
                (sym (connect_db-reached L S.World poll_conn cfg.db_conn_string w' e))
                (run_rounds-Exits n (w'.0, r.1) made)
          | inr e ↦
              subst (λ c. Exits (with_poll_conn F S L tenths n c))
                (sym (connect_db-refused L S.World poll_conn cfg.db_conn_string w' e))
                (refused-Exits (w'.0, L.pq_finish poll_conn r.1)
                  (finished L S.World connections poll_conn (store_conn ∷ []) r.1 poll_absent made))
        ]

    -- However the engine ends, after --help, an exception of std::stoi, a connection that could not be
    -- made or any number of rounds, it leaves no connection open if none was open before. If it found
    -- the id of the newest reading at its start, then the readings that the rounds evaluated,
    -- followed by those above its last cursor, are exactly the readings above that id: each once, in
    -- order of id.
    pub run_engine-Exits :
        (args : EngineArgs) (n : ℕ) (w : World F S L tenths)
        → IsOpen L S.World connections [] w.1
        → Exits (run_engine F S L tenths args n w)
    unfolding run_engine with_store EvaluatesAll
    run_engine-Exits shows_usage n w all = record { closed = all; evaluates = tt }
    run_engine-Exits throws_out n w all = record { closed = all; evaluates = tt }
    run_engine-Exits (runs_with cfg) n w all =
        let r = L.pq_connectdb store_conn cfg.db_conn_string w.1 in
        let made = opened L S.World connections store_conn [] cfg.db_conn_string w.1 all in
        elim (Bool-cases r.0) [
          | inl e ↦
              subst (λ c. Exits (with_store F S L tenths cfg n c))
                (sym (connect_db-reached L S.World store_conn cfg.db_conn_string w e))
                (with_store-Exits cfg n (w.0, r.1) made)
          | inr e ↦
              subst (λ c. Exits (with_store F S L tenths cfg n c))
                (sym (connect_db-refused L S.World store_conn cfg.db_conn_string w e))
                (record { closed = store_closed (w.0, r.1) made; evaluates = tt })
        ]
