-- ===== src/Database/Connections.antt =====
-- How the programs open and close their connections: connect_db of api/main.cpp, which the constructor
-- of AlarmStore repeats, and PQfinish. `State` is the state of libpq and of what stands beside it.
use forge_sight.Prelude.{
  ◌≡◌, refl, ap, ◌∙◌, inl, inr, Bool, true, false, ◌||◌, Option, none, some, List, [], ◌∷◌, Text,
  Bool-cases, if◌then◌else◌,
}
use forge_sight.Database.{Session, store_conn, poll_conn, ingest_conn, api_conn, grpc_conn, Run}

-- pq_connectdb tells whether PQstatus is CONNECTION_OK; its session says which of the program's
-- connections it makes.
pub record Libpq : Type 1 where
  pub State : Type 0
  pub pq_connectdb : Session → Text → State → Bool × State
  pub pq_finish : Session → State → State

unfoldable pub same_session : Session → Session → Bool
same_session store_conn store_conn = true
same_session poll_conn poll_conn = true
same_session ingest_conn ingest_conn = true
same_session api_conn api_conn = true
same_session grpc_conn grpc_conn = true
same_session _ _ = false

same_session_refl : (s : Session) → same_session s s ≡ true
unfolding same_session
same_session_refl store_conn = refl
same_session_refl poll_conn = refl
same_session_refl ingest_conn = refl
same_session_refl api_conn = refl
same_session_refl grpc_conn = refl

unfoldable pub holds : List Session → Session → Bool
unfolding same_session
holds [] t = false
holds (s ∷ sessions) t = same_session s t || holds sessions t

unfoldable pub and_session : Option Session → List Session → List Session
and_session none sessions = sessions
and_session (some s) sessions = s ∷ sessions

-- PQconnectdb makes a connection object also where it cannot connect, and PQfinish is to be called
-- once for each.
pub record ConnectionLaws (L : Libpq) : Type 0 where
  pub is_open : Session → L.State → Bool
  pub connects :
      (s t : Session) (conn_str : Text) (h : L.State)
      → is_open t (L.pq_connectdb s conn_str h).1 ≡ (same_session s t || is_open t h)
  pub finishes :
      (s t : Session) (h : L.State)
      → is_open s h ≡ true
      → is_open t (L.pq_finish s h) ≡ (if same_session s t then false else is_open t h)

module _ (L : Libpq) (W : Type 0) where
  unfoldable pub connect_db : Session → Text → Run (W × L.State) (Option Session)
  connect_db s conn_str w =
      let conn = L.pq_connectdb s conn_str w.1 in
      if conn.0 then (some s, (w.0, conn.1)) else (none, (w.0, L.pq_finish s conn.1))

  -- if (conn) PQfinish(conn)
  unfoldable pub finish : Option Session → W × L.State → W × L.State
  finish none w = w
  finish (some s) w = (w.0, L.pq_finish s w.1)

  pub connect_db-reached :
      (s : Session) (conn_str : Text) (w : W × L.State)
      → let r = L.pq_connectdb s conn_str w.1 in
        r.0 ≡ true → connect_db s conn_str w ≡ (some s, (w.0, r.1))
  unfolding connect_db
  connect_db-reached s conn_str w e = rw e refl

  pub connect_db-refused :
      (s : Session) (conn_str : Text) (w : W × L.State)
      → let r = L.pq_connectdb s conn_str w.1 in
        r.0 ≡ false → connect_db s conn_str w ≡ (none, (w.0, L.pq_finish s r.1))
  unfolding connect_db
  connect_db-refused s conn_str w e = rw e refl

  module _ (laws : ConnectionLaws L) where
    open laws use {is_open}

    -- Exactly these connections are open.
    unfoldable pub IsOpen : List Session → L.State → Type 0
    IsOpen sessions h = (t : Session) → is_open t h ≡ holds sessions t

    pub opened :
        (s : Session) (sessions : List Session) (conn_str : Text) (h : L.State)
        → IsOpen sessions h
        → IsOpen (s ∷ sessions) (L.pq_connectdb s conn_str h).1
    unfolding IsOpen holds
    opened s sessions conn_str h all t =
        laws.connects s t conn_str h ∙ ap (◌||◌ (same_session s t)) (all t)

    pub finished :
        (s : Session) (sessions : List Session) (h : L.State)
        → ((t : Session) → same_session s t ≡ true → holds sessions t ≡ false)
        → IsOpen (s ∷ sessions) h
        → IsOpen sessions (L.pq_finish s h)
    unfolding IsOpen holds
    finished s sessions h absent all t =
        let there : is_open s h ≡ true = all s ∙ rw (same_session_refl s) refl in
        elim (Bool-cases (same_session s t)) [
          | inl e ↦ laws.finishes s t h there ∙ rw (e, absent t e) refl
          | inr e ↦ laws.finishes s t h there ∙ rw e (all t ∙ rw e refl)
        ]

    pub finish-IsOpen :
        (conn : Option Session) (w : W × L.State)
        → IsOpen (and_session conn []) w.1
        → IsOpen [] (finish conn w).1
    unfolding finish and_session holds
    finish-IsOpen none w all = all
    finish-IsOpen (some s) w all = finished s [] w.1 (λ t e. refl) all

    pub connect_db-IsOpen :
        (s : Session) (sessions : List Session) (conn_str : Text) (w : W × L.State)
        → ((t : Session) → same_session s t ≡ true → holds sessions t ≡ false)
        → IsOpen sessions w.1
        → let r = connect_db s conn_str w in IsOpen (and_session r.0 sessions) r.1.1
    unfolding connect_db and_session
    connect_db-IsOpen s sessions conn_str w absent all =
        let made = opened s sessions conn_str w.1 all in
        elim (Bool-cases (L.pq_connectdb s conn_str w.1).0) [
          | inl e ↦ rw e made
          | inr e ↦ rw e (finished s sessions _ absent made)
        ]
