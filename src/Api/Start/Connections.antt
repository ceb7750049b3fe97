-- ===== src/Api/Start/Connections.antt =====
-- The connections of the API server that the libraries and its start leave alone.
use forge_sight.Prelude.{
  ◌≡◌, ◌∙◌, inl, inr, ℕ, Option, none, some, List, [], Text, ◌==◌, Doubles, Bool-cases,
}
use forge_sight.Database.{Server, Session}
use forge_sight.Database.Connections.{ConnectionLaws, and_session}
use forge_sight.Api.Start.{Host, GrpcService, Serving, Ports, World, begin_polling, start}

-- Only libpq opens and closes connections.
pub record HostLaws (H : Host) : Type 0 where
  pub connections : ConnectionLaws H.libpq
  pub listens_http :
      (a : H.Address) (port : ℕ) (h : H.libpq.State) (t : Session)
      → connections.is_open t (H.listen_http a port h).1 ≡ connections.is_open t h
  pub listens_ws :
      (a : H.Address) (port : ℕ) (h : H.libpq.State) (t : Session)
      → connections.is_open t (H.listen_ws a port h).1 ≡ connections.is_open t h
  pub joins_mqtt :
      (broker : Text) (h : H.libpq.State) (t : Session)
      → connections.is_open t (H.connect_mqtt broker h) ≡ connections.is_open t h
  pub builds :
      (bind : Text) (h : H.libpq.State) (t : Session)
      → connections.is_open t (H.build_and_start bind h).1 ≡ connections.is_open t h

abbrev pub session_of : Option GrpcService → Option Session
session_of none = none
session_of (some g) = some g.session

-- The connections that run: the gRPC service's and the server's.
unfoldable pub sessions_of : Option Serving → List Session
unfolding and_session
sessions_of none = []
sessions_of (some v) = and_session (session_of v.grpc) (and_session v.server.conn [])

module _ (F : Doubles) (S : Server (F.Double)) (H : Host) (laws : HostLaws H) where
  open laws.connections use {is_open}

  pub start-is_open :
      (conn : Option Session) (ports : Ports) (mqtt : Text) (bind : H.Address) (key : Text)
      (w : World F S H) (t : Session)
      → is_open t (start F S H conn ports mqtt bind key w).1.1 ≡ is_open t w.1
  unfolding start begin_polling
  start-is_open conn ports mqtt bind key w t =
      let http = H.listen_http bind ports.http w.1 in
      let ws = H.listen_ws bind ports.ws http.1 in
      let a = laws.listens_http bind ports.http w.1 t in
      let b = laws.listens_ws bind ports.ws http.1 t in
      elim (Bool-cases (http.0 == 0)) [
        | inl e ↦ rw e a
        | inr e ↦ elim (Bool-cases ws.0) [
          | inr f ↦ rw (e, f) (b ∙ a)
          | inl f ↦ rw (e, f) (laws.joins_mqtt mqtt ws.1 t ∙ b ∙ a)
        ]
      ]
