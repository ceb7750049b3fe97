-- ===== src/Api/Strangers.antt =====
-- What a client without the API key reaches over REST, gRPC and WebSocket: the lambdas of
-- api/src/api_server.cpp, the calls of api/src/grpc_server.cpp and the queue of new sockets.
use forge_sight.Prelude.{
  ◌≡◌, ◌≢◌, refl, inl, inr, false, Option, none, some, List, [], ◌∷◌, Text, text_eq, text_eq_iff, ℤ,
  Doubles, Bool-cases,
}
use forge_sight.Database.{Server, Session}
use forge_sight.Api.Routes.{Route, Request, serve}
use forge_sight.Api.Routes.Access.{refusal, serve_refuses}
use forge_sight.Api.GrpcServer.{Rpc, unauthenticated, serve_rpc}
use forge_sight.Api.GrpcServer.Agreement.{serve_rpc_refuses}
use forge_sight.Api.Broadcaster.{Broadcaster}
use forge_sight.Api.Accept.{admits, on_new_websocket_connection}

-- No socket of the queue brings the key.
unfoldable pub AreStrangers : Text → List (Option Text) → Type 0
AreStrangers api_key [] = Unit
AreStrangers api_key (none ∷ sockets) = AreStrangers api_key sockets
AreStrangers api_key (some given ∷ sockets) = (given ≢ api_key) × AreStrangers api_key sockets

not_admitted :
    (api_key given : Text) → api_key ≢ [] → given ≢ api_key → admits api_key given ≡ false
unfolding admits
not_admitted [] given h k = absurd (h refl)
not_admitted (c ∷ key) given h k = elim (Bool-cases (text_eq given (c ∷ key))) [
  | inl e ↦ absurd (k ((text_eq_iff given (c ∷ key)).0 e))
  | inr e ↦ e
]

none_kept :
    (api_key : Text) (sockets : List (Option Text)) (b : Broadcaster)
    → api_key ≢ []
    → AreStrangers api_key sockets
    → (on_new_websocket_connection api_key sockets b).1 ≡ b
unfolding on_new_websocket_connection AreStrangers
none_kept api_key [] b h a = refl
none_kept api_key (none ∷ sockets) b h a = none_kept api_key sockets b h a
none_kept api_key (some given ∷ sockets) b h a =
    rw (not_admitted api_key given h a.0) (none_kept api_key sockets b h a.1)

module _ (F : Doubles) (S : Server (F.Double)) (to_long_long to_int : Text → Option ℤ)
    (text : Text → Text → Text) (double : Text → Text → F.Double) where
  -- Where the server has an API key: a request that carries another is answered 401 by every lambda
  -- but that of the health check, which answers as ever, a call with other metadata or none ends as
  -- unauthenticated, and both leave the database as it was; and of a queue of sockets none of which
  -- brings the key no one joins the connections that messages are sent to.
  pub strangers_refused :
      (api_key : Text) (c : Option Session) (route : Route) (r : Request) (rpc : Rpc)
      (key : Option Text) (sockets : List (Option Text)) (b : Broadcaster) (w : S.World)
      → api_key ≢ []
      → r.api_key ≢ api_key
      → key ≢ some api_key
      → AreStrangers api_key sockets
      → (serve F S to_long_long to_int text double api_key c route r w ≡ (refusal route, w))
        × (serve_rpc F S api_key c key rpc w ≡ (unauthenticated, w))
        × ((on_new_websocket_connection api_key sockets b).1 ≡ b)
  strangers_refused api_key c route r rpc key sockets b w h rest grpc socket = (
    serve_refuses F S to_long_long to_int text double api_key c route r w h rest,
    serve_rpc_refuses F S api_key c key rpc w h grpc,
    none_kept api_key sockets b h socket,
  )
