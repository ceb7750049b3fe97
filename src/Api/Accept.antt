-- ===== src/Api/Accept.antt =====
-- on_new_websocket_connection of api/src/api_server.cpp. The queue of the socket server is a list: a
-- null pointer is `none`, a socket the value of `api_key` in the query of its URL. A disconnected
-- socket is a call of `remove_connection`.
use forge_sight.Prelude.{
  ◌≡◌, refl, sym, ap, ◌∙◌, inl, inr, ℕ, ◌+◌, Bool, not, ◌||◌, Option, none, some, List, [], ◌∷◌,
  ◌++◌, append_assoc, append-nil, length, Text, text_eq, is_empty, Bool-cases, arith, if◌then◌else◌,
}
use forge_sight.Api.Broadcaster.{Broadcaster, add_connection}

pub data Socket : Type 0 where
  -- closed with the reason "unauthorized"
  rejected : Socket
  -- its id at the broadcaster
  connected : ℕ → Socket

unfoldable pub admits : Text → Text → Bool
admits api_key given = is_empty api_key || text_eq given api_key

unfoldable pub on_new_websocket_connection :
    Text → List (Option Text) → Broadcaster → List Socket × Broadcaster
unfolding admits
on_new_websocket_connection api_key [] b = ([], b)
on_new_websocket_connection api_key (none ∷ sockets) b =
    on_new_websocket_connection api_key sockets b
on_new_websocket_connection api_key (some given ∷ sockets) b =
    let kept = on_new_websocket_connection api_key sockets (add_connection b).1 in
    let closed = on_new_websocket_connection api_key sockets b in
    if not (admits api_key given)
    then (rejected ∷ closed.0, closed.1)
    else (connected b.next_id ∷ kept.0, kept.1)

-- Which sockets a queue gives, and the ids of those that stay.
unfoldable pub answers : Text → List (Option Text) → ℕ → List Socket
answers api_key [] id = []
answers api_key (none ∷ sockets) id = answers api_key sockets id
answers api_key (some given ∷ sockets) id =
    let kept = answers api_key sockets (id + 1) in
    let closed = answers api_key sockets id in
    if admits api_key given then connected id ∷ kept else rejected ∷ closed

unfoldable pub ids_of_sockets : List Socket → List ℕ
ids_of_sockets [] = []
ids_of_sockets (rejected ∷ sockets) = ids_of_sockets sockets
ids_of_sockets (connected id ∷ sockets) = id ∷ ids_of_sockets sockets

-- The loop over the queue keeps exactly the sockets that bring the key, or all where none is set, gives
-- them the next ids in turn and adds these to the connections; it closes every other socket.
pub on_new_websocket_connection_lem :
    (api_key : Text) (sockets : List (Option Text)) (b : Broadcaster)
    → let r = on_new_websocket_connection api_key sockets b in
      (r.0 ≡ answers api_key sockets b.next_id)
      × (r.1.connections ≡ b.connections ++ ids_of_sockets r.0)
      × (r.1.next_id ≡ b.next_id + length (ids_of_sockets r.0))
unfolding on_new_websocket_connection answers ids_of_sockets add_connection
on_new_websocket_connection_lem api_key [] b = (refl, sym (append-nil b.connections), omega arith)
on_new_websocket_connection_lem api_key (none ∷ sockets) b =
    on_new_websocket_connection_lem api_key sockets b
on_new_websocket_connection_lem api_key (some given ∷ sockets) b =
    elim (Bool-cases (admits api_key given)) [
      | inl keep ↦
          let more = on_new_websocket_connection_lem api_key sockets (add_connection b).1 in
          rw keep (
            ap (◌∷◌ (connected b.next_id)) more.0,
            more.1 ∙ append_assoc b.connections (b.next_id ∷ []) _,
            omega (arith, more.2),
          )
      | inr close ↦
          let more = on_new_websocket_connection_lem api_key sockets b in
          rw close (ap (◌∷◌ rejected) more.0, more.1, more.2)
    ]
