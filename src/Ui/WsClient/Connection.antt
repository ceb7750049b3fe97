-- ===== src/Ui/WsClient/Connection.antt =====
-- When the client opens its socket, and when its timer runs.
use forge_sight.Prelude.{
  ◌≡◌, ◌≤◌, refl, ◌∙◌, ℕ, Bool, true, false, ◌||◌, Option, none, some, List, [], ◌∷◌, ◌++◌, Text,
  pos, arith,
}
use forge_sight.Ui.WsClient.{
  Client, Event, timeout, connect_to_server, fails, disconnects, set_url, set_api_key,
  set_auto_reconnect, set_allow_insecure_tls, disconnect_from_server, connects, receives, ssl_fails,
  schedule, connect, disconnect, try_reconnect, on_connected, on_disconnected,
  on_text_message_received, on_ssl_errors, set_client_url, set_client_api_key,
  set_client_auto_reconnect, set_client_allow_insecure_tls, step, run, Effect, open_socket,
}
use forge_sight.Ui.WsClient.Backoff.{reconnect_delay_ms_bounds}

abbrev is_open_call : Effect → Bool
is_open_call (open_socket url) = true
is_open_call _ = false

-- The client opens the socket.
unfoldable pub opens : List Effect → Bool
opens [] = false
opens (e ∷ effects) = is_open_call e || opens effects

opens_append : (a b : List Effect) → opens (a ++ b) ≡ (opens a || opens b)
unfolding opens
opens_append [] b = refl
opens_append (e ∷ a) b = ground (arith, opens_append a b)

abbrev asks : Event → Bool
asks (connect_to_server s) = true
asks _ = false

-- No event is a call of `connectToServer`.
abbrev pub NoConnect : List Event → Type 0
NoConnect [] = Unit {0}
NoConnect (e ∷ events) = (asks e ≡ false) × NoConnect events

abbrev pub Armed : Client → Type 0
Armed c =
    (delay : ℕ)
    → c.timer ≡ some delay
    → (c.connected ≡ false)
      × (c.auto_reconnect ≡ true)
      × (c.manual_disconnect ≡ false)
      × (1000 ≤ delay)
      × (delay ≤ 30000)

-- A running timer stands for a reconnect that is wanted and a connection that is lost, and its delay
-- is between a second and 30 seconds.
pub record IsSound (c : Client) : Type 0 where
  pub armed : Armed c

module _ (with_key : Text → Text → Text) (fields : Text → Option (Text → Bool)) where
  opens_message :
      (message : Text) → opens (on_text_message_received with_key fields message) ≡ false
  unfolding on_text_message_received opens
  opens_message message = ground arith

  step_closed :
      (e : Event) (c : Client)
      → asks e ≡ false
      → c.manual_disconnect ≡ true
      → ((step with_key fields e c).0.manual_disconnect ≡ true)
        × (opens (step with_key fields e c).1 ≡ false)
  unfolding step connect disconnect try_reconnect on_connected on_disconnected
      on_text_message_received set_client_url set_client_api_key set_client_auto_reconnect
      set_client_allow_insecure_tls on_ssl_errors schedule opens
  step_closed (set_url url) c n h = ground arith
  step_closed (set_api_key key) c n h = ground arith
  step_closed (set_auto_reconnect enabled) c n h = ground arith
  step_closed (set_allow_insecure_tls allow) c n h = ground arith
  step_closed (connect_to_server s) c n h = ground arith
  step_closed disconnect_from_server c n h = ground arith
  step_closed (timeout s) c n h = ground arith
  step_closed connects c n h = ground arith
  step_closed disconnects c n h = ground arith
  step_closed ssl_fails c n h = ground arith
  step_closed (fails error) c n h = ground arith
  step_closed (receives message) c n h = (h, opens_message message)

  step-Armed : (e : Event) (c : Client) → Armed c → Armed (step with_key fields e c).0
  unfolding step connect disconnect try_reconnect on_connected on_disconnected set_client_url
      set_client_api_key set_client_auto_reconnect set_client_allow_insecure_tls schedule
  step-Armed (set_url url) c h delay e = ground (arith, h delay)
  step-Armed (set_api_key key) c h delay e = ground (arith, h delay)
  step-Armed (set_auto_reconnect enabled) c h delay e = ground (arith, h delay)
  step-Armed (set_allow_insecure_tls allow) c h delay e = ground (arith, h delay)
  step-Armed (connect_to_server s) c h delay e = ground (arith, h delay)
  step-Armed disconnect_from_server c h delay e = ground arith
  step-Armed (timeout s) c h delay e = ground arith
  step-Armed connects c h delay e = ground arith
  step-Armed disconnects c h delay e =
      ground (arith, h delay, reconnect_delay_ms_bounds (pos c.reconnect_attempt))
  step-Armed ssl_fails c h delay e = h delay e
  step-Armed (fails error) c h delay e = h delay e
  step-Armed (receives message) c h delay e = h delay e

  -- Whatever happens to a client whose timer is sound: if the timer then runs, the client is not
  -- connected, is set to reconnect and was not disconnected by hand, and the delay is between a
  -- second and 30 seconds.
  pub run-IsSound :
      (events : List Event) (c : Client) → IsSound c → IsSound (run with_key fields events c).0
  unfolding run
  run-IsSound [] c h = h
  run-IsSound (e ∷ events) c h =
      run-IsSound events (step with_key fields e c).0 (record { armed = step-Armed e c h.armed })

  run-opens :
      (events : List Event) (c : Client)
      → NoConnect events
      → c.manual_disconnect ≡ true
      → opens (run with_key fields events c).1 ≡ false
  unfolding run opens
  run-opens [] c n h = refl
  run-opens (e ∷ events) c n h =
      let (manual, closed) = step_closed e c n.0 h in
      opens_append (step with_key fields e c).1
        (run with_key fields events (step with_key fields e c).0).1
      ∙ rw (closed, run-opens events (step with_key fields e c).0 n.1 manual)

  -- After `disconnectFromServer` the client does not open its socket, whatever happens, until
  -- `connectToServer` is called.
  pub run_closed :
      (events : List Event) (c : Client)
      → NoConnect events
      → opens (run with_key fields (disconnect_from_server ∷ events) c).1 ≡ false
  unfolding run step disconnect opens
  run_closed events c n =
      run-opens events (record c { manual_disconnect = true; timer = none; reconnect_attempt = 0 })
        n refl
