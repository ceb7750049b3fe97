-- ===== src/Ui/WsClient.antt =====
-- ui/include/ui/ws_client.h and ui/src/ws_client.cpp. The socket is Qt's: a handler that reads its
-- state takes that state, and what it tells the socket is an effect. A handler returns the client and
-- its effects, in order. The single-shot timer is the delay that it was started with, if it runs.
pub mod Backoff
pub mod Connection
use forge_sight.Prelude.{
  ℕ, suc, ◌*◌, ◌^◌, ◌+◌, Bool, true, false, not, ◌&&◌, ◌||◌, Option, none, some, List, [], ◌∷◌,
  ◌++◌, Text, lit, text_eq, is_empty, bool_ne, leb, ℤ, pos, negsuc, if◌then◌else◌,
}

pub data SocketState : Type 0 where
  unconnected connecting connected_state closing : SocketState

pub record Client : Type 0 where
  pub url : Text
  pub api_key : Text
  pub timer : Option ℕ
  pub connected : Bool
  pub auto_reconnect : Bool
  pub manual_disconnect : Bool
  pub allow_insecure_tls : Bool
  pub reconnect_attempt : ℕ

pub data Effect : Type 0 where
  -- calls of the socket
  open_socket : Text → Effect
  close_socket : Effect
  ignore_ssl_errors : Effect
  -- signals
  connected_changed url_changed auto_reconnect_changed api_key_changed : Effect
  allow_insecure_tls_changed disconnected_signal : Effect
  reading_received alarm_received connection_error : Text → Effect

pub data Event : Type 0 where
  set_url set_api_key : Text → Event
  set_auto_reconnect set_allow_insecure_tls : Bool → Event
  connect_to_server : SocketState → Event
  disconnect_from_server : Event
  -- the timer runs out, with the state of the socket
  timeout : SocketState → Event
  connects disconnects ssl_fails : Event
  -- the text of the error, or of the message
  fails receives : Text → Event

abbrev pub min : ℕ → ℕ → ℕ
min a b = if leb a b then a else b

-- max(0, min(attempt, 15))
capped : ℤ → ℕ
capped (pos n) = min n 15
capped (negsuc n) = 0

pub reconnect_delay_ms : ℤ → ℕ
unfolding capped
reconnect_delay_ms attempt = min (1000 * 2 ^ capped attempt) 30000

abbrev is_open : SocketState → Bool
is_open connected_state = true
is_open connecting = true
is_open _ = false

abbrev pub initial : Client
initial = record {
  url = [];
  api_key = [];
  timer = none;
  connected = false;
  auto_reconnect = true;
  manual_disconnect = false;
  allow_insecure_tls = false;
  reconnect_attempt = 0;
}

-- `with_key url key` is QUrl with the query item api_key added. `fields message` is the test for a
-- field of the JSON object that the message is, if it is one.
module _ (with_key : Text → Text → Text) (fields : Text → Option (Text → Bool)) where
  effective_url : Client → Text
  effective_url c = if is_empty c.api_key then c.url else with_key c.url c.api_key

  connect : SocketState → Client → Client × List Effect
  unfolding effective_url
  connect s c = if is_empty c.url then (c, connection_error (lit "No URL configured") ∷ []) else (
    record c { manual_disconnect = false; timer = none },
    if is_open s then [] else open_socket (effective_url c) ∷ [],
  )

  disconnect : Client → Client × List Effect
  disconnect c = (
    record c { manual_disconnect = true; timer = none; reconnect_attempt = 0 },
    close_socket ∷ [],
  )

  try_reconnect : SocketState → Client → Client × List Effect
  unfolding effective_url
  try_reconnect s c =
      if (not c.auto_reconnect || c.manual_disconnect) || is_empty c.url
      then (c, [])
      else (c, if is_open s then [] else open_socket (effective_url c) ∷ [])

  on_connected : Client → Client × List Effect
  on_connected c = (
    record c { reconnect_attempt = 0; timer = none; connected = true },
    if not c.connected then connected_changed ∷ [] else [],
  )

  -- The second half of `on_disconnected`.
  schedule : Client → Client
  schedule c =
      if (c.auto_reconnect && not c.manual_disconnect) && not (is_empty c.url)
      then record c {
        timer = some (reconnect_delay_ms (pos c.reconnect_attempt));
        reconnect_attempt = c.reconnect_attempt + 1;
      }
      else c

  on_disconnected : Client → Client × List Effect
  unfolding schedule
  on_disconnected c = (
    schedule (record c { connected = false }),
    if c.connected then connected_changed ∷ disconnected_signal ∷ [] else [],
  )

  on_text_message_received : Text → List Effect
  on_text_message_received message = elim (fields message) [
    | none ↦ []
    | some contains ↦
        (if (contains (lit "device_id") && contains (lit "sensor"))
            && not (contains (lit "severity"))
          then reading_received message ∷ []
          else [])
        ++ (if contains (lit "severity") then alarm_received message ∷ [] else [])
  ]

  set_client_url : Text → Client → Client × List Effect
  set_client_url url c =
      if text_eq c.url url then (c, []) else (record c { url = url }, url_changed ∷ [])

  set_client_api_key : Text → Client → Client × List Effect
  set_client_api_key key c =
      if text_eq c.api_key key then (c, []) else (record c { api_key = key }, api_key_changed ∷ [])

  set_client_auto_reconnect : Bool → Client → Client × List Effect
  set_client_auto_reconnect enabled c =
      if not (bool_ne c.auto_reconnect enabled) then (c, []) else (
        record c { auto_reconnect = enabled; timer = if not enabled then none else c.timer },
        auto_reconnect_changed ∷ [],
      )

  set_client_allow_insecure_tls : Bool → Client → Client × List Effect
  set_client_allow_insecure_tls allow c =
      if not (bool_ne c.allow_insecure_tls allow)
      then (c, [])
      else (record c { allow_insecure_tls = allow }, allow_insecure_tls_changed ∷ [])

  on_ssl_errors : Client → List Effect
  on_ssl_errors c = if c.allow_insecure_tls then ignore_ssl_errors ∷ [] else []

  -- What each slot, setter and signal of the socket or the timer does.
  pub step : Event → Client → Client × List Effect
  unfolding connect disconnect try_reconnect on_connected on_disconnected on_text_message_received
      set_client_url set_client_api_key set_client_auto_reconnect set_client_allow_insecure_tls
      on_ssl_errors
  step (set_url url) c = set_client_url url c
  step (set_api_key key) c = set_client_api_key key c
  step (set_auto_reconnect enabled) c = set_client_auto_reconnect enabled c
  step (set_allow_insecure_tls allow) c = set_client_allow_insecure_tls allow c
  step (connect_to_server s) c = connect s c
  step disconnect_from_server c = disconnect c
  step (timeout s) c = elim c.timer [
    | none ↦ (c, [])
    | some delay ↦ try_reconnect s (record c { timer = none })
  ]
  step connects c = on_connected c
  step disconnects c = on_disconnected c
  step ssl_fails c = (c, on_ssl_errors c)
  step (fails error) c = (c, connection_error error ∷ [])
  step (receives message) c = (c, on_text_message_received message)

  pub run : List Event → Client → Client × List Effect
  run [] c = (c, [])
  run (e ∷ events) c =
      let first = step e c in let rest = run events first.0 in (rest.0, first.1 ++ rest.1)
