-- ===== src/Api/Routes.antt =====
-- is_authorized and setupRoutes of api/src/api_server.cpp. The query and JSON parts of Qt are arguments:
-- `to_long_long` is QString::toLongLong and `to_int` QString::toInt, `text` and `double` read a member
-- of the body, with the defaults of QJsonValue.
pub mod Access
use forge_sight.Prelude.{
  Bool, true, false, not, Option, none, some, List, [], ◌∷◌, Text, lit, text_eq, is_empty, ℤ, pos,
  int_lt, Doubles, if◌then◌else◌,
}
use forge_sight.Database.{Server, Session, Run, pure, ◌>>=◌}
use forge_sight.AlarmEngine.Types.{Rule, Alarm, condition_from_string, severity_from_string}
use forge_sight.Ingestion.Reading.{Reading}
use forge_sight.Api.DeviceService.{DeviceInfo, list_devices, list_latest_readings, get_history}
use forge_sight.Api.RuleService.{
  list_rules, get_rule, create_rule, update_service_rule, delete_service_rule, list_alarms,
  acknowledge_service_alarm,
}

pub data Route : Type 0 where
  get_devices get_latest get_alarms get_rules post_rule health : Route
  get_history_of : Text → Text → Route
  get_rule_by put_rule delete_rule_by post_ack : Text → Route

-- The header X-Api-Key, empty where it is missing, queryItemValue of the URL's query, and the body.
pub record Request : Type 0 where
  pub api_key : Text
  pub query : Text → Text
  pub body : Text

pub data Status : Type 0 where
  ok created bad_request unauthorized not_found : Status

pub data Payload (D : Type 0) : Type 0 where
  nothing status_ok ok_false : Payload D
  alarms : List (Alarm D) → Payload D
  rules : List (Rule D) → Payload D
  rule : Rule D → Payload D
  created_id : ℤ → Payload D
  devices : List (DeviceInfo D) → Payload D
  readings : List (Reading D) → Payload D
  ok_flag : Bool → Payload D

abbrev pub Response : Type 0 → Type 0
Response D = Status × Payload D

-- `apiKey_` of the server against the request.
unfoldable pub is_authorized : Text → Request → Bool
is_authorized api_key r = if is_empty api_key then true else text_eq r.api_key api_key

unfoldable pub since_or_epoch : Text → Text
since_or_epoch since = if is_empty since then lit "1970-01-01T00:00:00Z" else since

-- The parameter max_points, where it is there and a number.
unfoldable pub max_points_or_default : (Text → Option ℤ) → Text → ℤ
max_points_or_default to_int param =
    if is_empty param then pos 1000 else elim (to_int param) [ none ↦ pos 1000 | some n ↦ n ]

module _ (F : Doubles) (S : Server (F.Double)) (to_long_long to_int : Text → Option ℤ)
    (text : Text → Text → Text) (double : Text → Text → F.Double) where
  open F use {Double}
  open S use {World}

  -- The rule that POST and PUT read from the body.
  rule_of_body : ℤ → Text → Rule Double
  rule_of_body id body = record {
    id = id;
    device_id = text body (lit "device_id");
    sensor = text body (lit "sensor");
    condition = condition_from_string (text body (lit "condition"));
    threshold = double body (lit "threshold");
    severity = severity_from_string (text body (lit "severity"));
    message_template = [];
  }

  abbrev found_or_not : Bool → Response Double
  found_or_not b = (if b then ok else not_found, ok_flag b)

  abbrev created_or_not : ℤ → Response Double
  created_or_not id =
      if int_lt id (pos 0) then (bad_request, ok_false) else (created, created_id id)

  abbrev rule_or_not : Option (Rule Double) → Response Double
  rule_or_not none = (not_found, nothing)
  rule_or_not (some r) = (ok, rule r)

  -- The rest of each lambda, after its test of the key.
  unfoldable pub handle : Option Session → Route → Request → Run World (Response Double)
  unfolding rule_of_body since_or_epoch max_points_or_default
  handle c get_devices r = do found ← list_devices F S c; pure (ok, devices found)
  handle c get_latest r = do found ← list_latest_readings F S c; pure (ok, readings found)
  handle c (get_history_of dev sen) r = do
    found ←
        get_history F S c dev sen (since_or_epoch (r.query (lit "since")))
          (max_points_or_default to_int (r.query (lit "max_points")))
    pure (ok, readings found)
  handle c get_alarms r = do found ← list_alarms F S c false; pure (ok, alarms found)
  handle c get_rules r = do found ← list_rules F S c; pure (ok, rules found)
  handle c post_rule r = do
    id ← create_rule F S c (rule_of_body (pos 0) r.body)
    pure (created_or_not id)
  handle c (get_rule_by arg) r = elim (to_long_long arg) [
    | none ↦ pure (bad_request, nothing)
    | some id ↦ do found ← get_rule F S c id; pure (rule_or_not found)
  ]
  handle c (put_rule arg) r = elim (to_long_long arg) [
    | none ↦ pure (bad_request, nothing)
    | some id ↦ do b ← update_service_rule F S c (rule_of_body id r.body); pure (found_or_not b)
  ]
  handle c (delete_rule_by arg) r = elim (to_long_long arg) [
    | none ↦ pure (bad_request, nothing)
    | some id ↦ do b ← delete_service_rule F S c id; pure (found_or_not b)
  ]
  handle c (post_ack arg) r = elim (to_long_long arg) [
    | none ↦ pure (found_or_not false)
    | some id ↦ do b ← acknowledge_service_alarm F S c id; pure (found_or_not b)
  ]
  handle c health r = pure (ok, status_ok)

  -- The lambda that is registered for a route: each one that asks for the key tests it itself.
  unfoldable pub serve : Text → Option Session → Route → Request → Run World (Response Double)
  unfolding handle
  serve api_key c health r = handle c health r
  serve api_key c get_devices r =
      if not (is_authorized api_key r) then pure (unauthorized, nothing) else handle c get_devices r
  serve api_key c get_latest r =
      if not (is_authorized api_key r) then pure (unauthorized, nothing) else handle c get_latest r
  serve api_key c (get_history_of dev sen) r =
      if not (is_authorized api_key r)
      then pure (unauthorized, nothing)
      else handle c (get_history_of dev sen) r
  serve api_key c get_alarms r =
      if not (is_authorized api_key r) then pure (unauthorized, nothing) else handle c get_alarms r
  serve api_key c get_rules r =
      if not (is_authorized api_key r) then pure (unauthorized, nothing) else handle c get_rules r
  serve api_key c post_rule r =
      if not (is_authorized api_key r) then pure (unauthorized, nothing) else handle c post_rule r
  serve api_key c (get_rule_by arg) r =
      if not (is_authorized api_key r)
      then pure (unauthorized, nothing)
      else handle c (get_rule_by arg) r
  serve api_key c (put_rule arg) r =
      if not (is_authorized api_key r)
      then pure (unauthorized, nothing)
      else handle c (put_rule arg) r
  serve api_key c (delete_rule_by arg) r =
      if not (is_authorized api_key r)
      then pure (unauthorized, nothing)
      else handle c (delete_rule_by arg) r
  serve api_key c (post_ack arg) r =
      if not (is_authorized api_key r)
      then pure (unauthorized, nothing)
      else handle c (post_ack arg) r
