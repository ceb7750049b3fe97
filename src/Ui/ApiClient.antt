-- ===== src/Ui/ApiClient.antt =====
-- ui/include/ui/api_client.h and ui/src/api_client.cpp. Qt's network and JSON are arguments: `Json` is
-- what the client uses of QJsonDocument and of QString::number, and a reply of the network is a record.
-- A call returns the new client with the requests that it sends and the signals that it emits, in order.
-- The count of pending requests is unbounded.
pub mod Replies
pub mod Requests
pub mod Busy
pub mod Bootstrap
use forge_sight.Prelude.{
  ℕ, ◌+◌, ◌-◌, leb, ◌==◌, Bool, true, false, not, ◌||◌, ◌&&◌, Option, none, some, List, [], ◌∷◌,
  ◌++◌, map, Text, lit, text_eq, is_empty, ℤ, pos, bool_ne, if◌then◌else◌,
}
use forge_sight.Ui.AlarmModel.{AlarmEntry}
use forge_sight.Ui.DeviceModel.{Update}

pub record Json (D : Type 0) : Type 1 where
  pub Object : Type 0
  -- QJsonDocument::fromJson and isArray
  pub array : Text → Option (List Object)
  -- value(...) with toString, toDouble, toBool, and the cast of toDouble to qint64
  pub text : Object → Text → Text
  pub double : Object → Text → D
  pub flag : Object → Text → Bool
  pub int64 : Object → Text → ℤ
  pub number : ℤ → Text
  -- rule_json
  pub rule_body : Text → Text → Text → D → Text → Text

pub record ApiClient : Type 0 where
  pub base_url : Text
  pub api_key : Text
  pub pending : ℕ
  pub busy : Bool

-- The fields of a rule in a request.
pub record RuleFields (D : Type 0) : Type 0 where
  pub device_id : Text
  pub sensor : Text
  pub condition : Text
  pub threshold : D
  pub severity : Text

pub data Verb : Type 0 where
  get post put delete : Verb

-- Path and query of the URL, the header X-Api-Key if it is set, and the body.
pub record HttpRequest : Type 0 where
  pub verb : Verb
  pub base_url : Text
  pub path : Text
  pub query : Text
  pub api_key : Option Text
  pub body : Text

-- What the lambda of a request reads when it finishes: error() == NoError, the status or 0,
-- errorString() and readAll().
pub record NetworkReply : Type 0 where
  pub no_error : Bool
  pub status : ℕ
  pub error_string : Text
  pub body : Text

-- A request in flight, by the lambda that waits for it.
pub data Waiting : Type 0 where
  latest_readings all_alarms all_devices history all_rules rule_mutation : Waiting
  alarm_ack : ℤ → Waiting

pub data ApiSignal (D : Type 0) : Type 0 where
  base_url_changed busy_changed api_key_changed bootstrap_finished : ApiSignal D
  reading_received history_point_received : Update D → ApiSignal D
  alarm_received : AlarmEntry D → ApiSignal D
  device_meta_received : Text → Text → Text → ApiSignal D
  rule_received : ℤ → RuleFields D → ApiSignal D
  alarm_ack_succeeded : ℤ → ApiSignal D
  request_failed : Text → ApiSignal D
  history_load_finished rules_load_finished rule_mutation_finished : Bool → Text → ApiSignal D

pub data ApiCall (D : Type 0) : Type 0 where
  fetch_latest_readings fetch_alarms fetch_devices fetch_rules bootstrap : ApiCall D
  fetch_history : Text → Text → Text → ApiCall D
  create_rule : RuleFields D → ApiCall D
  update_rule : ℤ → RuleFields D → ApiCall D
  delete_rule acknowledge_alarm : ℤ → ApiCall D

abbrev pub initial : ApiClient
initial = record { base_url = lit "http://127.0.0.1:8080"; api_key = []; pending = 0; busy = false }

-- make_request, with the verb that it is sent by.
unfoldable pub make_request : Verb → Text → Text → Text → ApiClient → HttpRequest
make_request verb path query body c = record {
  verb = verb;
  base_url = c.base_url;
  path = path;
  query = query;
  api_key = if is_empty c.api_key then none else some c.api_key;
  body = body;
}

module _ {D : Type 0} where
  pub set_base_url : Text → ApiClient → ApiClient × List (ApiSignal D)
  set_base_url url c =
      if text_eq c.base_url url
      then (c, [])
      else (record c { base_url = url }, base_url_changed ∷ [])

  pub set_api_key : Text → ApiClient → ApiClient × List (ApiSignal D)
  set_api_key key c =
      if text_eq c.api_key key then (c, []) else (record c { api_key = key }, api_key_changed ∷ [])

  unfoldable pub set_busy : Bool → ApiClient → ApiClient × List (ApiSignal D)
  set_busy busy c =
      if not (bool_ne c.busy busy) then (c, []) else (record c { busy = busy }, busy_changed ∷ [])

  -- ++pending_ and set_busy(true).
  unfoldable pub begin_pending : ApiClient → ApiClient × List (ApiSignal D)
  unfolding set_busy
  begin_pending c = set_busy true (record c { pending = c.pending + 1 })

  -- if (--pending_ <= 0), with the signals that follow set_busy(false).
  unfoldable pub end_pending : List (ApiSignal D) → ApiClient → ApiClient × List (ApiSignal D)
  unfolding set_busy
  end_pending drained c =
      let idle = set_busy false (record c { pending = 0 }) in
      if leb c.pending 1
      then (idle.0, idle.1 ++ drained)
      else (record c { pending = c.pending - 1 }, [])

unfoldable pub is_ok : NetworkReply → Bool
is_ok r = r.no_error && leb r.status 399
