-- ===== src/Ui/ApiClient/Requests.antt =====
-- What the client sends: the calls of ui/src/api_client.cpp.
use forge_sight.Prelude.{true, List, [], ◌∷◌, ◌++◌, Text, lit}
use forge_sight.Ui.ApiClient.{
  Json, ApiClient, HttpRequest, get, post, put, delete, RuleFields, Waiting, latest_readings,
  all_alarms, all_devices, history, all_rules, rule_mutation, alarm_ack, ApiSignal, ApiCall,
  fetch_latest_readings, fetch_alarms, fetch_devices, fetch_rules, bootstrap, fetch_history,
  create_rule, update_rule, delete_rule, acknowledge_alarm, set_busy, begin_pending, make_request,
}

module _ {D : Type 0} (J : Json D) where
  open J use {number, rule_body}

  -- The requests of a call.
  abbrev one :
      Waiting
      → HttpRequest
      → ApiClient × List (ApiSignal D)
      → (ApiClient × List (ApiSignal D)) × List (Waiting × HttpRequest)
  one waiting request r = (r, (waiting, request) ∷ [])

  unfoldable pub get_json :
      Waiting → Text → ApiClient → (ApiClient × List (ApiSignal D)) × List (Waiting × HttpRequest)
  unfolding begin_pending make_request
  get_json waiting path c = one waiting (make_request get path [] [] c) (begin_pending c)

  abbrev body_of : RuleFields D → Text
  body_of f = rule_body f.device_id f.sensor f.condition f.threshold f.severity

  abbrev and_next :
      (ApiClient × List (ApiSignal D)) × List (Waiting × HttpRequest)
      → (ApiClient → (ApiClient × List (ApiSignal D)) × List (Waiting × HttpRequest))
      → (ApiClient × List (ApiSignal D)) × List (Waiting × HttpRequest)
  and_next r k = let s = k r.0.0 in ((s.0.0, r.0.1 ++ s.0.1), r.1 ++ s.1)

  unfoldable pub start :
      ApiCall D → ApiClient → (ApiClient × List (ApiSignal D)) × List (Waiting × HttpRequest)
  unfolding get_json begin_pending set_busy make_request
  start fetch_latest_readings c = get_json latest_readings (lit "/api/readings/latest") c
  start fetch_alarms c = get_json all_alarms (lit "/api/alarms") c
  start fetch_devices c = get_json all_devices (lit "/api/devices") c
  start bootstrap c =
      and_next
        (and_next (get_json latest_readings (lit "/api/readings/latest") c)
          (get_json all_alarms (lit "/api/alarms")))
        (get_json all_devices (lit "/api/devices"))
  start (fetch_history dev sen since) c =
      one history
        (make_request get (lit "/api/history/" ++ dev ++ lit "/" ++ sen) (lit "since=" ++ since) []
          c)
        (set_busy true c)
  start fetch_rules c =
      one all_rules (make_request get (lit "/api/rules") [] [] c) (set_busy true c)
  start (create_rule f) c =
      one rule_mutation (make_request post (lit "/api/rules") [] (body_of f) c) (begin_pending c)
  start (update_rule id f) c =
      one rule_mutation (make_request put (lit "/api/rules/" ++ number id) [] (body_of f) c)
        (begin_pending c)
  start (delete_rule id) c =
      one rule_mutation (make_request delete (lit "/api/rules/" ++ number id) [] [] c)
        (begin_pending c)
  start (acknowledge_alarm id) c =
      one (alarm_ack id)
        (make_request post (lit "/api/alarms/" ++ number id ++ lit "/ack") [] (lit "{}") c)
        (begin_pending c)
