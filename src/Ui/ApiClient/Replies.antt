-- ===== src/Ui/ApiClient/Replies.antt =====
-- What the client does when a reply arrives: the lambdas of ui/src/api_client.cpp.
use forge_sight.Prelude.{
  ◌==◌, Bool, true, false, not, none, some, List, [], ◌∷◌, ◌++◌, map, Text, lit, is_empty, pos,
  if◌then◌else◌,
}
use forge_sight.Ui.AlarmModel.{AlarmEntry}
use forge_sight.Ui.DeviceModel.{Update}
use forge_sight.Ui.ApiClient.{
  Json, ApiClient, NetworkReply, Waiting, latest_readings, all_alarms, all_devices, history,
  all_rules, rule_mutation, alarm_ack, ApiSignal, bootstrap_finished, reading_received,
  history_point_received, alarm_received, device_meta_received, rule_received, alarm_ack_succeeded,
  request_failed, history_load_finished, rules_load_finished, rule_mutation_finished, set_busy,
  end_pending, is_ok,
}

-- The signals of a lambda before those of the function that follows.
abbrev after :
    {D : Type 0}
    → List (ApiSignal D)
    → ApiClient × List (ApiSignal D)
    → ApiClient × List (ApiSignal D)
after signals r = (r.0, signals ++ r.1)

module _ {D : Type 0} (J : Json D) where
  open J use {Object, array, text, double, flag, int64, number, rule_body}

  unfoldable pub error_text : NetworkReply → Text
  error_text r =
      if is_empty r.error_string then lit "HTTP " ++ number (pos r.status) else r.error_string

  abbrev update_of : Object → Update D
  update_of o = record {
    device_id = text o (lit "device_id");
    sensor = text o (lit "sensor");
    value = double o (lit "value");
    unit = text o (lit "unit");
    timestamp = text o (lit "timestamp");
    anomaly = flag o (lit "anomaly");
  }

  abbrev alarm_of : Object → AlarmEntry D
  alarm_of o = record {
    id = int64 o (lit "id");
    device_id = text o (lit "device_id");
    sensor = text o (lit "sensor");
    value = double o (lit "value");
    severity = text o (lit "severity");
    message = text o (lit "message");
    timestamp = text o (lit "timestamp");
    acknowledged = flag o (lit "acknowledged");
  }

  abbrev meta_of : Object → ApiSignal D
  meta_of o = device_meta_received (text o (lit "id")) (text o (lit "plant")) (text o (lit "floor"))

  abbrev rule_of : Object → ApiSignal D
  rule_of o = rule_received (int64 o (lit "id")) record {
    device_id = text o (lit "device_id");
    sensor = text o (lit "sensor");
    condition = text o (lit "condition");
    threshold = double o (lit "threshold");
    severity = text o (lit "severity");
  }

  -- An `on_ok`: a signal for each object of the array, or the complaint.
  unfoldable pub for_each : (Object → ApiSignal D) → Text → Text → List (ApiSignal D)
  for_each signal complaint body = elim (array body) [
    | none ↦ request_failed complaint ∷ []
    | some objects ↦ map signal objects
  ]

  -- The lambda of `get_json`.
  unfoldable pub finish_get :
      (Text → List (ApiSignal D)) → NetworkReply → ApiClient → ApiClient × List (ApiSignal D)
  unfolding is_ok error_text end_pending
  finish_get on_ok r c =
      after (if not (is_ok r) then request_failed (error_text r) ∷ [] else on_ok r.body)
        (end_pending (bootstrap_finished ∷ []) c)

  -- The lambdas of `fetchHistory` and `fetchRules`: `finished` is the last signal.
  unfoldable pub finish_load :
      (Object → ApiSignal D)
      → Text
      → (Bool → Text → ApiSignal D)
      → NetworkReply
      → List (ApiSignal D)
  unfolding is_ok error_text
  finish_load signal complaint finished r =
      if not (is_ok r) then finished false (error_text r) ∷ [] else elim (array r.body) [
        | none ↦ finished false complaint ∷ []
        | some objects ↦ map signal objects ++ (finished true [] ∷ [])
      ]

  abbrev then_signals :
      List (ApiSignal D) → ApiClient × List (ApiSignal D) → ApiClient × List (ApiSignal D)
  then_signals signals r = (r.0, r.1 ++ signals)

  -- The reply of a request that is in flight.
  unfoldable pub finish : Waiting → NetworkReply → ApiClient → ApiClient × List (ApiSignal D)
  unfolding finish_get for_each finish_load set_busy end_pending is_ok error_text
  finish latest_readings r c =
      finish_get (for_each (λ o. reading_received (update_of o)) (lit "Invalid readings payload")) r
        c
  finish all_alarms r c =
      finish_get (for_each (λ o. alarm_received (alarm_of o)) (lit "Invalid alarms payload")) r c
  finish all_devices r c = finish_get (for_each meta_of (lit "Invalid devices payload")) r c
  finish history r c =
      then_signals
        (finish_load (λ o. history_point_received (update_of o)) (lit "Invalid history payload")
          history_load_finished r)
        (set_busy false c)
  finish all_rules r c =
      then_signals (finish_load rule_of (lit "Invalid rules payload") rules_load_finished r)
        (set_busy false c)
  finish rule_mutation r c =
      after (rule_mutation_finished (is_ok r) (if is_ok r then [] else error_text r) ∷ [])
        (end_pending [] c)
  finish (alarm_ack id) r c =
      after
        ((if r.status == 200
            then alarm_ack_succeeded id
            else request_failed (lit "Ack failed HTTP " ++ number (pos r.status)))
          ∷ [])
        (end_pending [] c)
